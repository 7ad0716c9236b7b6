-- ===== src/Csv/Laws.antt =====
-- What encoding/csv reads of the text that it wrote.
use pf9_oidc_proxy.Base.{
  ℕ, Bool, true, false, ◌||◌, List, [], ◌∷◌, ◌++◌, ◌≡◌, ◌⊎◌, inl, inr, refl, ap, ◌∙◌, arith, eqb,
  any, All, Bool-cases, append_assoc, append-nil, if◌then◌else◌,
}
use pf9_oidc_proxy.Strings.{Str, ◌==◌}
use pf9_oidc_proxy.Csv.{
  CsvError, Mode, field_start, bare, quoted, quote_seen, Reading, reading, bare_byte, read_byte,
  read_bytes, finish, normal_lines, is_special, starts_with_space, field_needs_quotes,
  double_quotes, write_field, write_more, carriage_return,
}

pub both_false : (a b : Bool) → (a || b) ≡ false → (a ≡ false) × (b ≡ false)
both_false true b h = cc
both_false false b h = (refl, h)

bare_byte-plain :
    (c : ℕ) (acc : Str) (fs : List Str)
    → is_special c ≡ false
    → bare_byte c acc fs ≡ reading bare (acc ++ c ∷ []) fs
unfolding bare_byte is_special
bare_byte-plain c acc fs h = ground arith

quoted_byte-plain :
    (c : ℕ) (acc : Str) (fs : List Str)
    → eqb c b'"' ≡ false
    → read_byte quoted c acc fs ≡ reading quoted (acc ++ c ∷ []) fs
unfolding read_byte
quoted_byte-plain c acc fs h = rw h refl

start_byte-plain :
    (c : ℕ) (fs : List Str)
    → is_special c ≡ false
    → read_byte field_start c [] fs ≡ reading bare (c ∷ []) fs
unfolding read_byte bare_byte is_special
start_byte-plain c fs h = ground arith

read_bytes-bare :
    (f rest acc : Str) (fs : List Str)
    → any is_special f ≡ false
    → read_bytes (f ++ rest) (reading bare acc fs) ≡ read_bytes rest (reading bare (acc ++ f) fs)
unfolding read_bytes read_byte bare_byte is_special
read_bytes-bare [] rest acc fs h = rw (append-nil acc) refl
read_bytes-bare (c ∷ f) rest acc fs h =
    let (plain, later) = both_false (is_special c) (any is_special f) h in
    ap (read_bytes (f ++ rest)) (bare_byte-plain c acc fs plain)
    ∙ read_bytes-bare f rest (acc ++ c ∷ []) fs later
    ∙ ap (λ x. read_bytes rest (reading bare x fs)) (append_assoc acc (c ∷ []) f)

read_bytes-quoted :
    (f rest acc : Str) (fs : List Str)
    → read_bytes (double_quotes f ++ b'"' ∷ rest) (reading quoted acc fs)
      ≡ read_bytes rest (reading quote_seen (acc ++ f) fs)
unfolding read_bytes read_byte double_quotes
read_bytes-quoted [] rest acc fs = rw (append-nil acc) refl
read_bytes-quoted (c ∷ f) rest acc fs = elim (Bool-cases (eqb c b'"')) [
  | inl e ↦
      let same : c ≡ b'"' = ground arith in
      rw same (
        read_bytes-quoted f rest (acc ++ b'"' ∷ []) fs
        ∙ ap (λ x. read_bytes rest (reading quote_seen x fs)) (append_assoc acc (b'"' ∷ []) f))
  | inr e ↦ rw e (
      ap (read_bytes (double_quotes f ++ b'"' ∷ rest)) (quoted_byte-plain c acc fs e)
      ∙ (read_bytes-quoted f rest (acc ++ c ∷ []) fs
          ∙ ap (λ x. read_bytes rest (reading quote_seen x fs)) (append_assoc acc (c ∷ []) f)))
]

-- Where the reader is behind a field that was written.
abbrev ended : Str → Mode
ended f = if field_needs_quotes f then quote_seen else if f == [] then field_start else bare

read_bytes-write_field :
    (f rest : Str) (fs : List Str)
    → read_bytes (write_field f ++ rest) (reading field_start [] fs)
      ≡ read_bytes rest (reading (ended f) f fs)
unfolding write_field read_bytes read_byte bare_byte is_special field_needs_quotes ◌==◌
read_bytes-write_field [] rest fs = refl
read_bytes-write_field (c ∷ f) rest fs = elim (Bool-cases (field_needs_quotes (c ∷ f))) [
  | inl e ↦ rw e (
      ap (λ s. read_bytes s (reading quoted [] fs))
        (append_assoc (double_quotes (c ∷ f)) (b'"' ∷ []) rest)
      ∙ read_bytes-quoted (c ∷ f) rest [] fs)
  | inr e ↦
      let (_, more) = both_false _ _ e in
      let (plain, later) = both_false (is_special c) (any is_special f) (both_false _ _ more).0 in
      rw e (
        ap (read_bytes (f ++ rest)) (start_byte-plain c fs plain)
        ∙ read_bytes-bare f rest (c ∷ []) fs later)
]

read_byte-ended :
    (f : Str) (fs : List Str)
    → read_byte (ended f) b',' f fs ≡ reading field_start [] (fs ++ f ∷ [])
unfolding read_byte bare_byte field_needs_quotes starts_with_space ◌==◌
read_byte-ended [] fs = refl
read_byte-ended (c ∷ f) fs = elim (Bool-cases (field_needs_quotes (c ∷ f))) [
  | inl e ↦ rw e refl
  | inr e ↦ rw e refl
]

finish-ended : (f : Str) (fs : List Str) → finish (ended f) f fs ≡ inr (fs ++ f ∷ [])
unfolding finish field_needs_quotes starts_with_space ◌==◌
finish-ended [] fs = refl
finish-ended (c ∷ f) fs = elim (Bool-cases (field_needs_quotes (c ∷ f))) [
  | inl e ↦ rw e refl
  | inr e ↦ rw e refl
]

abbrev pub result : Reading → CsvError ⊎ List Str
result r = finish r.mode r.field r.fields

pub result-write_more :
    (f : Str) (rest fs : List Str)
    → result (read_bytes (write_field f ++ write_more rest) (reading field_start [] fs))
      ≡ inr (fs ++ f ∷ rest)
unfolding read_bytes write_more
result-write_more f [] fs = ap result (read_bytes-write_field f [] fs) ∙ finish-ended f fs
result-write_more f (g ∷ rest) fs =
    ap result (read_bytes-write_field f (write_more (g ∷ rest)) fs)
    ∙ ap (λ r. result (read_bytes (write_field g ++ write_more rest) r)) (read_byte-ended f fs)
    ∙ result-write_more g rest (fs ++ f ∷ [])
    ∙ ap inr (append_assoc fs (f ∷ []) (g ∷ rest))

abbrev pub is_return : ℕ → Bool
is_return c = eqb c carriage_return

pub any-append :
    (p : ℕ → Bool) (s t : Str) → any p s ≡ false → any p t ≡ false → any p (s ++ t) ≡ false
any-append p [] t h k = k
any-append p (c ∷ s) t h k =
    let (here, later) = both_false (p c) (any p s) h in rw here (any-append p s t later k)

pub normal_lines-none : (s : Str) → any is_return s ≡ false → normal_lines s ≡ s
unfolding normal_lines
normal_lines-none [] h = refl
normal_lines-none (c ∷ s) h =
    let (here, later) = both_false (is_return c) (any is_return s) h in
    rw (here, normal_lines-none s later) refl

double_quotes-NoReturn :
    (f : Str) → any is_return f ≡ false → any is_return (double_quotes f) ≡ false
unfolding double_quotes
double_quotes-NoReturn [] h = refl
double_quotes-NoReturn (c ∷ f) h = ground (arith, double_quotes-NoReturn f)

pub write_field-NoReturn :
    (f : Str) → any is_return f ≡ false → any is_return (write_field f) ≡ false
unfolding write_field
write_field-NoReturn f h = elim (Bool-cases (field_needs_quotes f)) [
  | inl e ↦
      rw e (any-append is_return (double_quotes f) (b'"' ∷ []) (double_quotes-NoReturn f h) refl)
  | inr e ↦ rw e h
]

abbrev pub NoReturn : Str → Type 0
NoReturn f = any is_return f ≡ false

pub write_more-NoReturn : (fs : List Str) → All NoReturn fs → any is_return (write_more fs) ≡ false
unfolding write_more
write_more-NoReturn [] _ = refl
write_more-NoReturn (f ∷ fs) (h, hs) =
    any-append is_return (write_field f) (write_more fs) (write_field-NoReturn f h)
      (write_more-NoReturn fs hs)
