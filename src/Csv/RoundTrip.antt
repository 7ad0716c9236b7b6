-- ===== src/Csv/RoundTrip.antt =====
-- A record that is written, without the white space around its text, is read again.
use pf9_oidc_proxy.Base.{
  ℕ, false, List, [], ◌∷◌, ◌++◌, ◌≡◌, ◌≢◌, inl, inr, refl, sym, ap, ◌∙◌, arith, any, All,
  Bool-cases, append-nil,
}
use pf9_oidc_proxy.Strings.{Str, is_space, trim_left, trim_right, trim_space}
use pf9_oidc_proxy.Csv.{
  read_bytes, reading, field_start, skip_empty, read_record, read, starts_with_space,
  field_needs_quotes, double_quotes, write_field, write_more, write_fields, write, newline,
}
use pf9_oidc_proxy.Csv.Laws.{
  result, result-write_more, normal_lines-none, write_field-NoReturn, write_more-NoReturn,
  both_false, any-append, is_return, NoReturn,
}

pub trim_right-cons :
    (c : ℕ) (s : Str) → is_space c ≡ false → trim_right s ≡ s → trim_right (c ∷ s) ≡ c ∷ s
unfolding trim_right
trim_right-cons c [] h _ = rw h refl
trim_right-cons c (d ∷ s) h e = rw e refl

pub trim_right-append :
    (p : Str) (d : ℕ) (q : Str) → trim_right (d ∷ q) ≡ d ∷ q → trim_right (p ++ d ∷ q) ≡ p ++ d ∷ q
unfolding trim_right
trim_right-append [] d q e = e
trim_right-append (c ∷ []) d q e = rw e refl
trim_right-append (c ∷ b ∷ p) d q e = rw (trim_right-append (b ∷ p) d q e) refl

trim_right-newline : (s : Str) → trim_right (s ++ newline ∷ []) ≡ trim_right s
unfolding trim_right is_space
trim_right-newline [] = refl
trim_right-newline (c ∷ s) = rw (trim_right-newline s) refl

-- What is written of a field of this form keeps its ends.
abbrev pub IsWhole : Str → Type 0
IsWhole f = (f ≢ []) × (trim_right f ≡ f)

write_field-trim_right : (f : Str) → IsWhole f → trim_right (write_field f) ≡ write_field f
unfolding write_field is_space trim_right
write_field-trim_right f (_, h) = elim (Bool-cases (field_needs_quotes f)) [
  | inl e ↦
      rw e (trim_right-append (b'"' ∷ double_quotes f) b'"' [] (trim_right-cons b'"' [] refl refl))
  | inr e ↦ rw e h
]

written-trim_right :
    (f : Str) (fs : List Str)
    → IsWhole f
    → All IsWhole fs
    → trim_right (write_field f ++ write_more fs) ≡ write_field f ++ write_more fs
unfolding write_more is_space
written-trim_right f [] h _ = rw (append-nil (write_field f)) (write_field-trim_right f h)
written-trim_right f (g ∷ fs) _ (k, ks) =
    trim_right-append (write_field f) b',' (write_field g ++ write_more fs)
      (trim_right-cons b',' (write_field g ++ write_more fs) refl (written-trim_right g fs k ks))

write_field-start :
    (c : ℕ) (f : Str) → (x : ℕ) × (s : Str) × (write_field (c ∷ f) ≡ x ∷ s) × (is_space x ≡ false)
unfolding write_field field_needs_quotes starts_with_space is_space
write_field-start c f = elim (Bool-cases (field_needs_quotes (c ∷ f))) [
  | inl e ↦ (b'"', double_quotes (c ∷ f) ++ b'"' ∷ [], rw e refl, refl)
  | inr e ↦ (c, f, rw e refl, (both_false _ _ (both_false _ _ e).1).1)
]

written_starts :
    (f : Str) (fs : List Str)
    → f ≢ []
    → (x : ℕ) × (s : Str) × (write_field f ++ write_more fs ≡ x ∷ s) × (is_space x ≡ false)
written_starts [] fs h = absurd (h refl)
written_starts (c ∷ f) fs _ =
    let (x, s, e, g) = write_field-start c f in (x, s ++ write_more fs, rw e refl, g)

trim_space-start :
    (x : ℕ) (s : Str)
    → is_space x ≡ false
    → trim_space ((x ∷ s) ++ newline ∷ []) ≡ trim_right (x ∷ s)
unfolding trim_space trim_left
trim_space-start x s h = rw h (trim_right-newline (x ∷ s))

skip_empty-start : (x : ℕ) (s : Str) → is_space x ≡ false → skip_empty (x ∷ s) ≡ x ∷ s
unfolding skip_empty is_space
skip_empty-start x s h = ground arith

read_starting :
    (x : ℕ) (s : Str)
    → is_space x ≡ false
    → any is_return (x ∷ s) ≡ false
    → read (x ∷ s) ≡ result (read_bytes (x ∷ s) (reading field_start [] []))
unfolding read read_record
read_starting x s h n =
    ap (λ t. read_record (skip_empty t)) (normal_lines-none (x ∷ s) n)
    ∙ ap read_record (skip_empty-start x s h)

-- encoding/csv reads a record again from the text that it wrote, without the white space around it,
-- if no field has a carriage return, is empty or ends in white space.
pub read-write :
    (f : Str) (fs : List Str)
    → All NoReturn (f ∷ fs)
    → All IsWhole (f ∷ fs)
    → read (trim_space (write (f ∷ fs))) ≡ inr (f ∷ fs)
unfolding write write_fields
read-write f fs (n, ns) (w, ws) =
    let (x, s, starts, h) = written_starts f fs w.0 in
    let trimmed : trim_space (write (f ∷ fs)) ≡ write_field f ++ write_more fs =
      ap (λ t. trim_space (t ++ newline ∷ [])) starts
      ∙ trim_space-start x s h
      ∙ ap trim_right (sym starts)
      ∙ written-trim_right f fs w ws in
    let no_return =
      any-append is_return (write_field f) (write_more fs) (write_field-NoReturn f n)
        (write_more-NoReturn fs ns) in
    ap read (trimmed ∙ starts)
    ∙ read_starting x s h (ap (any is_return) (sym starts) ∙ no_return)
    ∙ ap (λ t. result (read_bytes t (reading field_start [] []))) (sym starts)
    ∙ result-write_more f fs []
