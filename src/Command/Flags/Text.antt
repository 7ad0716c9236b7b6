-- ===== src/Command/Flags/Text.antt =====
-- String of pkg/util/flags/string_to_string_slice.go.
use pf9_oidc_proxy.Base.{ℕ, ap, ◌∙◌, none, List, [], ◌∷◌, ◌++◌, ◌≡◌, ◌≢◌, refl, sym, All}
use pf9_oidc_proxy.Strings.{Str, bytes, is_space, trim_left, trim_right, trim_space}
use pf9_oidc_proxy.Maps.Entries.{chosen, key_entries, flat_entries, Distinct, chosen-flat_entries}
use pf9_oidc_proxy.Maps.{Map, values_at, lookup}
use pf9_oidc_proxy.Csv.{write, write_fields}
use pf9_oidc_proxy.Csv.Laws.{is_return, NoReturn, any-append}
use pf9_oidc_proxy.Csv.RoundTrip.{IsWhole, trim_right-cons, trim_right-append, read-write}
use pf9_oidc_proxy.Command.Flags.{set, written, IsEntry, set-written}

-- The records k + "=" + v of one key.
abbrev key_records : Str → List Str → List Str
key_records k [] = []
key_records k (v ∷ vs) = (k ++ b'=' ∷ v) ∷ key_records k vs

abbrev pub records : Map (List Str) → List Str
records [] = []
records ((k, vs) ∷ values) = key_records k vs ++ records values

abbrev contents : Map (List Str) → Str
contents values = trim_space (write (records values))

unfoldable pub string : Map (List Str) → Str
unfolding write trim_space
string values = bytes "[" ++ (contents values ++ bytes "]")

written-key_entries :
    (k : Str) (vs : List Str) (rest : List (Str × Str))
    → written (key_entries k vs ++ rest) ≡ key_records k vs ++ written rest
written-key_entries k [] rest = refl
written-key_entries k (v ∷ vs) rest = rw (written-key_entries k vs rest) refl

written-flat_entries : (values : Map (List Str)) → written (flat_entries values) ≡ records values
written-flat_entries [] = refl
written-flat_entries ((k, vs) ∷ values) =
    written-key_entries k vs (flat_entries values) ∙ rw (written-flat_entries values) refl

-- Keys and values with no `=` and no carriage return, and a value that does not end in white space.
abbrev pub IsPrintable : Str × Str → Type 0
IsPrintable (k, v) = IsEntry (k, v) × ((NoReturn k × NoReturn v) × (trim_right v ≡ v))

record-NoReturn : (k v : Str) → NoReturn k → NoReturn v → NoReturn (k ++ b'=' ∷ v)
record-NoReturn k v h g = any-append is_return k (b'=' ∷ v) h g

record-IsWhole : (k v : Str) → trim_right v ≡ v → IsWhole (k ++ b'=' ∷ v)
unfolding is_space
record-IsWhole k v h =
    (record_given k v, trim_right-append k b'=' v (trim_right-cons b'=' v refl h))
  where
    record_given : (k v : Str) → (k ++ b'=' ∷ v) ≢ []
    record_given [] v e = cc
    record_given (c ∷ k) v e = cc

written-NoReturn :
    (entries : List (Str × Str)) → All IsPrintable entries → All NoReturn (written entries)
written-NoReturn [] _ = tt
written-NoReturn ((k, v) ∷ entries) ((_, ((h, g), _)), later) =
    (record-NoReturn k v h g, written-NoReturn entries later)

written-IsWhole :
    (entries : List (Str × Str)) → All IsPrintable entries → All IsWhole (written entries)
written-IsWhole [] _ = tt
written-IsWhole ((k, v) ∷ entries) ((_, (_, h)), later) =
    (record-IsWhole k v h, written-IsWhole entries later)

All-IsEntry : (entries : List (Str × Str)) → All IsPrintable entries → All IsEntry entries
All-IsEntry [] _ = tt
All-IsEntry ((k, v) ∷ entries) ((h, _), later) = (h, All-IsEntry entries later)

-- `Set` of what is written of entries, on an empty map.
set-write :
    (entries : List (Str × Str)) (key : Str)
    → All IsPrintable entries
    → ((set (trim_space (write (written entries))) []).1 ≡ none)
      × (values_at key (set (trim_space (write (written entries))) []).0 ≡ chosen key entries)
unfolding set write write_fields trim_space trim_left trim_right is_space values_at lookup
set-write [] key _ = (refl, refl)
set-write ((k, v) ∷ entries) key h =
    set-written (trim_space (write (written ((k, v) ∷ entries)))) ((k, v) ∷ entries) [] key
      (read-write (k ++ b'=' ∷ v) (written entries) (written-NoReturn ((k, v) ∷ entries) h)
        (written-IsWhole ((k, v) ∷ entries) h))
      (All-IsEntry ((k, v) ∷ entries) h)

drop_last : Str → Str
drop_last [] = []
drop_last (c ∷ []) = []
drop_last (c ∷ d ∷ s) = c ∷ drop_last (d ∷ s)

drop_last-append : (s : Str) (c : ℕ) → drop_last (s ++ c ∷ []) ≡ s
unfolding drop_last
drop_last-append [] c = refl
drop_last-append (b ∷ []) c = refl
drop_last-append (b ∷ d ∷ s) c = ap (◌∷◌ b) (drop_last-append (d ∷ s) c)

between_brackets : Str → Str
between_brackets [] = []
between_brackets (c ∷ s) = drop_last s

-- If `String` gives a text in brackets, `Set` of this text on an empty map gives no error, and each
-- key the values that it had, when each key stands once in the map, no key or value has a `=` or a
-- carriage return, and no value ends in white space.
pub set-string :
    (values : Map (List Str)) (text key : Str)
    → string values ≡ bytes "[" ++ (text ++ bytes "]")
    → Distinct values
    → All IsPrintable (flat_entries values)
    → ((set text []).1 ≡ none) × (values_at key (set text []).0 ≡ values_at key values)
unfolding string between_brackets
set-string values text key s d h =
    let same : trim_space (write (written (flat_entries values))) ≡ text =
      ap (λ rs. trim_space (write rs)) (written-flat_entries values)
      ∙ sym (drop_last-append (contents values) b']')
      ∙ ap between_brackets s
      ∙ drop_last-append text b']' in
    let (e, f) = set-write (flat_entries values) key h in
    (
      ap (λ t. (set t []).1) (sym same) ∙ e,
      ap (λ t. values_at key (set t []).0) (sym same) ∙ f ∙ chosen-flat_entries key values d,
    )
