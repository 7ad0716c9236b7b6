-- ===== src/Command/Flags.antt =====
-- Set of pkg/util/flags/string_to_string_slice.go.
pub mod Text
use pf9_oidc_proxy.Base.{
  ℕ, Bool, true, false, ap, ◌∙◌, Option, none, some, List, [], ◌∷◌, ◌++◌, ◌≡◌, ◌≢◌, ◌⊎◌, inl, inr,
  refl, sym, arith, if◌then◌else◌, append_assoc, append-nil, All, Option-cases,
}
use pf9_oidc_proxy.Strings.{Str, ◌==◌, split}
use pf9_oidc_proxy.Strings.Equality.{eq_iff}
use pf9_oidc_proxy.Strings.Splitting.{Lacks, split-append, split_of_Lacks}
use pf9_oidc_proxy.Csv.{CsvError, eof, read, skip_empty, normal_lines, read_record}
use pf9_oidc_proxy.Maps.Entries.{chosen, chosen-step}
use pf9_oidc_proxy.Maps.{
  values_at-append_value, Map, values_at, append_value, lookup-insert, slice_at, lookup,
}

pub data SetError : Type 0 where
  csv_error : CsvError → SetError
  malformed_pair : Str → SetError

-- kv, if it has two parts
key_value : List Str → Option (Str × Str)
key_value (key ∷ value ∷ []) = some (key, value)
key_value _ = none

-- The loop over the pairs. An error clears the map.
unfoldable pub set_pairs : List Str → Map (List Str) → Map (List Str) × Option SetError
unfolding key_value
set_pairs [] values = (values, none)
set_pairs (pair ∷ ss) values = elim (key_value (split b'=' pair)) [
  | none ↦ ([], some (malformed_pair pair))
  | some kv ↦ set_pairs ss (append_value kv.0 kv.1 values)
]

set_record : CsvError ⊎ List Str → Map (List Str) → Map (List Str) × Option SetError
unfolding set_pairs
set_record (inl e) values = ([], some (csv_error e))
set_record (inr ss) values = set_pairs ss values

unfoldable pub set : Str → Map (List Str) → Map (List Str) × Option SetError
unfolding set_record read
set [] values = (values, none)
set (c ∷ val) values = set_record (read (c ∷ val)) values

abbrev pub written : List (Str × Str) → List Str
written [] = []
written ((k, v) ∷ entries) = (k ++ b'=' ∷ v) ∷ written entries

abbrev pub IsEntry : Str × Str → Type 0
IsEntry (k, v) = Lacks b'=' k × Lacks b'=' v

set_pairs-written :
    (key : Str) (entries : List (Str × Str)) (values : Map (List Str))
    → All IsEntry entries
    → ((set_pairs (written entries) values).1 ≡ none)
      × (values_at key (set_pairs (written entries) values).0
          ≡ values_at key values ++ chosen key entries)
unfolding set_pairs
set_pairs-written key [] values _ = (refl, sym (append-nil _))
set_pairs-written key ((k, v) ∷ entries) values ((g, h), hs) =
    let (e, f) = set_pairs-written key entries (append_value k v values) hs in
    rw (set_pairs, split-append b'=' k v g, split_of_Lacks b'=' v h, key_value)
      (
        e,
        f
            ∙ ap (λ xs. xs ++ chosen key entries) (values_at-append_value key k v values)
            ∙ chosen-step (k == key) (values_at key values) v (chosen key entries),
      )

read-empty : (entries : List (Str × Str)) → read [] ≢ inr (written entries)
unfolding read skip_empty normal_lines read_record
read-empty entries e = cc

set_pairs-error :
    (ss : List Str) (values : Map (List Str))
    → (set_pairs ss values).1 ≢ none
    → (set_pairs ss values).0 ≡ []
unfolding set_pairs
set_pairs-error [] values e = ground arith
set_pairs-error (pair ∷ ss) values e = elim (Option-cases (key_value (split b'=' pair))) [
  | inl n ↦ rw (set_pairs, n) refl
  | inr (kv, n) ↦
      rw (set_pairs, n)
        (set_pairs-error ss (append_value kv.0 kv.1 values) (rw (set_pairs, n) at e))
]

-- A text that encoding/csv reads as entries `key=value` with no further `=` in them is set without an
-- error, and adds to each key's values those of its entries, in their order.
pub set-written :
    (val : Str) (entries : List (Str × Str)) (values : Map (List Str)) (key : Str)
    → read val ≡ inr (written entries)
    → All IsEntry entries
    → ((set val values).1 ≡ none)
      × (values_at key (set val values).0 ≡ values_at key values ++ chosen key entries)
unfolding set set_record
set-written [] entries values key e h = absurd (read-empty entries e)
set-written (c ∷ val) entries values key e h = rw e (set_pairs-written key entries values h)

set_record-error :
    (outcome : CsvError ⊎ List Str) (values : Map (List Str))
    → (set_record outcome values).1 ≢ none
    → (set_record outcome values).0 ≡ []
unfolding set_record
set_record-error (inl e) values h = refl
set_record-error (inr ss) values h = set_pairs-error ss values h

-- If there is an error, the map is empty afterwards, also of what earlier texts had set.
pub set-error :
    (val : Str) (values : Map (List Str)) → (set val values).1 ≢ none → (set val values).0 ≡ []
unfolding set
set-error [] values h = ground arith
set-error (c ∷ val) values h = set_record-error (read (c ∷ val)) values h
