-- ===== src/Maps.antt =====
-- Go's `map[string]V` as a list of entries. The list stands for one iteration order of the map;
-- a nil map reads as the empty list.
pub mod Entries
use pf9_oidc_proxy.Base.{
  Bool, true, false, ap, ◌∙◌, append_assoc, Option, none, some, List, [], ◌∷◌, ◌++◌, ◌≡◌, refl,
  arith, append-nil, if◌then◌else◌,
}
use pf9_oidc_proxy.Strings.{Str, ◌==◌}
use pf9_oidc_proxy.Strings.Equality.{eq_iff, eq_refl}

abbrev pub Map : Type 0 → Type 0
Map V = List (Str × V)

module _ {V : Type 0} where
  -- v, ok := m[key]
  unfoldable pub lookup : Str → Map V → Option V
  lookup key ((name, value) ∷ entries) = if name == key then some value else lookup key entries
  lookup key [] = none

  -- m[key] = value
  unfoldable pub insert : Str → V → Map V → Map V
  insert key value ((name, old) ∷ entries) =
      if name == key then (key, value) ∷ entries else (name, old) ∷ insert key value entries
  insert key value [] = (key, value) ∷ []

  pub lookup-insert :
      (wanted key : Str) (value : V) (m : Map V)
      → lookup wanted (insert key value m) ≡ (if key == wanted then some value else lookup wanted m)
  unfolding lookup insert
  lookup-insert wanted key value ((name, old) ∷ entries) = ground (
    eq_iff name key,
    eq_iff name wanted,
    eq_iff key wanted,
    arith,
    lookup-insert wanted key value entries,
  )
  lookup-insert wanted key value [] = refl

  pub lookup-insert_self :
      (key : Str) (value : V) (m : Map V) → lookup key (insert key value m) ≡ some value
  lookup-insert_self key value m = simp (lookup-insert, eq_refl)

-- m[k], for a map of slices: nil where the key is missing
abbrev pub slice_at : Option (List Str) → List Str
slice_at none = []
slice_at (some vs) = vs

unfoldable pub values_at : Str → Map (List Str) → List Str
values_at k m = slice_at (lookup k m)

-- m[k] = append(m[k], v)
unfoldable pub append_value : Str → Str → Map (List Str) → Map (List Str)
unfolding values_at
append_value k v m = insert k (values_at k m ++ v ∷ []) m

-- The same for each value in turn.
abbrev pub append_values : Str → List Str → Map (List Str) → Map (List Str)
append_values k [] m = m
append_values k (v ∷ vs) m = append_values k vs (append_value k v m)

pub values_at-insert :
    (wanted key : Str) (vs : List Str) (m : Map (List Str))
    → values_at wanted (insert key vs m) ≡ (if key == wanted then vs else values_at wanted m)
unfolding values_at
values_at-insert wanted key vs m = ground (arith, lookup-insert wanted key vs m)

pub values_at-append_value :
    (wanted key v : Str) (m : Map (List Str))
    → values_at wanted (append_value key v m)
      ≡ values_at wanted m ++ (if key == wanted then v ∷ [] else [])
unfolding append_value
values_at-append_value wanted key v m = ground (
  arith,
  values_at-insert wanted key (values_at key m ++ v ∷ []) m,
  eq_iff key wanted,
  append-nil (values_at wanted m),
)

append-if :
    (b : Bool) (xs : List Str) (v : Str) (vs : List Str)
    → (xs ++ (if b then v ∷ [] else [])) ++ (if b then vs else [])
      ≡ xs ++ (if b then v ∷ vs else [])
append-if true xs v vs = append_assoc xs (v ∷ []) vs
append-if false xs v vs = append-nil (xs ++ [])

pub append_values-values :
    (wanted key : Str) (vs : List Str) (m : Map (List Str))
    → values_at wanted (append_values key vs m)
      ≡ values_at wanted m ++ (if key == wanted then vs else [])
append_values-values wanted key [] m = ground (arith, append-nil (values_at wanted m))
append_values-values wanted key (v ∷ vs) m =
    append_values-values wanted key vs (append_value key v m)
    ∙ ap (λ xs. xs ++ (if key == wanted then vs else [])) (values_at-append_value wanted key v m)
    ∙ append-if (key == wanted) (values_at wanted m) v vs
