-- ===== src/Maps/Entries.antt =====
-- Maps with several values of a key, as lists of pairs of a key and one value.
use pf9_oidc_proxy.Base.{
  subst, Bool, true, false, List, [], ◌∷◌, ◌++◌, ◌≡◌, inl, inr, refl, ◌∙◌, arith, All, Bool-cases,
  append_assoc, append-nil, if◌then◌else◌,
}
use pf9_oidc_proxy.Strings.{Str, ◌==◌}
use pf9_oidc_proxy.Strings.Equality.{eq_iff}
use pf9_oidc_proxy.Maps.{Map, values_at, lookup}

-- The values that the entries give a key, in their order.
abbrev pub chosen : Str → List (Str × Str) → List Str
chosen key [] = []
chosen key ((k, v) ∷ entries) = let rest = chosen key entries in if k == key then v ∷ rest else rest

pub chosen-step :
    (b : Bool) (vs : List Str) (v : Str) (rest : List Str)
    → (vs ++ (if b then v ∷ [] else [])) ++ rest ≡ vs ++ (if b then v ∷ rest else rest)
chosen-step true vs v rest = append_assoc vs (v ∷ []) rest
chosen-step false vs v rest = append_assoc vs [] rest

-- The map's entries, one for each value.
abbrev pub key_entries : Str → List Str → List (Str × Str)
key_entries k [] = []
key_entries k (v ∷ vs) = (k, v) ∷ key_entries k vs

abbrev pub flat_entries : Map (List Str) → List (Str × Str)
flat_entries [] = []
flat_entries ((k, vs) ∷ values) = key_entries k vs ++ flat_entries values

-- Each key stands once.
abbrev pub Distinct : Map (List Str) → Type 0
Distinct [] = Unit
Distinct ((k, vs) ∷ values) = All (λ x. (x.0 == k) ≡ false) values × Distinct values

pub chosen-key_entries :
    (key k : Str) (vs : List Str) (rest : List (Str × Str))
    → chosen key (key_entries k vs ++ rest) ≡ (if k == key then vs else []) ++ chosen key rest
chosen-key_entries key k [] rest = ground arith
chosen-key_entries key k (v ∷ vs) rest = ground (arith, chosen-key_entries key k vs rest)

chosen-apart :
    (key : Str) (values : Map (List Str))
    → All (λ x. (x.0 == key) ≡ false) values
    → chosen key (flat_entries values) ≡ []
chosen-apart key [] _ = refl
chosen-apart key ((k, vs) ∷ values) (h, hs) =
    chosen-key_entries key k vs (flat_entries values) ∙ rw (h, chosen-apart key values hs) refl

pub chosen-flat_entries :
    (key : Str) (values : Map (List Str))
    → Distinct values
    → chosen key (flat_entries values) ≡ values_at key values
unfolding values_at lookup
chosen-flat_entries key [] _ = refl
chosen-flat_entries key ((k, vs) ∷ values) (others, d) = elim (Bool-cases (k == key)) [
  | inl e ↦
      let apart = subst (λ z. All (λ x. (x.0 == z) ≡ false) values) ((eq_iff k key).0 e) others in
      chosen-key_entries key k vs (flat_entries values)
      ∙ rw (e, chosen-apart key values apart) (append-nil vs)
  | inr e ↦
      chosen-key_entries key k vs (flat_entries values)
      ∙ rw (e, chosen-flat_entries key values d) refl
]
