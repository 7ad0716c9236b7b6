-- ===== src/Query/Sorted.antt =====
-- Sorting the entries keeps each key's values.
use pf9_oidc_proxy.Base.{
  false, List, [], ◌∷◌, ◌++◌, ◌≡◌, refl, ap, ◌∙◌, sym, inl, inr, All, arith, Bool-cases,
  if◌then◌else◌,
}
use pf9_oidc_proxy.Strings.{Str, ◌==◌}
use pf9_oidc_proxy.Strings.Equality.{eq_iff}
use pf9_oidc_proxy.Maps.{Map}
use pf9_oidc_proxy.Maps.Entries.{chosen, flat_entries, Distinct, chosen-key_entries}
use pf9_oidc_proxy.Query.{is_sorted, insert_sorted, sort}

All-insert_sorted :
    (P : Str × List Str → Type 0) (e : Str × List Str) (m : Map (List Str))
    → P e
    → All P m
    → All P (insert_sorted e m)
unfolding insert_sorted
All-insert_sorted P e [] p _ = (p, tt)
All-insert_sorted P e (x ∷ m) p (q, qs) = elim (Bool-cases (is_sorted e.0 x.0)) [
  | inl s ↦ rw s (p, (q, qs))
  | inr s ↦ rw s (q, All-insert_sorted P e m p qs)
]

pub All-sort : (P : Str × List Str → Type 0) (m : Map (List Str)) → All P m → All P (sort m)
unfolding sort
All-sort P [] _ = tt
All-sort P (e ∷ m) (p, ps) = All-insert_sorted P e (sort m) p (All-sort P m ps)

-- Values of two keys do not both belong to one.
two_keys :
    (key k k' : Str) (vs vs' rest : List Str)
    → (k' == k) ≡ false
    → (if k' == key then vs' else []) ++ ((if k == key then vs else []) ++ rest)
      ≡ (if k == key then vs else []) ++ ((if k' == key then vs' else []) ++ rest)
two_keys key k k' vs vs' rest h = ground (arith, eq_iff k key, eq_iff k' key, eq_iff k' k)

chosen-insert_sorted :
    (key k : Str) (vs : List Str) (m : Map (List Str))
    → All (λ x. (x.0 == k) ≡ false) m
    → chosen key (flat_entries (insert_sorted (k, vs) m))
      ≡ (if k == key then vs else []) ++ chosen key (flat_entries m)
unfolding insert_sorted
chosen-insert_sorted key k vs [] _ = chosen-key_entries key k vs []
chosen-insert_sorted key k vs ((k', vs') ∷ m) (h, hs) = elim (Bool-cases (is_sorted k k')) [
  | inl s ↦ rw s (chosen-key_entries key k vs (flat_entries ((k', vs') ∷ m)))
  | inr s ↦ rw s (
      chosen-key_entries key k' vs' (flat_entries (insert_sorted (k, vs) m))
      ∙ ap (λ r. (if k' == key then vs' else []) ++ r) (chosen-insert_sorted key k vs m hs)
      ∙ two_keys key k k' vs vs' (chosen key (flat_entries m)) h
      ∙ ap (λ r. (if k == key then vs else []) ++ r)
          (sym (chosen-key_entries key k' vs' (flat_entries m))))
]

pub chosen-sort :
    (key : Str) (m : Map (List Str))
    → Distinct m
    → chosen key (flat_entries (sort m)) ≡ chosen key (flat_entries m)
unfolding sort
chosen-sort key [] _ = refl
chosen-sort key ((k, vs) ∷ m) (others, d) =
    chosen-insert_sorted key k vs (sort m) (All-sort (λ x. (x.0 == k) ≡ false) m others)
    ∙ ap (λ r. (if k == key then vs else []) ++ r) (chosen-sort key m d)
    ∙ sym (chosen-key_entries key k vs (flat_entries m))
