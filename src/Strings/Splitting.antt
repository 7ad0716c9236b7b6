-- ===== src/Strings/Splitting.antt =====
-- Splitting at a separator and joining are inverse on pieces that do not hold it.
use pf9_oidc_proxy.Base.{
  ℕ, false, List, [], ◌∷◌, ◌++◌, ◌≡◌, refl, ap, ◌∙◌, arith, eqb, Bool-cases, inl, inr, All,
}
use pf9_oidc_proxy.Strings.{Str, split, push_head, join}

abbrev pub Lacks : ℕ → Str → Type 0
Lacks sep [] = Unit
Lacks sep (c ∷ s) = (eqb c sep ≡ false) × Lacks sep s

push_head-Lacks :
    (sep c : ℕ) (ps : List Str)
    → eqb c sep ≡ false
    → All (Lacks sep) ps
    → All (Lacks sep) (push_head c ps)
unfolding push_head
push_head-Lacks sep c [] h _ = ((h, tt), tt)
push_head-Lacks sep c (p ∷ ps) h (k, ks) = ((h, k), ks)

pub split-Lacks : (sep : ℕ) (s : Str) → All (Lacks sep) (split sep s)
unfolding split
split-Lacks sep [] = (tt, tt)
split-Lacks sep (c ∷ s) = elim (Bool-cases (eqb c sep)) [
  | inl e ↦ rw e (tt, split-Lacks sep s)
  | inr e ↦ rw e (push_head-Lacks sep c (split sep s) e (split-Lacks sep s))
]

pub split_of_Lacks : (sep : ℕ) (p : Str) → Lacks sep p → split sep p ≡ p ∷ []
unfolding split push_head
split_of_Lacks sep [] _ = refl
split_of_Lacks sep (c ∷ p) (h, k) = rw (h, split_of_Lacks sep p k)

pub split-append :
    (sep : ℕ) (p rest : Str) → Lacks sep p → split sep (p ++ sep ∷ rest) ≡ p ∷ split sep rest
unfolding split push_head
split-append sep [] rest _ = ground arith
split-append sep (c ∷ p) rest (h, k) = rw (h, split-append sep p rest k)

-- Pieces that lack the separator are found again.
pub split-join :
    (sep : ℕ) (p : Str) (ps : List Str)
    → All (Lacks sep) (p ∷ ps)
    → split sep (join (sep ∷ []) (p ∷ ps)) ≡ p ∷ ps
unfolding join
split-join sep p [] (k, _) = split_of_Lacks sep p k
split-join sep p (q ∷ ps) (k, ks) = split-append sep p _ k ∙ ap (◌∷◌ p) (split-join sep q ps ks)

push_head-cons : (c : ℕ) (ps : List Str) → (q : Str) × (qs : List Str) × (push_head c ps ≡ q ∷ qs)
unfolding push_head
push_head-cons c [] = (c ∷ [], [], refl)
push_head-cons c (p ∷ ps) = (c ∷ p, ps, refl)

-- Splitting gives at least one piece.
pub split-cons : (sep : ℕ) (s : Str) → (q : Str) × (qs : List Str) × (split sep s ≡ q ∷ qs)
unfolding split
split-cons sep [] = ([], [], refl)
split-cons sep (c ∷ s) = elim (Bool-cases (eqb c sep)) [
  | inl e ↦ ([], split sep s, rw e)
  | inr e ↦ rw e (push_head-cons c (split sep s))
]

module _ (P : ℕ → Type 0) where
  All-push_head : (c : ℕ) (ps : List Str) → P c → All (All P) ps → All (All P) (push_head c ps)
  unfolding push_head
  All-push_head c [] h _ = ((h, tt), tt)
  All-push_head c (p ∷ ps) h (g, gs) = ((h, g), gs)

  -- What holds of the bytes of a text holds of those of its pieces.
  pub All-split : (sep : ℕ) (s : Str) → All P s → All (All P) (split sep s)
  unfolding split
  All-split sep [] _ = (tt, tt)
  All-split sep (c ∷ s) (h, hs) = elim (Bool-cases (eqb c sep)) [
    | inl e ↦ rw e (tt, All-split sep s hs)
    | inr e ↦ rw e (All-push_head c (split sep s) h (All-split sep s hs))
  ]
