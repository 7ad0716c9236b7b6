-- ===== src/Permutations.antt =====
-- Lists in another order: what Go's iteration over a map leaves open.
use mathlib.Core.List.{Permᴰ}
use mathlib.Core.List.Permᴰ
use pf9_oidc_proxy.Base.{
  Bool, true, false, List, [], ◌∷◌, ◌++◌, ◌≡◌, ◌⊎◌, inl, inr, refl, sym, ◌∙◌, arith, any, All,
  if◌then◌else◌,
}

pub All-perm : {A : Type 0} (P : A → Type 0) {xs ys : List A} → Permᴰ xs ys → All P xs → All P ys
All-perm P Permᴰ.nil h = tt
All-perm P (Permᴰ.cons e p) (h, hs) = (rw (← e) h, All-perm P p hs)
All-perm P (Permᴰ.swap e e') (h, (k, hs)) = (rw (← e') k, (rw (← e) h, hs))
All-perm P (Permᴰ.trans p q) h = All-perm P q (All-perm P p h)

pub pick_swap :
    {A : Type 0} (b c : Bool) (x y : A) (r : List A)
    → Permᴰ
        ((if b then x ∷ [] else []) ++ ((if c then y ∷ [] else []) ++ r))
        ((if c then y ∷ [] else []) ++ ((if b then x ∷ [] else []) ++ r))
pick_swap true true x y r = Permᴰ.swap refl refl
pick_swap true false x y r = Permᴰ.refl (x ∷ r)
pick_swap false true x y r = Permᴰ.refl (y ∷ r)
pick_swap false false x y r = Permᴰ.refl r

empty-perm : {A : Type 0} {xs ys : List A} → Permᴰ xs ys → xs ≡ [] → ys ≡ []
empty-perm Permᴰ.nil h = refl
empty-perm (Permᴰ.cons e p) h = cc
empty-perm (Permᴰ.swap e e') h = cc
empty-perm (Permᴰ.trans p q) h = empty-perm q (empty-perm p h)

single-perm : {A : Type 0} {xs ys : List A} (x : A) → Permᴰ xs ys → xs ≡ x ∷ [] → ys ≡ x ∷ []
single-perm x Permᴰ.nil h = h
single-perm x (Permᴰ.cons e p) h = let tail = empty-perm p (cc) in cc (e, tail)
single-perm x (Permᴰ.swap e e') h = cc
single-perm x (Permᴰ.trans p q) h = single-perm x q (single-perm x p h)

abbrev pub AtMostOne : {A : Type 0} → List A → Type 0
AtMostOne {A} xs = (xs ≡ []) ⊎ ((x : A) × (xs ≡ x ∷ []))

pub AtMostOne-perm : {A : Type 0} {xs ys : List A} → Permᴰ xs ys → AtMostOne xs → ys ≡ xs
AtMostOne-perm p (inl h) = empty-perm p h ∙ sym h
AtMostOne-perm p (inr (x, h)) = single-perm x p h ∙ sym h

pub any-perm : {A : Type 0} (f : A → Bool) {xs ys : List A} → Permᴰ xs ys → any f ys ≡ any f xs
any-perm f Permᴰ.nil = refl
any-perm f (Permᴰ.cons e p) = rw (e, any-perm f p) refl
any-perm f (Permᴰ.swap e e') = rw (e, e') (ground arith)
any-perm f (Permᴰ.trans p q) = any-perm f q ∙ any-perm f p
