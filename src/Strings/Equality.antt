-- ===== src/Strings/Equality.antt =====
-- Comparison of strings decides their equality.
use pf9_oidc_proxy.Base.{true, false, [], ◌∷◌, ◌≡◌, ◌≢◌, ◌↔◌, refl, arith}
use pf9_oidc_proxy.Strings.{Str, ◌==◌}

pub eq_iff : (a b : Str) → ((a == b) ≡ true) ↔ (a ≡ b)
unfolding ◌==◌
eq_iff [] [] = ground arith
eq_iff [] (y ∷ ys) = ground arith
eq_iff (x ∷ xs) [] = ground arith
eq_iff (x ∷ xs) (y ∷ ys) = ground (arith, eq_iff xs ys)

pub eq_refl : (a : Str) → (a == a) ≡ true
eq_refl a = (eq_iff a a).1 refl

pub eq-false : (a b : Str) → a ≢ b → (a == b) ≡ false
eq-false a b h = ground (arith, eq_iff a b)
