-- ===== src/Result.antt =====
-- The outcome of Go code that returns an error or panics.
use pf9_oidc_proxy.Base.{◌≡◌, ◌≢◌, refl}

pub data Result (E A : Type 0) : Type 0 where
  ok : A → Result E A
  err : E → Result E A
  panic : Result E A

infixl 5 ◌>>=◌
abbrev pub ◌>>=◌ : {E A B : Type 0} → Result E A → (A → Result E B) → Result E B
ok a >>= f = f a
err e >>= f = err e
panic >>= f = panic

abbrev pub map_ok : {E A B : Type 0} → (A → B) → Result E A → Result E B
map_ok f (ok a) = ok (f a)
map_ok f (err e) = err e
map_ok f panic = panic

-- A chain of two steps ends well only if both do.
pub >>=-eq-ok :
    {X Y E : Type 0} (first : Result E X) (next : X → Result E Y) {last : Y}
    → (first >>= next) ≡ ok last
    → (x : X) × (first ≡ ok x) × (next x ≡ ok last)
>>=-eq-ok panic next e = cc
>>=-eq-ok (err _) next e = cc
>>=-eq-ok (ok x) next e = (x, refl, e)

pub map_ok-id : {E A : Type 0} (m : Result E A) → map_ok (λ a. a) m ≡ m
map_ok-id (ok a) = refl
map_ok-id (err e) = refl
map_ok-id panic = refl

pub map_ok-map_ok :
    {E A B C : Type 0} (f : A → B) (g : B → C) (m : Result E A)
    → map_ok g (map_ok f m) ≡ map_ok (λ a. g (f a)) m
map_ok-map_ok f g (ok a) = refl
map_ok-map_ok f g (err e) = refl
map_ok-map_ok f g panic = refl

pub ok-injective : {E A : Type 0} {a b : A} → ◌≡◌ {A = Result E A} (ok a) (ok b) → a ≡ b
ok-injective h = cc

pub map_ok-eq-ok :
    {E A B : Type 0} (f : A → B) (m : Result E A) {b : B}
    → map_ok f m ≡ ok b
    → (a : A) × (m ≡ ok a) × (f a ≡ b)
map_ok-eq-ok f (ok a) h = (a, refl, ok-injective h)
map_ok-eq-ok f (err e) h = cc
map_ok-eq-ok f panic h = cc

pub >>=-no_panic :
    {E A B : Type 0} (m : Result E A) (f : A → Result E B)
    → m ≢ panic
    → ((a : A) → f a ≢ panic)
    → (m >>= f) ≢ panic
>>=-no_panic (ok a) f h k e = k a e
>>=-no_panic (err x) f h k e = cc
>>=-no_panic panic f h k e = h refl

pub ok-no_panic : {E A : Type 0} (a : A) → ◌≢◌ {A = Result E A} (ok a) panic
ok-no_panic a e = cc

pub err-no_panic : {E A : Type 0} (x : E) → ◌≢◌ {A = Result E A} (err x) panic
err-no_panic x e = cc

pub map_ok-no_panic : {E A B : Type 0} (f : A → B) (m : Result E A) → m ≢ panic → map_ok f m ≢ panic
map_ok-no_panic f (ok a) h e = cc
map_ok-no_panic f (err x) h e = cc
map_ok-no_panic f panic h e = h refl
