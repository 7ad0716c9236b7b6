-- ===== src/Access/Left.antt =====
-- The headers that an authorized request is left with: none of them asks for an impersonation.
pub mod Values
use pf9_oidc_proxy.Base.{
  ℕ, Bool, true, false, ◌||◌, Option, none, some, List, [], ◌∷◌, ◌++◌, ◌≡◌, ◌⊎◌, inl, inr, refl, ap,
  sym, ◌∙◌, arith, any, All, Bool-cases, eqb, if◌then◌else◌,
}
use pf9_oidc_proxy.Strings.{Str, ◌==◌, lower, upper, to_lower, has_prefix}
use pf9_oidc_proxy.Strings.Equality.{eq_iff, eq_refl}
use pf9_oidc_proxy.Maps.{Map, insert}
use pf9_oidc_proxy.Result.{ok}
use pf9_oidc_proxy.Users.{User}
use pf9_oidc_proxy.Http.{Header, add, canonical_key, canonical_from, all_tokens, values}
use pf9_oidc_proxy.Access.Review.{Review, Reply}
use pf9_oidc_proxy.Access.Check.{
  Found, nothing_found, impersonate, add_all, copy_headers, conclude,
  check_authorized_for_impersonation,
}
use pf9_oidc_proxy.Access.Spec.{
  Kind, other, user, group, uid, unknown, extra, effect, effects, classify,
}
use pf9_oidc_proxy.Access.Outcomes.{
  asks_impersonation, NoImpersonation, check_authorized_iff, check_authorized_some_user,
}

lower-lower : (c : ℕ) → lower (lower c) ≡ lower c
unfolding lower
lower-lower c = ground arith

lower-upper : (c : ℕ) → lower (upper c) ≡ lower c
unfolding lower upper
lower-upper c = ground arith

to_lower-canonical_from : (up : Bool) (s : Str) → to_lower (canonical_from up s) ≡ to_lower s
unfolding to_lower canonical_from
to_lower-canonical_from up [] = refl
to_lower-canonical_from true (c ∷ s) =
    rw (lower-upper c, to_lower-canonical_from (eqb c b'-') s) refl
to_lower-canonical_from false (c ∷ s) =
    rw (lower-lower c, to_lower-canonical_from (eqb c b'-') s) refl

to_lower-canonical_key : (key : Str) → to_lower (canonical_key key) ≡ to_lower key
unfolding canonical_key
to_lower-canonical_key key = elim (Bool-cases (all_tokens key)) [
  | inl e ↦ rw e (to_lower-canonical_from true key)
  | inr e ↦ rw e refl
]

insert-NoImpersonation :
    (key : Str) (vs : List Str) (header : Header)
    → asks_impersonation key ≡ false
    → NoImpersonation header
    → NoImpersonation (insert key vs header)
unfolding insert
insert-NoImpersonation key vs [] h _ = (h, tt)
insert-NoImpersonation key vs ((k, ws) ∷ header) h (n, ns) = elim (Bool-cases (k == key)) [
  | inl e ↦ rw e (h, ns)
  | inr e ↦ rw e (n, insert-NoImpersonation key vs header h ns)
]

add_all-NoImpersonation :
    (key : Str) (vs : List Str) (header : Header)
    → asks_impersonation key ≡ false
    → NoImpersonation header
    → NoImpersonation (add_all key vs header)
add_all-NoImpersonation key [] header h n = n
add_all-NoImpersonation key (v ∷ vs) header h n =
    add_all-NoImpersonation key vs (add key v header) h (
      unfold add in
      insert-NoImpersonation (canonical_key key) _ header (rw (to_lower-canonical_key key) h) n)

abbrev is_removed : List Str → Str → Bool
is_removed removed key = any (λ k. k == key) removed

-- Each entry is removed or does not ask for an impersonation.
abbrev Covered : List Str → Header → Type 0
Covered removed = All (λ e. (is_removed removed e.0 ≡ true) ⊎ (asks_impersonation e.0 ≡ false))

copy_headers-NoImpersonation :
    (removed : List Str) (header rest copied : Header)
    → Covered removed rest
    → NoImpersonation copied
    → NoImpersonation (copy_headers removed header rest copied)
unfolding copy_headers
copy_headers-NoImpersonation removed header [] copied _ n = n
copy_headers-NoImpersonation removed header ((key, vs) ∷ rest) copied (c, cs) n =
    elim (Bool-cases (is_removed removed key)) [
      | inl e ↦ rw e (copy_headers-NoImpersonation removed header rest copied cs n)
      | inr e ↦ rw e (
          copy_headers-NoImpersonation removed header rest _ cs
            (add_all-NoImpersonation key (values key header) copied (ground (arith, e, c)) n))
    ]

effect-headers_to_remove :
    (key : Str) (vs : List Str) (f : Found)
    → (effect (classify key) key vs f).headers_to_remove
      ≡ (if asks_impersonation key then key ∷ f.headers_to_remove else f.headers_to_remove)
unfolding classify
effect-headers_to_remove key [] f = ground arith
effect-headers_to_remove key (v ∷ vs) f = ground arith

is_removed-effect :
    (x key : Str) (vs : List Str) (f : Found)
    → is_removed f.headers_to_remove x ≡ true
    → is_removed (effect (classify key) key vs f).headers_to_remove x ≡ true
is_removed-effect x key vs f h = rw (effect-headers_to_remove key vs f) (ground arith)

is_removed-effects :
    (x : Str) (header : Header) (f : Found)
    → is_removed f.headers_to_remove x ≡ true
    → is_removed (effects header f).headers_to_remove x ≡ true
is_removed-effects x [] f h = h
is_removed-effects x ((key, vs) ∷ header) f h =
    is_removed-effects x header _ (is_removed-effect x key vs f h)

effects-Covered :
    (header : Header) (f : Found) → Covered (effects header f).headers_to_remove header
effects-Covered [] f = tt
effects-Covered ((key, vs) ∷ header) f = (
  elim (Bool-cases (asks_impersonation key)) [
    | inr e ↦ inr e
    | inl e ↦ inl (
        is_removed-effects key header (effect (classify key) key vs f)
          (rw (effect-headers_to_remove key vs f, e, eq_refl key) refl))
  ],
  effects-Covered header (effect (classify key) key vs f),
)

left-conclude :
    (header left : Header) (target : User) (f : Found)
    → ◌≡◌ {A = Option User × Header} (some target, left) (conclude header f)
    → left ≡ copy_headers f.headers_to_remove header header []
left-conclude header left target f e = elim (Bool-cases f.has_impersonation) [
  | inl h ↦ ap (λ r. r.1) (rw h at e)
  | inr h ↦ cc (ap (λ r. r.0) (rw h at e))
]

pub any-NoImpersonation :
    (header : Header) → NoImpersonation header → any (λ e. asks_impersonation e.0) header ≡ false
any-NoImpersonation [] _ = refl
any-NoImpersonation ((key, vs) ∷ header) (n, ns) = rw n (any-NoImpersonation header ns)

module _ (create : Review → Reply) (requester : User) where
  -- With a target, no header that is left has a name that starts with `Impersonate-`, in any case.
  pub check_authorized-NoImpersonation :
      (header left : Header) (target : User)
      → check_authorized_for_impersonation create requester header ≡ ok (some target, left)
      → NoImpersonation left
  check_authorized-NoImpersonation header left target e =
      let asked = check_authorized_some_user create requester header left target e in
      let same = ((check_authorized_iff create requester header (some target, left) asked).0 e).1 in
      let found = effects header nothing_found in
      rw (left-conclude header left target found same) (
        copy_headers-NoImpersonation found.headers_to_remove header header []
          (effects-Covered header nothing_found) tt)
