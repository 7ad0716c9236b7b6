-- ===== src/Access/Untouched.antt =====
-- When no target is handed back.
use pf9_oidc_proxy.Base.{
  Bool, false, ◌||◌, ◌↔◌, Option, none, List, [], ◌∷◌, ◌≡◌, refl, sym, ap, arith, any, Bool-cases,
  inl, inr,
}
use pf9_oidc_proxy.Strings.{Str, ◌==◌}
use pf9_oidc_proxy.Strings.Equality.{eq_iff}
use pf9_oidc_proxy.Result.{ok, >>=-eq-ok, ok-injective}
use pf9_oidc_proxy.Users.{User}
use pf9_oidc_proxy.Http.{Header, get}
use pf9_oidc_proxy.Access.Review.{Review, Reply}
use pf9_oidc_proxy.Access.Check.{
  Found, nothing_found, impersonate_user, check_header, check_headers, conclude,
  check_authorized_for_impersonation,
}
use pf9_oidc_proxy.Access.Spec.{effect, effects, classify}
use pf9_oidc_proxy.Access.Outcomes.{
  asks_impersonation, NoImpersonation, check_authorized_iff, check_authorized-none,
  check_headers-false,
}

abbrev pub any_asks : Header → Bool
any_asks header = any (λ e. asks_impersonation e.0) header

effect-has_impersonation :
    (key : Str) (vs : List Str) (f : Found)
    → (effect (classify key) key vs f).has_impersonation
      ≡ (asks_impersonation key || f.has_impersonation)
unfolding classify
effect-has_impersonation key [] f = ground arith
effect-has_impersonation key (v ∷ vs) f = ground arith

pub effects-has_impersonation :
    (header : Header) (f : Found)
    → (effects header f).has_impersonation ≡ (any_asks header || f.has_impersonation)
effects-has_impersonation [] f = refl
effects-has_impersonation ((key, vs) ∷ header) f = ground (
  arith,
  effect-has_impersonation key vs f,
  effects-has_impersonation header (effect (classify key) key vs f),
)

module _ (create : Review → Reply) (requester : User) where
  check_headers-any_asks :
      (header : Header) (f f' : Found)
      → check_headers create requester false header f ≡ ok f'
      → any_asks header ≡ false
  unfolding check_headers check_header
  check_headers-any_asks [] f f' e = refl
  check_headers-any_asks ((key, vs) ∷ header) f f' e = elim (Bool-cases (asks_impersonation key)) [
    | inl h ↦ cc (rw (h, check_headers, check_header) at e)
    | inr h ↦ rw h (check_headers-any_asks header f f' (rw (h, check_headers, check_header) at e))
  ]

  -- No target is handed back only for a request with no impersonation header, and then its headers
  -- stay as they are.
  pub check_authorized-none_inv :
      (header left : Header)
      → check_authorized_for_impersonation create requester header ≡ ok (none, left)
      → (any_asks header ≡ false) × (left ≡ header)
  unfolding check_authorized_for_impersonation
  check_authorized-none_inv header left e = elim (Bool-cases (get impersonate_user header == [])) [
    | inl empty ↦
        let (f, passed, last) =
          >>=-eq-ok (check_headers create requester false header nothing_found) _ (rw empty at e) in
        (
          check_headers-any_asks header nothing_found f passed,
          sym (
              ap (λ r. r.1)
                (ok-injective (
                  rw (check_headers-false create requester header nothing_found f passed) at
                    last))),
        )
    | inr named ↦
        let same =
          ((check_authorized_iff create requester header (none, left)
              (ground (arith, eq_iff (get impersonate_user header) []))).0
            e).1 in
        concluded (effects header nothing_found) (effects-has_impersonation header nothing_found)
          same
  ]
    where
      concluded :
          (f : Found)
          → f.has_impersonation ≡ (any_asks header || false)
          → ◌≡◌ {A = Option User × Header} (none, left) (conclude header f)
          → (any_asks header ≡ false) × (left ≡ header)
      concluded f h same = elim (Bool-cases f.has_impersonation) [
        | inl yes_it ↦ cc (ap (λ r. r.0) (rw yes_it at same))
        | inr no_it ↦ (ground arith, ap (λ r. r.1) (rw no_it at same))
      ]

any_asks-NoImpersonation : (header : Header) → any_asks header ≡ false → NoImpersonation header
any_asks-NoImpersonation [] _ = tt
any_asks-NoImpersonation ((key, vs) ∷ header) h = elim (Bool-cases (asks_impersonation key)) [
  | inl e ↦ cc (rw e at h)
  | inr e ↦ (e, any_asks-NoImpersonation header (rw e at h))
]

module _ (create : Review → Reply) (requester : User) where
  -- No target is handed back exactly for a request with no impersonation header, and the headers that
  -- are left are then those of the request.
  pub check_authorized_none_iff :
      (header left : Header)
      → (check_authorized_for_impersonation create requester header ≡ ok (none, left))
        ↔ ((any_asks header ≡ false) × (left ≡ header))
  check_authorized_none_iff header left = (
    check_authorized-none_inv create requester header left,
    λ (h : (any_asks header ≡ false) × (left ≡ header)).
        rw h.1
          (check_authorized-none create requester header (any_asks-NoImpersonation header h.0)),
  )
