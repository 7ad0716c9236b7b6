-- ===== src/Access/Outcomes.antt =====
-- The outcomes of CheckAuthorizedForImpersonation.
use pf9_oidc_proxy.Base.{
  Bool, true, false, Option, none, some, List, [], ◌∷◌, ◌++◌, ◌≡◌, ◌≢◌, ◌↔◌, inl, inr, refl, sym,
  ap, ◌∙◌, All, Bool-cases,
}
use pf9_oidc_proxy.Strings.{Str, ◌==◌, to_lower, has_prefix}
use pf9_oidc_proxy.Strings.Equality.{eq-false}
use pf9_oidc_proxy.Result.{ok, err, >>=-eq-ok, ok-injective}
use pf9_oidc_proxy.Users.{User}
use pf9_oidc_proxy.Http.{Header, get}
use pf9_oidc_proxy.Access.Review.{Review, Reply, no_impersonation_user_found}
use pf9_oidc_proxy.Access.Check.{
  Found, nothing_found, impersonate, impersonate_user, check_header, check_headers, conclude,
  check_authorized_for_impersonation,
}
use pf9_oidc_proxy.Access.Spec.{AllPermitted, effects}
use pf9_oidc_proxy.Access.Exact.{check_headers_iff}

-- A header whose name starts with `Impersonate-`, in any case.
abbrev pub asks_impersonation : Str → Bool
asks_impersonation key = has_prefix (to_lower key) impersonate

abbrev pub NoImpersonation : Header → Type 0
NoImpersonation header = All (λ e. asks_impersonation e.0 ≡ false) header

module _ (create : Review → Reply) (requester : User) where
  -- A request with a user to impersonate passes exactly if each of its impersonation headers is known
  -- and every value of theirs has been granted to the requester.
  pub check_authorized_iff :
      (header : Header) (result : Option User × Header)
      → get impersonate_user header ≢ []
      → (check_authorized_for_impersonation create requester header ≡ ok result) ↔ (
          AllPermitted create requester header
          × (result ≡ conclude header (effects header nothing_found)))
  unfolding check_authorized_for_impersonation
  check_authorized_iff header result h = rw (eq-false (get impersonate_user header) [] h) (
      (
        λ e.
            let (f, first, last) =
              >>=-eq-ok (check_headers create requester true header nothing_found) _ e in
            let (p, e') = (check_headers_iff create requester header nothing_found f).0 first in
            (p, sym (ok-injective last) ∙ ap (conclude header) e'),
        λ p.
            rw
              ((check_headers_iff create requester header nothing_found
                  (effects header nothing_found)).1
                (p.0, refl))
              (ap ok (sym p.1)),
      ))

  check_headers-other :
      (b : Bool) (header : Header) (f : Found)
      → NoImpersonation header
      → check_headers create requester b header f ≡ ok f
  unfolding check_headers check_header
  check_headers-other b [] f _ = refl
  check_headers-other b ((key, vs) ∷ header) f (h, hs) = rw h (check_headers-other b header f hs)

  -- With no impersonation header there is no target, and the headers stay as they are.
  pub check_authorized-none :
      (header : Header)
      → NoImpersonation header
      → check_authorized_for_impersonation create requester header ≡ ok (none, header)
  unfolding check_authorized_for_impersonation
  check_authorized-none header h = rw (check_headers-other _ header nothing_found h)

  check_headers-no_user :
      (before : Header) (key : Str) (vs : List Str) (header : Header) (f : Found)
      → NoImpersonation before
      → asks_impersonation key ≡ true
      → check_headers create requester false (before ++ (key, vs) ∷ header) f
        ≡ err no_impersonation_user_found
  unfolding check_headers check_header
  check_headers-no_user [] key vs header f _ h = rw (h, check_headers, check_header)
  check_headers-no_user ((k, ws) ∷ before) key vs header f (n, ns) h =
      rw n (check_headers-no_user before key vs header f ns h)

  -- A request with an impersonation header, for which `Get` finds no user to impersonate, is refused
  -- with the error for a missing user. The header named is the first of its kind.
  pub check_authorized-no_user :
      (before : Header) (key : Str) (vs : List Str) (header : Header)
      → NoImpersonation before
      → asks_impersonation key ≡ true
      → get impersonate_user (before ++ (key, vs) ∷ header) ≡ []
      → check_authorized_for_impersonation create requester (before ++ (key, vs) ∷ header)
        ≡ err no_impersonation_user_found
  unfolding check_authorized_for_impersonation ◌==◌
  check_authorized-no_user before key vs header n h e =
      rw (e, check_headers-no_user before key vs header nothing_found n h)

  pub check_headers-false :
      (header : Header) (f f' : Found)
      → check_headers create requester false header f ≡ ok f'
      → f' ≡ f
  unfolding check_headers check_header
  check_headers-false [] f f' e = sym (ok-injective e)
  check_headers-false ((key, vs) ∷ header) f f' e = elim (Bool-cases (asks_impersonation key)) [
    | inl h ↦ absurd (cc (rw (h, check_headers, check_header) at e))
    | inr h ↦ check_headers-false header f f' (rw (h, check_headers, check_header) at e)
  ]

  -- A target is handed back only for a request with a user to impersonate.
  pub check_authorized_some_user :
      (header left : Header) (target : User)
      → check_authorized_for_impersonation create requester header ≡ ok (some target, left)
      → get impersonate_user header ≢ []
  unfolding check_authorized_for_impersonation ◌==◌
  check_authorized_some_user header left target e empty =
      let (f, passed, last) =
        >>=-eq-ok (check_headers create requester false header nothing_found) _ (rw empty at e) in
      let nothing = check_headers-false header nothing_found f passed in cc (rw nothing at last)
