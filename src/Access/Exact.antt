-- ===== src/Access/Exact.antt =====
-- The loop over the headers passes exactly when every header is permitted, and then has found what
-- the headers ask for.
use pf9_oidc_proxy.Base.{true, List, [], ◌∷◌, ◌≡◌, ◌↔◌, refl, ap, ◌∙◌, arith}
use pf9_oidc_proxy.Strings.{Str}
use pf9_oidc_proxy.Result.{Result, ok, err, >>=-eq-ok}
use pf9_oidc_proxy.Users.{User}
use pf9_oidc_proxy.Http.{Header}
use pf9_oidc_proxy.Access.Review.{Review, Reply, Error, unknown_header}
use pf9_oidc_proxy.Access.Check.{
  Found, check_user, check_groups, check_uid, check_extras, check_header, check_headers,
}
use pf9_oidc_proxy.Access.Spec.{
  Kind, other, user, group, uid, unknown, extra, Permitted, AllPermitted, mark, effect, effects,
  classify,
}
use pf9_oidc_proxy.Access.Steps.{check_user_iff, check_groups_iff, check_uid_iff, check_extras_iff}

module _ (create : Review → Reply) (requester : User) where
  -- The ladder of conditions, by the kind of the header.
  by_kind : Kind → Str → List Str → Found → Result Error Found
  by_kind other key vs f = ok f
  by_kind user key vs f = check_user create requester vs (mark key f)
  by_kind group key vs f = check_groups create requester vs (mark key f)
  by_kind uid key vs f = check_uid create requester vs (mark key f)
  by_kind (extra k) key vs f = check_extras create requester k vs (mark key f)
  by_kind unknown key vs f = err (unknown_header key)

  check_header-by_kind :
      (key : Str) (vs : List Str) (f : Found)
      → check_header create requester true key vs f ≡ by_kind (classify key) key vs f
  unfolding check_header classify by_kind
  check_header-by_kind key vs f = ground arith

  by_kind_iff :
      (k : Kind) (key : Str) (vs : List Str) (f f' : Found)
      → (by_kind k key vs f ≡ ok f') ↔ (Permitted create requester k vs × (f' ≡ effect k key vs f))
  unfolding by_kind
  by_kind_iff other key vs f f' = ground arith
  by_kind_iff user key vs f f' = check_user_iff create requester vs key f f'
  by_kind_iff group key vs f f' = check_groups_iff create requester vs (mark key f) f'
  by_kind_iff uid key vs f f' = check_uid_iff create requester vs key f f'
  by_kind_iff (extra k) key vs f f' = check_extras_iff create requester k vs (mark key f) f'
  by_kind_iff unknown key vs f f' = ground arith

  pub check_header_iff :
      (key : Str) (vs : List Str) (f f' : Found)
      → (check_header create requester true key vs f ≡ ok f')
        ↔ (Permitted create requester (classify key) vs × (f' ≡ effect (classify key) key vs f))
  check_header_iff key vs f f' =
      rw (check_header-by_kind key vs f) (by_kind_iff (classify key) key vs f f')

  -- The loop over the headers, for a request that has a user to impersonate.
  pub check_headers_iff :
      (header : Header) (f f' : Found)
      → (check_headers create requester true header f ≡ ok f')
        ↔ (AllPermitted create requester header × (f' ≡ effects header f))
  unfolding check_headers
  check_headers_iff [] f f' = ground arith
  check_headers_iff ((key, vs) ∷ header) f f' = (
    λ h.
        let (g, first, later) = >>=-eq-ok _ _ h in
        let (p, e) = (check_header_iff key vs f g).0 first in
        let (ps, e') = (check_headers_iff header g f').0 later in
        ((p, ps), e' ∙ ap (effects header) e),
    λ h.
        rw ((check_header_iff key vs f (effect (classify key) key vs f)).1 (h.0.0, refl))
          ((check_headers_iff header (effect (classify key) key vs f) f').1 (h.0.1, h.1)),
  )
