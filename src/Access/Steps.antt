-- ===== src/Access/Steps.antt =====
-- Each check of one header passes exactly when its reviews are granted, and then has its effect.
use pf9_oidc_proxy.Base.{
  true, List, [], ◌∷◌, ◌++◌, ◌≡◌, ◌↔◌, refl, arith, All, append_assoc, append-nil,
}
use pf9_oidc_proxy.Strings.{Str, bytes, split, index}
use pf9_oidc_proxy.Strings.Equality.{eq_iff}
use pf9_oidc_proxy.Strings.Splitting.{split-append, split-cons}
use pf9_oidc_proxy.Result.{ok}
use pf9_oidc_proxy.Maps.{append_value, append_values}
use pf9_oidc_proxy.Users.{User}
use pf9_oidc_proxy.Access.Review.{
  Review, Reply, answered, failed, reply_result, review_of, authentication_group,
  check_rbac_impersonation_authorization,
}
use pf9_oidc_proxy.Access.Check.{
  Found, authorized, check_user, check_groups, check_uid, check_extras,
}
use pf9_oidc_proxy.Access.Spec.{Kind, MayGroup, MayExtra, Permitted, mark, effect, first_of}

module _ (create : Review → Reply) (requester : User) where
  pub authorized-users :
      (name : Str)
      → authorized create requester (bytes "users") name
        ≡ reply_result (create (review_of requester (bytes "users") [] [] name))
  unfolding check_rbac_impersonation_authorization index
  authorized-users name = refl

  pub authorized-groups :
      (name : Str)
      → authorized create requester (bytes "groups") name
        ≡ reply_result (create (review_of requester (bytes "groups") [] [] name))
  unfolding check_rbac_impersonation_authorization index
  authorized-groups name = refl

  pub authorized-uids :
      (name : Str)
      → authorized create requester (bytes "uids") name
        ≡ reply_result (create (review_of requester (bytes "uids") [] [] name))
  unfolding check_rbac_impersonation_authorization index
  authorized-uids name = refl

  pub authorized-extras :
      (key value : Str)
      → authorized create requester (bytes "userextras/" ++ key) value
        ≡ reply_result (
            create (
              review_of requester
                (bytes "userextras")
                (first_of (split b'/' key))
                authentication_group
                value))
  unfolding check_rbac_impersonation_authorization index
  authorized-extras key value =
      let (q, qs, e) = split-cons b'/' key in
      rw (split-append b'/' (bytes "userextras") key (ground arith)) (rw e)

  reply-true : (r : Reply) → (reply_result r ≡ ok true) ↔ (r ≡ answered true)
  unfolding reply_result
  reply-true (answered b) = ground arith
  reply-true (failed text) = ground arith

  pub check_user_iff :
      (vs : List Str) (key : Str) (f f' : Found)
      → (check_user create requester vs (mark key f) ≡ ok f')
        ↔ (Permitted create requester Kind.user vs × (f' ≡ effect Kind.user key vs f))
  unfolding check_user
  check_user_iff [] key f f' = ground arith
  check_user_iff (v ∷ vs) key f f' = rw (authorized-users v) (
      ground
        (arith, eq_iff v [], reply-true (create (review_of requester (bytes "users") [] [] v))))

  pub check_groups_iff :
      (vs : List Str) (f f' : Found)
      → (check_groups create requester vs f ≡ ok f')
        ↔ (All (MayGroup create requester) vs × (f' ≡ record f { groups = f.groups ++ vs }))
  unfolding check_groups
  check_groups_iff [] f f' = rw (append-nil f.groups) (ground arith)
  check_groups_iff (v ∷ vs) f f' = rw (authorized-groups v) (
      ground (
        arith,
        reply-true (create (review_of requester (bytes "groups") [] [] v)),
        check_groups_iff vs (record f { groups = f.groups ++ v ∷ [] }) f',
        append_assoc f.groups (v ∷ []) vs,
      ))

  pub check_uid_iff :
      (vs : List Str) (key : Str) (f f' : Found)
      → (check_uid create requester vs (mark key f) ≡ ok f')
        ↔ (Permitted create requester Kind.uid vs × (f' ≡ effect Kind.uid key vs f))
  unfolding check_uid
  check_uid_iff [] key f f' = ground arith
  check_uid_iff (v ∷ vs) key f f' =
      rw (authorized-uids v)
        (ground (arith, reply-true (create (review_of requester (bytes "uids") [] [] v))))

  pub check_extras_iff :
      (key : Str) (vs : List Str) (f f' : Found)
      → (check_extras create requester key vs f ≡ ok f') ↔ (
          All (MayExtra create requester key) vs
          × (f' ≡ record f { extra = append_values key vs f.extra }))
  unfolding check_extras
  check_extras_iff key [] f f' = ground arith
  check_extras_iff key (v ∷ vs) f f' = rw (authorized-extras key v) (
      ground (
        arith,
        reply-true (
            create (
              review_of requester (bytes "userextras") (first_of (split b'/' key))
                authentication_group v)),
        check_extras_iff key vs (record f { extra = append_value key v f.extra }) f',
      ))
