-- ===== src/Access/Check.antt =====
-- CheckAuthorizedForImpersonation of pkg/proxy/subjectaccessreview/subjectaccessreview.go. A header's
-- list of entries is the order in which Go's loop meets them.
use pf9_oidc_proxy.Base.{
  ℕ, zero, suc, Bool, true, false, not, Option, none, some, List, [], ◌∷◌, ◌++◌, any, if◌then◌else◌,
}
use pf9_oidc_proxy.Strings.{Str, bytes, ◌==◌, to_lower, has_prefix}
use pf9_oidc_proxy.Maps.{Map, append_value}
use pf9_oidc_proxy.Result.{Result, ok, err, panic, ◌>>=◌}
use pf9_oidc_proxy.Users.{User}
use pf9_oidc_proxy.Http.{Header, get, values, add}
use pf9_oidc_proxy.Access.Review.{
  Review, Reply, Error, no_impersonation_user_found, user_not_allowed, group_not_allowed,
  uid_not_allowed, extra_not_allowed, unknown_header, check_rbac_impersonation_authorization,
}

abbrev pub impersonate : Str
impersonate = bytes "impersonate-"

abbrev pub impersonate_user : Str
impersonate_user = bytes "impersonate-user"

abbrev pub impersonate_group : Str
impersonate_group = bytes "impersonate-group"

abbrev pub impersonate_uid : Str
impersonate_uid = bytes "impersonate-uid"

abbrev pub impersonate_extra : Str
impersonate_extra = bytes "impersonate-extra-"

-- The variables of the loop: `targetUser`, `headersToRemove` and `hasImpersonation`. The target's
-- extra is a map that is never nil.
pub record Found : Type 0 where
  pub name : Str
  pub groups : List Str
  pub uid : Str
  pub extra : Map (List Str)
  pub headers_to_remove : List Str
  pub has_impersonation : Bool

abbrev pub nothing_found : Found
nothing_found = record {
  name = [];
  groups = [];
  uid = [];
  extra = [];
  headers_to_remove = [];
  has_impersonation = false;
}

abbrev pub target_user : Found → User
target_user f = record { name = f.name; uid = f.uid; groups = f.groups; extra = some f.extra }

-- The text behind the first n bytes
abbrev pub drop : ℕ → Str → Str
drop zero s = s
drop (suc n) [] = []
drop (suc n) (c ∷ s) = drop n s

module _ (create : Review → Reply) (requester : User) where
  abbrev pub authorized : Str → Str → Result Error Bool
  authorized resource name = check_rbac_impersonation_authorization create resource name requester

  unfoldable pub check_user : List Str → Found → Result Error Found
  check_user [] f = panic
  check_user (user_to_impersonate ∷ _) f =
      if user_to_impersonate == []
      then ok f
      else (authorized (bytes "users") user_to_impersonate >>= λ result.
          if result
          then ok (record f { name = user_to_impersonate })
          else err (user_not_allowed requester.name user_to_impersonate))

  unfoldable pub check_groups : List Str → Found → Result Error Found
  check_groups [] f = ok f
  check_groups (group_name ∷ rest) f = authorized (bytes "groups") group_name >>= λ result.
      if result
      then check_groups rest (record f { groups = f.groups ++ group_name ∷ [] })
      else err (group_not_allowed requester.name group_name)

  unfoldable pub check_uid : List Str → Found → Result Error Found
  check_uid [] f = panic
  check_uid (uid_to_impersonate ∷ _) f = authorized (bytes "uids") uid_to_impersonate >>= λ result.
      if result
      then ok (record f { uid = uid_to_impersonate })
      else err (uid_not_allowed requester.name uid_to_impersonate)

  unfoldable pub check_extras : Str → List Str → Found → Result Error Found
  check_extras extra_name [] f = ok f
  check_extras extra_name (value ∷ rest) f =
      authorized (bytes "userextras/" ++ extra_name) value >>= λ result.
      if result
      then check_extras extra_name rest (record f { extra = append_value extra_name value f.extra })
      else err (extra_not_allowed requester.name extra_name value)

  -- The body of the loop over the headers.
  unfoldable pub check_header : Bool → Str → List Str → Found → Result Error Found
  unfolding check_user check_groups check_uid check_extras
  check_header has_impersonated_user key vs f =
      let key_to_check = to_lower key in
      let f' = record f {
        headers_to_remove = key ∷ f.headers_to_remove;
        has_impersonation = true;
      } in
      if has_prefix key_to_check impersonate
      then (if not has_impersonated_user
          then err no_impersonation_user_found
          else if key_to_check == impersonate_user
          then check_user vs f'
          else if key_to_check == impersonate_group
          then check_groups vs f'
          else if key_to_check == impersonate_uid
          then check_uid vs f'
          else if has_prefix key_to_check impersonate_extra
          then check_extras (to_lower (drop 18 key)) vs f'
          else err (unknown_header key))
      else ok f

  unfoldable pub check_headers : Bool → Header → Found → Result Error Found
  unfolding check_header
  check_headers has_impersonated_user [] f = ok f
  check_headers has_impersonated_user ((key, vs) ∷ header) f =
      check_header has_impersonated_user key vs f >>= λ f'.
      check_headers has_impersonated_user header f'

abbrev pub add_all : Str → List Str → Header → Header
add_all key [] header = header
add_all key (v ∷ vs) header = add_all key vs (add key v header)

-- The loop that copies the headers which are not to be removed.
unfoldable pub copy_headers : List Str → Header → Header → Header → Header
copy_headers removed header [] copied = copied
copy_headers removed header ((key, _) ∷ rest) copied =
    copy_headers removed header rest
      (if any (λ k. k == key) removed then copied else add_all key (values key header) copied)

abbrev pub conclude : Header → Found → Option User × Header
conclude header f =
    if f.has_impersonation
    then (some (target_user f), copy_headers f.headers_to_remove header header [])
    else (none, header)

-- The target, or nil, and the headers that the request is left with.
unfoldable pub check_authorized_for_impersonation :
    (Review → Reply) → User → Header → Result Error (Option User × Header)
unfolding check_headers copy_headers
check_authorized_for_impersonation create requester header =
    check_headers create requester (not (get impersonate_user header == [])) header nothing_found
    >>= λ f. ok (conclude header f)
