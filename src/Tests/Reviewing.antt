-- ===== src/Tests/Reviewing.antt =====
-- Impersonation headers and bearer tokens.
use pf9_oidc_proxy.Base.{true, false, none, some, [], ◌∷◌, ◌≡◌, ◌≢◌, ◌↔◌, refl, if◌then◌else◌}
use pf9_oidc_proxy.Strings.{bytes, ◌==◌, split, index, to_lower, has_prefix, trim_space}
use pf9_oidc_proxy.Maps.{lookup, insert, values_at, append_value}
use pf9_oidc_proxy.Result.{ok, err}
use pf9_oidc_proxy.Users.{User, entries}
use pf9_oidc_proxy.Http.{Header, get, values, add}
use pf9_oidc_proxy.Access.Review.{
  Review, Reply, answered, review_of, group_not_allowed, unknown_header,
  check_rbac_impersonation_authorization,
}
use pf9_oidc_proxy.Access.Check.{
  nothing_found, conclude, check_authorized_for_impersonation, impersonate_user,
}
use pf9_oidc_proxy.Access.Spec.{AllPermitted, effects}
use pf9_oidc_proxy.Access.Sound.{IsAuthorized, checked_target-IsAuthorized}
use pf9_oidc_proxy.Access.Outcomes.{check_authorized_iff}
use pf9_oidc_proxy.Access.Untouched.{any_asks, check_authorized_none_iff}
use pf9_oidc_proxy.Token.{parse_token_from_request}

-- An API server that grants everything but the group `admins`.
abbrev pub create : Review → Reply
create review = answered (if review.name == bytes "admins" then false else true)

abbrev pub mmosley : User
mmosley = record { name = bytes "mmosley"; uid = []; groups = bytes "group1" ∷ []; extra = none }

abbrev pub asking : Header
asking =
    (bytes "Accept", bytes "json" ∷ [])
    ∷ (bytes "Impersonate-User", bytes "jjackson" ∷ [])
    ∷ (bytes "Impersonate-Group", bytes "g1" ∷ bytes "g2" ∷ [])
    ∷ (bytes "Impersonate-Extra-Scopes", bytes "view" ∷ bytes "edit" ∷ [])
    ∷ (bytes "Impersonate-Uid", bytes "1-2" ∷ [])
    ∷ []

abbrev pub jjackson : User
jjackson = record {
  name = bytes "jjackson";
  uid = bytes "1-2";
  groups = bytes "g1" ∷ bytes "g2" ∷ [];
  extra = some ((bytes "scopes", bytes "view" ∷ bytes "edit" ∷ []) ∷ []);
}

abbrev pub accept_only : Header
accept_only = (bytes "Accept", bytes "json" ∷ []) ∷ []

-- All that the check computes with.
pub checking : Unit {0}
unfolding check_authorized_for_impersonation check_rbac_impersonation_authorization review_of index
    split to_lower has_prefix ◌==◌ get values_at lookup insert append_value add values
checking = tt

pub checked :
    (check_authorized_for_impersonation create mmosley asking ≡ ok (some jjackson, accept_only))
    × (check_authorized_for_impersonation create mmosley (
          (bytes "Impersonate-User", bytes "u" ∷ [])
          ∷ (bytes "Impersonate-Group", bytes "admins" ∷ [])
          ∷ [])
        ≡ err (group_not_allowed (bytes "mmosley") (bytes "admins")))
    × (check_authorized_for_impersonation create mmosley (
          (bytes "Impersonate-User", bytes "u" ∷ [])
          ∷ (bytes "Impersonate-Foo", bytes "x" ∷ [])
          ∷ [])
        ≡ err (unknown_header (bytes "Impersonate-Foo")))
unfolding checking
checked = (refl, refl, refl)

checked_target-IsAuthorized_example :
    IsAuthorized create mmosley jjackson.name jjackson.uid jjackson.groups (entries jjackson.extra)
checked_target-IsAuthorized_example =
    checked_target-IsAuthorized create mmosley asking accept_only jjackson checked.0

asking_named : get impersonate_user asking ≢ []
unfolding checking
asking_named = cc

check_authorized_iff_example :
    (check_authorized_for_impersonation create mmosley asking ≡ ok (some jjackson, accept_only)) ↔ (
      AllPermitted create mmosley asking
      × ((some jjackson, accept_only) ≡ conclude asking (effects asking nothing_found)))
check_authorized_iff_example =
    check_authorized_iff create mmosley asking (some jjackson, accept_only) asking_named

check_authorized_none_iff_example :
    (check_authorized_for_impersonation create mmosley accept_only ≡ ok (none, accept_only))
    ↔ ((any_asks accept_only ≡ false) × (accept_only ≡ accept_only))
check_authorized_none_iff_example = check_authorized_none_iff create mmosley accept_only accept_only

parsed_tokens :
    (parse_token_from_request ((bytes "Authorization", bytes " bEaReR  foo" ∷ []) ∷ []) ≡ none)
    × (parse_token_from_request ((bytes "Authorization", bytes "Bearer foo bar" ∷ []) ∷ [])
        ≡ some (bytes "foo"))
    × (parse_token_from_request ((bytes "Authorization", bytes "foo" ∷ []) ∷ []) ≡ none)
    × (parse_token_from_request [] ≡ none)
unfolding parse_token_from_request checking trim_space
parsed_tokens = (refl, refl, refl, refl)
