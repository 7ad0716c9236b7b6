-- ===== src/Access/Review.antt =====
-- The reviews that the program submits, its errors, and checkRbacImpersonationAuthorization. The API
-- server's answer to a review is the argument `create`.
use pf9_oidc_proxy.Base.{ℕ, suc, Bool, Option, some, List, [], ◌∷◌, ◌++◌}
use pf9_oidc_proxy.Strings.{Str, bytes, index, split}
use pf9_oidc_proxy.Maps.{Map}
use pf9_oidc_proxy.Result.{Result, ok, err, panic}
use pf9_oidc_proxy.Users.{User, entries}

-- `v1.SubjectAccessReviewSpec` with its resource attributes.
pub record Review : Type 0 where
  pub user : Str
  pub groups : List Str
  pub extra : Map (List Str)
  pub verb : Str
  pub group : Str
  pub resource : Str
  pub subresource : Str
  pub name : Str

-- What `Create` returns: `Status.Allowed`, or an error with its text.
pub data Reply : Type 0 where
  answered : Bool → Reply
  failed : Str → Reply

pub data Error : Type 0 where
  no_impersonation_user_found : Error
  user_not_allowed group_not_allowed uid_not_allowed : Str → Str → Error
  extra_not_allowed : Str → Str → Str → Error
  unknown_header : Str → Error
  api_error : Str → Error

abbrev not_allowed : Str → Str → Str → Str
not_allowed requester what name =
    requester
    ++ (bytes " is not allowed to impersonate " ++ (what ++ (bytes " '" ++ (name ++ bytes "'"))))

-- The errors' texts. The first argument of an error is the requester's name.
unfoldable pub error_text : Error → Str
error_text no_impersonation_user_found = bytes "no Impersonation-User header found for request"
error_text (user_not_allowed requester name) = not_allowed requester (bytes "user") name
error_text (group_not_allowed requester name) = not_allowed requester (bytes "group") name
error_text (uid_not_allowed requester name) = not_allowed requester (bytes "uid") name
error_text (extra_not_allowed requester key value) =
    requester
    ++ (bytes " is not allowed to impersonate extra info '"
        ++ (key ++ (bytes "'='" ++ (value ++ bytes "'"))))
error_text (unknown_header key) = bytes "unknown impersonation header '" ++ (key ++ bytes "'")
error_text (api_error text) = text

abbrev pub authentication_group : Str
authentication_group = bytes "authentication.k8s.io"

unfoldable pub review_of : User → Str → Str → Str → Str → Review
review_of requester resource subresource group name = record {
  user = requester.name;
  groups = requester.groups;
  extra = entries requester.extra;
  verb = bytes "impersonate";
  group = group;
  resource = resource;
  subresource = subresource;
  name = name;
}

unfoldable pub reply_result : Reply → Result Error Bool
reply_result (answered allowed) = ok allowed
reply_result (failed text) = err (api_error text)

-- `newResources[0]` and `newResources[1]`
check_parts : (Review → Reply) → User → Str → List Str → Result Error Bool
unfolding review_of reply_result
check_parts create requester name (resource ∷ subresource ∷ _) =
    reply_result (create (review_of requester resource subresource authentication_group name))
check_parts create requester name _ = panic

-- `slashIndex > 0`
check_indexed : (Review → Reply) → User → Str → Str → Option ℕ → Result Error Bool
unfolding check_parts
check_indexed create requester resource name (some (suc slash_index)) =
    check_parts create requester name (split b'/' resource)
check_indexed create requester resource name _ =
    reply_result (create (review_of requester resource [] [] name))

unfoldable pub check_rbac_impersonation_authorization :
    (Review → Reply) → Str → Str → User → Result Error Bool
unfolding check_indexed
check_rbac_impersonation_authorization create resource name requester =
    check_indexed create requester resource name (index b'/' resource)
