-- ===== src/Token.antt =====
-- pkg/util/token.go and pkg/proxy/tokenreview: bearer tokens and their review by the API server.
pub mod Parse
pub mod Accepted
pub mod Fake
use pf9_oidc_proxy.Base.{
  ℕ, zero, suc, Bool, true, false, not, ◌||◌, Option, none, some, List, [], ◌∷◌, if◌then◌else◌,
}
use pf9_oidc_proxy.Strings.{Str, bytes, ◌==◌, split, to_lower, trim_space}
use pf9_oidc_proxy.Result.{Result, ok, err}
use pf9_oidc_proxy.Http.{Header, get}

abbrev pub authorization : Str
authorization = bytes "Authorization"

abbrev pub bearer : Str
bearer = bytes "bearer"

-- Of the parts between spaces: the second, if the first is `bearer` and the second is not empty.
unfoldable pub token_of_parts : List Str → Option Str
token_of_parts (scheme ∷ token ∷ _) =
    if not (to_lower scheme == bearer) then none else if token == [] then none else some token
token_of_parts _ = none

-- A request is never nil here; a nil header reads as an empty one.
unfoldable pub parse_token_from_request : Header → Option Str
unfolding token_of_parts
parse_token_from_request header =
    let auth = trim_space (get authorization header) in
    if auth == [] then none else token_of_parts (split b' ' auth)

-- `authv1.TokenReviewSpec`
pub record TokenReviewSpec : Type 0 where
  pub token : Str
  pub audiences : List Str

-- What `Create` returns: the status' error text and `Authenticated`, or an error.
pub data TokenReply : Type 0 where
  status : Str → Bool → TokenReply
  failed : Str → TokenReply

pub data Error : Type 0 where
  token_not_found : Error
  api_error status_error : Str → Error

unfoldable pub build_review : List Str → Str → TokenReviewSpec
build_review audiences token = record { token = token; audiences = audiences }

review_result : TokenReply → Result Error Bool
review_result (failed text) = err (api_error text)
review_result (status error authenticated) =
    if error == [] then ok authenticated else err (status_error error)

review_token : (TokenReviewSpec → TokenReply) → List Str → Option Str → Result Error Bool
unfolding build_review review_result
review_token create audiences none = err token_not_found
review_token create audiences (some token) = review_result (create (build_review audiences token))

unfoldable pub review : (TokenReviewSpec → TokenReply) → List Str → Header → Result Error Bool
unfolding review_token parse_token_from_request
review create audiences header = review_token create audiences (parse_token_from_request header)
