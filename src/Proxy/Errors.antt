-- ===== src/Proxy/Errors.antt =====
-- newErrorHandler of pkg/proxy/handlers.go.
use pf9_oidc_proxy.Base.{ℕ, Option, none, some, [], if◌then◌else◌}
use pf9_oidc_proxy.Strings.{Str, bytes, contains}
use pf9_oidc_proxy.Proxy.Context.{Request}
use pf9_oidc_proxy.Access.Review.{error_text}
use pf9_oidc_proxy.Access.Review

-- The errors that reach the handler. The first three are variables of package proxy.
pub data Error : Type 0 where
  unauthorized no_name no_impersonation_config : Error
  review_error : Review.Error → Error
  other_error : Str → Error

-- The client configurations that requests are sent with: the proxy's credentials, or none.
pub data Transport : Type 0 where
  client_transport no_auth_client_transport : Transport

-- What comes of a request: an answer by the proxy itself, a request sent to the API server, or a
-- panic, on which net/http drops the connection.
pub data Response (Query : Type 0) : Type 0 where
  http_error : Str → ℕ → Response Query
  sent : Transport → Request Query → Response Query
  panicked : Response Query

abbrev pub Handler : Type 0 → Type 0
Handler Query = Request Query → Response Query

abbrev pub not_allowed_text : Str
not_allowed_text = bytes "not allowed to impersonate"

module _ {Query : Type 0} where
  -- The default case of the switch, by the error's text.
  unknown_error : Str → Response Query
  unknown_error text =
      if contains text not_allowed_text then http_error text 403 else http_error [] 500

  unauthenticated : Handler Query
  unauthenticated req = http_error (bytes "Unauthorized") 401

  -- `none` is a nil error. `with_unauthorized` is the wrapping by the audit filters of k8s.io/apiserver.
  unfoldable pub handle_error :
      (Handler Query → Handler Query) → Request Query → Option Error → Response Query
  unfolding unknown_error unauthenticated error_text
  handle_error with_unauthorized req none = http_error [] 500
  handle_error with_unauthorized req (some unauthorized) = with_unauthorized unauthenticated req
  handle_error with_unauthorized req (some no_name) =
      http_error (bytes "Username claim not available in OIDC Issuer response") 403
  handle_error with_unauthorized req (some no_impersonation_config) = http_error [] 500
  handle_error with_unauthorized req (some (review_error Review.no_impersonation_user_found)) =
      http_error (error_text Review.no_impersonation_user_found) 500
  handle_error with_unauthorized req (some (review_error e)) = unknown_error (error_text e)
  handle_error with_unauthorized req (some (other_error text)) = unknown_error text
