-- ===== src/Proxy/Handlers.antt =====
-- The handlers of pkg/proxy/handlers.go in front of the impersonation, and their chain.
use pf9_oidc_proxy.Base.{Bool, false, not, if◌then◌else◌}
use pf9_oidc_proxy.Result.{Result, ok}
use pf9_oidc_proxy.Token.{Error, review}
use pf9_oidc_proxy.Audit.{with_request}
use pf9_oidc_proxy.Proxy.Context.{Request, with_no_impersonation, with_user, remote_addr}
use pf9_oidc_proxy.Proxy.Errors.{unauthorized, Response, Handler}
use pf9_oidc_proxy.Proxy.Impersonation.{
  Authentication, authenticated, not_authenticated, failed, Proxy, fail, with_impersonate_request,
}

-- An error counts as no.
unfoldable pub is_reviewed : Result Error Bool → Bool
is_reviewed (ok b) = b
is_reviewed _ = false

module _ {Query : Type 0} (p : Proxy Query) where
  unfoldable pub review_token : Request Query → Bool
  unfolding is_reviewed
  review_token req = is_reviewed (review p.create_token_review p.audiences req.header)

  unfoldable pub with_token_review : Handler Query → Handler Query
  unfolding review_token
  with_token_review handler req =
      if not p.config.token_review
      then fail p req unauthorized
      else if not (review_token req)
      then fail p req unauthorized
      else handler (with_no_impersonation req)

  unfoldable pub authenticated_request :
      Handler Query → Request Query → Authentication → Response Query
  unfolding with_token_review
  authenticated_request handler req (failed text) = with_token_review handler req
  authenticated_request handler req not_authenticated = fail p req unauthorized
  authenticated_request handler req (authenticated user) =
      handler (with_user (remote_addr p.get_remote_addr req).0 user)

  unfoldable pub with_authenticate_request : Handler Query → Handler Query
  unfolding authenticated_request
  with_authenticate_request handler req =
      let (info, left) = p.authenticate_request req in
      authenticated_request handler (record req { header = left }) info

  unfoldable pub with_handlers : Handler Query → Handler Query
  unfolding with_authenticate_request
  with_handlers handler =
      with_authenticate_request (with_impersonate_request p (with_request p.auditor handler))
