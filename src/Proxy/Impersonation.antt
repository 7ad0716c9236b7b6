-- ===== src/Proxy/Impersonation.antt =====
-- withImpersonateRequest of pkg/proxy/handlers.go.
pub mod Build
use pf9_oidc_proxy.Base.{
  ℕ, Bool, true, false, not, ◌&&◌, ◌||◌, Option, none, some, List, [], ◌∷◌, ◌++◌, any,
  if◌then◌else◌,
}
use pf9_oidc_proxy.Strings.{Str, bytes, ◌==◌, to_lower, has_prefix}
use pf9_oidc_proxy.Maps.{Map}
use pf9_oidc_proxy.Result.{Result, ok, err, panic}
use pf9_oidc_proxy.Users.{User}
use pf9_oidc_proxy.Http.{Header}
use pf9_oidc_proxy.Access.Review.{Review, Reply}
use pf9_oidc_proxy.Access.Review
use pf9_oidc_proxy.Access.Check.{impersonate, check_authorized_for_impersonation}
use pf9_oidc_proxy.Token.{TokenReviewSpec, TokenReply}
use pf9_oidc_proxy.Audit.{Audit, new_unauthenticated_handler}
use pf9_oidc_proxy.Proxy.Context.{
  Request, ImpersonationRequest, no_impersonation, with_no_impersonation, with_impersonation_config,
  remote_addr,
}
use pf9_oidc_proxy.Proxy.Errors.{
  Error, no_name, review_error, other_error, Response, panicked, Handler, handle_error,
}
use pf9_oidc_proxy.Proxy.Impersonation.Build.{Config, build_request}

-- What AuthenticateRequest of k8s.io/apiserver returns: the user, not authenticated, or an error.
pub data Authentication : Type 0 where
  authenticated : User → Authentication
  not_authenticated : Authentication
  failed : Str → Authentication

-- The proxy: its configuration, and what it calls outside the repository. Authentication gives back
-- the headers as it leaves them.
pub record Proxy (Query : Type 0) : Type 0 where
  pub config : Config
  pub get_remote_addr : Request Query → Str
  pub authenticate_request : Request Query → Authentication × Header
  pub create_token_review : TokenReviewSpec → TokenReply
  pub audiences : List Str
  pub create_access_review : Review → Reply
  pub marshal : Map (List Str) → Result Str Str
  pub auditor : Audit Query

unfoldable pub has_impersonation : Header → Bool
has_impersonation header = any (λ e. has_prefix (to_lower e.0) impersonate) header

module _ {Query : Type 0} (p : Proxy Query) where
  abbrev pub fail : Request Query → Error → Response Query
  fail req e = handle_error (new_unauthenticated_handler (some p.auditor)) req (some e)

  unfoldable pub pass_on :
      Handler Query → Request Query → Result Str (ImpersonationRequest × User) → Response Query
  pass_on handler req (ok (conf, shared)) = handler (
      with_impersonation_config
        (record req { context = record (req.context) { user = some shared } }) conf)
  pass_on handler req (err text) = fail req (other_error text)
  pass_on handler req panic = panicked

  -- With the target of the impersonation, or nil.
  unfoldable pub with_target :
      Handler Query
      → Request Query
      → Str
      → User
      → Result Review.Error (Option User × Header)
      → Response Query
  unfolding pass_on
  with_target handler req address user (ok (target, left)) =
      pass_on handler (record req { header = left })
        (build_request p.config p.marshal address user target)
  with_target handler req address user (err e) = fail req (review_error e)
  with_target handler req address user panic = panicked

  unfoldable pub with_user_of_context :
      Handler Query → Request Query → Str → Option User → Response Query
  unfolding with_target has_impersonation
  with_user_of_context handler req address none = fail req no_name
  with_user_of_context handler req address (some user) =
      if user.name == []
      then fail req no_name
      else with_target handler req address user (
          if has_impersonation req.header
          then check_authorized_for_impersonation p.create_access_review user req.header
          else ok (none, req.header))

  unfoldable pub impersonate_request : Handler Query → Request Query × Str → Response Query
  unfolding with_user_of_context
  impersonate_request handler (req, address) =
      if p.config.disable_impersonation
      then handler (with_no_impersonation req)
      else with_user_of_context handler req address req.context.user

  unfoldable pub with_impersonate_request : Handler Query → Handler Query
  unfolding impersonate_request
  with_impersonate_request handler req =
      if no_impersonation req
      then handler req
      else impersonate_request handler (remote_addr p.get_remote_addr req)
