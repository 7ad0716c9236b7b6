-- ===== src/Proxy/Laws/Delivery.antt =====
-- How the request of an authenticated user reaches the API server.
use pf9_oidc_proxy.Base.{
  false, Option, none, some, [], ◌≡◌, ◌≢◌, refl, arith, if◌then◌else◌, ap, ◌∙◌, if-false,
}
use pf9_oidc_proxy.Strings.{Str, ◌==◌}
use pf9_oidc_proxy.Strings.Equality.{eq_iff}
use pf9_oidc_proxy.Result.{Result, ok}
use pf9_oidc_proxy.Users.{User}
use pf9_oidc_proxy.Http.{Header}
use pf9_oidc_proxy.Access.Review
use pf9_oidc_proxy.Access.Check.{check_authorized_for_impersonation}
use pf9_oidc_proxy.Audit.{with_request}
use pf9_oidc_proxy.Audit.Filters.{AllPass, with_request-Passes}
use pf9_oidc_proxy.Namespace.Region.{QueryCodec, Url}
use pf9_oidc_proxy.Namespace.RoundTrip.{rewrite_url}
use pf9_oidc_proxy.Proxy.Context.{
  Request, ImpersonationConfig, ImpersonationRequest, with_impersonation_config, with_user,
  remote_addr, no_impersonation, impersonation_config,
}
use pf9_oidc_proxy.Proxy.Errors.{Transport, sent, Handler}
use pf9_oidc_proxy.Proxy.Impersonation.Build.{build_request}
use pf9_oidc_proxy.Proxy.Impersonation.{
  Proxy, authenticated, has_impersonation, with_impersonate_request, impersonate_request,
  with_user_of_context, with_target, pass_on,
}
use pf9_oidc_proxy.Proxy.Handlers.{with_handlers, with_authenticate_request, authenticated_request}
use pf9_oidc_proxy.Proxy.Transports.{Transports, round_trip, proxy_handler, serve_request}
use pf9_oidc_proxy.Proxy.Laws.Admitted.{fresh}

-- The target of the impersonation, if one is asked for, and the header that is left.
abbrev pub target_of :
    {Query : Type 0} → Proxy Query → User → Header → Result Review.Error (Option User × Header)
target_of p user header =
    if has_impersonation header
    then check_authorized_for_impersonation p.create_access_review user header
    else ok (none, header)

module _ {Query : Type 0} (p : Proxy Query) (header : Header) (url : Url Query)
    (address : Str) where
  -- The request behind the authentication.
  abbrev pub left_request : Request Query
  left_request = fresh (p.authenticate_request (fresh header url address)).1 url address

  -- The request as the audit filters get it.
  unfoldable pub handed : User → Header → ImpersonationRequest → User → Request Query
  unfolding with_impersonation_config with_user remote_addr
  handed user left conf shared =
      with_impersonation_config
        (record (with_user (remote_addr p.get_remote_addr left_request).0 shared) { header = left })
        conf

  module _ (user : User) (target : Option User) (left : Header) (conf : ImpersonationRequest)
      (shared : User)
      (known : (p.authenticate_request (fresh header url address)).0 ≡ authenticated user)
      (enabled : p.config.disable_impersonation ≡ false) (named : user.name ≢ [])
      (checked : target_of p user left_request.header ≡ ok (target, left))
      (built : build_request p.config p.marshal (p.get_remote_addr left_request) user target
        ≡ ok (conf, shared)) where
    -- A request that is not refused is handed on.
    pub with_handlers-handed :
        (handler : Handler Query)
        → with_handlers p handler (fresh header url address)
          ≡ with_request p.auditor handler (handed user left conf shared)
    unfolding with_handlers with_authenticate_request authenticated_request with_impersonate_request
        impersonate_request with_user_of_context with_target pass_on with_user remote_addr
        no_impersonation with_impersonation_config handed
    with_handlers-handed handler =
        let unnamed : (user.name == []) ≡ false = ground (arith, eq_iff user.name []) in
        let r = with_user (remote_addr p.get_remote_addr left_request).0 user in
        let h = with_request p.auditor handler in
        rw known (
          if-false p.config.disable_impersonation _ _ enabled
          ∙ if-false (user.name == []) _ _ unnamed
          ∙ ap (with_target p h r (p.get_remote_addr left_request) user) checked
          ∙ ap (pass_on p h (record r { header = left })) built)

module _ (codec : QueryCodec) (get_namespace : Str → Option Str)
    (impersonate : ImpersonationConfig → Header → Header) (p : Proxy codec.RawQuery)
    (outgoing : Request codec.RawQuery → Request codec.RawQuery) (ts : Transports) where
  open codec use {RawQuery}

  -- The request as the API server gets it.
  abbrev pub sent_request :
      Request RawQuery → ImpersonationRequest → Url RawQuery → Request RawQuery
  sent_request req conf url = record (outgoing req) {
    header = impersonate conf.config (outgoing req).header;
    url = url;
  }

  proxy_handler-impersonated :
      (req : Request RawQuery) (conf : ImpersonationRequest) (url : Url RawQuery) (t : Transport)
      → ts.namespace ≡ some t
      → no_impersonation (outgoing req) ≡ false
      → impersonation_config (outgoing req) ≡ some conf
      → rewrite_url codec get_namespace (outgoing req).url ≡ ok url
      → proxy_handler codec get_namespace impersonate p outgoing ts req
        ≡ sent t (sent_request req conf url)
  unfolding proxy_handler round_trip
  proxy_handler-impersonated req conf url t namespaced unmarked found rewritten = ground arith

  -- The request of an authenticated user with a name, with impersonation enabled, is sent to the API
  -- server through the namespace round tripper's transport: with the impersonation of
  -- the configuration that is built for the user, or for the target that the check of the
  -- impersonation headers returns; with the headers that this check leaves; and with the URL that
  -- the round tripper makes of it. The audit filters let the handler answer, the reverse proxy keeps
  -- the context, and the check, the configuration and the rewriting end without an error.
  pub serve_request-sent :
      (header : Header) (url : Url RawQuery) (address : Str) (user : User) (target : Option User)
      (left : Header) (conf : ImpersonationRequest) (shared : User) (t : Transport)
      (rewritten : Url RawQuery)
      → (p.authenticate_request (fresh header url address)).0 ≡ authenticated user
      → p.config.disable_impersonation ≡ false
      → user.name ≢ []
      → target_of p user (left_request p header url address).header ≡ ok (target, left)
      → build_request p.config p.marshal
          (p.get_remote_addr (left_request p header url address))
          user
          target
        ≡ ok (conf, shared)
      → AllPass p.auditor
      → ((r : Request RawQuery) → (outgoing r).context ≡ r.context)
      → ts.namespace ≡ some t
      → rewrite_url codec get_namespace
          (outgoing (handed p header url address user left conf shared)).url
        ≡ ok rewritten
      → serve_request codec get_namespace impersonate p outgoing ts (fresh header url address)
        ≡ sent t (sent_request (handed p header url address user left conf shared) conf rewritten)
  unfolding serve_request no_impersonation impersonation_config with_impersonation_config handed
  serve_request-sent header url address user target left conf shared t rewritten known enabled named
        checked built all_pass same namespaced routed =
      let r = handed p header url address user left conf shared in
      with_handlers-handed p header url address user target left conf shared known enabled named
        checked built _
      ∙ with_request-Passes p.auditor all_pass r _
      ∙ proxy_handler-impersonated r conf rewritten t namespaced (rw (same r) refl)
          (rw (same r) refl) routed
