-- ===== src/Proxy/Laws/Sending.antt =====
-- With which client configuration, and with which headers, requests are sent.
use pf9_oidc_proxy.Base.{
  Bool, true, false, ◌||◌, Option, none, some, [], ◌≡◌, ◌≢◌, ◌⊎◌, ◌↔◌, inl, inr, refl, arith,
  if◌then◌else◌, ap, ◌∙◌, Bool-cases, if-true,
}
use pf9_oidc_proxy.Strings.{Str, bytes}
use pf9_oidc_proxy.Result.{Result, ok, err, panic}
use pf9_oidc_proxy.Users.{User}
use pf9_oidc_proxy.Http.{Header, add}
use pf9_oidc_proxy.Token.{authorization, review, parse_token_from_request}
use pf9_oidc_proxy.Token
use pf9_oidc_proxy.Audit.Filters.{AllPass, with_request-Passes, unauthenticated-Passes}
use pf9_oidc_proxy.Namespace.Region.{QueryCodec, Url}
use pf9_oidc_proxy.Proxy.Context.{
  Request, ImpersonationConfig, no_impersonation, impersonation_config, bearer_token,
  with_no_impersonation, with_user, remote_addr,
}
use pf9_oidc_proxy.Proxy.Errors.{
  no_impersonation_config, Transport, client_transport, no_auth_client_transport, http_error, sent,
  Handler, handle_error,
}
use pf9_oidc_proxy.Proxy.Impersonation.Build.{Config}
use pf9_oidc_proxy.Proxy.Impersonation.{
  Proxy, authenticated, not_authenticated, failed, with_impersonate_request, impersonate_request,
}
use pf9_oidc_proxy.Proxy.Handlers.{
  with_handlers, with_authenticate_request, authenticated_request, with_token_review, review_token,
  is_reviewed,
}
use pf9_oidc_proxy.Proxy.Transports.{
  Transports, run_transports, round_trip, proxy_handler, serve_request,
}
use pf9_oidc_proxy.Proxy.Laws.Admission.{fresh}
use pf9_oidc_proxy.Proxy.Laws.Serving.{run_transports-no_auth}
use pf9_oidc_proxy.Proxy.Laws.Answering.{run_transports-bare}

-- Nothing fails when the transports are built.
abbrev pub no_failure : Transport → Option Str
no_failure _ = none

-- If none of the transports fails to be built, that of impersonated requests, of a proxy with a
-- namespace round tripper, has the proxy's own credentials, unless impersonation is disabled or token
-- review is enabled; then it has none.
pub run_transports-namespace :
    (config : Config) (initial : Transport)
    → (ts : Transports) × (run_transports no_failure config (some initial) ≡ ok ts)
      × (ts.client ≡ client_transport)
      × (ts.namespace
          ≡ some (
              if config.disable_impersonation || config.token_review
              then no_auth_client_transport
              else client_transport))
unfolding run_transports
run_transports-namespace config initial =
    elim (Bool-cases (config.disable_impersonation || config.token_review)) [
      | inl e ↦ (
        record {
          client = client_transport;
          no_auth = some no_auth_client_transport;
          namespace = some no_auth_client_transport;
        },
        rw e,
        refl,
        rw e,
      )
      | inr e ↦ (
        record { client = client_transport; no_auth = none; namespace = some client_transport },
        rw e,
        refl,
        rw e,
      )
    ]

reviewed-false : (m : Result Token.Error Bool) → m ≢ ok true → is_reviewed m ≡ false
unfolding is_reviewed
reviewed-false (ok true) h = absurd (h refl)
reviewed-false (ok false) h = refl
reviewed-false (err e) h = refl
reviewed-false panic h = refl

module _ {Query : Type 0} (p : Proxy Query) (handler : Handler Query) (req : Request Query) where
  -- The ways for a request to fail authentication.
  abbrev pub IsRejected : Type 0
  IsRejected =
      ((p.authenticate_request req).0 ≡ not_authenticated)
      ⊎ ((text : Str) × ((p.authenticate_request req).0 ≡ failed text)
          × ((p.config.token_review ≡ false)
              ⊎ (review p.create_token_review p.audiences (p.authenticate_request req).1
                  ≢ ok true)))

  unreviewed :
      review p.create_token_review p.audiences (p.authenticate_request req).1 ≢ ok true
      → review_token p (record req { header = (p.authenticate_request req).1 }) ≡ false
  unfolding review_token
  unreviewed bad = reviewed-false _ bad

  -- A request that fails authentication, and token review if that is enabled, is answered with 401
  -- and never handed on, if the audit filters let the wrapped handler answer.
  pub with_authenticate_request-rejects :
      AllPass p.auditor
      → IsRejected
      → with_authenticate_request p handler req ≡ http_error (bytes "Unauthorized") 401
  unfolding with_authenticate_request authenticated_request with_token_review handle_error
  with_authenticate_request-rejects all_pass (inl e) =
      rw e (unauthenticated-Passes p.auditor all_pass _ _)
  with_authenticate_request-rejects all_pass (inr (text, e, inl off)) =
      rw (e, off) (unauthenticated-Passes p.auditor all_pass _ _)
  with_authenticate_request-rejects all_pass (inr (text, e, inr bad)) =
      elim (Bool-cases p.config.token_review) [
        | inr off ↦ rw (e, off) (unauthenticated-Passes p.auditor all_pass _ _)
        | inl on ↦ rw (e, on) (rw (unreviewed bad) (unauthenticated-Passes p.auditor all_pass _ _))
      ]

module _ (codec : QueryCodec) (get_namespace : Str → Option Str)
    (impersonate : ImpersonationConfig → Header → Header) where
  open codec use {RawQuery}

  -- `RoundTrip` ends in an error exactly for a request with neither a mark that it goes without
  -- impersonation nor an impersonation configuration.
  pub round_trip-error_iff :
      (ts : Transports) (req : Request RawQuery)
      → (round_trip codec get_namespace impersonate ts req ≡ err no_impersonation_config)
        ↔ ((no_impersonation req ≡ false) × (impersonation_config req ≡ none))
  unfolding round_trip
  round_trip-error_iff ts req = ground arith

module _ (codec : QueryCodec) (get_namespace : Str → Option Str)
    (impersonate : ImpersonationConfig → Header → Header) (p : Proxy codec.RawQuery)
    (outgoing : Request codec.RawQuery → Request codec.RawQuery) where
  open codec use {RawQuery}

  pub proxy_handler-passed :
      (ts : Transports) (t : Transport) (req : Request RawQuery)
      → ts.no_auth ≡ some t
      → (outgoing req).context.no_impersonation ≡ some true
      → (outgoing req).context.bearer_token ≡ none
      → proxy_handler codec get_namespace impersonate p outgoing ts req
        ≡ sent t (record (outgoing req) { header = add authorization [] (outgoing req).header })
  unfolding proxy_handler round_trip no_impersonation bearer_token
  proxy_handler-passed ts t req n m b = ground arith

  -- With impersonation disabled an authenticated request is sent through the transport without the
  -- proxy's credentials, and with one more `Authorization` header, which is empty: nothing puts the
  -- bearer token into the context. Its headers and its URL are otherwise what the reverse proxy makes
  -- of those that the authentication leaves and of the URL that came. The audit filters let the
  -- handler answer, the reverse proxy keeps the context, and the transports are those that `Run`
  -- builds.
  pub serve_request_lost_token :
      (ts : Transports) (error_of : Transport → Option Str) (initial : Option Transport)
      (header : Header) (url : Url RawQuery) (address : Str) (user : User)
      → AllPass p.auditor
      → ((r : Request RawQuery) → (outgoing r).context ≡ r.context)
      → run_transports error_of p.config initial ≡ ok ts
      → p.config.disable_impersonation ≡ true
      → (p.authenticate_request (fresh header url address)).0 ≡ authenticated user
      → (r : Request RawQuery) × (serve_request codec get_namespace impersonate p outgoing ts
            (fresh header url address)
          ≡ sent no_auth_client_transport
              (record (outgoing r) { header = add authorization [] (outgoing r).header }))
        × (r.header ≡ (p.authenticate_request (fresh header url address)).1)
        × (r.url ≡ url)
  unfolding serve_request with_handlers with_authenticate_request authenticated_request
      with_impersonate_request impersonate_request with_no_impersonation with_user remote_addr
      no_impersonation
  serve_request_lost_token ts error_of initial header url address user all_pass same built off
        known =
      let r = with_no_impersonation (
        with_user
          (remote_addr p.get_remote_addr
            (fresh (p.authenticate_request (fresh header url address)).1 url address)).0
          user) in
      let (t, bare) = run_transports-bare error_of p.config initial ts built (ground arith) in
      let r' : Request RawQuery = record (outgoing r) {
        header = add authorization [] (outgoing r).header;
      } in
      (
        r,
        rw known (
            if-true p.config.disable_impersonation _ _ off
            ∙ with_request-Passes p.auditor all_pass r _
            ∙ proxy_handler-passed ts t r bare (ap (λ c. c.no_impersonation) (same r))
                (ap (λ c. c.bearer_token) (same r))
            ∙ ap (λ k. sent k r')
                (run_transports-no_auth error_of p.config initial ts t built bare)),
        refl,
        refl,
      )
