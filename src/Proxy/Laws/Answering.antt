-- ===== src/Proxy/Laws/Answering.antt =====
-- That the server answers every request.
use pf9_oidc_proxy.Base.{true, false, ◌||◌, Option, some, ◌≡◌, ◌≢◌, inl, inr, arith, ◌∙◌}
use pf9_oidc_proxy.Strings.{Str, split}
use pf9_oidc_proxy.Result.{ok}
use pf9_oidc_proxy.Http.{Header}
use pf9_oidc_proxy.Audit.{with_request, new_unauthenticated_handler}
use pf9_oidc_proxy.Audit.Filters.{
  IsFilter, AreFilters, with_request-IsFilter, unauthenticated-IsFilter,
}
use pf9_oidc_proxy.Namespace.Region.{QueryCodec, Url}
use pf9_oidc_proxy.Namespace.Path.{modify_namespace_in_path}
use pf9_oidc_proxy.Namespace.Region.Panics.{IsFollowed}
use pf9_oidc_proxy.Namespace.RoundTrip.{rewrite_url}
use pf9_oidc_proxy.Namespace.RoundTrip.Laws.{rewrite_url_returns}
use pf9_oidc_proxy.Proxy.Context.{
  Request, ImpersonationConfig, ImpersonationRequest, no_impersonation, impersonation_config,
}
use pf9_oidc_proxy.Proxy.Errors.{Transport, no_auth_client_transport, Response, panicked, Handler}
use pf9_oidc_proxy.Proxy.Impersonation.Build.{Config}
use pf9_oidc_proxy.Proxy.Impersonation.{Proxy}
use pf9_oidc_proxy.Proxy.Transports.{
  Transports, run_transports, round_trip, proxy_handler, serve_request,
}
use pf9_oidc_proxy.Proxy.Laws.Admitted.{
  fresh, Returns, Admitted, by_token_review, without_impersonation, as_user, as_target,
}
use pf9_oidc_proxy.Proxy.Laws.Outcomes.{
  refusal, rejected, refused, Outcome, failure, dropped, passed, with_handlers-Outcome,
}
use pf9_oidc_proxy.Proxy.Laws.Serving.{no_impersonation-context, impersonation_config-context}

-- The transport without credentials is there for the requests that need it.
pub run_transports-bare :
    (error_of : Transport → Option Str) (config : Config) (initial : Option Transport)
    (ts : Transports)
    → run_transports error_of config initial ≡ ok ts
    → (config.disable_impersonation || config.token_review) ≡ true
    → (t : Transport) × (ts.no_auth ≡ some t)
unfolding run_transports
run_transports-bare error_of config initial ts built e = (no_auth_client_transport, ground arith)

module _ (codec : QueryCodec) (get_namespace : Str → Option Str)
    (impersonate : ImpersonationConfig → Header → Header) (p : Proxy codec.RawQuery)
    (outgoing : Request codec.RawQuery → Request codec.RawQuery) (ts : Transports) where
  open codec use {RawQuery}

  abbrev handler : Handler RawQuery
  handler = proxy_handler codec get_namespace impersonate p outgoing ts

  -- A filtered answer is no panic if that of the handler is none.
  filtered :
      (f : Handler RawQuery → Handler RawQuery) (g : Handler RawQuery) (req : Request RawQuery)
      → IsFilter f
      → g req ≢ panicked
      → f g req ≢ panicked
  filtered f g req is_filter answers e = elim (is_filter g req) [
    | inl e' ↦ answers (cc)
    | inr (text, code, e') ↦ absurd (cc)
  ]

  handler-unmarked :
      (req : Request RawQuery) (t : Transport)
      → no_impersonation (outgoing req) ≡ true
      → ts.no_auth ≡ some t
      → handler req ≢ panicked
  unfolding proxy_handler round_trip
  handler-unmarked req t marked bare = ground arith

  handler-configured :
      (req : Request RawQuery) (conf : ImpersonationRequest) (url : Url RawQuery)
      → no_impersonation (outgoing req) ≡ false
      → impersonation_config (outgoing req) ≡ some conf
      → rewrite_url codec get_namespace (outgoing req).url ≡ ok url
      → handler req ≢ panicked
  unfolding proxy_handler round_trip
  handler-configured req conf url unmarked found routed = ground arith

  module _ (header : Header) (url : Url RawQuery) (address : Str) (filters : AreFilters p.auditor)
      (same : (r : Request RawQuery) → (outgoing r).context ≡ r.context)
      (followed : (r : Request RawQuery)
        → r.url ≡ url
        → IsFollowed (split b'/' (modify_namespace_in_path get_namespace (outgoing r).url.path)))
      (error_of : Transport → Option Str) (initial : Option Transport)
      (built : run_transports error_of p.config initial ≡ ok ts) where
    abbrev arrived : Request RawQuery
    arrived = fresh header url address

    routed :
        (r : Request RawQuery)
        → r.url ≡ url
        → (u : Url RawQuery) × (rewrite_url codec get_namespace (outgoing r).url ≡ ok u)
    routed r placed = rewrite_url_returns codec get_namespace (outgoing r).url (followed r placed)

    marked-answers :
        (req : Request RawQuery)
        → no_impersonation req ≡ true
        → (p.config.disable_impersonation || p.config.token_review) ≡ true
        → handler req ≢ panicked
    marked-answers req marked needed =
        let (t, bare) = run_transports-bare error_of p.config initial ts built needed in
        handler-unmarked req t (no_impersonation-context (outgoing req) req (same req) ∙ marked)
          bare

    configured-answers :
        (req : Request RawQuery) (conf : ImpersonationRequest)
        → req.url ≡ url
        → no_impersonation req ≡ false
        → impersonation_config req ≡ some conf
        → handler req ≢ panicked
    configured-answers req conf placed unmarked found =
        let (u, to) = routed req placed in
        handler-configured req conf u
          (no_impersonation-context (outgoing req) req (same req) ∙ unmarked)
          (impersonation_config-context (outgoing req) req (same req) ∙ found) to

    Admitted-answers : (req : Request RawQuery) → Admitted p arrived req → handler req ≢ panicked
    Admitted-answers req (by_token_review text a on good marked unchanged) =
        marked-answers req marked (ground arith)
    Admitted-answers req (without_impersonation user a off marked unchanged) =
        marked-answers req marked (ground arith)
    Admitted-answers req (as_user user conf a on placed plain unmarked found is_for) =
        configured-answers req conf placed unmarked found
    Admitted-answers req (as_target user target conf a on may placed plain unmarked found is_for) =
        configured-answers req conf placed unmarked found

    Outcome-answers :
        (x : Response RawQuery) → Returns p arrived → Outcome p handler arrived x → x ≢ panicked
    Outcome-answers x returns (failure (rejected req e')) e =
        filtered (new_unauthenticated_handler (some p.auditor)) refusal req
          (unauthenticated-IsFilter p.auditor filters) (λ e. cc) (cc)
    Outcome-answers x returns (failure (refused text code c e')) e = absurd (cc)
    Outcome-answers x returns (dropped e' unsafe) e = unsafe returns
    Outcome-answers x returns (passed req admitted e') e =
        filtered (with_request p.auditor) handler req (with_request-IsFilter p.auditor filters)
          (Admitted-answers req admitted) (cc)

    -- The server does not panic on a request as it arrives: each name of the header that the
    -- authentication leaves has a value, `json.Marshal` does not panic, whatever path the reverse
    -- proxy makes of the request's URL, every `namespaces` segment of it with the tenant removed
    -- has two segments behind it, the transports are those that `Run` builds, the audit filters let
    -- the handler that they wrap answer or answer with an error, and the reverse proxy keeps the
    -- context of requests.
    pub serve_request-no_panic :
        Returns p arrived
        → serve_request codec get_namespace impersonate p outgoing ts arrived ≢ panicked
    unfolding serve_request
    serve_request-no_panic returns =
        Outcome-answers _ returns (with_handlers-Outcome p handler header url address)
