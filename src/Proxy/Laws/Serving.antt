-- ===== src/Proxy/Laws/Serving.antt =====
-- What is sent to the API server with the proxy's own credentials.
use pf9_oidc_proxy.Base.{true, false, Option, none, some, ◌≡◌, ◌⊎◌, inl, inr, refl, arith, ◌∙◌}
use pf9_oidc_proxy.Strings.{Str}
use pf9_oidc_proxy.Result.{ok}
use pf9_oidc_proxy.Users.{User, entries}
use pf9_oidc_proxy.Http.{Header}
use pf9_oidc_proxy.Access.Sound.{IsAuthorized}
use pf9_oidc_proxy.Audit.{with_request, new_unauthenticated_handler}
use pf9_oidc_proxy.Audit.Filters.{
  IsFilter, AreFilters, with_request-IsFilter, unauthenticated-IsFilter,
}
use pf9_oidc_proxy.Namespace.Region.{QueryCodec, Url}
use pf9_oidc_proxy.Proxy.Context.{
  Request, ImpersonationConfig, ImpersonationRequest, no_impersonation, impersonation_config,
}
use pf9_oidc_proxy.Proxy.Errors.{
  Transport, client_transport, no_auth_client_transport, Response, sent, Handler,
}
use pf9_oidc_proxy.Proxy.Impersonation.Build.{Config}
use pf9_oidc_proxy.Proxy.Impersonation.{Proxy, authenticated, has_impersonation}
use pf9_oidc_proxy.Proxy.Handlers.{with_handlers}
use pf9_oidc_proxy.Proxy.Transports.{
  Transports, run_transports, round_trip, proxy_handler, serve_request,
}
use pf9_oidc_proxy.Proxy.Laws.Admitted.{
  fresh, IsFor, client_address, Admitted, by_token_review, without_impersonation, as_user,
  as_target,
}
use pf9_oidc_proxy.Proxy.Laws.Outcomes.{
  refusal, Failure, rejected, refused, Outcome, failure, dropped, passed, with_handlers-Outcome,
}

-- The target is allowed to the user, if there is one.
abbrev pub IsAllowed : {Query : Type 0} → Proxy Query → User → Option User → Type 0
IsAllowed p user none = Unit {0}
IsAllowed p user (some target) =
    IsAuthorized p.create_access_review user target.name target.uid target.groups
      (entries target.extra)

-- The transport of an impersonated request, by whether there is a namespace round tripper.
abbrev pub impersonating_transport : Transports → Transport
impersonating_transport ts = elim ts.namespace [ none ↦ ts.client | some t ↦ t ]

module _ {Query : Type 0} (p : Proxy Query) (impersonate : ImpersonationConfig → Header → Header)
    (req : Request Query) where
  -- The request that is sent impersonates the authenticated user, or a target allowed to this user,
  -- and nobody else.
  pub record Impersonated (r : Request Query) : Type 0 where
    pub user : User
    pub target : Option User
    pub conf : ImpersonationRequest
    pub header : Header
    pub known : (p.authenticate_request req).0 ≡ authenticated user
    pub enabled : p.config.disable_impersonation ≡ false
    pub allowed : IsAllowed p user target
    pub is_for : IsFor p (client_address p req) user target conf
    pub no_other : has_impersonation header ≡ false
    pub header_is : r.header ≡ impersonate conf.config header

module _ {Query : Type 0} (r r' : Request Query) (same : r.context ≡ r'.context) where
  pub no_impersonation-context : no_impersonation r ≡ no_impersonation r'
  unfolding no_impersonation
  no_impersonation-context = rw same refl

  pub impersonation_config-context : impersonation_config r ≡ impersonation_config r'
  unfolding impersonation_config
  impersonation_config-context = rw same refl

pub run_transports-no_auth :
    (error_of : Transport → Option Str) (config : Config) (initial : Option Transport)
    (ts : Transports) (t : Transport)
    → run_transports error_of config initial ≡ ok ts
    → ts.no_auth ≡ some t
    → t ≡ no_auth_client_transport
unfolding run_transports
run_transports-no_auth error_of config initial ts t built bare = ground arith

module _ (codec : QueryCodec) (get_namespace : Str → Option Str)
    (impersonate : ImpersonationConfig → Header → Header) (p : Proxy codec.RawQuery)
    (outgoing : Request codec.RawQuery → Request codec.RawQuery) (ts : Transports) where
  open codec use {RawQuery}

  abbrev handler : Handler RawQuery
  handler = proxy_handler codec get_namespace impersonate p outgoing ts

  proxy_handler-unmarked :
      (req r : Request RawQuery) (t : Transport)
      → no_impersonation (outgoing req) ≡ true
      → handler req ≡ sent t r
      → ts.no_auth ≡ some t
  unfolding proxy_handler round_trip
  proxy_handler-unmarked req r t marked e = ground arith

  proxy_handler-header :
      (req r : Request RawQuery) (t : Transport) (conf : ImpersonationRequest)
      → no_impersonation (outgoing req) ≡ false
      → impersonation_config (outgoing req) ≡ some conf
      → handler req ≡ sent t r
      → (r.header ≡ impersonate conf.config (outgoing req).header)
        × (t ≡ impersonating_transport ts)
  unfolding proxy_handler round_trip
  proxy_handler-header req r t conf unmarked found e = ground arith

  module _ (header : Header) (url : Url RawQuery) (address : Str) (filters : AreFilters p.auditor)
      (same : (r : Request RawQuery) → (outgoing r).context ≡ r.context)
      (plain : (r : Request RawQuery)
        → has_impersonation r.header ≡ false
        → has_impersonation (outgoing r).header ≡ false) where
    abbrev arrived : Request RawQuery
    arrived = fresh header url address

    -- What an answer that is sent must meet.
    abbrev IsSentRight : Response RawQuery → Type 0
    IsSentRight x =
        (t : Transport) (r : Request RawQuery)
        → x ≡ sent t r
        → (ts.no_auth ≡ some t)
          ⊎ (Impersonated p impersonate arrived r × (t ≡ impersonating_transport ts))

    filtered :
        (f : Handler RawQuery → Handler RawQuery) (g : Handler RawQuery) (req : Request RawQuery)
        → IsFilter f
        → IsSentRight (g req)
        → IsSentRight (f g req)
    filtered f g req is_filter right t r e = elim (is_filter g req) [
      | inl e' ↦ right t r (cc)
      | inr (text, code, e') ↦ absurd (cc)
    ]

    Failure-IsSentRight : (x : Response RawQuery) → Failure p x → IsSentRight x
    Failure-IsSentRight x (rejected req e') t r e =
        filtered (new_unauthenticated_handler (some p.auditor)) refusal req
          (unauthenticated-IsFilter p.auditor filters) (λ t r e. absurd (cc)) t r (cc)
    Failure-IsSentRight x (refused text code c e') t r e = absurd (cc)

    handled_marked :
        (req : Request RawQuery) → no_impersonation req ≡ true → IsSentRight (handler req)
    handled_marked req marked t r e = inl (
        proxy_handler-unmarked req r t
          (no_impersonation-context (outgoing req) req (same req) ∙ marked) e)

    handled_for :
        (user : User) (target : Option User) (conf : ImpersonationRequest)
        → (p.authenticate_request arrived).0 ≡ authenticated user
        → p.config.disable_impersonation ≡ false
        → IsAllowed p user target
        → IsFor p (client_address p arrived) user target conf
        → (req : Request RawQuery) → has_impersonation req.header ≡ false
        → no_impersonation req ≡ false
        → impersonation_config req ≡ some conf
        → IsSentRight (handler req)
    handled_for user target conf known on may is_for req no_other unmarked found t r e =
        let (header_is, transport_is) =
          proxy_handler-header req r t conf
            (no_impersonation-context (outgoing req) req (same req) ∙ unmarked)
            (impersonation_config-context (outgoing req) req (same req) ∙ found) e in
        inr (
          record {
            user = user;
            target = target;
            conf = conf;
            header = (outgoing req).header;
            known = known;
            enabled = on;
            allowed = may;
            is_for = is_for;
            no_other = plain req no_other;
            header_is = header_is;
          },
          transport_is,
        )

    handled : (req : Request RawQuery) → Admitted p arrived req → IsSentRight (handler req)
    handled req (by_token_review text a on good marked unchanged) = handled_marked req marked
    handled req (without_impersonation user a off marked unchanged) = handled_marked req marked
    handled req (as_user user conf a on placed no_other unmarked found is_for) =
        handled_for user none conf a on tt is_for req no_other unmarked found
    handled req (as_target user target conf a on may placed no_other unmarked found is_for) =
        handled_for user (some target) conf a on may is_for req no_other unmarked found

    Outcome-IsSentRight : (x : Response RawQuery) → Outcome p handler arrived x → IsSentRight x
    Outcome-IsSentRight x (failure f) t r e = Failure-IsSentRight x f t r e
    Outcome-IsSentRight x (dropped e' unsafe) t r e = absurd (cc)
    Outcome-IsSentRight x (passed req admitted e') t r e =
        filtered (with_request p.auditor) handler req (with_request-IsFilter p.auditor filters)
          (handled req admitted) t r (cc)

    -- Whatever is sent with the proxy's own credentials impersonates the authenticated user, or a
    -- target that the API server lets this user impersonate in every part, by their name, their
    -- groups with `system:authenticated` and the extra values that are built for them, and carries
    -- no other impersonation header: if the audit filters let the handler that they wrap answer or
    -- answer with an error, and the reverse proxy keeps the context and adds no impersonation
    -- header. The transports are those that `Run` builds.
    pub serve_request-Impersonated :
        (error_of : Transport → Option Str) (initial : Option Transport)
        → run_transports error_of p.config initial ≡ ok ts
        → (r : Request RawQuery)
        → serve_request codec get_namespace impersonate p outgoing ts arrived
          ≡ sent client_transport r
        → Impersonated p impersonate arrived r
    unfolding serve_request with_handlers
    serve_request-Impersonated error_of initial built r e =
        elim (Outcome-IsSentRight _ (with_handlers-Outcome p handler header url address) _ r e) [
          | inl bare ↦
              absurd (cc (run_transports-no_auth error_of p.config initial ts _ built bare))
          | inr (impersonated, _) ↦ impersonated
        ]
