-- ===== src/Proxy/Transports.antt =====
-- Run and RoundTrip of pkg/proxy/proxy.go: which client configuration a request is sent with.
use pf9_oidc_proxy.Base.{Bool, true, false, ◌||◌, Option, none, some, if◌then◌else◌}
use pf9_oidc_proxy.Strings.{Str}
use pf9_oidc_proxy.Result.{Result, ok, err, panic, ◌>>=◌}
use pf9_oidc_proxy.Http.{Header, add}
use pf9_oidc_proxy.Token.{authorization}
use pf9_oidc_proxy.Namespace.Region.{QueryCodec, Url}
use pf9_oidc_proxy.Namespace.RoundTrip.{rewrite_url}
use pf9_oidc_proxy.Audit.{new_unauthenticated_handler}
use pf9_oidc_proxy.Proxy.Context.{
  Request, ImpersonationConfig, ImpersonationRequest, no_impersonation, impersonation_config,
  bearer_token,
}
use pf9_oidc_proxy.Proxy.Errors.{
  Error, no_impersonation_config, Transport, client_transport, no_auth_client_transport, Response,
  sent, panicked, Handler, handle_error,
}
use pf9_oidc_proxy.Proxy.Impersonation.Build.{Config}
use pf9_oidc_proxy.Proxy.Handlers.{with_handlers}
use pf9_oidc_proxy.Proxy.Impersonation.{Proxy}

-- The fields that `Run` sets. `namespace` is the `Transport` of the namespace round tripper, if the
-- proxy has one; `no_auth` is nil unless it is needed.
pub record Transports : Type 0 where
  pub client : Transport
  pub no_auth : Option Transport
  pub namespace : Option Transport

replace_transport : Option Transport → Transport → Option Transport
replace_transport none t = none
replace_transport (some _) t = some t

-- roundTripperForRestConfig: the transport, or the error of the client libraries.
built : (Transport → Option Str) → Transport → Result Str Transport
built failure t = elim (failure t) [ none ↦ ok t | some text ↦ err text ]

with_no_auth : (Transport → Option Str) → Bool → Transports → Result Str Transports
unfolding built replace_transport
with_no_auth failure false ts = ok ts
with_no_auth failure true ts = built failure no_auth_client_transport >>= λ t.
    ok (record ts { no_auth = some t; namespace = replace_transport ts.namespace t })

-- The transports that `Run` sets up; `initial` is that of the namespace round tripper before.
unfoldable pub run_transports :
    (Transport → Option Str) → Config → Option Transport → Result Str Transports
unfolding with_no_auth
run_transports failure config initial = built failure client_transport >>= λ t.
    with_no_auth failure (config.disable_impersonation || config.token_review)
      (record { client = t; no_auth = none; namespace = replace_transport initial t })

module _ (codec : QueryCodec) (get_namespace : Str → Option Str)
    (impersonate : ImpersonationConfig → Header → Header) where
  open codec use {RawQuery}

  via_no_auth : Request RawQuery → Option Transport → Result Error (Transport × Request RawQuery)
  via_no_auth req none = panic
  via_no_auth req (some t) = ok (t, req)

  rewritten :
      Request RawQuery
      → Transport
      → Result (Unit {0}) (Url RawQuery)
      → Result Error (Transport × Request RawQuery)
  rewritten req t (ok url) = ok (t, record req { url = url })
  rewritten req t (err _) = panic
  rewritten req t panic = panic

  delegate :
      Transports → Request RawQuery → Option Transport → Result Error (Transport × Request RawQuery)
  unfolding rewritten
  delegate ts req none = ok (ts.client, req)
  delegate ts req (some t) = rewritten req t (rewrite_url codec get_namespace req.url)

  impersonated :
      Transports
      → Request RawQuery
      → Option ImpersonationRequest
      → Result Error (Transport × Request RawQuery)
  unfolding delegate
  impersonated ts req none = err no_impersonation_config
  impersonated ts req (some conf) =
      delegate ts (record req { header = impersonate conf.config req.header }) ts.namespace

  -- The transport and the request that it is given, or the error.
  unfoldable pub round_trip :
      Transports → Request RawQuery → Result Error (Transport × Request RawQuery)
  unfolding via_no_auth impersonated
  round_trip ts req =
      if no_impersonation req
      then via_no_auth (record req { header = add authorization (bearer_token req) req.header })
          ts.no_auth
      else impersonated ts req (impersonation_config req)

  module _ (p : Proxy RawQuery) (outgoing : Request RawQuery → Request RawQuery) where
    answer : Request RawQuery → Result Error (Transport × Request RawQuery) → Response RawQuery
    answer req (ok (t, r)) = sent t r
    answer req (err e) = handle_error (new_unauthenticated_handler (some p.auditor)) req (some e)
    answer req panic = panicked

    -- The reverse proxy of net/http/httputil, which makes the outgoing request, with `RoundTrip` as
    -- its transport and the error handler of the proxy.
    unfoldable pub proxy_handler : Transports → Handler RawQuery
    unfolding round_trip answer
    proxy_handler ts req = answer req (round_trip ts (outgoing req))

    -- What the server of `serve` does with a request.
    unfoldable pub serve_request : Transports → Handler RawQuery
    unfolding proxy_handler
    serve_request ts = with_handlers p (proxy_handler ts)
