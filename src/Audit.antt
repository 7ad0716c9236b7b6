-- ===== src/Audit.antt =====
-- The auditor of pkg/proxy/audit. The backend and the filters are those of k8s.io/apiserver.
pub mod Filters
use pf9_oidc_proxy.Base.{Option, none, some, List, [], ◌∷◌, ◌++◌}
use pf9_oidc_proxy.Strings.{Str, bytes}
use pf9_oidc_proxy.Result.{Result, ok, ◌>>=◌}
use pf9_oidc_proxy.Proxy.Errors.{Handler}

-- What the start and the end of the server do to the outside, in the order in which it is done.
pub data Effect : Type 0 where
  backend_started listening backend_stopped : Effect

-- A backend, by the error of its `Run`.
pub record Backend : Type 0 where
  pub run_error : Option Str

pub record Audit (Query : Type 0) : Type 0 where
  pub backend : Option Backend
  pub with_audit : Handler Query → Handler Query
  pub with_audit_init : Handler Query → Handler Query
  pub with_failed_authentication_audit : Handler Query → Handler Query
  pub with_request_info : Handler Query → Handler Query

-- `server.Config`, as far as `New` sets it; `BasicLongRunningRequestCheck` gets the verbs.
pub record ServerConfig : Type 0 where
  pub external_address : Str
  pub long_running_verbs : List Str
  pub effective_version : Option Str

unfoldable pub server_config : Str → ServerConfig
server_config external_address = record {
  external_address = external_address;
  long_running_verbs = bytes "watch" ∷ [];
  effective_version = none;
}

-- `New`: the library applies the options to the configuration, and completes it.
unfoldable pub new_audit :
    {Query : Type 0}
    → (ServerConfig → Result Str ServerConfig)
    → (ServerConfig → Audit Query)
    → Str
    → Result Str (Audit Query)
unfolding server_config
new_audit apply_to complete external_address = apply_to (server_config external_address) >>= λ c.
    ok (complete (record c { effective_version = some (bytes "1.0.31") }))

unfoldable pub run_backend : Option Str → List Effect → List Effect × Option Str
run_backend none effects = (effects ++ backend_started ∷ [], none)
run_backend (some e) effects = (effects, some (bytes "failed to run the audit backend: " ++ e))

unfoldable pub run_configured : Option Backend → List Effect → List Effect × Option Str
unfolding run_backend
run_configured none effects = (effects, none)
run_configured (some b) effects = run_backend b.run_error effects

unfoldable pub shutdown_configured : Option Backend → List Effect → List Effect × Option Str
shutdown_configured none effects = (effects, none)
shutdown_configured (some b) effects = (effects ++ backend_stopped ∷ [], none)

module _ {Query : Type 0} where
  unfoldable pub run : Audit Query → List Effect → List Effect × Option Str
  unfolding run_configured
  run a effects = run_configured a.backend effects

  unfoldable pub shutdown : Audit Query → List Effect → List Effect × Option Str
  unfolding shutdown_configured
  shutdown a effects = shutdown_configured a.backend effects

  unfoldable pub with_request : Audit Query → Handler Query → Handler Query
  with_request a handler = a.with_request_info (a.with_audit_init (a.with_audit handler))

  unfoldable pub with_unauthorized : Audit Query → Handler Query → Handler Query
  with_unauthorized a handler = a.with_request_info (a.with_failed_authentication_audit handler)

  -- A proxy without an auditor wraps nothing.
  unfoldable pub new_unauthenticated_handler : Option (Audit Query) → Handler Query → Handler Query
  unfolding with_unauthorized
  new_unauthenticated_handler none serve_func = serve_func
  new_unauthenticated_handler (some a) serve_func = with_unauthorized a serve_func
