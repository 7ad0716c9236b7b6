-- ===== src/Tests/Ending.antt =====
-- The making, the start and the end of a proxy.
use pf9_oidc_proxy.Namespace.Mapping.{ReadResult, read}
use pf9_oidc_proxy.Base.{ℕ, true, false, Option, none, some, [], ◌∷◌, ◌≡◌, refl}
use pf9_oidc_proxy.Strings.{Str, bytes}
use pf9_oidc_proxy.Result.{Result, ok}
use pf9_oidc_proxy.Access.Review.{answered}
use pf9_oidc_proxy.Hooks.{new}
use pf9_oidc_proxy.Audit.{Audit, run}
use pf9_oidc_proxy.Command.Options.{OidcAuthenticationOptions}
use pf9_oidc_proxy.Proxy.Errors.{Transport, client_transport}
use pf9_oidc_proxy.Proxy.Impersonation.Build.{Config}
use pf9_oidc_proxy.Proxy.Transports.{Transports, run_transports}
use pf9_oidc_proxy.Proxy.Start.{OidcOptions, MadeProxy, Running, run_proxy, serve}

abbrev oidc : OidcAuthenticationOptions
oidc = record {
  ca_file = [];
  client_id = bytes "kube";
  issuer_url = bytes "https://issuer";
  username_claim = bytes "sub";
  username_prefix = [];
  groups_claim = [];
  groups_prefix = [];
  signing_algs = bytes "RS256" ∷ [];
  required_claims = (bytes "org", bytes "pf9") ∷ [];
}

abbrev any_authenticator : OidcOptions → Result Str (Unit {0})
any_authenticator opts = ok tt

abbrev empty_files : Str → ReadResult
empty_files file = read []

abbrev pub auditor : Audit ℕ
auditor = record {
  backend = some (record { run_error = none });
  with_audit = λ handler. handler;
  with_audit_init = λ handler. handler;
  with_failed_authentication_audit = λ handler. handler;
  with_request_info = λ handler. handler;
}

abbrev pub plain_config : Config
plain_config = record {
  disable_impersonation = false;
  token_review = false;
  extra_user_headers = [];
  extra_user_headers_client_ip_enabled = false;
}

abbrev made : MadeProxy (Unit {0}) ℕ
made = record {
  hooks = new;
  token_reviewer = none;
  subject_access_reviewer = record { subject_access_reviewer = λ review. answered true };
  config = plain_config;
  token_auther = tt;
  auditor = auditor;
  namespace_transport = record {
    suffix_ns_mapping_file = bytes "map.json";
    mapping_manager = record { mappings = [] };
    default_namespace = bytes "default";
  };
}

abbrev pub no_error : Transport → Option Str
no_error t = none

abbrev pub built : Transports
built = record { client = client_transport; no_auth = none; namespace = some client_transport }

abbrev pub fresh_run : Running
fresh_run = record { hooks = new; effects = [] }

pub runs :
    (run_proxy auditor no_error plain_config (some client_transport) none none fresh_run).1
    ≡ ok built
unfolding run_proxy run_transports run serve
runs = refl
