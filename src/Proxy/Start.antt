-- ===== src/Proxy/Start.antt =====
-- New, Run and serve of pkg/proxy/proxy.go: how a proxy is made and how it starts to listen.
pub mod Lifecycle
use pf9_oidc_proxy.Base.{Option, none, some, List, [], ◌∷◌, ◌++◌}
use pf9_oidc_proxy.Strings.{Str, bytes}
use pf9_oidc_proxy.Result.{Result, ok, err, panic}
use pf9_oidc_proxy.Hooks.{Hooks, HookError, new, add_pre_shutdown_hook, run_pre_shutdown_hooks}
use pf9_oidc_proxy.Audit.{Audit, Effect, listening, shutdown}
use pf9_oidc_proxy.Audit
use pf9_oidc_proxy.Maps.{Map}
use pf9_oidc_proxy.Command.Options.{OidcAuthenticationOptions}
use pf9_oidc_proxy.Command.Reviewers.{TokenReview, SubjectAccessReview}
use pf9_oidc_proxy.Namespace.Mapping.{
  ReadResult, read, read_failed, Decoded, MappingManager, new_mapping_manager,
}
use pf9_oidc_proxy.Proxy.Errors.{Transport}
use pf9_oidc_proxy.Proxy.Impersonation.Build.{Config}
use pf9_oidc_proxy.Proxy.Transports.{Transports, run_transports}

-- The options that `New` gives to the OIDC authenticator of k8s.io/apiserver.
pub record OidcOptions : Type 0 where
  pub url : Str
  pub audiences : List Str
  pub certificate_authority : Str
  pub username_claim : Str
  pub username_prefix : Str
  pub groups_claim : Str
  pub groups_prefix : Str
  pub supported_signing_algs : List Str
  -- `ClaimValidationRules`, a claim and the value that it must have
  pub claim_validation_rules : Map Str

content_or_empty : ReadResult → Str
content_or_empty (read text) = text
content_or_empty (read_failed e) = []

-- The certificate authorities of a file, none if it cannot be read.
unfoldable pub current_ca_bundle_content : (Str → ReadResult) → Str → Str
unfolding content_or_empty
current_ca_bundle_content read_file ca_file = content_or_empty (read_file ca_file)

-- The claims that the options require are left out, as in the source.
unfoldable pub oidc_options : (Str → ReadResult) → OidcAuthenticationOptions → OidcOptions
unfolding current_ca_bundle_content
oidc_options read_file o = record {
  url = o.issuer_url;
  audiences = o.client_id ∷ [];
  certificate_authority = current_ca_bundle_content read_file o.ca_file;
  username_claim = o.username_claim;
  username_prefix = o.username_prefix;
  groups_claim = o.groups_claim;
  groups_prefix = o.groups_prefix;
  supported_signing_algs = o.signing_algs;
  claim_validation_rules = [];
}

-- `Transport` is set by `Run`.
pub record CustomNamespaceRoundTripper : Type 0 where
  pub suffix_ns_mapping_file : Str
  pub mapping_manager : MappingManager
  pub default_namespace : Str

with_manager : Str → Option MappingManager → Option CustomNamespaceRoundTripper
with_manager file none = none
with_manager file (some m) = some (record {
  suffix_ns_mapping_file = file;
  mapping_manager = m;
  default_namespace = bytes "default";
})

unfoldable pub new_custom_namespace_round_tripper :
    (Str → Decoded) → (Str → ReadResult) → Str → Option CustomNamespaceRoundTripper
unfolding with_manager
new_custom_namespace_round_tripper unmarshal read_file file =
    with_manager file (new_mapping_manager unmarshal (read_file file))

-- Which of the parts of a proxy could not be made.
pub data NewError : Type 0 where
  authenticator_error auditor_error : Str → NewError
  mapping_error : NewError

-- The proxy as `New` makes it; `Authenticator` is the library's type.
pub record MadeProxy (Authenticator Query : Type 0) : Type 0 where
  pub hooks : Hooks (List Effect)
  pub token_reviewer : Option TokenReview
  pub subject_access_reviewer : SubjectAccessReview
  pub config : Config
  pub token_auther : Authenticator
  pub auditor : Audit Query
  pub namespace_transport : CustomNamespaceRoundTripper

module _ {Authenticator Query : Type 0} (token_reviewer : Option TokenReview)
    (subject_access_reviewer : SubjectAccessReview) (config : Config) where
  with_round_tripper :
      Authenticator
      → Audit Query
      → Option CustomNamespaceRoundTripper
      → Result NewError (MadeProxy Authenticator Query)
  with_round_tripper token_auther auditor none = err mapping_error
  with_round_tripper token_auther auditor (some namespace_transport) = ok (record {
    hooks = new;
    token_reviewer = token_reviewer;
    subject_access_reviewer = subject_access_reviewer;
    config = config;
    token_auther = token_auther;
    auditor = auditor;
    namespace_transport = namespace_transport;
  })

  audited :
      Authenticator
      → Result Str (Audit Query)
      → Option CustomNamespaceRoundTripper
      → Result NewError (MadeProxy Authenticator Query)
  unfolding with_round_tripper
  audited token_auther (ok auditor) t = with_round_tripper token_auther auditor t
  audited token_auther (err e) t = err (auditor_error e)
  audited token_auther panic t = panic

  authenticating :
      Result Str Authenticator
      → Result Str (Audit Query)
      → Option CustomNamespaceRoundTripper
      → Result NewError (MadeProxy Authenticator Query)
  unfolding audited
  authenticating (ok token_auther) audit_new t = audited token_auther audit_new t
  authenticating (err e) audit_new t = err (authenticator_error e)
  authenticating panic audit_new t = panic

  -- `New`: the library's authenticator, then the auditor (as `new_audit` returns it), then the
  -- namespace round tripper for the mapping file of the configuration.
  unfoldable pub new_proxy :
      (OidcOptions → Result Str Authenticator)
      → Result Str (Audit Query)
      → (Str → Decoded)
      → (Str → ReadResult)
      → OidcAuthenticationOptions
      → Str
      → Result NewError (MadeProxy Authenticator Query)
  unfolding authenticating oidc_options
  new_proxy oidc_new audit_new unmarshal read_file o suffix_ns_mapping_file =
      authenticating (oidc_new (oidc_options read_file o)) audit_new
        (new_custom_namespace_round_tripper unmarshal read_file suffix_ns_mapping_file)

-- What a run of the proxy changes.
pub record Running : Type 0 where
  pub hooks : Hooks (List Effect)
  pub effects : List Effect

module _ {Query : Type 0} (a : Audit Query) where
  serve_audited : Option Str → Running → List Effect × Option Str → Running × Option Str
  serve_audited serve_error r (effects, some e) = (record r { effects = effects }, some e)
  serve_audited (some e) r (effects, none) = (record r { effects = effects }, some e)
  serve_audited none r (effects, none) = (record r { effects = effects ++ listening ∷ [] }, none)

  -- The hook of `withHandlers`, then the audit backend, then the server, by its error.
  unfoldable pub serve : Option Str → Running → Running × Option Str
  unfolding serve_audited
  serve serve_error r =
      serve_audited serve_error
        (record r { hooks = add_pre_shutdown_hook (bytes "AuditBackend") (shutdown a) r.hooks })
        (Audit.run a r.effects)

  served : Transports → Running × Option Str → Running × Result Str Transports
  served ts (r, none) = (r, ok ts)
  served ts (r, some e) = (r, err e)

  parsed : Option Str → Option Str → Transports → Running → Running × Result Str Transports
  unfolding served
  parsed (some e) serve_error ts r = (r, err (bytes "failed to parse url: " ++ e))
  parsed none serve_error ts r = served ts (serve serve_error r)

  with_transports :
      Option Str → Option Str → Running → Result Str Transports → Running × Result Str Transports
  unfolding parsed
  with_transports url_error serve_error r (ok ts) = parsed url_error serve_error ts r
  with_transports url_error serve_error r (err e) = (r, err e)
  with_transports url_error serve_error r panic = (r, panic)

  -- `Run`, with the errors of the transports, of the parsing of the host and of the server.
  unfoldable pub run_proxy :
      (Transport → Option Str)
      → Config
      → Option Transport
      → Option Str
      → Option Str
      → Running
      → Running × Result Str Transports
  unfolding with_transports
  run_proxy failure config initial url_error serve_error r =
      with_transports url_error serve_error r (run_transports failure config initial)

-- `RunPreShutdownHooks` of the proxy.
abbrev pub shut_down : Running → List Effect × Option (List HookError)
shut_down r = run_pre_shutdown_hooks r.hooks r.effects
