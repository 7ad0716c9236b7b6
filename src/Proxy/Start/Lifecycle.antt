-- ===== src/Proxy/Start/Lifecycle.antt =====
-- When a proxy is made and when it starts, and what is left when it ends.
use pf9_oidc_proxy.Base.{
  Option, none, some, List, [], ◌∷◌, ◌++◌, ◌≡◌, ◌↔◌, refl, arith, append_assoc, ◌∙◌, ap,
}
use pf9_oidc_proxy.Namespace.Mapping.{ReadResult, Decoded}
use pf9_oidc_proxy.Strings.{Str, bytes}
use pf9_oidc_proxy.Maps.{insert}
use pf9_oidc_proxy.Result.{Result, ok}
use pf9_oidc_proxy.Hooks.{
  new, add_pre_shutdown_hook, run_pre_shutdown_hooks, run_hooks, report, new_aggregate,
}
use pf9_oidc_proxy.Audit.{
  Audit, Backend, Effect, backend_started, listening, backend_stopped, shutdown,
  shutdown_configured, run_configured, run_backend,
}
use pf9_oidc_proxy.Audit
use pf9_oidc_proxy.Command.Options.{OidcAuthenticationOptions}
use pf9_oidc_proxy.Command.Reviewers.{TokenReview, SubjectAccessReview}
use pf9_oidc_proxy.Proxy.Errors.{Transport}
use pf9_oidc_proxy.Proxy.Impersonation.Build.{Config}
use pf9_oidc_proxy.Proxy.Transports.{Transports, run_transports}
use pf9_oidc_proxy.Proxy.Start.{
  OidcOptions, MadeProxy, CustomNamespaceRoundTripper, current_ca_bundle_content,
  new_custom_namespace_round_tripper, Running, serve_audited, serve, served, parsed,
  with_transports, run_proxy,
}

module _ {Authenticator Query : Type 0} (token_reviewer : Option TokenReview)
    (access_reviewer : SubjectAccessReview) (config : Config)
    (oidc_new : OidcOptions → Result Str Authenticator) (audit_new : Result Str (Audit Query))
    (unmarshal : Str → Decoded) (read_file : Str → ReadResult) (o : OidcAuthenticationOptions)
    (mapping_file : Str) where
  -- The parts of a proxy that are as they were given or made. The authenticator is the library's for
  -- the issuer, the client and the claims of the options, with no rule that a claim must have a value.
  pub record HasParts (m : MadeProxy Authenticator Query) : Type 0 where
    pub authenticator :
        oidc_new (record {
          url = o.issuer_url;
          audiences = o.client_id ∷ [];
          certificate_authority = current_ca_bundle_content read_file o.ca_file;
          username_claim = o.username_claim;
          username_prefix = o.username_prefix;
          groups_claim = o.groups_claim;
          groups_prefix = o.groups_prefix;
          supported_signing_algs = o.signing_algs;
          claim_validation_rules = [];
        })
        ≡ ok m.token_auther
    pub auditor : audit_new ≡ ok m.auditor
    pub round_tripper :
        new_custom_namespace_round_tripper unmarshal read_file mapping_file
        ≡ some m.namespace_transport
    pub configured : m.config ≡ config
    pub token_reviewed : m.token_reviewer ≡ token_reviewer
    pub access_reviewed : m.subject_access_reviewer ≡ access_reviewer
    pub no_hooks : m.hooks ≡ new

  abbrev AreGiven :
      MadeProxy Authenticator Query
      → Result Str Authenticator
      → Result Str (Audit Query)
      → Option CustomNamespaceRoundTripper
      → Type 0
  AreGiven m a b t =
      (a ≡ ok m.token_auther)
      × (b ≡ ok m.auditor)
      × (t ≡ some m.namespace_transport)
      × (m.config ≡ config)
      × (m.token_reviewer ≡ token_reviewer)
      × (m.subject_access_reviewer ≡ access_reviewer)
      × (m.hooks ≡ new)

-- The effects of a proxy from its start to the end of its hooks.
abbrev pub lifecycle : Option Backend → List Effect
lifecycle none = listening ∷ []
lifecycle (some _) = backend_started ∷ listening ∷ backend_stopped ∷ []

run_backend-effects :
    (error : Option Str) (effects : List Effect)
    → (run_backend error effects).1 ≡ none
    → ((run_backend error effects).0 ++ listening ∷ []) ++ backend_stopped ∷ []
      ≡ effects ++ backend_started ∷ listening ∷ backend_stopped ∷ []
unfolding run_backend
run_backend-effects none effects h =
    append_assoc (effects ++ backend_started ∷ []) (listening ∷ []) (backend_stopped ∷ [])
    ∙ append_assoc effects (backend_started ∷ []) (listening ∷ backend_stopped ∷ [])
run_backend-effects (some e) effects h = cc

shutdown_of_run :
    (b : Option Backend) (effects : List Effect)
    → (run_configured b effects).1 ≡ none
    → shutdown_configured b ((run_configured b effects).0 ++ listening ∷ [])
      ≡ (effects ++ lifecycle b, none)
unfolding run_configured shutdown_configured
shutdown_of_run none effects h = refl
shutdown_of_run (some b) effects h =
    ap (λ later. (later, none)) (run_backend-effects b.run_error effects h)

serve_audited-none :
    {Query : Type 0} (a : Audit Query) (r : Running) (p : List Effect × Option Str)
    → p.1 ≡ none
    → serve_audited a none r p ≡ (record r { effects = p.0 ++ listening ∷ [] }, none)
unfolding serve_audited
serve_audited-none a r (effects, none) h = refl
serve_audited-none a r (effects, some e) h = cc

module _ {Query : Type 0} (a : Audit Query) (failure : Transport → Option Str) (config : Config)
    (initial : Option Transport) (url_error serve_error : Option Str) where
  -- `Run` returns the transports exactly if they are built, the host is a URL, the audit backend runs
  -- if there is one, and the server starts.
  pub run_proxy_iff :
      (r : Running) (ts : Transports)
      → ((run_proxy a failure config initial url_error serve_error r).1 ≡ ok ts) ↔ (
          (run_transports failure config initial ≡ ok ts)
          × (url_error ≡ none)
          × ((Audit.run a r.effects).1 ≡ none)
          × (serve_error ≡ none))
  unfolding run_proxy with_transports parsed served serve serve_audited
  run_proxy_iff r ts = ground arith

  abbrev with_hook : List Effect → Running
  with_hook effects = record {
    hooks = add_pre_shutdown_hook (bytes "AuditBackend") (shutdown a) new;
    effects = effects;
  }

  abbrev start_of : List Effect → Running
  start_of effects = record { hooks = new; effects = effects }

  run_proxy-with_hook :
      (effects : List Effect) (ts : Transports)
      → run_transports failure config initial ≡ ok ts
      → url_error ≡ none
      → (Audit.run a effects).1 ≡ none
      → serve_error ≡ none
      → (run_proxy a failure config initial url_error serve_error
          (record { hooks = new; effects = effects })).0
        ≡ with_hook ((Audit.run a effects).0 ++ listening ∷ [])
  unfolding run_proxy serve served
  run_proxy-with_hook effects ts built no_error runs serves =
      let start = start_of effects in
      rw (built, with_transports, no_error, parsed)
        (ap (λ outcome. (served a ts outcome).0)
          (ap (λ error. serve a error start) serves
            ∙ serve_audited-none a (with_hook effects) (Audit.run a effects) runs))

  hooks_of_with_hook :
      (effects later : List Effect)
      → shutdown a effects ≡ (later, none)
      → run_pre_shutdown_hooks (with_hook effects).hooks effects ≡ (later, none)
  unfolding run_pre_shutdown_hooks add_pre_shutdown_hook new insert run_hooks report new_aggregate
  hooks_of_with_hook effects later h = rw h refl

  -- After a run that returned transports, of a proxy that had no hooks, the hooks at shutdown end
  -- without an error, and the server has listened; if there is an audit backend, it was started before
  -- that, once, and stopped after it, once.
  pub run_proxy-shutdown :
      (effects : List Effect) (ts : Transports)
      → (run_proxy a failure config initial url_error serve_error
          (record { hooks = new; effects = effects })).1
        ≡ ok ts
      → (let r =
            (run_proxy a failure config initial url_error serve_error
              (record { hooks = new; effects = effects })).0 in
          run_pre_shutdown_hooks r.hooks r.effects)
        ≡ (effects ++ lifecycle a.backend, none)
  unfolding Audit.run shutdown
  run_proxy-shutdown effects ts h =
      let (built, no_error, runs, serves) =
        (run_proxy_iff (record { hooks = new; effects = effects }) ts).0 h in
      rw (run_proxy-with_hook effects ts built no_error runs serves)
        (hooks_of_with_hook _ _ (shutdown_of_run a.backend effects runs))
