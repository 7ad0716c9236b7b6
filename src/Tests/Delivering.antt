-- ===== src/Tests/Delivering.antt =====
-- A request of a user who impersonates another one, on its way to the API server.
use pf9_oidc_proxy.Base.{
  true, false, none, some, [], ◌∷◌, ◌++◌, ◌≡◌, ◌≢◌, refl, inl, arith, if-true, ◌∙◌, sym, subst,
}
use pf9_oidc_proxy.Strings.{Str, bytes, ◌==◌, to_lower, has_prefix, split, join}
use pf9_oidc_proxy.Maps.{insert, values_at, lookup}
use pf9_oidc_proxy.Result.{ok}
use pf9_oidc_proxy.Audit.Filters.{AreFilters}
use pf9_oidc_proxy.Namespace.Path.{namespaces, modify_namespace_in_path}
use pf9_oidc_proxy.Namespace.Path.Segments.{path_of}
use pf9_oidc_proxy.Namespace.Path.Tenant.{namespace_or}
use pf9_oidc_proxy.Namespace.Region.{Url, add_selector}
use pf9_oidc_proxy.Namespace.Region.Panics.{IsFollowed}
use pf9_oidc_proxy.Namespace.RoundTrip.{rewrite_url}
use pf9_oidc_proxy.Namespace.RoundTrip.Laws.{url_of, rewrite_url-added}
use pf9_oidc_proxy.Proxy.Context.{Request, ImpersonationRequest}
use pf9_oidc_proxy.Proxy.Errors.{client_transport, sent, http_error, panicked}
use pf9_oidc_proxy.Proxy.Impersonation.Build.{
  build_request, original_user, original_groups, all_authenticated,
}
use pf9_oidc_proxy.Proxy.Impersonation.{Proxy, authenticated, has_impersonation}
use pf9_oidc_proxy.Proxy.Handlers.{with_handlers}
use pf9_oidc_proxy.Proxy.Transports.{Transports, run_transports, serve_request}
use pf9_oidc_proxy.Proxy.Laws.Admitted.{fresh, Returns}
use pf9_oidc_proxy.Proxy.Laws.Outcomes.{Outcome, with_handlers-Outcome}
use pf9_oidc_proxy.Proxy.Laws.Serving.{Impersonated, serve_request-Impersonated}
use pf9_oidc_proxy.Proxy.Laws.Answering.{serve_request-no_panic}
use pf9_oidc_proxy.Proxy.Laws.Building.{IsEnsured}
use pf9_oidc_proxy.Proxy.Laws.Delivery.{handed, target_of, sent_request, serve_request-sent}
use pf9_oidc_proxy.Proxy.Laws.Extra.{extra_values, build_request-built}
use pf9_oidc_proxy.Proxy.Laws.Sending.{no_failure}
use pf9_oidc_proxy.Tests.Reviewing.{checked, create, mmosley, jjackson, asking, accept_only}
use pf9_oidc_proxy.Tests.Headers.{asking-HasValues}
use pf9_oidc_proxy.Tests.Rewriting.{
  plain_codec, mapped, group_path, machines-IsAddressed, namespace1-IsSegment, namespace1-IsPlain,
}
use pf9_oidc_proxy.Tests.Serving.{Values, settings, proxy_with, set_user, silent-AllPass}

abbrev pub granting : Proxy Values
granting = record (proxy_with (settings false false) (authenticated mmosley)) {
  authenticate_request = λ req. (authenticated mmosley, req.header);
  create_access_review = create;
}

abbrev address : Str
address = bytes "1.2.3.4:5"

abbrev machines : Url Values
machines =
    url_of plain_codec mapped
      (bytes "tenant1" ∷ bytes "region1" ∷ group_path
        ++ namespaces ∷ bytes "default" ∷ bytes "machines" ∷ [])
      []

abbrev jjackson_extra : Values
jjackson_extra =
    (bytes "scopes", bytes "view" ∷ bytes "edit" ∷ [])
    ∷ (original_user, bytes "mmosley" ∷ [])
    ∷ (original_groups, bytes "group1" ∷ [])
    ∷ []

abbrev jjackson_conf : ImpersonationRequest
jjackson_conf = record {
  config = record {
    user_name = bytes "jjackson";
    uid = [];
    groups = bytes "g1" ∷ bytes "g2" ∷ all_authenticated ∷ [];
    extra = jjackson_extra;
  };
  inbound_user = mmosley;
  impersonated_user = some (record jjackson { extra = some jjackson_extra });
}

jjackson_built :
    build_request (settings false false) (λ extra. ok []) address mmosley (some jjackson)
    ≡ ok (jjackson_conf, mmosley)
unfolding build_request insert ◌==◌
jjackson_built = refl

asked : has_impersonation asking ≡ true
unfolding has_impersonation to_lower has_prefix
asked = refl

jjackson_target : target_of granting mmosley asking ≡ ok (some jjackson, accept_only)
jjackson_target = if-true (has_impersonation asking) _ _ asked ∙ checked.0

abbrev transports : Transports
transports = record { client = client_transport; no_auth = none; namespace = some client_transport }

-- The request that the audit filters get.
abbrev handed_on : Request Values
handed_on = handed granting asking machines address mmosley accept_only jjackson_conf mmosley

abbrev machines_sent : Url Values
machines_sent =
    url_of plain_codec mapped
      (group_path
        ++ namespaces
          ∷ namespace_or (mapped (bytes "tenant1")) (bytes "default")
          ∷ bytes "machines"
          ∷ [])
      (add_selector plain_codec (bytes "region1") (bytes "machines") [])

machines_routed : rewrite_url plain_codec mapped handed_on.url ≡ ok machines_sent
unfolding handed
machines_routed =
    rewrite_url-added plain_codec mapped (bytes "tenant1") (bytes "region1") group_path
      (bytes "default") (bytes "machines") [] machines-IsAddressed namespace1-IsSegment
      namespace1-IsPlain (ground arith)

-- What is sent, and with which credentials.
delivered :
    serve_request plain_codec mapped set_user granting
      (λ req. req)
      transports
      (fresh asking machines address)
    ≡ sent client_transport (
        sent_request plain_codec mapped set_user granting
          (λ req. req)
          transports
          handed_on
          jjackson_conf
          machines_sent)
delivered =
    serve_request-sent plain_codec mapped set_user granting (λ req. req) transports asking machines
      address mmosley (some jjackson) accept_only jjackson_conf mmosley client_transport
      machines_sent refl refl (λ e. cc) jjackson_target jjackson_built silent-AllPass (λ r. refl)
      refl machines_routed

serve_request-sent_example :
    serve_request plain_codec mapped set_user granting
      (λ req. req)
      transports
      (fresh asking machines address)
    ≡ sent client_transport (
        sent_request plain_codec mapped set_user granting
          (λ req. req)
          transports
          handed_on
          jjackson_conf
          machines_sent)
serve_request-sent_example =
    serve_request-sent plain_codec mapped set_user granting (λ req. req) transports asking machines
      address mmosley (some jjackson) accept_only jjackson_conf mmosley client_transport
      machines_sent refl refl (λ e. cc) jjackson_target jjackson_built silent-AllPass (λ r. refl)
      refl machines_routed

-- They let the handler answer.
granting-AreFilters : AreFilters granting.auditor
granting-AreFilters = record {
  audit = λ g req. inl refl;
  audit_init = λ g req. inl refl;
  failed_authentication = λ g req. inl refl;
  request_info = λ g req. inl refl;
}

transports_built :
    run_transports no_failure (settings false false) (some client_transport) ≡ ok transports
unfolding run_transports
transports_built = refl

serve_request-Impersonated_example :
    Impersonated granting set_user (fresh asking machines address) (
      sent_request plain_codec mapped set_user granting
        (λ req. req)
        transports
        handed_on
        jjackson_conf
        machines_sent)
serve_request-Impersonated_example =
    serve_request-Impersonated plain_codec mapped set_user granting (λ req. req) transports asking
      machines address granting-AreFilters (λ r. refl) (λ r plain. plain) no_failure
      (some client_transport) transports_built _ delivered

with_handlers-Outcome_example :
    Outcome granting
      (λ req. http_error [] 200)
      (fresh asking machines address)
      (with_handlers granting (λ req. http_error [] 200) (fresh asking machines address))
with_handlers-Outcome_example =
    with_handlers-Outcome granting (λ req. http_error [] 200) asking machines address

build_request-built_example :
    (jjackson_conf.config.user_name ≡ jjackson.name)
    × IsEnsured jjackson.groups jjackson_conf.config.groups
    × ((key : Str)
        → values_at key jjackson_conf.config.extra
          ≡ extra_values
              (settings false false)
              (λ extra. ok [])
              address
              mmosley
              (some jjackson)
              key)
build_request-built_example =
    build_request-built (settings false false) (λ extra. ok []) address mmosley (some jjackson)
      jjackson_conf mmosley jjackson_built

machines_path-IsFollowed : IsFollowed (split b'/' (modify_namespace_in_path mapped machines.path))
unfolding modify_namespace_in_path split join has_prefix ◌==◌ lookup path_of
machines_path-IsFollowed = ground arith

machines-IsFollowed :
    (r : Request Values)
    → r.url ≡ machines
    → IsFollowed (split b'/' (modify_namespace_in_path mapped r.url.path))
machines-IsFollowed r e =
    subst (λ u. IsFollowed (split b'/' (modify_namespace_in_path mapped u.path))) (sym e)
      machines_path-IsFollowed

granting-Returns : Returns granting (fresh asking machines address)
granting-Returns = record { has_values = asking-HasValues; marshals = λ m e. cc }

serve_request-no_panic_example :
    serve_request plain_codec mapped set_user granting
      (λ req. req)
      transports
      (fresh asking machines address)
    ≢ panicked
serve_request-no_panic_example =
    serve_request-no_panic plain_codec mapped set_user granting (λ req. req) transports asking
      machines address granting-AreFilters (λ r. refl) machines-IsFollowed no_failure
      (some client_transport) transports_built granting-Returns
