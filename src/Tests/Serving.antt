-- ===== src/Tests/Serving.antt =====
-- The chain of handlers and the transports.
use pf9_oidc_proxy.Base.{
  Bool, true, false, Option, none, some, List, [], ◌∷◌, ◌≡◌, ◌≢◌, refl, if◌then◌else◌, inr, ◌||◌,
}
use pf9_oidc_proxy.Strings.{Str, bytes, ◌==◌, trim_space}
use pf9_oidc_proxy.Maps.{Map, lookup, insert, values_at}
use pf9_oidc_proxy.Result.{map_ok, ok}
use pf9_oidc_proxy.Users.{User}
use pf9_oidc_proxy.Http.{Header, add, get}
use pf9_oidc_proxy.Access.Review.{answered}
use pf9_oidc_proxy.Token.{authorization, status, review}
use pf9_oidc_proxy.Audit.{Audit}
use pf9_oidc_proxy.Audit.Filters.{AllPass}
use pf9_oidc_proxy.Namespace.Region.{Url}
use pf9_oidc_proxy.Proxy.Context.{
  Request, ImpersonationConfig, ImpersonationRequest, no_impersonation, impersonation_config,
}
use pf9_oidc_proxy.Proxy.Errors.{
  client_transport, no_auth_client_transport, Response, http_error, sent, Handler,
}
use pf9_oidc_proxy.Proxy.Impersonation.Build.{Config, ensure_all_authenticated, build_request}
use pf9_oidc_proxy.Proxy.Impersonation.{
  Proxy, Authentication, authenticated, failed, with_impersonate_request,
}
use pf9_oidc_proxy.Proxy.Handlers.{with_authenticate_request}
use pf9_oidc_proxy.Proxy.Transports.{Transports, run_transports, serve_request}
use pf9_oidc_proxy.Proxy.Laws.Building.{build_request-uid}
use pf9_oidc_proxy.Proxy.Laws.Admission.{fresh, Admitted, with_authenticate_request-Admitted}
use pf9_oidc_proxy.Proxy.Laws.Sending.{
  no_failure, run_transports-namespace, with_authenticate_request-rejects, serve_request_lost_token,
}
use pf9_oidc_proxy.Tests.Rewriting.{plain_codec, mapped}

abbrev pub Values : Type 0
Values = Map (List Str)

abbrev alice : User
alice = record { name = bytes "alice"; uid = []; groups = bytes "dev" ∷ []; extra = none }

abbrev pub settings : Bool → Bool → Config
settings disabled review = record {
  disable_impersonation = disabled;
  token_review = review;
  extra_user_headers = [];
  extra_user_headers_client_ip_enabled = false;
}

-- An auditor that audits nothing.
abbrev silent : Audit Values
silent = record {
  backend = none;
  with_audit = λ handler. handler;
  with_audit_init = λ handler. handler;
  with_failed_authentication_audit = λ handler. handler;
  with_request_info = λ handler. handler;
}

pub silent-AllPass : AllPass silent
silent-AllPass = record {
  audit = λ r g. refl;
  audit_init = λ r g. refl;
  failed_authentication = λ r g. refl;
  request_info = λ r g. refl;
}

-- A proxy that authenticates everybody as it is told, and leaves no headers.
abbrev pub proxy_with : Config → Authentication → Proxy Values
proxy_with config info = record {
  config = config;
  get_remote_addr = λ req. req.remote_addr;
  authenticate_request = λ req. (info, []);
  create_token_review = λ spec. status [] false;
  audiences = [];
  create_access_review = λ review. answered true;
  marshal = λ extra. ok [];
  auditor = silent;
}

abbrev pub pods : Url Values
pods = record { path = bytes "/t/r/api/v1/pods"; raw_query = [] }

abbrev arrived : Request Values
arrived = fresh [] pods (bytes "1.2.3.4:5")

abbrev rejecting : Proxy Values
rejecting = proxy_with (settings false true) (failed (bytes "expired"))

review_refused :
    review rejecting.create_token_review rejecting.audiences
      (rejecting.authenticate_request arrived).1
    ≢ ok true
unfolding review trim_space get values_at lookup ◌==◌
review_refused = λ h. cc

with_authenticate_request-rejects_example :
    with_authenticate_request rejecting (λ req. http_error [] 200) arrived
    ≡ http_error (bytes "Unauthorized") 401
with_authenticate_request-rejects_example =
    with_authenticate_request-rejects rejecting (λ req. http_error [] 200) arrived silent-AllPass
      (inr (bytes "expired", refl, inr review_refused))

-- Two handlers that differ on a request that is marked in neither way.
abbrev accepting : Proxy Values
accepting = proxy_with (settings false false) (authenticated alice)

abbrev careless : Handler Values
careless req = http_error [] 200

abbrev by_marks : Bool → Option ImpersonationRequest → Response Values
by_marks true conf = http_error [] 200
by_marks false none = http_error [] 500
by_marks false (some conf) = http_error [] 200

abbrev careful : Handler Values
careful req = by_marks (no_impersonation req) (impersonation_config req)

careful_same : (r : Request Values) → Admitted accepting arrived r → careless r ≡ careful r
careful_same r (Admitted.by_token_review text e on good marked unchanged) = rw marked
careful_same r (Admitted.without_impersonation user e off marked unchanged) = rw marked
careful_same r (Admitted.as_user user conf e on placed plain unmarked found is_for) =
    rw (unmarked, found)
careful_same r (Admitted.as_target user target conf e on may placed plain unmarked found is_for) =
    rw (unmarked, found)

with_authenticate_request-Admitted_example :
    with_authenticate_request accepting (with_impersonate_request accepting careless) arrived
    ≡ with_authenticate_request accepting (with_impersonate_request accepting careful) arrived
with_authenticate_request-Admitted_example =
    with_authenticate_request-Admitted accepting [] pods (bytes "1.2.3.4:5") careless careful
      careful_same

run_transports-namespace_example :
    (ts : Transports) × (run_transports no_failure (settings false true) (some client_transport)
      ≡ ok ts)
    × (ts.client ≡ client_transport)
    × (ts.namespace
        ≡ some (
            if (settings false true).disable_impersonation || (settings false true).token_review
            then no_auth_client_transport
            else client_transport))
run_transports-namespace_example = run_transports-namespace (settings false true) client_transport

abbrev passing : Proxy Values
passing = proxy_with (settings true false) (authenticated alice)

abbrev transports : Transports
transports = record {
  client = client_transport;
  no_auth = some no_auth_client_transport;
  namespace = some no_auth_client_transport;
}

passing_built :
    run_transports no_failure (settings true false) (some client_transport) ≡ ok transports
unfolding run_transports
passing_built = refl

abbrev pub set_user : ImpersonationConfig → Header → Header
set_user conf header = insert (bytes "Impersonate-User") (conf.user_name ∷ []) header

serve_request_lost_token_example :
    (r : Request Values) × (serve_request plain_codec mapped set_user passing
        (λ req. req)
        transports
        arrived
      ≡ sent no_auth_client_transport (record r { header = add authorization [] r.header }))
    × (r.header ≡ (passing.authenticate_request arrived).1)
    × (r.url ≡ pods)
serve_request_lost_token_example =
    serve_request_lost_token plain_codec mapped set_user passing (λ req. req) transports no_failure
      (some client_transport) [] pods (bytes "1.2.3.4:5") alice silent-AllPass (λ r. refl)
      passing_built refl refl

abbrev alice_for_alice : ImpersonationRequest
alice_for_alice = record {
  config = record {
    user_name = bytes "alice";
    uid = [];
    groups = ensure_all_authenticated (bytes "dev" ∷ []);
    extra =
        (bytes "originaluser.jetstack.io-user", bytes "alice" ∷ [])
        ∷ (bytes "originaluser.jetstack.io-groups", bytes "dev" ∷ [])
        ∷ [];
  };
  inbound_user = alice;
  impersonated_user = some (record alice { uid = bytes "1-2"; extra = none });
}

for_alice :
    build_request
      (settings false false)
      (λ extra. ok [])
      []
      alice
      (some (record alice { uid = bytes "1-2" }))
    ≡ ok (alice_for_alice, alice)
unfolding build_request insert ◌==◌
for_alice = refl

-- The id `1-2` of the target does not arrive.
build_request-uid_example :
    (alice_for_alice.config.uid ≡ [])
    × (map_ok
          (λ r. r.0.config)
          (build_request
            (settings false false)
            (λ extra. ok [])
            []
            alice
            (some (record alice { uid = bytes "3" })))
        ≡ ok alice_for_alice.config)
build_request-uid_example =
    build_request-uid (settings false false) (λ extra. ok []) [] alice alice (bytes "1-2")
      (bytes "3") alice_for_alice alice for_alice
