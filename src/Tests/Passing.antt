-- ===== src/Tests/Passing.antt =====
-- A request whose token only the API server accepts.
use pf9_oidc_proxy.Base.{true, false, some, [], ◌∷◌, ◌≡◌, refl, arith}
use pf9_oidc_proxy.Strings.{Str, bytes, ◌==◌, split, to_lower, trim_space, is_space}
use pf9_oidc_proxy.Maps.{lookup, values_at}
use pf9_oidc_proxy.Result.{ok}
use pf9_oidc_proxy.Http.{Header, get}
use pf9_oidc_proxy.Token.{
  TokenReviewSpec, TokenReply, status, build_review, review, parse_token_from_request,
}
use pf9_oidc_proxy.Token.Parse.{parse_token-bearer}
use pf9_oidc_proxy.Proxy.Context.{Request, with_no_impersonation}
use pf9_oidc_proxy.Proxy.Errors.{client_transport, no_auth_client_transport, sent}
use pf9_oidc_proxy.Proxy.Impersonation.{Proxy, failed}
use pf9_oidc_proxy.Proxy.Transports.{Transports, run_transports, serve_request}
use pf9_oidc_proxy.Proxy.Laws.Admitted.{fresh}
use pf9_oidc_proxy.Proxy.Laws.Passthrough.{serve_request-passed_through}
use pf9_oidc_proxy.Proxy.Laws.Sending.{no_failure}
use pf9_oidc_proxy.Tests.Rewriting.{plain_codec, mapped}
use pf9_oidc_proxy.Tests.Serving.{Values, settings, proxy_with, set_user, pods, silent-AllPass}

abbrev service_account : Header
service_account =
    (bytes "Accept", bytes "json" ∷ []) ∷ (bytes "Authorization", bytes "Bearer abc.def" ∷ []) ∷ []

-- An API server that knows the token `abc.def`.
abbrev knows : TokenReviewSpec → TokenReply
knows spec = status [] (spec.token == bytes "abc.def")

abbrev passing : Proxy Values
passing = record (proxy_with (settings false true) (failed (bytes "unknown issuer"))) {
  authenticate_request = λ req. (failed (bytes "unknown issuer"), req.header);
  create_token_review = knows;
  audiences = bytes "proxy" ∷ [];
}

abbrev address : Str
address = bytes "1.2.3.4:5"

abbrev transports : Transports
transports = record {
  client = client_transport;
  no_auth = some no_auth_client_transport;
  namespace = some no_auth_client_transport;
}

transports_built :
    run_transports no_failure (settings false true) (some client_transport) ≡ ok transports
unfolding run_transports
transports_built = refl

accepted : review knows (bytes "proxy" ∷ []) service_account ≡ ok true
unfolding review trim_space get lookup split to_lower ◌==◌ values_at
accepted = refl

serve_request-passed_through_example :
    (r : Request Values) × (token : Str) × (serve_request plain_codec mapped set_user passing
        (λ req. req)
        transports
        (fresh service_account pods address)
      ≡ sent no_auth_client_transport r)
    × (r.url ≡ pods)
    × (parse_token_from_request service_account ≡ some token)
    × (parse_token_from_request r.header ≡ some token)
    × (knows (build_review (bytes "proxy" ∷ []) token) ≡ status [] true)
unfolding with_no_impersonation
serve_request-passed_through_example =
    serve_request-passed_through plain_codec mapped set_user passing (λ req. req) transports
      no_failure (some client_transport) service_account pods address (bytes "unknown issuer")
      transports_built silent-AllPass (λ r. refl) refl refl refl accepted

-- It is the token behind the scheme.
service_account_token : parse_token_from_request service_account ≡ some (bytes "abc.def")
unfolding get lookup values_at is_space to_lower ◌==◌
service_account_token =
    parse_token-bearer service_account (bytes "Bearer") (bytes "abc.def") refl (ground arith)
      (ground arith) refl (ground arith) (ground arith)
