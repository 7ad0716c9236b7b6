-- ===== src/Proxy/Laws/Passthrough.antt =====
-- Requests with a token that the API server accepts, but not the OIDC authentication.
use pf9_oidc_proxy.Base.{true, Option, some, [], ◌≡◌, refl, arith, ap, ◌∙◌}
use pf9_oidc_proxy.Strings.{Str}
use pf9_oidc_proxy.Result.{ok}
use pf9_oidc_proxy.Http.{Header, get, add}
use pf9_oidc_proxy.Token.{authorization, status, build_review, review, parse_token_from_request}
use pf9_oidc_proxy.Token.Accepted.{review-accepted, parse_token-get, parse_token-add}
use pf9_oidc_proxy.Audit.{with_request}
use pf9_oidc_proxy.Audit.Filters.{AllPass, with_request-Passes}
use pf9_oidc_proxy.Namespace.Region.{QueryCodec, Url}
use pf9_oidc_proxy.Proxy.Context.{
  Request, ImpersonationConfig, with_no_impersonation, no_impersonation,
}
use pf9_oidc_proxy.Proxy.Errors.{Transport, no_auth_client_transport, sent, Handler}
use pf9_oidc_proxy.Proxy.Impersonation.{Proxy, failed, with_impersonate_request}
use pf9_oidc_proxy.Proxy.Handlers.{
  with_handlers, with_authenticate_request, authenticated_request, with_token_review, review_token,
  is_reviewed,
}
use pf9_oidc_proxy.Proxy.Transports.{Transports, run_transports, serve_request}
use pf9_oidc_proxy.Proxy.Laws.Admitted.{fresh}
use pf9_oidc_proxy.Proxy.Laws.Sending.{proxy_handler-passed}
use pf9_oidc_proxy.Proxy.Laws.Serving.{run_transports-no_auth}
use pf9_oidc_proxy.Proxy.Laws.Answering.{run_transports-bare}

module _ {Query : Type 0} (p : Proxy Query) (header : Header) (url : Url Query)
    (address : Str) where
  -- The request as the audit filters get it.
  abbrev pub marked : Request Query
  marked =
      with_no_impersonation
        (fresh (p.authenticate_request (fresh header url address)).1 url address)

  -- A request with a token that is reviewed as valid is handed on with the mark.
  with_handlers-marked :
      (handler : Handler Query) (text : Str)
      → (p.authenticate_request (fresh header url address)).0 ≡ failed text
      → p.config.token_review ≡ true
      → review p.create_token_review p.audiences marked.header ≡ ok true
      → with_handlers p handler (fresh header url address) ≡ with_request p.auditor handler marked
  unfolding with_handlers with_authenticate_request authenticated_request with_token_review
      review_token is_reviewed with_impersonate_request no_impersonation with_no_impersonation
  with_handlers-marked handler text unknown on good = rw (unknown, on, good) refl

module _ (codec : QueryCodec) (get_namespace : Str → Option Str)
    (impersonate : ImpersonationConfig → Header → Header) (p : Proxy codec.RawQuery)
    (outgoing : Request codec.RawQuery → Request codec.RawQuery) (ts : Transports) where
  open codec use {RawQuery}

  -- With token review enabled, a request whose OIDC authentication ends in an error and whose token
  -- the API server's review accepts is sent without the proxy's credentials and with no change of
  -- its URL by the namespace round tripper. The token that is read from what is sent is the one that
  -- the review was asked about, with the proxy's audiences, and was said to be authenticated. The
  -- audit filters let the handler answer, the reverse proxy keeps the context of requests and the
  -- first Authorization header of this one (which it drops if the request's Connection header names
  -- it), and the transports are those that `Run` builds.
  pub serve_request-passed_through :
      (error_of : Transport → Option Str) (initial : Option Transport) (header : Header)
      (url : Url RawQuery) (address text : Str)
      → run_transports error_of p.config initial ≡ ok ts
      → AllPass p.auditor
      → ((r : Request RawQuery) → (outgoing r).context ≡ r.context)
      → get authorization (outgoing (marked p header url address)).header
        ≡ get authorization (marked p header url address).header
      → p.config.token_review ≡ true
      → (p.authenticate_request (fresh header url address)).0 ≡ failed text
      → review p.create_token_review p.audiences
          (p.authenticate_request (fresh header url address)).1
        ≡ ok true
      → (r : Request RawQuery) × (token : Str) × (serve_request codec get_namespace impersonate p
            outgoing ts
            (fresh header url address)
          ≡ sent no_auth_client_transport r)
        × (r.url ≡ (outgoing (marked p header url address)).url)
        × (parse_token_from_request (p.authenticate_request (fresh header url address)).1
            ≡ some token)
        × (parse_token_from_request r.header ≡ some token)
        × (p.create_token_review (build_review p.audiences token) ≡ status [] true)
  unfolding serve_request with_no_impersonation
  serve_request-passed_through error_of initial header url address text built all_pass same kept on
        unknown good =
      let m = marked p header url address in
      let (t, bare) = run_transports-bare error_of p.config initial ts built (ground arith) in
      let (token, found, accepted) =
        review-accepted p.create_token_review p.audiences m.header good in
      let still = parse_token-get (outgoing m).header m.header kept ∙ found in
      let r : Request RawQuery = record (outgoing m) {
        header = add authorization [] (outgoing m).header;
      } in
      (
        r,
        token,
        with_handlers-marked p header url address _ text unknown on good
            ∙ with_request-Passes p.auditor all_pass m _
            ∙ proxy_handler-passed codec get_namespace impersonate p outgoing ts t m bare
                (ap (λ c. c.no_impersonation) (same m)) (ap (λ c. c.bearer_token) (same m))
            ∙ ap (λ t. sent t r) (run_transports-no_auth error_of p.config initial ts t built bare),
        refl,
        found,
        parse_token-add [] token (outgoing m).header still,
        accepted,
      )
