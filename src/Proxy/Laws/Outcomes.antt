-- ===== src/Proxy/Laws/Outcomes.antt =====
-- What comes of a request: every answer of the chain of handlers.
use pf9_oidc_proxy.Base.{ℕ, some, [], ◌⊎◌, inl, inr, ◌≡◌, refl, Bool-cases}
use pf9_oidc_proxy.Strings.{Str, bytes, contains}
use pf9_oidc_proxy.Http.{Header}
use pf9_oidc_proxy.Namespace.Region.{Url}
use pf9_oidc_proxy.Access.Review.{error_text}
use pf9_oidc_proxy.Access.Review
use pf9_oidc_proxy.Audit.{with_request, new_unauthenticated_handler}
use pf9_oidc_proxy.Proxy.Context.{Request}
use pf9_oidc_proxy.Proxy.Errors.{
  Error, unauthorized, no_name, no_impersonation_config, review_error, other_error, Response,
  http_error, panicked, Handler, handle_error, not_allowed_text,
}
use pf9_oidc_proxy.Proxy.Impersonation.{Proxy, fail}
use pf9_oidc_proxy.Proxy.Handlers.{with_handlers}
use pf9_oidc_proxy.Proxy.Laws.Admitted.{fresh, Returns, Admitted}
use pf9_oidc_proxy.Proxy.Laws.Chain.{with_authenticate_request-Related}

-- The handler that the audit filters of k8s.io/apiserver wrap for a request that is refused.
abbrev pub refusal : {Query : Type 0} → Handler Query
refusal req = http_error (bytes "Unauthorized") 401

module _ {Query : Type 0} (p : Proxy Query) where
  -- The answers of the error handler: 401 through the audit filters, or 403 or 500 beside them.
  pub data Failure (x : Response Query) : Type 0 where
    rejected :
        (r : Request Query) → x ≡ new_unauthenticated_handler (some p.auditor) refusal r → Failure x
    refused :
        (text : Str) (code : ℕ) → (code ≡ 403) ⊎ (code ≡ 500) → x ≡ http_error text code → Failure x

  -- The default case of the switch.
  unknown-Failure :
      (r : Request Query) (text : Str)
      → Failure
          (handle_error (new_unauthenticated_handler (some p.auditor)) r (some (other_error text)))
  unfolding handle_error
  unknown-Failure r text = elim (Bool-cases (contains text not_allowed_text)) [
    | inl e ↦ refused text 403 (inl refl) (rw e refl)
    | inr e ↦ refused [] 500 (inr refl) (rw e refl)
  ]

  pub fail-Failure : (r : Request Query) (e : Error) → Failure (fail p r e)
  unfolding handle_error
  fail-Failure r unauthorized = rejected r refl
  fail-Failure r no_name = refused _ 403 (inl refl) refl
  fail-Failure r no_impersonation_config = refused _ 500 (inr refl) refl
  fail-Failure r (review_error Review.no_impersonation_user_found) = refused _ 500 (inr refl) refl
  fail-Failure r (review_error (Review.user_not_allowed a b)) = unknown-Failure r _
  fail-Failure r (review_error (Review.group_not_allowed a b)) = unknown-Failure r _
  fail-Failure r (review_error (Review.uid_not_allowed a b)) = unknown-Failure r _
  fail-Failure r (review_error (Review.extra_not_allowed a b c)) = unknown-Failure r _
  fail-Failure r (review_error (Review.unknown_header a)) = unknown-Failure r _
  fail-Failure r (review_error (Review.api_error a)) = unknown-Failure r a
  fail-Failure r (other_error text) = unknown-Failure r text

  -- What the chain may answer to the request, with `handler` behind it.
  pub data Outcome (handler : Handler Query) (req : Request Query) (x : Response Query)
      : Type 0 where
    failure : Failure x → Outcome handler req x
    dropped : x ≡ panicked → ¬ Returns p req → Outcome handler req x
    passed :
        (r : Request Query)
        → Admitted p req r
        → x ≡ with_request p.auditor handler r
        → Outcome handler req x

  -- A request as it arrives is answered in one of four ways. It is refused with 401 by a handler
  -- that the audit filters wrap; it is refused with 403 or 500, and no audit filter sees it; the
  -- proxy panics, which it does only if the authentication leaves a name without a value or
  -- `json.Marshal` panics; or the audit filters around the handler behind the chain get a request
  -- that is admitted.
  pub with_handlers-Outcome :
      (handler : Handler Query) (header : Header) (url : Url Query) (address : Str)
      → Outcome handler
          (fresh header url address)
          (with_handlers p handler (fresh header url address))
  unfolding with_handlers
  with_handlers-Outcome handler header url address =
      with_authenticate_request-Related p header url address
        (λ x _. Outcome handler (fresh header url address) x) (λ r e. failure (fail-Failure r e))
        (λ unsafe. dropped refl unsafe) (with_request p.auditor handler)
        (with_request p.auditor handler) (λ r admitted. passed r admitted refl)
