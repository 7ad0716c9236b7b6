-- ===== src/Audit/Filters.antt =====
-- What the wrappings of pkg/proxy/audit/audit.go do to the answers, by what the filters of
-- k8s.io/apiserver do to them.
use pf9_oidc_proxy.Base.{ℕ, some, ◌≡◌, ◌⊎◌, inl, inr, ◌∙◌}
use pf9_oidc_proxy.Strings.{Str}
use pf9_oidc_proxy.Proxy.Context.{Request}
use pf9_oidc_proxy.Proxy.Errors.{http_error, Handler}
use pf9_oidc_proxy.Audit.{Audit, with_request, with_unauthorized, new_unauthenticated_handler}

-- A filter lets the handler that it wraps answer, or answers with an error itself.
abbrev pub IsFilter : {Query : Type 0} → (Handler Query → Handler Query) → Type 0
IsFilter {Query} filter =
    (handler : Handler Query) (req : Request Query)
    → (filter handler req ≡ handler req)
      ⊎ ((text : Str) × (code : ℕ) × (filter handler req ≡ http_error text code))

-- A filter that lets the handler answer each request.
abbrev pub Passes : {Query : Type 0} → (Handler Query → Handler Query) → Type 0
Passes {Query} filter =
    (req : Request Query) (handler : Handler Query) → filter handler req ≡ handler req

module _ {Query : Type 0} (f g : Handler Query → Handler Query) where
  composed-IsFilter : IsFilter f → IsFilter g → IsFilter (λ handler. f (g handler))
  composed-IsFilter outer inner handler req = elim (outer (g handler) req) [
    | inr e ↦ inr e
    | inl e ↦ elim (inner handler req) [
      | inl e' ↦ inl (e ∙ e')
      | inr (text, code, e') ↦ inr (text, code, e ∙ e')
    ]
  ]

module _ {Query : Type 0} (a : Audit Query) where
  pub record AreFilters : Type 0 where
    pub audit : IsFilter a.with_audit
    pub audit_init : IsFilter a.with_audit_init
    pub failed_authentication : IsFilter a.with_failed_authentication_audit
    pub request_info : IsFilter a.with_request_info

  -- None of the filters fails.
  pub record AllPass : Type 0 where
    pub audit : Passes a.with_audit
    pub audit_init : Passes a.with_audit_init
    pub failed_authentication : Passes a.with_failed_authentication_audit
    pub request_info : Passes a.with_request_info

  pub with_request-IsFilter : AreFilters → IsFilter (with_request a)
  unfolding with_request
  with_request-IsFilter filters =
      composed-IsFilter a.with_request_info (λ h. a.with_audit_init (a.with_audit h))
        filters.request_info
        (composed-IsFilter a.with_audit_init a.with_audit filters.audit_init filters.audit)

  pub unauthenticated-IsFilter : AreFilters → IsFilter (new_unauthenticated_handler (some a))
  unfolding new_unauthenticated_handler with_unauthorized
  unauthenticated-IsFilter filters =
      composed-IsFilter a.with_request_info a.with_failed_authentication_audit filters.request_info
        filters.failed_authentication

  pub with_request-Passes : AllPass → Passes (with_request a)
  unfolding with_request
  with_request-Passes all_pass req handler =
      all_pass.request_info req (a.with_audit_init (a.with_audit handler))
      ∙ all_pass.audit_init req (a.with_audit handler)
      ∙ all_pass.audit req handler

  pub unauthenticated-Passes : AllPass → Passes (new_unauthenticated_handler (some a))
  unfolding new_unauthenticated_handler with_unauthorized
  unauthenticated-Passes all_pass req handler =
      all_pass.request_info req (a.with_failed_authentication_audit handler)
      ∙ all_pass.failed_authentication req handler
