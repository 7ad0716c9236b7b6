-- ===== src/Proxy/Laws/Admission.antt =====
-- Which requests the chain of handlers passes on.
use pf9_oidc_proxy.Base.{◌≡◌, refl}
use pf9_oidc_proxy.Strings.{Str}
use pf9_oidc_proxy.Http.{Header}
use pf9_oidc_proxy.Namespace.Region.{Url}
use pf9_oidc_proxy.Proxy.Context.{Request}
use pf9_oidc_proxy.Proxy.Errors.{Handler}
use pf9_oidc_proxy.Proxy.Impersonation.{Proxy, with_impersonate_request}
use pf9_oidc_proxy.Proxy.Handlers.{with_authenticate_request}
pub use pf9_oidc_proxy.Proxy.Laws.Admitted.{fresh, IsFor, Admitted}
use pf9_oidc_proxy.Proxy.Laws.Chain.{with_authenticate_request-Related}

-- Two handlers behind the chain that agree on the admitted requests.
module _ {Query : Type 0} (p : Proxy Query) (header : Header) (url : Url Query) (address : Str)
    (h h' : Handler Query)
    (agree : (r : Request Query) → Admitted p (fresh header url address) r → h r ≡ h' r) where
  -- Of a request as it arrives, the authentication and impersonation handlers pass on only admitted
  -- ones: two handlers behind them that agree on every admitted request give the same answer.
  -- Admitted are, with the URL of the request: one whose OIDC authentication failed but whose token
  -- was reviewed, with token review enabled, marked for no impersonation, and, with impersonation
  -- disabled, an authenticated one with that mark, both with the headers that the authentication
  -- leaves; else one without the mark that has no impersonation header and an impersonation
  -- configuration with the name, the groups and the extra values of the authenticated user, who has
  -- a name, or of a target that the API server lets this user impersonate in every part.
  pub with_authenticate_request-Admitted :
      with_authenticate_request p (with_impersonate_request p h) (fresh header url address)
      ≡ with_authenticate_request p (with_impersonate_request p h') (fresh header url address)
  with_authenticate_request-Admitted =
      with_authenticate_request-Related p header url address ◌≡◌ (λ r e. refl) (λ _. refl) h h'
        agree
