-- ===== src/Tests/Refusing.antt =====
-- A user who asks for a group that is not granted.
use pf9_oidc_proxy.Base.{true, false, [], ◌∷◌, ◌≡◌, refl}
use pf9_oidc_proxy.Strings.{bytes, to_lower, has_prefix}
use pf9_oidc_proxy.Http.{Header}
use pf9_oidc_proxy.Access.Review.{group_not_allowed, error_text}
use pf9_oidc_proxy.Proxy.Errors.{http_error}
use pf9_oidc_proxy.Proxy.Impersonation.{Proxy, authenticated, has_impersonation}
use pf9_oidc_proxy.Proxy.Handlers.{with_handlers}
use pf9_oidc_proxy.Proxy.Laws.Admission.{fresh}
use pf9_oidc_proxy.Proxy.Laws.Refusals.{with_handlers-denied}
use pf9_oidc_proxy.Tests.Reviewing.{create, mmosley, checked}
use pf9_oidc_proxy.Tests.Serving.{Values, settings, proxy_with, pods}

abbrev admins_header : Header
admins_header =
    (bytes "Impersonate-User", bytes "u" ∷ [])
    ∷ (bytes "Impersonate-Group", bytes "admins" ∷ [])
    ∷ []

abbrev denying : Proxy Values
denying = record (proxy_with (settings false false) (authenticated mmosley)) {
  authenticate_request = λ req. (authenticated mmosley, req.header);
  create_access_review = create;
}

admins_asked : has_impersonation admins_header ≡ true
unfolding has_impersonation to_lower has_prefix
admins_asked = refl

with_handlers-denied_example :
    with_handlers denying (λ req. http_error [] 200) (fresh admins_header pods (bytes "1.2.3.4:5"))
    ≡ http_error (error_text (group_not_allowed (bytes "mmosley") (bytes "admins"))) 403
with_handlers-denied_example =
    with_handlers-denied denying (λ req. http_error [] 200) admins_header pods (bytes "1.2.3.4:5")
      mmosley (group_not_allowed (bytes "mmosley") (bytes "admins")) refl refl (λ e. cc)
      admins_asked checked.1 tt
