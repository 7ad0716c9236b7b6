-- ===== src/Tests/Headers.antt =====
-- Headers in another order, what is left of them, and headers with no values.
use mathlib.Core.List.{Permᴰ}
use pf9_oidc_proxy.Base.{some, [], ◌∷◌, ◌≡◌, refl, if◌then◌else◌}
use pf9_oidc_proxy.Strings.{Str, bytes, ◌==◌}
use pf9_oidc_proxy.Maps.{values_at}
use pf9_oidc_proxy.Result.{ok}
use pf9_oidc_proxy.Users.{User}
use pf9_oidc_proxy.Http.{Header, canonical_key, canonical_from, all_tokens, is_token}
use pf9_oidc_proxy.Access.Check.{check_authorized_for_impersonation}
use pf9_oidc_proxy.Access.Outcomes.{asks_impersonation}
use pf9_oidc_proxy.Access.NoPanic.{HasValues}
use pf9_oidc_proxy.Access.Left.Values.{IsDelivered, check_authorized-left}
use pf9_oidc_proxy.Access.Order.Unique.{HasTokens}
use pf9_oidc_proxy.Access.Order.Outcome.{SameTarget, check_authorized_any_order}
use pf9_oidc_proxy.Tests.Reviewing.{create, mmosley, asking, jjackson, accept_only, checked}

asking-IsDelivered : IsDelivered asking
unfolding canonical_key canonical_from all_tokens ◌==◌
asking-IsDelivered = (
  refl,
  (refl, (refl, (refl, (refl, tt)))),
  (
    refl,
    (refl, (refl, (refl, tt))),
    (refl, (refl, (refl, tt)), (refl, (refl, tt), (refl, tt, tt))),
  ),
)

asking-HasTokens : HasTokens asking
unfolding all_tokens is_token
asking-HasTokens = (refl, (refl, (refl, (refl, (refl, tt)))))

pub asking-HasValues : HasValues asking
asking-HasValues = (cc, (cc, (cc, (cc, (cc, tt)))))

-- The user first.
abbrev user_first : Header
user_first =
    (bytes "Impersonate-User", bytes "jjackson" ∷ [])
    ∷ (bytes "Accept", bytes "json" ∷ [])
    ∷ (bytes "Impersonate-Group", bytes "g1" ∷ bytes "g2" ∷ [])
    ∷ (bytes "Impersonate-Extra-Scopes", bytes "view" ∷ bytes "edit" ∷ [])
    ∷ (bytes "Impersonate-Uid", bytes "1-2" ∷ [])
    ∷ []

check_authorized-left_example : values_at (bytes "Impersonate-Group") accept_only ≡ (
    if asks_impersonation (bytes "Impersonate-Group")
    then []
    else values_at (bytes "Impersonate-Group") asking)
check_authorized-left_example =
    check_authorized-left create mmosley asking accept_only jjackson (bytes "Impersonate-Group")
      asking-IsDelivered checked.0

check_authorized_any_order_example :
    (target' : User) × (left' : Header) × (check_authorized_for_impersonation create mmosley
        user_first
      ≡ ok (some target', left'))
    × SameTarget jjackson target'
    × ((name : Str) → values_at name left' ≡ values_at name accept_only)
check_authorized_any_order_example =
    check_authorized_any_order create mmosley asking user_first accept_only jjackson
      (Permᴰ.swap refl refl) asking-IsDelivered asking-HasTokens checked.0
