-- ===== src/Proxy/Laws/Building.antt =====
-- The configuration of an impersonation.
use pf9_oidc_proxy.Base.{
  Bool, Option, none, some, List, [], ◌∷◌, ◌++◌, ◌≡◌, ◌≢◌, arith, any, Bool-cases, inl, inr, ap,
  ◌∙◌, sym, subst, false, refl, ◌⊎◌, ◌↔◌, All,
}
use pf9_oidc_proxy.Strings.{Str, bytes, ◌==◌}
use pf9_oidc_proxy.Strings.Equality.{eq_iff}
use pf9_oidc_proxy.Maps.{Map}
use pf9_oidc_proxy.Result.{
  Result, ok, panic, map_ok, map_ok-map_ok, map_ok-eq-ok, ok-injective, >>=-no_panic,
  map_ok-no_panic,
}
use pf9_oidc_proxy.Users.{User, entries}
use pf9_oidc_proxy.Proxy.Context.{ImpersonationRequest}
use pf9_oidc_proxy.Proxy.Impersonation.Build.{
  Config, all_authenticated, ensure_all_authenticated, build_request, target_request, add_original,
  configured_extra, add_original_extra,
}

abbrev is_all_authenticated : Str → Bool
is_all_authenticated g = g == all_authenticated

-- The groups that are sent for these: the same, if `system:authenticated` is one of them, or else
-- these and that one.
abbrev pub IsEnsured : List Str → List Str → Type 0
IsEnsured groups sent =
    (¬ All (λ g. g ≢ bytes "system:authenticated") groups × (sent ≡ groups))
    ⊎ (All (λ g. g ≢ bytes "system:authenticated") groups
        × (sent ≡ groups ++ bytes "system:authenticated" ∷ []))

any-false_iff :
    (groups : List Str)
    → (any is_all_authenticated groups ≡ false) ↔ All (λ g. g ≢ all_authenticated) groups
any-false_iff [] = (λ _. tt, λ _. refl)
any-false_iff (g ∷ groups) = ground (arith, eq_iff g all_authenticated, any-false_iff groups)

ensure_all_authenticated-IsEnsured :
    (groups : List Str) → IsEnsured groups (ensure_all_authenticated groups)
unfolding ensure_all_authenticated
ensure_all_authenticated-IsEnsured groups = elim (Bool-cases (any is_all_authenticated groups)) [
  | inl e ↦ inl (λ none. cc (e, (any-false_iff groups).1 none), rw e refl)
  | inr e ↦ inr ((any-false_iff groups).0 e, rw e refl)
]

-- The name in the configuration: the target's, if there is one, or the user's own.
abbrev pub impersonated_name : User → Option User → Str
impersonated_name user none = user.name
impersonated_name user (some target) = target.name

abbrev pub impersonated_groups : User → Option User → List Str
impersonated_groups user none = user.groups
impersonated_groups user (some target) = target.groups

-- A configuration that is built has the name and the groups of the target, or the user's own if there
-- is no target, with `system:authenticated` ensured.
pub build_request-config :
    (config : Config) (marshal : Map (List Str) → Result Str Str) (address : Str) (user : User)
    (target : Option User) (conf : ImpersonationRequest) (shared : User)
    → build_request config marshal address user target ≡ ok (conf, shared)
    → (conf.config.user_name ≡ impersonated_name user target)
      × IsEnsured (impersonated_groups user target) conf.config.groups
unfolding build_request
build_request-config config marshal address user none conf shared e =
    let same = ok-injective e in
    (
      ap (λ r. r.0.config.user_name) (sym same),
      subst (IsEnsured user.groups) (ap (λ r. r.0.config.groups) same)
          (ensure_all_authenticated-IsEnsured user.groups),
    )
build_request-config config marshal address user (some target) conf shared e =
    let (extra, _, same) =
      map_ok-eq-ok (target_request user target)
        (add_original marshal user (configured_extra config address (entries target.extra))) e in
    (
      ap (λ r. r.0.config.user_name) (sym same),
      subst (IsEnsured target.groups) (ap (λ r. r.0.config.groups) same)
          (ensure_all_authenticated-IsEnsured target.groups),
    )

any_uid :
    (config : Config) (marshal : Map (List Str) → Result Str Str) (address : Str)
    (user target : User) (id other : Str)
    → map_ok
        (λ r. r.0.config)
        (build_request config marshal address user (some (record target { uid = id })))
      ≡ map_ok
          (λ r. r.0.config)
          (build_request config marshal address user (some (record target { uid = other })))
unfolding build_request
any_uid config marshal address user target id other =
    let original =
      add_original marshal user (configured_extra config address (entries target.extra)) in
    map_ok-map_ok (target_request user (record target { uid = id })) (λ r. r.0.config) original
    ∙ sym (
        map_ok-map_ok (target_request user (record target { uid = other })) (λ r. r.0.config)
          original)

-- A configuration of an impersonation that is built for a target, whatever its reviewed id is, has
-- an empty `UID`, and is the one that is built for the same target with any other id.
pub build_request-uid :
    (config : Config) (marshal : Map (List Str) → Result Str Str) (address : Str)
    (user target : User) (id other : Str) (conf : ImpersonationRequest) (shared : User)
    → build_request config marshal address user (some (record target { uid = id }))
      ≡ ok (conf, shared)
    → (conf.config.uid ≡ [])
      × (map_ok
            (λ r. r.0.config)
            (build_request config marshal address user (some (record target { uid = other })))
          ≡ ok conf.config)
unfolding build_request
build_request-uid config marshal address user target id other conf shared e =
    let (extra, _, same) =
      map_ok-eq-ok (target_request user (record target { uid = id }))
        (add_original marshal user (configured_extra config address (entries target.extra))) e in
    (
      ap (λ r. r.0.config.uid) (sym same),
      any_uid config marshal address user target other id ∙ ap (map_ok (λ r. r.0.config)) e,
    )

add_original_extra-no_panic :
    (marshal : Map (List Str) → Result Str Str) (own extra : Map (List Str))
    → ((m : Map (List Str)) → marshal m ≢ panic)
    → add_original_extra marshal own extra ≢ panic
unfolding add_original_extra
add_original_extra-no_panic marshal [] extra h = λ e. cc
add_original_extra-no_panic marshal (x ∷ own) extra h =
    >>=-no_panic (marshal (x ∷ own)) _ (h (x ∷ own)) (λ json e. cc)

-- A configuration is built without a panic, or refused, if `json.Marshal` does not panic.
pub build_request-no_panic :
    (config : Config) (marshal : Map (List Str) → Result Str Str) (address : Str) (user : User)
    (target : Option User)
    → ((m : Map (List Str)) → marshal m ≢ panic)
    → build_request config marshal address user target ≢ panic
unfolding build_request add_original
build_request-no_panic config marshal address user none h = λ e. cc
build_request-no_panic config marshal address user (some target) h =
    map_ok-no_panic (target_request user target) _
      (add_original_extra-no_panic marshal (entries user.extra) _ h)
