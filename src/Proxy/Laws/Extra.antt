-- ===== src/Proxy/Laws/Extra.antt =====
-- The extra values of an impersonation's configuration.
use pf9_oidc_proxy.Base.{
  Bool, true, false, Option, none, some, List, [], ◌∷◌, ◌++◌, ◌≡◌, refl, ap, ◌∙◌, sym, append_assoc,
  if◌then◌else◌, Bool-cases, inl, inr, append-nil,
}
use pf9_oidc_proxy.Strings.{Str, ◌==◌}
use pf9_oidc_proxy.Maps.{
  Map, insert, values_at, append_value, append_values, values_at-insert, values_at-append_value,
  append_values-values,
}
use pf9_oidc_proxy.Maps.Entries.{chosen, flat_entries, chosen-key_entries}
use pf9_oidc_proxy.Result.{Result, ok, err, panic, map_ok-eq-ok, ok-injective, >>=-eq-ok}
use pf9_oidc_proxy.Users.{User, entries}
use pf9_oidc_proxy.Proxy.Context.{ImpersonationRequest}
use pf9_oidc_proxy.Proxy.Impersonation.Build.{
  Config, user_header_client_ip_key, original_user, original_groups, original_uid, original_extra,
  add_extra_user_headers, configured_extra, add_original, add_original_extra, is_nil,
  target_request, build_request,
}
use pf9_oidc_proxy.Proxy.Laws.Building.{
  impersonated_name, impersonated_groups, IsEnsured, build_request-config,
}

-- What the configuration of the proxy adds to the values of a key: the client's address, if enabled,
-- and the values that are configured for this key.
abbrev pub added : Config → Str → Str → List Str
added config address key =
    (if config.extra_user_headers_client_ip_enabled
      then (if user_header_client_ip_key == key then address ∷ [] else [])
      else [])
    ++ chosen key (flat_entries config.extra_user_headers)

-- Values that are stored under a name, if there are any, take the place of those of this key.
abbrev pub stored : Str → List Str → Str → List Str → List Str
stored name [] key before = before
stored name (v ∷ vs) key before = if name == key then v ∷ vs else before

abbrev pub value_unless_empty : Str → List Str
value_unless_empty s = if s == [] then [] else s ∷ []

abbrev pub json_text : Result Str Str → List Str
json_text (ok json) = json ∷ []
json_text (err text) = []
json_text panic = []

-- The user's own extra values as the text that `json.Marshal` makes of them, if there are any.
abbrev pub json_values : (Map (List Str) → Result Str Str) → Map (List Str) → List Str
json_values marshal [] = []
json_values marshal (e ∷ es) = json_text (marshal (e ∷ es))

-- What the original user's information makes of the values of a key.
abbrev pub with_original : (Map (List Str) → Result Str Str) → User → Str → List Str → List Str
with_original marshal user key before =
    stored original_extra (json_values marshal (entries user.extra)) key (
      stored original_uid (value_unless_empty user.uid) key
        (stored original_groups user.groups key (stored original_user (user.name ∷ []) key before)))

-- The extra values of a key.
abbrev pub extra_values :
    Config → (Map (List Str) → Result Str Str) → Str → User → Option User → Str → List Str
extra_values config marshal address user none key =
    values_at key (entries user.extra) ++ added config address key
extra_values config marshal address user (some target) key =
    with_original marshal user key
      (values_at key (entries target.extra) ++ added config address key)

add_extra_user_headers-values :
    (key : Str) (headers extra : Map (List Str))
    → values_at key (add_extra_user_headers headers extra)
      ≡ values_at key extra ++ chosen key (flat_entries headers)
unfolding add_extra_user_headers
add_extra_user_headers-values key [] extra = sym (append-nil _)
add_extra_user_headers-values key ((k, vs) ∷ headers) extra =
    add_extra_user_headers-values key headers (append_values k vs extra)
    ∙ ap (λ xs. xs ++ chosen key (flat_entries headers)) (append_values-values key k vs extra)
    ∙ append_assoc (values_at key extra) _ _
    ∙ ap (λ xs. values_at key extra ++ xs)
        (sym (chosen-key_entries key k vs (flat_entries headers)))

with_address-values :
    (enabled : Bool) (address key : Str) (extra : Map (List Str))
    → values_at key
        (if enabled then append_value user_header_client_ip_key address extra else extra)
      ≡ values_at key extra
        ++ (if enabled then (if user_header_client_ip_key == key then address ∷ [] else []) else [])
with_address-values true address key extra =
    values_at-append_value key user_header_client_ip_key address extra
with_address-values false address key extra = sym (append-nil _)

configured_extra-values :
    (config : Config) (address key : Str) (extra : Map (List Str))
    → values_at key (configured_extra config address extra)
      ≡ values_at key extra ++ added config address key
unfolding configured_extra
configured_extra-values config address key extra =
    add_extra_user_headers-values key config.extra_user_headers _
    ∙ ap (λ xs. xs ++ chosen key (flat_entries config.extra_user_headers))
        (with_address-values config.extra_user_headers_client_ip_enabled address key extra)
    ∙ append_assoc (values_at key extra) _ _

module _ (marshal : Map (List Str) → Result Str Str) (key : Str) where
  groups-values :
      (groups : List Str) (m : Map (List Str))
      → values_at key (if is_nil groups then m else insert original_groups groups m)
        ≡ stored original_groups groups key (values_at key m)
  unfolding is_nil
  groups-values [] m = refl
  groups-values (g ∷ groups) m = values_at-insert key original_groups (g ∷ groups) m

  uid-values :
      (uid : Str) (m : Map (List Str))
      → values_at key (if uid == [] then m else insert original_uid (uid ∷ []) m)
        ≡ stored original_uid (value_unless_empty uid) key (values_at key m)
  uid-values uid m = elim (Bool-cases (uid == [])) [
    | inl e ↦ rw e refl
    | inr e ↦ rw e (values_at-insert key original_uid (uid ∷ []) m)
  ]

  add_original_extra-values :
      (own extra extra' : Map (List Str))
      → add_original_extra marshal own extra ≡ ok extra'
      → values_at key extra'
        ≡ stored original_extra (json_values marshal own) key (values_at key extra)
  unfolding add_original_extra
  add_original_extra-values [] extra extra' e = ap (values_at key) (sym (ok-injective e))
  add_original_extra-values (x ∷ own) extra extra' e =
      let (json, marshalled, stores) = >>=-eq-ok (marshal (x ∷ own)) _ e in
      ap (values_at key) (sym (ok-injective stores))
      ∙ values_at-insert key original_extra (json ∷ []) extra
      ∙ ap (λ m. stored original_extra (json_text m) key (values_at key extra)) (sym marshalled)

  add_original-values :
      (user : User) (extra extra' : Map (List Str))
      → add_original marshal user extra ≡ ok extra'
      → values_at key extra' ≡ with_original marshal user key (values_at key extra)
  unfolding add_original
  add_original-values user extra extra' e =
      add_original_extra-values (entries user.extra) _ extra' e
      ∙ ap (λ before. stored original_extra (json_values marshal (entries user.extra)) key before)
          (uid-values user.uid _
            ∙ ap (λ before. stored original_uid (value_unless_empty user.uid) key before)
                (groups-values user.groups _
                  ∙ ap (λ before. stored original_groups user.groups key before)
                      (values_at-insert key original_user (user.name ∷ []) extra)))

-- A configuration that is built has the name and the groups of the target, or the user's own if
-- there is no target, with `system:authenticated` behind the groups if it is not among them. Its
-- extra values of a key are those of the target or the user, then, under the key `Remote-Client-
-- IP`, the address of the client if that is enabled, then the values that the proxy's configuration
-- adds; with a target, the user's name, and the user's groups, id and extra values if there are
-- any, replace them under the keys for the original user.
pub build_request-built :
    (config : Config) (marshal : Map (List Str) → Result Str Str) (address : Str) (user : User)
    (target : Option User) (conf : ImpersonationRequest) (shared : User)
    → build_request config marshal address user target ≡ ok (conf, shared)
    → (conf.config.user_name ≡ impersonated_name user target)
      × IsEnsured (impersonated_groups user target) conf.config.groups
      × ((key : Str)
          → values_at key conf.config.extra ≡ extra_values config marshal address user target key)
unfolding build_request
build_request-built config marshal address user none conf shared e =
    let (name_is, groups_are) =
      build_request-config config marshal address user none conf shared e in
    (
      name_is,
      groups_are,
      λ key.
          ap (λ r. values_at key r.0.config.extra) (sym (ok-injective e))
          ∙ configured_extra-values config address key (entries user.extra),
    )
build_request-built config marshal address user (some target) conf shared e =
    let (name_is, groups_are) =
      build_request-config config marshal address user (some target) conf shared e in
    let (extra, added_original, same) =
      map_ok-eq-ok (target_request user target)
        (add_original marshal user (configured_extra config address (entries target.extra))) e in
    (
      name_is,
      groups_are,
      λ key.
          ap (λ r. values_at key r.0.config.extra) (sym same)
          ∙ add_original-values marshal key user _ extra added_original
          ∙ ap (with_original marshal user key)
              (configured_extra-values config address key (entries target.extra)),
    )
