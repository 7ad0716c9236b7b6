-- ===== src/Proxy/Impersonation/Build.antt =====
-- The part of withImpersonateRequest that builds the impersonation's configuration from the user, or
-- from the target that the user may impersonate.
use pf9_oidc_proxy.Base.{
  Bool, true, false, Option, none, some, List, [], ◌∷◌, ◌++◌, any, if◌then◌else◌,
}
use pf9_oidc_proxy.Strings.{Str, bytes, ◌==◌}
use pf9_oidc_proxy.Maps.{Map, insert, append_value, append_values}
use pf9_oidc_proxy.Result.{Result, ok, ◌>>=◌, map_ok}
use pf9_oidc_proxy.Users.{User, entries}
use pf9_oidc_proxy.Proxy.Context.{ImpersonationRequest}

-- `Config` of pkg/proxy/proxy.go, without the addresses and the flush interval of the server.
pub record Config : Type 0 where
  pub disable_impersonation : Bool
  pub token_review : Bool
  pub extra_user_headers : Map (List Str)
  pub extra_user_headers_client_ip_enabled : Bool

abbrev pub user_header_client_ip_key : Str
user_header_client_ip_key = bytes "Remote-Client-IP"

-- `AllAuthenticated` of k8s.io/apiserver
abbrev pub all_authenticated : Str
all_authenticated = bytes "system:authenticated"

abbrev pub original_user : Str
original_user = bytes "originaluser.jetstack.io-user"

abbrev pub original_groups : Str
original_groups = bytes "originaluser.jetstack.io-groups"

abbrev pub original_uid : Str
original_uid = bytes "originaluser.jetstack.io-uid"

abbrev pub original_extra : Str
original_extra = bytes "originaluser.jetstack.io-extra"

unfoldable pub ensure_all_authenticated : List Str → List Str
ensure_all_authenticated groups =
    if any (λ g. g == all_authenticated) groups then groups else groups ++ all_authenticated ∷ []

-- The loops over `ExtraUserHeaders`
unfoldable pub add_extra_user_headers : Map (List Str) → Map (List Str) → Map (List Str)
add_extra_user_headers [] extra = extra
add_extra_user_headers ((k, vs) ∷ headers) extra =
    add_extra_user_headers headers (append_values k vs extra)

unfoldable pub configured_extra : Config → Str → Map (List Str) → Map (List Str)
unfolding add_extra_user_headers
configured_extra config address extra = add_extra_user_headers config.extra_user_headers (
    if config.extra_user_headers_client_ip_enabled
    then append_value user_header_client_ip_key address extra
    else extra)

unfoldable pub is_nil : {A : Type 0} → List A → Bool
is_nil [] = true
is_nil (_ ∷ _) = false

-- `extra[...] = []string{string(jsonExtras)}`, if the user has extra entries
unfoldable pub add_original_extra :
    (Map (List Str) → Result Str Str)
    → Map (List Str)
    → Map (List Str)
    → Result Str (Map (List Str))
add_original_extra marshal [] extra = ok extra
add_original_extra marshal (e ∷ es) extra =
    marshal (e ∷ es) >>= λ json. ok (insert original_extra (json ∷ []) extra)

-- The original user's information, for the audit log of the API server.
unfoldable pub add_original :
    (Map (List Str) → Result Str Str) → User → Map (List Str) → Result Str (Map (List Str))
unfolding add_original_extra is_nil
add_original marshal user extra =
    let named = insert original_user (user.name ∷ []) extra in
    let grouped = if is_nil user.groups then named else insert original_groups user.groups named in
    let identified =
      if user.uid == [] then grouped else insert original_uid (user.uid ∷ []) grouped in
    add_original_extra marshal (entries user.extra) identified

-- `extra` is the user's own map unless that is nil: what is stored in it shows in the user, too.
unfoldable pub share_extra : Option (Map (List Str)) → Map (List Str) → Option (Map (List Str))
share_extra none extra = none
share_extra (some _) extra = some extra

abbrev pub with_shared : User → Map (List Str) → User
with_shared user extra = record user { extra = share_extra user.extra extra }

abbrev pub target_request : User → User → Map (List Str) → ImpersonationRequest × User
target_request user target extra = (
  record {
    config = record {
      user_name = target.name;
      uid = [];
      groups = ensure_all_authenticated target.groups;
      extra = extra;
    };
    inbound_user = user;
    impersonated_user = some (with_shared target extra);
  },
  user,
)

-- The configuration, and the user of the context as the stores leave it. The source sets no `UID`, so
-- it is Go's empty string.
unfoldable pub build_request :
    Config
    → (Map (List Str) → Result Str Str)
    → Str
    → User
    → Option User
    → Result Str (ImpersonationRequest × User)
unfolding ensure_all_authenticated configured_extra add_original share_extra
build_request config marshal address user none =
    let extra = configured_extra config address (entries user.extra) in
    ok (
      record {
        config = record {
          user_name = user.name;
          uid = [];
          groups = ensure_all_authenticated user.groups;
          extra = extra;
        };
        inbound_user = with_shared user extra;
        impersonated_user = none;
      },
      with_shared user extra,
    )
build_request config marshal address user (some target) =
    map_ok (target_request user target)
      (add_original marshal user (configured_extra config address (entries target.extra)))
