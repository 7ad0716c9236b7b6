-- ===== src/Command/FlagSets.antt =====
-- The flags of the command in cmd/app/options: their sections, their default values, and how the
-- sections become the flags of the command.
use pf9_oidc_proxy.Base.{ℕ, Bool, true, false, List, [], ◌∷◌, ◌++◌}
use pf9_oidc_proxy.Strings.{Str, bytes}
use pf9_oidc_proxy.Maps.{Map}
use pf9_oidc_proxy.Command.Options.{
  Options, OidcAuthenticationOptions, KubeOidcProxyOptions, ExtraHeaderOptions,
  TokenPassthroughOptions,
}

-- A default value; durations are in milliseconds.
pub data Value : Type 0 where
  text : Str → Value
  switch : Bool → Value
  number : ℕ → Value
  milliseconds : ℕ → Value
  texts : List Str → Value
  string_map : Map Str → Value
  slice_map : Map (List Str) → Value

-- A flag of pflag, without its usage text.
pub record Flag : Type 0 where
  pub name : Str
  pub shorthand : Str
  pub default : Value

abbrev flag : Str → Value → Flag
flag name default = record { name = name; shorthand = []; default = default }

-- `AddFlags` registers the flags and sets the options to the default values.
unfoldable pub add_passthrough_flags : TokenPassthroughOptions → List Flag
add_passthrough_flags t =
    flag (bytes "token-passthrough-audiences") (texts t.audiences)
    ∷ flag (bytes "token-passthrough") (switch t.enabled)
    ∷ []

unfoldable pub add_extra_header_flags : ExtraHeaderOptions → List Flag
add_extra_header_flags e =
    flag (bytes "extra-user-header-client-ip") (switch e.enable_client_ip_extra_user_header)
    ∷ flag (bytes "extra-user-headers") (slice_map e.extra_user_headers)
    ∷ []

unfoldable pub add_app_flags : KubeOidcProxyOptions → KubeOidcProxyOptions × List Flag
unfolding add_passthrough_flags add_extra_header_flags
add_app_flags k = (
  record k { suffix_ns_mapping_file = []; readiness_probe_port = 8080 },
  (flag (bytes "ns-mapping-file") (text [])
        ∷ flag (bytes "disable-impersonation") (switch k.disable_impersonation)
        ∷ record {
          name = bytes "readiness-probe-port";
          shorthand = bytes "P";
          default = number 8080;
        }
        ∷ flag (bytes "flush-interval") (milliseconds 50)
        ∷ [])
      ++ (add_passthrough_flags k.token_passthrough
          ++ add_extra_header_flags k.extra_header_options),
)

-- new(KubeOIDCProxyOptions)
abbrev zero_app : KubeOidcProxyOptions
zero_app = record {
  suffix_ns_mapping_file = [];
  disable_impersonation = false;
  readiness_probe_port = 0;
  extra_header_options = record {
    enable_client_ip_extra_user_header = false;
    extra_user_headers = [];
  };
  token_passthrough = record { audiences = []; enabled = false };
}

unfoldable pub new_app : KubeOidcProxyOptions × List Flag
unfolding add_app_flags
new_app = add_app_flags zero_app

unfoldable pub add_oidc_flags : OidcAuthenticationOptions → OidcAuthenticationOptions × List Flag
add_oidc_flags o = (
  record o {
    username_claim = bytes "sub";
    username_prefix = [];
    groups_claim = [];
    groups_prefix = [];
    signing_algs = bytes "RS256" ∷ [];
  },
  flag (bytes "oidc-issuer-url") (text o.issuer_url)
      ∷ flag (bytes "oidc-client-id") (text o.client_id)
      ∷ flag (bytes "oidc-ca-file") (text o.ca_file)
      ∷ flag (bytes "oidc-username-claim") (text (bytes "sub"))
      ∷ flag (bytes "oidc-username-prefix") (text [])
      ∷ flag (bytes "oidc-groups-claim") (text [])
      ∷ flag (bytes "oidc-groups-prefix") (text [])
      ∷ flag (bytes "oidc-signing-algs") (texts (bytes "RS256" ∷ []))
      ∷ flag (bytes "oidc-required-claim") (string_map o.required_claims)
      ∷ [],
)

-- new(OIDCAuthenticationOptions)
abbrev zero_oidc : OidcAuthenticationOptions
zero_oidc = record {
  ca_file = [];
  client_id = [];
  issuer_url = [];
  username_claim = [];
  username_prefix = [];
  groups_claim = [];
  groups_prefix = [];
  signing_algs = [];
  required_claims = [];
}

unfoldable pub new_oidc : OidcAuthenticationOptions × List Flag
unfolding add_oidc_flags
new_oidc = add_oidc_flags zero_oidc

-- The serving options that `NewSecureServingOptions` starts from.
pub record SecureServingOptions : Type 0 where
  pub bind_address : Str
  pub bind_port : ℕ
  pub required : Bool
  pub pair_name : Str
  pub cert_directory : Str

abbrev pub app_name : Str
app_name = bytes "kube-oidc-proxy"

unfoldable pub new_secure_serving : SecureServingOptions
new_secure_serving = record {
  bind_address = bytes "0.0.0.0";
  bind_port = 6443;
  required = true;
  pair_name = app_name;
  cert_directory = bytes "/var/run/kubernetes";
}

-- The flags that the libraries register: for serving from these options, for auditing, the global
-- ones for a program's name, and those of genericclioptions, by whether `CacheDir`, `Impersonate` and
-- `ImpersonateGroup` are set.
pub record LibraryFlags : Type 0 where
  pub serving : SecureServingOptions → List Flag
  pub audit : List Flag
  pub global : Str → List Flag
  pub client : Bool → Bool → Bool → List Flag

-- `AddFlags` of the options for serving, and `NewAuditOptions`.
unfoldable pub add_serving_flags : LibraryFlags → SecureServingOptions → List Flag
add_serving_flags lib s = lib.serving s

unfoldable pub new_audit_options : LibraryFlags → List Flag
new_audit_options lib = lib.audit

unfoldable pub new_client : LibraryFlags → List Flag
new_client lib = lib.client false false false

unfoldable pub new_misc : LibraryFlags → List Flag
new_misc lib = lib.global app_name ++ flag (bytes "version") (switch false) ∷ []

-- `New`: the options, and the sections of flags by their names.
unfoldable pub new_options : LibraryFlags → Options × List (Str × List Flag)
unfolding new_app new_oidc new_client new_misc new_secure_serving add_serving_flags
    new_audit_options
new_options lib = (
  record {
    app = new_app.0;
    oidc_authentication = new_oidc.0;
    bind_port = new_secure_serving.bind_port;
  },
  (bytes "Kube-OIDC-Proxy", new_app.1)
      ∷ (bytes "OIDC", new_oidc.1)
      ∷ (bytes "Secure Serving", add_serving_flags lib new_secure_serving)
      ∷ (bytes "Audit", new_audit_options lib)
      ∷ (bytes "Client", new_client lib)
      ∷ (bytes "Misc", new_misc lib)
      ∷ [],
)

-- The loop of `AddFlags` over the sections; pflag's `AddFlagSet` is an argument.
unfoldable pub add_flags :
    (List Flag → List Flag → List Flag) → List Flag → List (Str × List Flag) → List Flag
add_flags add_flag_set fs [] = fs
add_flags add_flag_set fs ((title, section) ∷ sections) =
    add_flags add_flag_set (add_flag_set fs section) sections
