-- ===== src/Command/Options.antt =====
-- The options of cmd/app/options (options.go, oidc.go, app.go, client.go) that the program decides
-- on, and the proxy's configuration that cmd/app/run.go makes of them.
pub mod Valid
use pf9_oidc_proxy.Base.{
  ℕ, Bool, true, false, not, ◌&&◌, ◌||◌, Option, none, some, List, [], ◌∷◌, ◌++◌, eqb,
  if◌then◌else◌, any,
}
use pf9_oidc_proxy.Strings.{Str, bytes}
use pf9_oidc_proxy.Maps.{Map}
use pf9_oidc_proxy.Hooks.{new_aggregate}
use pf9_oidc_proxy.Proxy.Impersonation.Build.{Config}

pub record OidcAuthenticationOptions : Type 0 where
  pub ca_file : Str
  pub client_id : Str
  pub issuer_url : Str
  pub username_claim : Str
  pub username_prefix : Str
  pub groups_claim : Str
  pub groups_prefix : Str
  pub signing_algs : List Str
  pub required_claims : Map Str

pub record ExtraHeaderOptions : Type 0 where
  pub enable_client_ip_extra_user_header : Bool
  pub extra_user_headers : Map (List Str)

pub record TokenPassthroughOptions : Type 0 where
  pub audiences : List Str
  pub enabled : Bool

-- Without the flush interval.
pub record KubeOidcProxyOptions : Type 0 where
  pub suffix_ns_mapping_file : Str
  pub disable_impersonation : Bool
  pub readiness_probe_port : ℕ
  pub extra_header_options : ExtraHeaderOptions
  pub token_passthrough : TokenPassthroughOptions

-- `bind_port` is a field of the library's options for serving.
pub record Options : Type 0 where
  pub app : KubeOidcProxyOptions
  pub oidc_authentication : OidcAuthenticationOptions
  pub bind_port : ℕ

pub data OptionError : Type 0 where
  not_together port_in_use extra_without_impersonation : OptionError
  library_error : Str → OptionError

-- The flag for the version ends the program.
pub data Validation : Type 0 where
  exited : Validation
  finished : Option (List OptionError) → Validation

abbrev pub is_given : Str → Bool
is_given [] = false
is_given (_ ∷ _) = true

-- len(m) > 0
abbrev pub has_entries : Map (List Str) → Bool
has_entries [] = false
has_entries (_ ∷ _) = true

xor : Bool → Bool → Bool
xor true b = not b
xor false b = b

unfoldable pub validate_oidc : OidcAuthenticationOptions → List OptionError
unfolding xor
validate_oidc o =
    if xor (is_given o.issuer_url) (is_given o.client_id) then not_together ∷ [] else []

unfoldable pub validate_app : KubeOidcProxyOptions → List OptionError
validate_app o =
    if o.disable_impersonation
      && (o.extra_header_options.enable_client_ip_extra_user_header
          || has_entries o.extra_header_options.extra_user_headers)
    then extra_without_impersonation ∷ []
    else []

library_errors : List Str → List OptionError
library_errors [] = []
library_errors (e ∷ errs) = library_error e ∷ library_errors errs

-- `Validate`, with the value of the flag `version` and with what the validations of the serving and
-- audit options by k8s.io/apiserver return.
unfoldable pub validate : Bool → List Str → List Str → Options → Validation
unfolding validate_oidc validate_app library_errors new_aggregate
validate version serving audit o =
    if version
    then exited
    else finished (
        new_aggregate (
          validate_oidc o.oidc_authentication
          ++ (library_errors serving
              ++ ((if eqb o.bind_port o.app.readiness_probe_port then port_in_use ∷ [] else [])
                  ++ (library_errors audit ++ validate_app o.app)))))

abbrev pub client_option_flags : List Str
client_option_flags =
    bytes "certificate-authority"
    ∷ bytes "client-certificate"
    ∷ bytes "client-key"
    ∷ bytes "cluster"
    ∷ bytes "context"
    ∷ bytes "insecure-skip-tls-verify"
    ∷ bytes "kubeconfig"
    ∷ bytes "namespace"
    ∷ bytes "request-timeout"
    ∷ bytes "server"
    ∷ bytes "token"
    ∷ bytes "user"
    ∷ []

is_changed : Option Bool → Bool
is_changed none = false
is_changed (some changed) = changed

-- `ClientFlagsChanged`, with the flags of the command: `none` for a flag that it does not have, or
-- else whether the flag was set.
unfoldable pub client_flags_changed : (Str → Option Bool) → Bool
unfolding is_changed
client_flags_changed flag = any (λ f. is_changed (flag f)) client_option_flags

unfoldable pub proxy_config : KubeOidcProxyOptions → Config
proxy_config o = record {
  disable_impersonation = o.disable_impersonation;
  token_review = o.token_passthrough.enabled;
  extra_user_headers = o.extra_header_options.extra_user_headers;
  extra_user_headers_client_ip_enabled = o.extra_header_options.enable_client_ip_extra_user_header;
}
