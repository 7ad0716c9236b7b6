-- ===== src/Command/Options/Valid.antt =====
-- Which options pass the validation, and what the proxy's configuration is then.
use pf9_oidc_proxy.Base.{
  ℕ, true, false, none, List, [], ◌∷◌, ◌++◌, ◌≡◌, ◌≢◌, ◌↔◌, refl, arith, eqb, if◌then◌else◌,
}
use pf9_oidc_proxy.Strings.{Str}
use pf9_oidc_proxy.Maps.{Map}
use pf9_oidc_proxy.Hooks.{new_aggregate}
use pf9_oidc_proxy.Proxy.Impersonation.Build.{configured_extra}
use pf9_oidc_proxy.Command.Options.{
  OidcAuthenticationOptions, KubeOidcProxyOptions, Options, OptionError, port_in_use, finished, xor,
  validate_oidc, validate_app, library_errors, validate, proxy_config,
}

pub record IsAcceptable (serving audit : List Str) (o : Options) : Type 0 where
  pub together : (o.oidc_authentication.issuer_url ≡ []) ↔ (o.oidc_authentication.client_id ≡ [])
  pub serving_fine : serving ≡ []
  pub ports : o.bind_port ≢ o.app.readiness_probe_port
  pub audit_fine : audit ≡ []
  pub no_extra :
      o.app.disable_impersonation ≡ true
      → (o.app.extra_header_options.enable_client_ip_extra_user_header ≡ false)
        × (o.app.extra_header_options.extra_user_headers ≡ [])

validate_oidc_iff :
    (o : OidcAuthenticationOptions)
    → (validate_oidc o ≡ []) ↔ ((o.issuer_url ≡ []) ↔ (o.client_id ≡ []))
unfolding validate_oidc xor
validate_oidc_iff o = ground arith

validate_app_iff :
    (o : KubeOidcProxyOptions)
    → (validate_app o ≡ []) ↔ (
        o.disable_impersonation ≡ true
        → (o.extra_header_options.enable_client_ip_extra_user_header ≡ false)
          × (o.extra_header_options.extra_user_headers ≡ []))
unfolding validate_app
validate_app_iff o = ground arith

library_errors-nil : (errs : List Str) → (library_errors errs ≡ []) ↔ (errs ≡ [])
unfolding library_errors
library_errors-nil [] = ground arith
library_errors-nil (e ∷ errs) = ground arith

append-nil_iff {ℓ} : {A : Type ℓ} (xs ys : List A) → (xs ++ ys ≡ []) ↔ ((xs ≡ []) × (ys ≡ []))
append-nil_iff [] ys = ground arith
append-nil_iff (x ∷ xs) ys = ground arith

finished_iff :
    (errs : List OptionError) → (finished (new_aggregate errs) ≡ finished none) ↔ (errs ≡ [])
unfolding new_aggregate
finished_iff [] = ground arith
finished_iff (e ∷ errs) = ground arith

port_errors : ℕ → ℕ → List OptionError
port_errors bind probe = if eqb bind probe then port_in_use ∷ [] else []

port_errors_iff : (bind probe : ℕ) → (port_errors bind probe ≡ []) ↔ (bind ≢ probe)
unfolding port_errors
port_errors_iff bind probe = ground arith

-- Validation without the flag for the version ends without an error exactly for options that are
-- acceptable: issuer and client are given together, the libraries find no fault, the two ports
-- differ, and there are no extra user headers if impersonation is disabled.
pub validate_iff :
    (serving audit : List Str) (o : Options)
    → (validate false serving audit o ≡ finished none) ↔ IsAcceptable serving audit o
unfolding validate port_errors
validate_iff serving audit o =
    let ports = port_errors o.bind_port o.app.readiness_probe_port in
    let behind_ports = library_errors audit ++ validate_app o.app in
    let behind_serving = ports ++ behind_ports in
    let behind_oidc = library_errors serving ++ behind_serving in
    let (a, b) = finished_iff (validate_oidc o.oidc_authentication ++ behind_oidc) in
    let (c, d) = append-nil_iff (validate_oidc o.oidc_authentication) behind_oidc in
    let (e, f) = append-nil_iff (library_errors serving) behind_serving in
    let (g, h) = append-nil_iff ports behind_ports in
    let (i, j) = append-nil_iff (library_errors audit) (validate_app o.app) in
    (
      λ valid.
          let (oidc, later) = c (a valid) in
          let (serving_nil, later') = e later in
          let (ports_nil, later'') = g later' in
          let (audit_nil, app_nil) = i later'' in
          record {
            together = (validate_oidc_iff o.oidc_authentication).0 oidc;
            serving_fine = (library_errors-nil serving).0 serving_nil;
            ports = (port_errors_iff o.bind_port o.app.readiness_probe_port).0 ports_nil;
            audit_fine = (library_errors-nil audit).0 audit_nil;
            no_extra = (validate_app_iff o.app).0 app_nil;
          },
      λ fine. b (
          d (
            (validate_oidc_iff o.oidc_authentication).1 fine.together,
            f (
              (library_errors-nil serving).1 fine.serving_fine,
              h (
                (port_errors_iff o.bind_port o.app.readiness_probe_port).1 fine.ports,
                j (
                  (library_errors-nil audit).1 fine.audit_fine,
                  (validate_app_iff o.app).1 fine.no_extra,
                ),
              ),
            ),
          )),
    )

-- Options that pass the validation with impersonation disabled give a proxy configuration that adds
-- nothing to the extra values of a user, whatever the address.
pub validate-configured_extra :
    (serving audit : List Str) (o : Options) (address : Str) (extra : Map (List Str))
    → validate false serving audit o ≡ finished none
    → o.app.disable_impersonation ≡ true
    → configured_extra (proxy_config o.app) address extra ≡ extra
unfolding proxy_config configured_extra
validate-configured_extra serving audit o address extra e off =
    let (client_ip, headers) = ((validate_iff serving audit o).0 e).no_extra off in
    rw (headers, client_ip) refl
