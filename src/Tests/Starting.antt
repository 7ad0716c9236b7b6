-- ===== src/Tests/Starting.antt =====
-- The command line, the readiness check, the log and the hooks at shutdown.
use pf9_oidc_proxy.Base.{
  ℕ, ◌+◌, Bool, true, false, Option, none, some, List, [], ◌∷◌, ◌++◌, ◌≡◌, ◌≢◌, ◌↔◌, ◌⊎◌, inr, refl,
  All, if◌then◌else◌,
}
use pf9_oidc_proxy.Strings.{Str, bytes, ◌==◌, split, join, has_suffix, trim_space, index}
use pf9_oidc_proxy.Maps.{Map, values_at, insert, lookup}
use pf9_oidc_proxy.Http.{Header, get}
use pf9_oidc_proxy.Hooks.{
  ShutdownHook, Hooks, run_pre_shutdown_hooks, after, AllSucceed, run_pre_shutdown_hooks_lem, new,
  add_pre_shutdown_hook,
}
use pf9_oidc_proxy.Probe.{HealthCheck, check}
use pf9_oidc_proxy.Logging.{
  find_x_forwarded_for, separator, others, find_x_forwarded_for_lem, logged_addr,
}
use pf9_oidc_proxy.Csv.{read}
use pf9_oidc_proxy.Maps.Entries.{chosen}
use pf9_oidc_proxy.Command.Flags.{set, written, set-written}
use pf9_oidc_proxy.Command.Options.{Options, validate, finished, client_flags_changed}
use pf9_oidc_proxy.Command.Options.Valid.{IsAcceptable, validate_iff}
use pf9_oidc_proxy.Command.Main.{answered, runs, main_status, exit_status_iff}
use pf9_oidc_proxy.Command.Run.{
  Call, Step, call, in_cluster_config, serving_config, kube_client, access_reviewer, new_proxy,
  fake_jwt, readiness_probe, run_proxy, proxy_stopped, listener_stopped, pre_shutdown_hooks,
  failed_at, run_command, plan, Succeeds, run_command-failed,
}

-- Hooks that count; the first fails.
abbrev counting : Map (ShutdownHook ℕ)
counting =
    (bytes "first", λ n. (n + 1, some (bytes "broken")))
    ∷ (bytes "second", λ n. (n + 10, none))
    ∷ []

abbrev two_hooks : Hooks ℕ
two_hooks = record { pre_shutdown_hooks = counting }

two_hooks_run : (run_pre_shutdown_hooks two_hooks 0).0 ≡ 11
unfolding run_pre_shutdown_hooks
two_hooks_run = refl

two_hooks_added :
    add_pre_shutdown_hook
      (bytes "second")
      (λ n. (n + 10, none))
      (add_pre_shutdown_hook (bytes "first") (λ n. (n + 1, some (bytes "broken"))) new)
    ≡ two_hooks
unfolding add_pre_shutdown_hook new insert ◌==◌
two_hooks_added = refl

run_pre_shutdown_hooks_lem_example :
    ((run_pre_shutdown_hooks two_hooks 0).0 ≡ after counting 0)
    × (((run_pre_shutdown_hooks two_hooks 0).1 ≡ none) ↔ AllSucceed counting 0)
run_pre_shutdown_hooks_lem_example = run_pre_shutdown_hooks_lem two_hooks 0

abbrev unready : HealthCheck
unready = record { ready = false }

abbrev early : Option Str
early = some (bytes "oidc: authenticator not initialized")

check_accepts : (check (some (bytes "bad signature")) unready).1 ≡ none
unfolding check has_suffix
check_accepts = refl

abbrev addresses : Str → Header
addresses text = (bytes "X-Forwarded-For", text ∷ []) ∷ []

forwarded :
    find_x_forwarded_for (addresses (bytes "1.1.1.1,2.2.2.2, 3.3.3.3")) (bytes "2.2.2.2")
    ≡ bytes "1.1.1.1, 3.3.3.3"
unfolding find_x_forwarded_for ◌==◌ get values_at lookup split trim_space
forwarded = refl

without_port : logged_addr (bytes "2.2.2.2:80") ≡ bytes "2.2.2.2"
unfolding logged_addr index
without_port = refl

find_x_forwarded_for_lem_example :
    find_x_forwarded_for (addresses (bytes "1.1.1.1,2.2.2.2")) (bytes "2.2.2.2") ≡ (
      if get (bytes "x-forwarded-for") (addresses (bytes "1.1.1.1,2.2.2.2")) == []
      then []
      else join separator (
          others
            (bytes "2.2.2.2")
            (split b',' (get (bytes "x-forwarded-for") (addresses (bytes "1.1.1.1,2.2.2.2"))))))
find_x_forwarded_for_lem_example =
    find_x_forwarded_for_lem (addresses (bytes "1.1.1.1,2.2.2.2")) (bytes "2.2.2.2")

abbrev entries : List (Str × Str)
entries = (bytes "a", bytes "7") ∷ (bytes "b", bytes "2") ∷ (bytes "a", bytes "3") ∷ []

sample_entries : read (bytes "a=7,b=2,a=3") ≡ inr (written entries)
unfolding read
sample_entries = refl

set-written_example :
    ((set (bytes "a=7,b=2,a=3") []).1 ≡ none)
    × (values_at (bytes "a") (set (bytes "a=7,b=2,a=3") []).0
        ≡ values_at (bytes "a") [] ++ chosen (bytes "a") entries)
set-written_example =
    set-written (bytes "a=7,b=2,a=3") entries [] (bytes "a") sample_entries
      (((refl, tt), (refl, tt)), (((refl, tt), (refl, tt)), (((refl, tt), (refl, tt)), tt)))

broken_pair : (set (bytes "a=7,b") []).1 ≢ none
unfolding set read split
broken_pair = λ h. cc

abbrev options : Options
options = record {
  app = record {
    suffix_ns_mapping_file = bytes "map.json";
    disable_impersonation = true;
    readiness_probe_port = 8080;
    extra_header_options = record {
      enable_client_ip_extra_user_header = false;
      extra_user_headers = [];
    };
    token_passthrough = record { audiences = []; enabled = false };
  };
  oidc_authentication = record {
    ca_file = bytes "ca.pem";
    client_id = bytes "kube";
    issuer_url = bytes "https://issuer";
    username_claim = bytes "sub";
    username_prefix = [];
    groups_claim = [];
    groups_prefix = [];
    signing_algs = bytes "RS256" ∷ [];
    required_claims = (bytes "org", bytes "pf9") ∷ [];
  };
  bind_port = 6443;
}

options_valid : validate false [] [] options ≡ finished none
unfolding validate
options_valid = refl

validate_iff_example : (validate false [] [] options ≡ finished none) ↔ IsAcceptable [] [] options
validate_iff_example = validate_iff [] [] options

abbrev no_flags : Str → Option Bool
no_flags name = none

abbrev no_serving : Call → Option Str
no_serving serving_config = some (bytes "no certificate")
no_serving _ = none

exit_status_iff_example :
    (main_status runs (run_command no_serving no_flags false [] [] options).1 ≡ 0) ↔ (
      (runs ≡ answered)
      ⊎ ((runs ≡ runs)
          × ((false ≡ true)
              ⊎ (IsAcceptable [] [] options × All (Succeeds no_serving) (plan no_flags options)))))
exit_status_iff_example = exit_status_iff no_serving no_flags [] [] options runs false

abbrev behind_serving : List Step
behind_serving =
    call kube_client
    ∷ call access_reviewer
    ∷ call new_proxy
    ∷ call fake_jwt
    ∷ call readiness_probe
    ∷ call run_proxy
    ∷ proxy_stopped
    ∷ listener_stopped
    ∷ call pre_shutdown_hooks
    ∷ []

in_cluster_plan :
    plan no_flags options ≡ call in_cluster_config ∷ call serving_config ∷ behind_serving
unfolding client_flags_changed
in_cluster_plan = refl

run_command-failed_example : run_command no_serving no_flags false [] [] options ≡ (
  call in_cluster_config ∷ call serving_config ∷ [],
  failed_at serving_config (bytes "no certificate"),
)
run_command-failed_example =
    run_command-failed no_serving no_flags [] [] options (call in_cluster_config ∷ [])
      serving_config behind_serving (bytes "no certificate")
      ((validate_iff [] [] options).0 options_valid) in_cluster_plan (refl, tt) refl
