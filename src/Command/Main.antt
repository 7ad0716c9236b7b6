-- ===== src/Command/Main.antt =====
-- NewRunCommand of cmd/app/run.go, the texts of AddFlags in cmd/app/options/options.go, and the end of
-- cmd/main.go.
use pf9_oidc_proxy.Base.{
  ℕ, Bool, true, false, Option, List, [], ◌++◌, ◌≡◌, ◌⊎◌, ◌↔◌, inl, inr, refl, arith, All,
}
use pf9_oidc_proxy.Strings.{Str, bytes}
use pf9_oidc_proxy.Command.Options.{Options, validate}
use pf9_oidc_proxy.Command.Options.Valid.{IsAcceptable}
use pf9_oidc_proxy.Command.FlagSets.{Flag, LibraryFlags, app_name, new_options, add_flags}
use pf9_oidc_proxy.Command.Run.{
  Call, Ending, version_printed, returned, options_refused, failed_at, run_command, run_validated,
  Succeeds, plan, run_command-returned_iff, run_command-ne-version_printed,
}

-- `cobra.Command`: its name, its description, and the flags that it gets.
pub record Command : Type 0 where
  pub name : Str
  pub long : Str
  pub flags : List Flag

unfoldable pub build_run_command : Command
build_run_command = record {
  name = app_name;
  long =
      bytes
        "kube-oidc-proxy is a reverse proxy to authenticate users to Kubernetes API servers with Open ID Connect Authentication.";
  flags = [];
}

-- The options with their default values, and the command with their flags.
unfoldable pub new_run_command :
    LibraryFlags → (List Flag → List Flag → List Flag) → Options × Command
unfolding build_run_command
new_run_command lib add_flag_set =
    let (opts, sections) = new_options lib in
    (
      opts,
      record build_run_command { flags = add_flags add_flag_set build_run_command.flags sections },
    )

-- The functions for the usage and for the help, with what `UseLine` and `PrintSections` of the
-- libraries give.
unfoldable pub usage_text : Str → Str → Str
usage_text use_line sections = bytes "Usage:\n  " ++ (use_line ++ (bytes "\n" ++ sections))

unfoldable pub help_text : Command → Str → Str → Str
unfolding usage_text
help_text cmd use_line sections = cmd.long ++ (bytes "\n\n" ++ usage_text use_line sections)

-- What cobra does with the arguments, before the command runs or in its place: it answers them itself,
-- as for the flag `help`; it returns an error, as for a flag that there is not; or it runs the command.
pub data Invocation : Type 0 where
  answered runs : Invocation
  refused : Str → Invocation

-- The status of the process by the ending of the command: `main` exits with 1 after an error.
unfoldable pub exit_status : Ending → ℕ
exit_status version_printed = 0
exit_status returned = 0
exit_status (options_refused errs) = 1
exit_status (failed_at c text) = 1

-- The status by what `Execute` comes to.
unfoldable pub main_status : Invocation → Ending → ℕ
unfolding exit_status
main_status answered e = 0
main_status (refused text) e = 1
main_status runs e = exit_status e

exit_status-zero : (e : Ending) → (exit_status e ≡ 0) ↔ ((e ≡ version_printed) ⊎ (e ≡ returned))
unfolding exit_status
exit_status-zero version_printed = ground arith
exit_status-zero returned = ground arith
exit_status-zero (options_refused errs) = ground arith
exit_status-zero (failed_at c text) = ground arith

module _ (attempt : Call → Option Str) (flag : Str → Option Bool) (serving audit : List Str)
    (o : Options) where
  ended_well :
      ((run_command attempt flag false serving audit o).1 ≡ version_printed)
        ⊎ ((run_command attempt flag false serving audit o).1 ≡ returned)
      → IsAcceptable serving audit o × All (Succeeds attempt) (plan flag o)
  ended_well (inl e) = absurd (run_command-ne-version_printed attempt flag serving audit o e)
  ended_well (inr e) = (run_command-returned_iff attempt flag serving audit o).0 e

  command_status_iff :
      (version : Bool)
      → (exit_status (run_command attempt flag version serving audit o).1 ≡ 0)
        ↔ ((version ≡ true) ⊎ (IsAcceptable serving audit o × All (Succeeds attempt) (plan flag o)))
  unfolding run_command run_validated validate exit_status
  command_status_iff true = (λ _. inl refl, λ _. refl)
  command_status_iff false = (
    λ zero_status. inr (ended_well ((exit_status-zero _).0 zero_status)),
    λ right. elim right [
      | inl e ↦ cc
      | inr fine ↦
          (exit_status-zero _).1
            (inr ((run_command-returned_iff attempt flag serving audit o).1 fine))
    ],
  )

  -- A process that comes to the end of `main`, or prints its version, so that no signals end it by
  -- force, exits with 0 exactly if cobra answers the arguments itself, as for `help`, or if cobra runs
  -- the command, and either the version is asked for or the options are acceptable and every call of
  -- the command's plan succeeds.
  pub exit_status_iff :
      (invocation : Invocation) (version : Bool)
      → (main_status invocation (run_command attempt flag version serving audit o).1 ≡ 0) ↔ (
          (invocation ≡ answered)
          ⊎ ((invocation ≡ runs)
              × ((version ≡ true)
                  ⊎ (IsAcceptable serving audit o × All (Succeeds attempt) (plan flag o)))))
  unfolding main_status
  exit_status_iff answered version = (λ _. inl refl, λ _. refl)
  exit_status_iff (refused text) version =
      (λ e. cc, λ right. elim right [ inl e ↦ cc | inr (e, _) ↦ cc ])
  exit_status_iff runs version =
      let (fine, back) = command_status_iff version in
      (
        λ e. inr (refl, fine e),
        λ right. elim right [ inl e ↦ cc | inr (_, ends_well) ↦ back ends_well ],
      )
