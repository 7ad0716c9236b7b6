-- ===== src/Command/Run.antt =====
-- The steps of the command in cmd/app/run.go.
use pf9_oidc_proxy.Base.{
  Bool, true, false, Option, none, some, List, [], ◌∷◌, ◌++◌, ◌≡◌, ◌≢◌, ◌↔◌, refl, ap, ◌∙◌, arith,
  All, if◌then◌else◌,
}
use pf9_oidc_proxy.Strings.{Str}
use pf9_oidc_proxy.Command.Options.{
  Options, OptionError, Validation, exited, finished, validate, client_flags_changed,
}
use pf9_oidc_proxy.Command.Options.Valid.{validate_iff, IsAcceptable}

-- What the command calls, in the order of its source. The last is that of the hooks.
pub data Call : Type 0 where
  client_config in_cluster_config token_reviewer serving_config kube_client : Call
  access_reviewer new_proxy fake_jwt readiness_probe run_proxy pre_shutdown_hooks : Call

-- A call, which may return an error, or a wait for one of the two channels, which cannot: it ends
-- when the channel is closed, as in Process.
pub data Step : Type 0 where
  call : Call → Step
  proxy_stopped listener_stopped : Step

-- How the command ends: by an error or with nil, or by the exit that the flag `version` asks for.
pub data Ending : Type 0 where
  version_printed returned : Ending
  options_refused : List OptionError → Ending
  failed_at : Call → Str → Ending

-- The steps that were taken, and the ending.
abbrev pub Course : Type 0
Course = List Step × Ending

-- The steps that a command with acceptable options is to take.
abbrev pub planned : Bool → Bool → List Step
planned flags_changed passthrough =
    call (if flags_changed then client_config else in_cluster_config)
      ∷ (if passthrough then call token_reviewer ∷ [] else [])
    ++ call serving_config
      ∷ call kube_client
      ∷ call access_reviewer
      ∷ call new_proxy
      ∷ call fake_jwt
      ∷ call readiness_probe
      ∷ call run_proxy
      ∷ proxy_stopped
      ∷ listener_stopped
      ∷ call pre_shutdown_hooks
      ∷ []

abbrev pub plan : (Str → Option Bool) → Options → List Step
plan flag o = planned (client_flags_changed flag) o.app.token_passthrough.enabled

module _ (attempt : Call → Option Str) where
  -- `attempt` gives the error of a call, or `none`. An error ends the command.
  step : Step → Course → Course
  step (call c) later = elim (attempt c) [
    | none ↦ (call c ∷ later.0, later.1)
    | some e ↦ (call c ∷ [], failed_at c e)
  ]
  step proxy_stopped later = (proxy_stopped ∷ later.0, later.1)
  step listener_stopped later = (listener_stopped ∷ later.0, later.1)

  unfoldable pub started : Bool → Bool → Course
  unfolding step
  started flags_changed passthrough =
      let serving = step (call serving_config) (
        step (call kube_client) (
          step (call access_reviewer) (
            step (call new_proxy) (
              step (call fake_jwt) (
                step (call readiness_probe) (
                  step (call run_proxy) (
                    step proxy_stopped (
                      step listener_stopped
                        (step (call pre_shutdown_hooks) ([], returned)))))))))) in
      step (call (if flags_changed then client_config else in_cluster_config))
        (if passthrough then step (call token_reviewer) serving else serving)

  unfoldable pub run_validated : (Str → Option Bool) → Options → Validation → Course
  unfolding started client_flags_changed
  run_validated flag o exited = ([], version_printed)
  run_validated flag o (finished (some errs)) = ([], options_refused errs)
  run_validated flag o (finished none) =
      started (client_flags_changed flag) o.app.token_passthrough.enabled

  -- `RunE`, with the flags of the command and the arguments of `validate`.
  unfoldable pub run_command : (Str → Option Bool) → Bool → List Str → List Str → Options → Course
  unfolding run_validated
  run_command flag version serving audit o = run_validated flag o (validate version serving audit o)

  take_steps : List Step → Course
  take_steps [] = ([], returned)
  take_steps (s ∷ steps) = step s (take_steps steps)

  abbrev pub Succeeds : Step → Type 0
  Succeeds (call c) = attempt c ≡ none
  Succeeds proxy_stopped = Unit
  Succeeds listener_stopped = Unit

  started-planned :
      (flags_changed passthrough : Bool)
      → started flags_changed passthrough ≡ take_steps (planned flags_changed passthrough)
  unfolding started take_steps
  started-planned true true = refl
  started-planned true false = refl
  started-planned false true = refl
  started-planned false false = refl

  take_steps-returned_iff :
      (steps : List Step) → ((take_steps steps).1 ≡ returned) ↔ All Succeeds steps
  unfolding take_steps step
  take_steps-returned_iff [] = ground arith
  take_steps-returned_iff (call c ∷ steps) = ground (arith, take_steps-returned_iff steps)
  take_steps-returned_iff (proxy_stopped ∷ steps) = ground (arith, take_steps-returned_iff steps)
  take_steps-returned_iff (listener_stopped ∷ steps) = ground (arith, take_steps-returned_iff steps)

  take_steps-failed :
      (pre : List Step) (c : Call) (post : List Step) (e : Str)
      → All Succeeds pre
      → attempt c ≡ some e
      → take_steps (pre ++ call c ∷ post) ≡ (pre ++ call c ∷ [], failed_at c e)
  unfolding take_steps step
  take_steps-failed [] c post e _ h = rw (take_steps, step, h) refl
  take_steps-failed (call d ∷ pre) c post e (k, ks) h =
      rw (take_steps, step, k, take_steps-failed pre c post e ks h) refl
  take_steps-failed (proxy_stopped ∷ pre) c post e (k, ks) h =
      rw (take_steps, step, take_steps-failed pre c post e ks h) refl
  take_steps-failed (listener_stopped ∷ pre) c post e (k, ks) h =
      rw (take_steps, step, take_steps-failed pre c post e ks h) refl

  run_validated-returned :
      (flag : Str → Option Bool) (o : Options) (v : Validation)
      → (run_validated flag o v).1 ≡ returned
      → v ≡ finished none
  unfolding run_validated
  run_validated-returned flag o exited h = cc
  run_validated-returned flag o (finished (some errs)) h = cc
  run_validated-returned flag o (finished none) h = refl

  take_steps-ne-version_printed : (steps : List Step) → (take_steps steps).1 ≢ version_printed
  unfolding take_steps step
  take_steps-ne-version_printed [] = λ e. cc
  take_steps-ne-version_printed (call c ∷ steps) =
      ground (arith, take_steps-ne-version_printed steps)
  take_steps-ne-version_printed (proxy_stopped ∷ steps) =
      ground (arith, take_steps-ne-version_printed steps)
  take_steps-ne-version_printed (listener_stopped ∷ steps) =
      ground (arith, take_steps-ne-version_printed steps)

  finished-ne-version_printed :
      (flag : Str → Option Bool) (o : Options) (errs : Option (List OptionError))
      → (run_validated flag o (finished errs)).1 ≢ version_printed
  unfolding run_validated
  finished-ne-version_printed flag o (some errs) = λ e. cc
  finished-ne-version_printed flag o none =
      rw (started-planned (client_flags_changed flag) o.app.token_passthrough.enabled)
        (take_steps-ne-version_printed (plan flag o))

  module _ (flag : Str → Option Bool) (serving audit : List Str) (o : Options) where
    -- The version is printed only if it is asked for.
    pub run_command-ne-version_printed :
        (run_command flag false serving audit o).1 ≢ version_printed
    unfolding run_command validate
    run_command-ne-version_printed = finished-ne-version_printed flag o _

    run_command-plan :
        IsAcceptable serving audit o
        → run_command flag false serving audit o ≡ take_steps (plan flag o)
    unfolding run_command run_validated
    run_command-plan h = rw ((validate_iff serving audit o).1 h) (started-planned _ _)

    run_command-IsAcceptable :
        (run_command flag false serving audit o).1 ≡ returned → IsAcceptable serving audit o
    unfolding run_command
    run_command-IsAcceptable h =
        (validate_iff serving audit o).0
          (run_validated-returned flag o (validate false serving audit o) h)

    -- Without the flag for the version, the command returns nil exactly if its options are acceptable
    -- and every call of its plan succeeds: the configuration by the client's flags if one was set, or
    -- else that of the cluster, the token reviewer if token passthrough is enabled, and the others in
    -- their order, to the hooks before the end.
    pub run_command-returned_iff :
        ((run_command flag false serving audit o).1 ≡ returned)
        ↔ (IsAcceptable serving audit o × All Succeeds (plan flag o))
    run_command-returned_iff = (
      λ h.
          let fine = run_command-IsAcceptable h in
          (fine, (take_steps-returned_iff (plan flag o)).0 (rw (run_command-plan fine) at h)),
      λ (fine, ok). rw (run_command-plan fine) ((take_steps-returned_iff (plan flag o)).1 ok),
    )

    -- With acceptable options and without the flag for the version, the first call of the plan that
    -- fails is the last that is taken, and the command ends with its error.
    pub run_command-failed :
        (pre : List Step) (c : Call) (post : List Step) (e : Str)
        → IsAcceptable serving audit o
        → plan flag o ≡ pre ++ call c ∷ post
        → All Succeeds pre
        → attempt c ≡ some e
        → run_command flag false serving audit o ≡ (pre ++ call c ∷ [], failed_at c e)
    run_command-failed pre c post e fine split ok h =
        run_command-plan fine ∙ ap take_steps split ∙ take_steps-failed pre c post e ok h
