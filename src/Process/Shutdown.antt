-- ===== src/Process/Shutdown.antt =====
-- What has happened when the process is over.
use pf9_oidc_proxy.Base.{ℕ, ◌≤◌, true, Option, none, List, ◌++◌, ◌≡◌, refl, arith, ap, ◌∙◌, subst}
use pf9_oidc_proxy.Strings.{Str}
use pf9_oidc_proxy.Result.{ok}
use pf9_oidc_proxy.Hooks.{new, run_pre_shutdown_hooks}
use pf9_oidc_proxy.Signals.{Handler, waiting, stopping, exited, is_exited}
use pf9_oidc_proxy.Audit.{Audit, Effect}
use pf9_oidc_proxy.Proxy.Errors.{Transport}
use pf9_oidc_proxy.Proxy.Impersonation.Build.{Config}
use pf9_oidc_proxy.Proxy.Transports.{Transports}
use pf9_oidc_proxy.Proxy.Start.{Running, run_proxy}
use pf9_oidc_proxy.Proxy.Start.Lifecycle.{lifecycle, run_proxy-shutdown}
use pf9_oidc_proxy.Process.{Process, ended, Reach, exit_code}
use pf9_oidc_proxy.Process.Invariant.{missing, Left, Reach-IsSound}

missing-exited : (h : Handler) → is_exited h ≡ true → missing h ≡ 0
unfolding is_exited
missing-exited waiting e = cc
missing-exited (stopping left) e = cc
missing-exited exited e = refl

-- A process that was ended by force has got at least four signals.
pub exits_after_four :
    (r : Running) (n : ℕ) (s : Process) → Reach r n s → is_exited s.handler ≡ true → 4 ≤ n
exits_after_four r n s reach e =
    omega (arith, (Reach-IsSound r n s reach).counted, missing-exited s.handler e)

-- The code of a process whose hooks all succeed.
exit_code-none :
    (effects : List Effect) (r : Running)
    → run_pre_shutdown_hooks r.hooks r.effects ≡ (effects, none)
    → exit_code (run_pre_shutdown_hooks r.hooks r.effects).1 ≡ 0
unfolding exit_code
exit_code-none effects r e = rw e refl

module _ {Query : Type 0} (a : Audit Query) (failure : Transport → Option Str) (config : Config)
    (initial : Option Transport) (url_error serve_error : Option Str) (effects : List Effect)
    (ts : Transports) where
  -- Of a process whose proxy had no hooks before its `Run`, which returned transports: when `main`
  -- has returned, at least one signal has come, the server was shut and its listener has stopped;
  -- the exit code is 0, and all the effects are those of the proxy's life from its start, so that an
  -- audit backend was stopped once, at the end.
  pub ended_after_shutdown :
      (n code : ℕ) (s : Process)
      → (run_proxy a failure config initial url_error serve_error
          (record { hooks = new; effects = effects })).1
        ≡ ok ts
      → Reach
          (run_proxy a failure config initial url_error serve_error
            (record { hooks = new; effects = effects })).0
          n
          s
      → s.main ≡ ended code
      → (1 ≤ n)
        × (s.is_server_shut ≡ true)
        × (s.is_listener_stopped ≡ true)
        × (code ≡ 0)
        × (s.running.effects ≡ effects ++ lifecycle a.backend)
  ended_after_shutdown n code s built reach e =
      let r =
        (run_proxy a failure config initial url_error serve_error
          (record { hooks = new; effects = effects })).0 in
      let sound = Reach-IsSound r n s reach in
      let stopped =
        run_proxy-shutdown a failure config initial url_error serve_error effects ts built in
      let (left, coded) = subst (λ m. Left r m s.running) e sound.left in
      let shut = sound.shut_before (rw e refl) in
      (
        omega (arith, sound.counted, sound.rounds (sound.shut_by_signal shut)),
        shut,
        sound.stopped_before (rw e refl),
        coded ∙ exit_code-none _ r stopped,
        left ∙ ap (λ outcome. outcome.0) stopped,
      )
