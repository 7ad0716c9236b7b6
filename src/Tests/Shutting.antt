-- ===== src/Tests/Shutting.antt =====
-- A process that gets one signal and shuts down.
use pf9_oidc_proxy.Base.{ℕ, Bool, ◌≤◌, true, false, none, some, [], ◌++◌, ◌≡◌, ◌⊎◌, refl, arith}
use pf9_oidc_proxy.Maps.{insert}
use pf9_oidc_proxy.Hooks.{new, add_pre_shutdown_hook, run_pre_shutdown_hooks}
use pf9_oidc_proxy.Audit.{run, shutdown}
use pf9_oidc_proxy.Signals.{stopping, receive, is_stop_closed}
use pf9_oidc_proxy.Proxy.Errors.{client_transport}
use pf9_oidc_proxy.Proxy.Transports.{run_transports}
use pf9_oidc_proxy.Proxy.Start.{Running, run_proxy, serve}
use pf9_oidc_proxy.Proxy.Start.Lifecycle.{lifecycle}
use pf9_oidc_proxy.Process.{
  Main, awaiting_server, awaiting_listener, shutting_down, ended, Process, start, is_over, notify,
  finish, Step, take_signal, shut_server, stop_listener, await_server, await_listener, run_hooks,
  Reach, begun, notified, stepped, done, more,
}
use pf9_oidc_proxy.Process.Shutdown.{ended_after_shutdown}
use pf9_oidc_proxy.Process.Invariant.{IsSound, Reach-IsSound}
use pf9_oidc_proxy.Process.Progress.{End, signal_ends}
use pf9_oidc_proxy.Tests.Ending.{auditor, no_error, plain_config, built, fresh_run, runs}

abbrev running : Running
running = (run_proxy auditor no_error plain_config (some client_transport) none none fresh_run).0

-- Behind the signal, with the server and the listener as given.
abbrev stopped_with : Bool → Bool → Main → Process
stopped_with shut stopped main = record {
  pending = 0;
  handler = stopping 2;
  is_server_shut = shut;
  is_listener_stopped = stopped;
  main = main;
  running = running;
}

abbrev signalled : Process
signalled = notify (start running)

signalled-Reach : Reach running 1 signalled
unfolding start is_over
signalled-Reach = notified (begun 0 refl) refl

signal_taken : Step signalled (stopped_with false false awaiting_server)
unfolding start notify receive is_over
signal_taken = take_signal signalled 0 refl refl

server_shut :
    Step (stopped_with false false awaiting_server) (stopped_with true false awaiting_server)
unfolding is_over is_stop_closed
server_shut = shut_server _ refl refl refl

listener_stopped :
    Step (stopped_with true false awaiting_server) (stopped_with true true awaiting_server)
unfolding is_over is_stop_closed
listener_stopped = stop_listener _ refl refl refl

server_awaited :
    Step (stopped_with true true awaiting_server) (stopped_with true true awaiting_listener)
unfolding is_over
server_awaited = await_server _ refl refl refl

listener_awaited :
    Step (stopped_with true true awaiting_listener) (stopped_with true true shutting_down)
unfolding is_over
listener_awaited = await_listener _ refl refl refl

hooks_run :
    Step (stopped_with true true shutting_down) (finish (stopped_with true true shutting_down))
unfolding is_over
hooks_run = run_hooks _ refl refl

finish-Reach : Reach running 1 (finish (stopped_with true true shutting_down))
finish-Reach =
    stepped
      (stepped
        (stepped
          (stepped (stepped (stepped signalled-Reach signal_taken) server_shut) listener_stopped)
          server_awaited)
        listener_awaited)
      hooks_run

exit_zero : (finish (stopped_with true true shutting_down)).main ≡ ended 0
unfolding finish run_pre_shutdown_hooks run_proxy run_transports serve run add_pre_shutdown_hook
    insert new shutdown
exit_zero = refl

ended_after_shutdown_example :
    (1 ≤ 1)
    × ((finish (stopped_with true true shutting_down)).is_server_shut ≡ true)
    × ((finish (stopped_with true true shutting_down)).is_listener_stopped ≡ true)
    × (◌≡◌ {A = ℕ} 0 0)
    × ((finish (stopped_with true true shutting_down)).running.effects
        ≡ [] ++ lifecycle auditor.backend)
ended_after_shutdown_example =
    ended_after_shutdown auditor no_error plain_config (some client_transport) none none [] built 1
      0 (finish (stopped_with true true shutting_down)) runs finish-Reach exit_zero

signal_ends_example :
    (2 ≤ 7)
    × (End 1 (stopped_with true false awaiting_server)
        ⊎ ((u : Process) × Step (stopped_with true false awaiting_server) u))
signal_ends_example =
    signal_ends running 1 signalled 2 (stopped_with true false awaiting_server) signalled-Reach
      (omega arith) (more signal_taken (more server_shut (done 0 _ refl)))

Reach-IsSound_example : IsSound running 1 (finish (stopped_with true true shutting_down))
Reach-IsSound_example =
    Reach-IsSound running 1 (finish (stopped_with true true shutting_down)) finish-Reach
