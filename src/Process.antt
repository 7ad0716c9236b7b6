-- ===== src/Process.antt =====
-- The process after `Run` of pkg/proxy has returned, as its goroutines' steps: the goroutine of
-- SignalHandler in pkg/util/signals.go, the server of k8s.io/apiserver, the rest of `RunE` in
-- cmd/app/run.go and the end of `main` in cmd/main.go. An effect of the server is that a channel is
-- closed; it may do so as soon as the stop channel is closed.
pub mod Invariant
pub mod Shutdown
pub mod Progress
use pf9_oidc_proxy.Base.{
  ℕ, suc, ◌+◌, Bool, true, false, ◌||◌, Option, none, some, List, ◌≡◌, leb, if◌then◌else◌,
}
use pf9_oidc_proxy.Hooks.{HookError}
use pf9_oidc_proxy.Signals.{Handler, waiting, receive, is_stop_closed, is_exited}
use pf9_oidc_proxy.Audit.{Effect}
use pf9_oidc_proxy.Proxy.Start.{Running, shut_down}

-- Where the goroutine of `main` is, in `RunE` or past it, with the exit code.
pub data Main : Type 0 where
  awaiting_server awaiting_listener shutting_down : Main
  ended : ℕ → Main

pub record Process : Type 0 where
  -- the signals in the channel of the signal handler
  pub pending : ℕ
  pub handler : Handler
  -- whether `waitCh` and `listenerStoppedCh` are closed
  pub is_server_shut : Bool
  pub is_listener_stopped : Bool
  pub main : Main
  pub running : Running

-- Behind a `Run` that leaves `r`.
unfoldable pub start : Running → Process
start r = record {
  pending = 0;
  handler = waiting;
  is_server_shut = false;
  is_listener_stopped = false;
  main = awaiting_server;
  running = r;
}

unfoldable pub is_ended : Main → Bool
is_ended (ended code) = true
is_ended _ = false

-- `main` has returned, or `os.Exit` was called.
unfoldable pub is_over : Process → Bool
unfolding is_ended is_exited
is_over s = is_exited s.handler || is_ended s.main

abbrev pub capacity : ℕ
capacity = 2

-- `signal.Notify` does not wait for room in the channel.
unfoldable pub notify : Process → Process
notify s = record s { pending = if leb (s.pending + 1) capacity then s.pending + 1 else s.pending }

-- The end of `main`, by the error of the command.
unfoldable pub exit_code : Option (List HookError) → ℕ
exit_code none = 0
exit_code (some errs) = 1

unfoldable pub finish : Process → Process
unfolding exit_code
finish s =
    let (effects, errs) = shut_down s.running in
    record s { main = ended (exit_code errs); running = record (s.running) { effects = effects } }

-- The steps of the goroutines.
pub data Step : Process → Process → Type 0 where
  take_signal :
      (s : Process) (left : ℕ)
      → is_over s ≡ false
      → s.pending ≡ suc left
      → Step s (record s { pending = left; handler = receive s.handler })
  shut_server :
      (s : Process)
      → is_over s ≡ false
      → is_stop_closed s.handler ≡ true
      → s.is_server_shut ≡ false
      → Step s (record s { is_server_shut = true })
  stop_listener :
      (s : Process)
      → is_over s ≡ false
      → is_stop_closed s.handler ≡ true
      → s.is_listener_stopped ≡ false
      → Step s (record s { is_listener_stopped = true })
  await_server :
      (s : Process)
      → is_over s ≡ false
      → s.main ≡ awaiting_server
      → s.is_server_shut ≡ true
      → Step s (record s { main = awaiting_listener })
  await_listener :
      (s : Process)
      → is_over s ≡ false
      → s.main ≡ awaiting_listener
      → s.is_listener_stopped ≡ true
      → Step s (record s { main = shutting_down })
  run_hooks : (s : Process) → is_over s ≡ false → s.main ≡ shutting_down → Step s (finish s)

-- The processes that a start may lead to, with the number of signals that have come.
pub data Reach (r : Running) : ℕ → Process → Type 0 where
  begun : (n : ℕ) → n ≡ 0 → Reach r n (start r)
  notified : {s : Process} {n : ℕ} → Reach r n s → is_over s ≡ false → Reach r (suc n) (notify s)
  stepped : {s t : Process} {n : ℕ} → Reach r n s → Step s t → Reach r n t

-- So many steps, with no signal that comes between them.
pub data Steps : ℕ → Process → Process → Type 0 where
  done : (k : ℕ) (s : Process) → k ≡ 0 → Steps k s s
  more : {s t u : Process} {k : ℕ} → Step s t → Steps k t u → Steps (suc k) s u
