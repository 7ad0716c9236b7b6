-- ===== src/Process/Progress.antt =====
-- That a signal ends the process.
use pf9_oidc_proxy.Base.{
  ℕ, suc, ◌+◌, ◌-◌, ◌≤◌, Bool, true, false, ◌≡◌, ◌⊎◌, inl, inr, refl, arith, Bool-cases,
}
use pf9_oidc_proxy.Signals.{is_stop_closed, is_exited}
use pf9_oidc_proxy.Proxy.Start.{Running}
use pf9_oidc_proxy.Process.{
  Main, awaiting_server, awaiting_listener, shutting_down, ended, Process, is_over, is_ended,
  finish, Step, take_signal, shut_server, stop_listener, await_server, await_listener, run_hooks,
  Reach, begun, notified, stepped, notify, Steps, done, more,
}
use pf9_oidc_proxy.Process.Shutdown.{exits_after_four}
use pf9_oidc_proxy.Process.Invariant.{Reach-IsSound, receive-closed}

abbrev still : Bool → ℕ
still true = 0
still false = 1

-- The steps of `main` that are left.
abbrev waits : Main → ℕ
waits awaiting_server = 3
waits awaiting_listener = 2
waits shutting_down = 1
waits (ended code) = 0

-- The steps that are left, if no signal comes.
abbrev steps_left : Process → ℕ
steps_left s = s.pending + still s.is_server_shut + still s.is_listener_stopped + waits s.main

still_le : (b : Bool) → still b ≤ 1
still_le true = omega arith
still_le false = omega arith

waits_le : (m : Main) → waits m ≤ 3
waits_le awaiting_server = omega arith
waits_le awaiting_listener = omega arith
waits_le shutting_down = omega arith
waits_le (ended code) = omega arith

Step-steps_left : (s t : Process) → Step s t → steps_left s ≡ steps_left t + 1
unfolding finish
Step-steps_left s t (take_signal _ left e p) = omega (arith, p)
Step-steps_left s t (shut_server _ e closed before) = rw before (omega arith)
Step-steps_left s t (stop_listener _ e closed before) = rw before (omega arith)
Step-steps_left s t (await_server _ e at shut) = rw at (omega arith)
Step-steps_left s t (await_listener _ e at stopped) = rw at (omega arith)
Step-steps_left s t (run_hooks _ e at) = rw at (omega arith)

Steps-steps_left : (k : ℕ) (s t : Process) → Steps k s t → steps_left s ≡ steps_left t + k
Steps-steps_left k s t (done _ _ e) = omega arith
Steps-steps_left (suc k) s u (more {t} step rest) =
    omega (arith, Step-steps_left s t step, Steps-steps_left k t u rest)

-- A signal waits for the handler, or has closed the stop channel.
abbrev HasSignal : Process → Type 0
HasSignal s = (1 ≤ s.pending) ⊎ (is_stop_closed s.handler ≡ true)

step-HasSignal : (s t : Process) → Step s t → HasSignal s → HasSignal t
unfolding finish
step-HasSignal s t (take_signal _ left e p) h = inr (receive-closed s.handler)
step-HasSignal s t (shut_server _ e closed before) h = h
step-HasSignal s t (stop_listener _ e closed before) h = h
step-HasSignal s t (await_server _ e at shut) h = h
step-HasSignal s t (await_listener _ e at stopped) h = h
step-HasSignal s t (run_hooks _ e at) h = h

Steps-HasSignal : (k : ℕ) (s t : Process) → Steps k s t → HasSignal s → HasSignal t
Steps-HasSignal k s t (done _ _ e) h = h
Steps-HasSignal (suc k) s u (more {t} step rest) h =
    Steps-HasSignal k t u rest (step-HasSignal s t step h)

Reach-HasSignal : (r : Running) (n : ℕ) (s : Process) → Reach r n s → 1 ≤ n → HasSignal s
unfolding notify
Reach-HasSignal r n s (begun _ e) h = absurd (omega arith)
Reach-HasSignal r (suc n) s (notified reach e) h = inl (ground arith)
Reach-HasSignal r n s (stepped {s = before} reach step) h =
    step-HasSignal before s step (Reach-HasSignal r n before reach h)

-- What `main` and the server do once the stop channel is closed.
next_closed :
    (s : Process) (m : Main)
    → is_over s ≡ false
    → s.main ≡ m
    → is_ended m ≡ false
    → is_stop_closed s.handler ≡ true
    → (t : Process) × Step s t
unfolding is_ended
next_closed s awaiting_server e at _ closed = elim (Bool-cases s.is_server_shut) [
  | inl shut ↦ (_, await_server s e at shut)
  | inr before ↦ (_, shut_server s e closed before)
]
next_closed s awaiting_listener e at _ closed = elim (Bool-cases s.is_listener_stopped) [
  | inl stopped ↦ (_, await_listener s e at stopped)
  | inr before ↦ (_, stop_listener s e closed before)
]
next_closed s shutting_down e at _ closed = (_, run_hooks s e at)
next_closed s (ended code) e at running closed = cc

next : (s : Process) → is_over s ≡ false → HasSignal s → (t : Process) × Step s t
unfolding is_over
next s e (inl h) = (_, take_signal s (s.pending - 1) e (omega arith))
next s e (inr closed) = next_closed s s.main e refl (ground arith) closed

Steps-Reach : (r : Running) (n k : ℕ) (s t : Process) → Reach r n s → Steps k s t → Reach r n t
Steps-Reach r n k s t reach (done _ _ e) = reach
Steps-Reach r n (suc k) s u reach (more {t} step rest) =
    Steps-Reach r n k t u (stepped reach step) rest

-- How a process ends: by the return of `main`, or by force.
pub data End (n : ℕ) (s : Process) : Type 0 where
  by_return : (code : ℕ) → s.main ≡ ended code → End n s
  by_force : is_exited s.handler ≡ true → 4 ≤ n → End n s

main_ended : (m : Main) → is_ended m ≡ true → (code : ℕ) × (m ≡ ended code)
unfolding is_ended
main_ended awaiting_server e = cc
main_ended awaiting_listener e = cc
main_ended shutting_down e = cc
main_ended (ended code) e = (code, refl)

over-End : (r : Running) (n : ℕ) (s : Process) → Reach r n s → is_over s ≡ true → End n s
unfolding is_over
over-End r n s reach e = elim (Bool-cases (is_exited s.handler)) [
  | inl forced ↦ by_force forced (exits_after_four r n s reach forced)
  | inr awake ↦ let (code, at) = main_ended s.main (ground arith) in by_return code at
]

-- Once a signal has come, and while no other comes, at most seven steps are taken, and a step can be
-- taken until the process is over: no goroutine is waited for in vain. It is then over by the return
-- of `main`, or by force if at least four signals have come.
pub signal_ends :
    (r : Running) (n : ℕ) (s : Process) (k : ℕ) (t : Process)
    → Reach r n s
    → 1 ≤ n
    → Steps k s t
    → (k ≤ 7) × (End n t ⊎ ((u : Process) × Step t u))
signal_ends r n s k t reach h steps = (
  omega (
    arith,
    (Reach-IsSound r n s reach).bounded,
    Steps-steps_left k s t steps,
    still_le s.is_server_shut,
    still_le s.is_listener_stopped,
    waits_le s.main,
  ),
  elim (Bool-cases (is_over t)) [
    | inl over ↦ inl (over-End r n t (Steps-Reach r n k s t reach steps) over)
    | inr e ↦ inr (next t e (Steps-HasSignal k s t steps (Reach-HasSignal r n s reach h)))
  ],
)
