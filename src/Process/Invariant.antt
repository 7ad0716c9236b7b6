-- ===== src/Process/Invariant.antt =====
-- What holds in every state of the process.
use pf9_oidc_proxy.Base.{ℕ, zero, suc, ◌+◌, ◌≤◌, Bool, true, false, ◌≡◌, refl, arith}
use pf9_oidc_proxy.Signals.{Handler, waiting, stopping, exited, receive, is_stop_closed, is_exited}
use pf9_oidc_proxy.Hooks.{run_pre_shutdown_hooks}
use pf9_oidc_proxy.Proxy.Start.{Running}
use pf9_oidc_proxy.Process.{
  Main, awaiting_server, awaiting_listener, shutting_down, ended, Process, start, is_over, is_ended,
  notify, exit_code, finish, Step, take_signal, shut_server, stop_listener, await_server,
  await_listener, run_hooks, Reach, begun, notified, stepped,
}

-- The signals that are missing before `os.Exit`.
abbrev pub missing : Handler → ℕ
missing waiting = 4
missing (stopping left) = left + 1
missing exited = 0

-- Past the first wait of `RunE`, and past the second.
abbrev pub is_past_server : Main → Bool
is_past_server awaiting_server = false
is_past_server _ = true

abbrev pub is_past_listener : Main → Bool
is_past_listener awaiting_server = false
is_past_listener awaiting_listener = false
is_past_listener _ = true

-- What `main` leaves: nothing before the hooks have run, and then what they leave, with the code for
-- their errors.
abbrev pub Left : Running → Main → Running → Type 0
Left r (ended code) r' =
    (r'.effects ≡ (run_pre_shutdown_hooks r.hooks r.effects).0)
    × (code ≡ exit_code (run_pre_shutdown_hooks r.hooks r.effects).1)
Left r _ r' = r' ≡ r

-- After so many signals.
pub record IsSound (r : Running) (n : ℕ) (s : Process) : Type 0 where
  pub bounded : s.pending ≤ 2
  pub counted : s.pending + 4 ≤ n + missing s.handler
  pub rounds : is_stop_closed s.handler ≡ true → missing s.handler ≤ 3
  pub shut_by_signal : s.is_server_shut ≡ true → is_stop_closed s.handler ≡ true
  pub stopped_by_signal : s.is_listener_stopped ≡ true → is_stop_closed s.handler ≡ true
  pub shut_before : is_past_server s.main ≡ true → s.is_server_shut ≡ true
  pub stopped_before : is_past_listener s.main ≡ true → s.is_listener_stopped ≡ true
  pub left : Left r s.main s.running

start-IsSound : (r : Running) (n : ℕ) → n ≡ 0 → IsSound r n (start r)
unfolding start is_stop_closed
start-IsSound r n e = record {
  bounded = omega arith;
  counted = omega arith;
  rounds = λ closed. cc;
  shut_by_signal = λ shut. cc;
  stopped_by_signal = λ stopped. cc;
  shut_before = λ past. cc;
  stopped_before = λ past. cc;
  left = refl;
}

notify-IsSound : (r : Running) (n : ℕ) (s : Process) → IsSound r n s → IsSound r (suc n) (notify s)
unfolding notify
notify-IsSound r n s h = record {
  bounded = ground (arith, h.bounded);
  counted = ground (arith, h.counted);
  rounds = h.rounds;
  shut_by_signal = h.shut_by_signal;
  stopped_by_signal = h.stopped_by_signal;
  shut_before = h.shut_before;
  stopped_before = h.stopped_before;
  left = h.left;
}

receive-missing : (h : Handler) → is_exited h ≡ false → missing (receive h) + 1 ≡ missing h
unfolding receive is_exited
receive-missing waiting e = refl
receive-missing (stopping zero) e = refl
receive-missing (stopping (suc left)) e = omega arith
receive-missing exited e = cc

pub receive-closed : (h : Handler) → is_stop_closed (receive h) ≡ true
unfolding receive is_stop_closed
receive-closed waiting = refl
receive-closed (stopping zero) = refl
receive-closed (stopping (suc left)) = refl
receive-closed exited = refl

missing-le : (h : Handler) → is_exited h ≡ false → 1 ≤ missing h
unfolding is_exited
missing-le waiting e = omega arith
missing-le (stopping left) e = omega arith
missing-le exited e = cc

rounds_left :
    (h : Handler) → (is_stop_closed h ≡ true → missing h ≤ 3) → is_exited h ≡ false → missing h ≤ 4
unfolding is_stop_closed
rounds_left waiting rounds e = omega arith
rounds_left (stopping left) rounds e = omega (arith, rounds refl)
rounds_left exited rounds e = omega arith

-- While the process is not over, neither `os.Exit` was called nor has `main` returned.
pub is_over-false : (s : Process) → is_over s ≡ false → is_exited s.handler ≡ false
unfolding is_over
is_over-false s e = ground arith

module _ (r : Running) (n : ℕ) (s : Process) (h : IsSound r n s) (e : is_over s ≡ false) where
  take_signal-IsSound :
      (left : ℕ)
      → s.pending ≡ suc left
      → IsSound r n (record s { pending = left; handler = receive s.handler })
  take_signal-IsSound left p =
      let awake = is_over-false s e in
      let round = receive-missing s.handler awake in
      record {
        bounded = omega (arith, h.bounded);
        counted = omega (arith, h.counted);
        rounds = λ closed. omega (arith, rounds_left s.handler h.rounds awake);
        shut_by_signal = λ shut. receive-closed s.handler;
        stopped_by_signal = λ stopped. receive-closed s.handler;
        shut_before = h.shut_before;
        stopped_before = h.stopped_before;
        left = h.left;
      }

  -- A step of the server.
  server-IsSound :
      (shut stopped : Bool)
      → is_stop_closed s.handler ≡ true
      → (s.is_server_shut ≡ true → shut ≡ true)
      → (s.is_listener_stopped ≡ true → stopped ≡ true)
      → IsSound r n (record s { is_server_shut = shut; is_listener_stopped = stopped })
  server-IsSound shut stopped closed stays_shut stays_stopped = record {
    bounded = h.bounded;
    counted = h.counted;
    rounds = h.rounds;
    shut_by_signal = λ _. closed;
    stopped_by_signal = λ _. closed;
    shut_before = λ past. stays_shut (h.shut_before past);
    stopped_before = λ past. stays_stopped (h.stopped_before past);
    left = h.left;
  }

  -- A step of `main`.
  main-IsSound :
      (main : Main) (running : Running)
      → s.is_server_shut ≡ true
      → (is_past_listener main ≡ true → s.is_listener_stopped ≡ true)
      → Left r main running
      → IsSound r n (record s { main = main; running = running })
  main-IsSound main running shut stopped left = record {
    bounded = h.bounded;
    counted = h.counted;
    rounds = h.rounds;
    shut_by_signal = h.shut_by_signal;
    stopped_by_signal = h.stopped_by_signal;
    shut_before = λ _. shut;
    stopped_before = stopped;
    left = left;
  }

not_over : (m : Main) (r r' : Running) → is_ended m ≡ false → Left r m r' → r' ≡ r
unfolding is_ended
not_over awaiting_server r r' e l = l
not_over awaiting_listener r r' e l = l
not_over shutting_down r r' e l = l
not_over (ended code) r r' e l = cc

unmoved : (r : Running) (n : ℕ) (s : Process) → IsSound r n s → is_over s ≡ false → s.running ≡ r
unfolding is_over
unmoved r n s h e = not_over s.main r s.running (ground arith) h.left

step-IsSound : (r : Running) (n : ℕ) (s t : Process) → IsSound r n s → Step s t → IsSound r n t
unfolding finish
step-IsSound r n s t h (take_signal _ left e p) = take_signal-IsSound r n s h e left p
step-IsSound r n s t h (shut_server _ e closed before) =
    server-IsSound r n s h e true s.is_listener_stopped closed (λ _. refl) (λ same. same)
step-IsSound r n s t h (stop_listener _ e closed before) =
    server-IsSound r n s h e s.is_server_shut true closed (λ same. same) (λ _. refl)
step-IsSound r n s t h (await_server _ e at shut) =
    main-IsSound r n s h e awaiting_listener s.running shut (λ past. cc) (unmoved r n s h e)
step-IsSound r n s t h (await_listener _ e at stopped) =
    main-IsSound r n s h e shutting_down s.running (h.shut_before (rw at refl)) (λ _. stopped)
      (unmoved r n s h e)
step-IsSound r n s t h (run_hooks _ e at) =
    let same = unmoved r n s h e in
    main-IsSound r n s h e _ _ (h.shut_before (rw at refl)) (λ _. h.stopped_before (rw at refl))
      (rw same refl, rw same refl)

-- Every state of the process is sound: at most two signals wait; the handler has got no more signals
-- than have come; the server is shut, and the listener stopped, only behind a signal; `main` is past
-- its waits only behind the closing of their channels; and what is left is what the proxy's `Run`
-- left, until the hooks have run, and then what they leave, with the exit code for their errors.
pub Reach-IsSound : (r : Running) (n : ℕ) (s : Process) → Reach r n s → IsSound r n s
Reach-IsSound r n s (begun _ e) = start-IsSound r n e
Reach-IsSound r (suc n) s (notified {s = before} reach e) =
    notify-IsSound r n before (Reach-IsSound r n before reach)
Reach-IsSound r n s (stepped {s = before} reach step) =
    step-IsSound r n before s (Reach-IsSound r n before reach) step
