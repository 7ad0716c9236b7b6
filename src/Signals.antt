-- ===== src/Signals.antt =====
-- SignalHandler of pkg/util/signals.go: what the goroutine does with the signals that reach its
-- channel, one after the other.
use pf9_oidc_proxy.Base.{
  ℕ, zero, suc, ◌+◌, ◌≤◌, Bool, true, false, List, [], ◌∷◌, ◌≡◌, ◌↔◌, refl, arith, length,
}

-- Where the goroutine is: before the first signal, in the given round of its loop, or past `os.Exit`.
pub data Handler : Type 0 where
  waiting : Handler
  stopping : ℕ → Handler
  exited : Handler

abbrev pub grace : ℕ
grace = 3

-- The next round of the loop, of so many that are left.
next_round : ℕ → Handler
next_round zero = exited
next_round (suc left) = stopping left

-- `stopping left` is the round behind which `left` more follow.
unfoldable pub receive : Handler → Handler
unfolding next_round
receive waiting = next_round grace
receive (stopping left) = next_round left
receive exited = exited

unfoldable pub is_stop_closed : Handler → Bool
is_stop_closed waiting = false
is_stop_closed (stopping left) = true
is_stop_closed exited = true

-- `os.Exit(1)`
unfoldable pub is_exited : Handler → Bool
is_exited waiting = false
is_exited (stopping left) = false
is_exited exited = true

unfoldable pub after_signals {ℓ} : {Signal : Type ℓ} → List Signal → Handler → Handler
unfolding receive
after_signals [] h = h
after_signals (s ∷ signals) h = after_signals signals (receive h)

module _ {ℓ} {Signal : Type ℓ} where
  exited_stays : (signals : List Signal) → after_signals signals exited ≡ exited
  unfolding after_signals receive
  exited_stays [] = refl
  exited_stays (s ∷ signals) = exited_stays signals

  stopping_exits :
      (signals : List Signal) (left : ℕ)
      → (is_exited (after_signals signals (stopping left)) ≡ true) ↔ (left + 1 ≤ length signals)
  unfolding after_signals receive is_exited next_round
  stopping_exits [] left = ground arith
  stopping_exits (s ∷ signals) zero = rw (exited_stays signals) (ground arith)
  stopping_exits (s ∷ signals) (suc left) = ground (arith, stopping_exits signals left)

  stopping_closed :
      (signals : List Signal) (left : ℕ)
      → is_stop_closed (after_signals signals (stopping left)) ≡ true
  unfolding after_signals receive is_stop_closed next_round
  stopping_closed [] left = refl
  stopping_closed (s ∷ signals) zero = rw (exited_stays signals) refl
  stopping_closed (s ∷ signals) (suc left) = stopping_closed signals left

  -- The stop channel is closed exactly if a signal has come, and the program is ended by force
  -- exactly if four have.
  pub after_signals_lem :
      (signals : List Signal)
      → ((is_stop_closed (after_signals signals waiting) ≡ true) ↔ (1 ≤ length signals))
        × ((is_exited (after_signals signals waiting) ≡ true) ↔ (4 ≤ length signals))
  unfolding after_signals receive is_stop_closed is_exited next_round
  after_signals_lem [] = ground arith
  after_signals_lem (s ∷ signals) =
      ground (arith, stopping_closed signals 2, stopping_exits signals 2)
