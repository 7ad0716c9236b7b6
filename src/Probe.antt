-- ===== src/Probe.antt =====
-- The readiness probe of pkg/probe/probe.go.
use pf9_oidc_proxy.Base.{
  ℕ, ◌+◌, Bool, true, false, Option, none, some, List, [], ◌∷◌, ◌++◌, ◌≡◌, ◌≢◌, ◌↔◌, refl, arith,
  All, if◌then◌else◌,
}
use pf9_oidc_proxy.Strings.{Str, bytes, has_suffix}

-- The other fields do not change.
pub record HealthCheck : Type 0 where
  pub ready : Bool

-- What `Run` sets up, before its goroutine listens on the address.
pub record Listener : Type 0 where
  pub address : Str
  pub readiness_check : Str
  pub health_check : HealthCheck

unfoldable pub run : Str → Listener × Option Str
run port = (
  record {
    address = bytes "0.0.0.0:" ++ port;
    readiness_check = bytes "secure serving";
    health_check = record { ready = false };
  },
  none,
)

-- The rounds of the goroutine, by the errors of listening: the lines that it logs, and the seconds
-- that it sleeps.
unfoldable pub listen : List (Option Str) → List Str × ℕ
listen [] = ([], 0)
listen (none ∷ errs) = let (lines, seconds) = listen errs in (lines, seconds + 5)
listen (some e ∷ errs) =
    let (lines, seconds) = listen errs in
    ((bytes "ready probe listener failed: " ++ e) ∷ lines, seconds + 5)

abbrev pub not_initialized : Str
not_initialized = bytes "authenticator not initialized"

-- What the authenticator's error, `none` if it is nil, makes of a proxy that was not ready.
authenticate : Option Str → HealthCheck × Option Str
authenticate none = (record { ready = true }, none)
authenticate (some text) =
    if has_suffix text not_initialized
    then (record { ready = false }, some (bytes "OIDC provider not yet initialized: " ++ text))
    else (record { ready = true }, none)

-- `Check`, with the error that the authenticator gives for the fake token.
unfoldable pub check : Option Str → HealthCheck → HealthCheck × Option Str
unfolding authenticate
check err h = if h.ready then (h, none) else authenticate err

-- One check after the other.
unfoldable pub checks : List (Option Str) → HealthCheck → List (Option Str)
unfolding check
checks [] h = []
checks (err ∷ errs) h = let (h', result) = check err h in result ∷ checks errs h'

abbrev pub is_uninitialized : Option Str → Bool
is_uninitialized none = false
is_uninitialized (some text) = has_suffix text not_initialized

-- A check fails exactly if the proxy was not ready and the authenticator's error ends in
-- "authenticator not initialized".
pub check-fails_iff :
    (err : Option Str) (h : HealthCheck)
    → ((check err h).1 ≢ none) ↔ ((h.ready ≡ false) × (is_uninitialized err ≡ true))
unfolding check authenticate
check-fails_iff none h = ground arith
check-fails_iff (some text) h = ground arith

check-ready :
    (err : Option Str) (h : HealthCheck)
    → (check err h).1 ≡ none
    → (check err h).0 ≡ record { ready = true }
unfolding check authenticate
check-ready none h e = ground arith
check-ready (some text) h e = ground arith

checks-ready :
    (errs : List (Option Str))
    → All (λ result. result ≡ none) (checks errs (record { ready = true }))
unfolding checks check
checks-ready [] = tt
checks-ready (err ∷ errs) = (refl, checks-ready errs)

-- Behind a check that succeeds, all checks succeed, whatever the authenticator says.
pub checks_stay_ready :
    (err : Option Str) (h : HealthCheck) (errs : List (Option Str))
    → (check err h).1 ≡ none
    → All (λ result. result ≡ none) (checks errs (check err h).0)
checks_stay_ready err h errs e = rw (check-ready err h e) (checks-ready errs)
