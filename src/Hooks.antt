-- ===== src/Hooks.antt =====
-- pkg/proxy/hooks/hooks.go. A hook changes the state of the world and may fail; the lock of the
-- hooks makes every call one step.
use pf9_oidc_proxy.Base.{Option, none, some, List, [], ◌∷◌, ◌≡◌, ◌↔◌, refl, arith}
use pf9_oidc_proxy.Strings.{Str}
use pf9_oidc_proxy.Maps.{Map, insert}

abbrev pub ShutdownHook : Type 0 → Type 0
ShutdownHook World = World → World × Option Str

pub record Hooks (World : Type 0) : Type 0 where
  pub pre_shutdown_hooks : Map (ShutdownHook World)

-- What `PreShutdownHook %q failed: %v` is filled with.
pub record HookError : Type 0 where
  pub name : Str
  pub text : Str

-- k8sErrors.NewAggregate: `none` is a nil error
unfoldable pub new_aggregate {ℓ} : {A : Type ℓ} → List A → Option (List A)
new_aggregate [] = none
new_aggregate (e ∷ errs) = some (e ∷ errs)

unfoldable pub report : Str → Option Str → List HookError → List HookError
report name none errs = errs
report name (some e) errs = record { name = name; text = e } ∷ errs

module _ {World : Type 0} where
  unfoldable pub new : Hooks World
  new = record { pre_shutdown_hooks = [] }

  unfoldable pub add_pre_shutdown_hook : Str → ShutdownHook World → Hooks World → Hooks World
  add_pre_shutdown_hook name hook h = record {
    pre_shutdown_hooks = insert name hook h.pre_shutdown_hooks;
  }

  -- The loop of `RunPreShutdownHooks`.
  unfoldable pub run_hooks : Map (ShutdownHook World) → World → World × List HookError
  unfolding report
  run_hooks [] w = (w, [])
  run_hooks ((name, entry) ∷ hooks) w =
      let (w', e) = entry w in let (w'', errs) = run_hooks hooks w' in (w'', report name e errs)

  unfoldable pub run_pre_shutdown_hooks : Hooks World → World → World × Option (List HookError)
  unfolding run_hooks new_aggregate
  run_pre_shutdown_hooks h w =
      let (w', errs) = run_hooks h.pre_shutdown_hooks w in (w', new_aggregate errs)

  -- The hooks' effects alone, one after the other.
  abbrev pub after : Map (ShutdownHook World) → World → World
  after [] w = w
  after ((_, entry) ∷ hooks) w = after hooks (entry w).0

  abbrev pub AllSucceed : Map (ShutdownHook World) → World → Type 0
  AllSucceed [] w = Unit
  AllSucceed ((_, entry) ∷ hooks) w = ((entry w).1 ≡ none) × AllSucceed hooks (entry w).0

  run_hooks-after :
      (hooks : Map (ShutdownHook World)) (w : World) → (run_hooks hooks w).0 ≡ after hooks w
  unfolding run_hooks
  run_hooks-after [] w = refl
  run_hooks-after ((_, entry) ∷ hooks) w = run_hooks-after hooks (entry w).0

  run_hooks-errors_iff :
      (hooks : Map (ShutdownHook World)) (w : World)
      → ((run_hooks hooks w).1 ≡ []) ↔ AllSucceed hooks w
  unfolding run_hooks report
  run_hooks-errors_iff [] w = ground arith
  run_hooks-errors_iff ((name, entry) ∷ hooks) w =
      ground (arith, run_hooks-errors_iff hooks (entry w).0)

  -- Every hook is run, in turn, whether or not the hooks before it fail; and there is no error
  -- exactly if every hook succeeds in the state that the ones before it leave.
  pub run_pre_shutdown_hooks_lem :
      (h : Hooks World) (w : World)
      → ((run_pre_shutdown_hooks h w).0 ≡ after h.pre_shutdown_hooks w)
        × (((run_pre_shutdown_hooks h w).1 ≡ none) ↔ AllSucceed h.pre_shutdown_hooks w)
  unfolding run_pre_shutdown_hooks new_aggregate
  run_pre_shutdown_hooks_lem h w = (
    run_hooks-after h.pre_shutdown_hooks w,
    ground (arith, run_hooks-errors_iff h.pre_shutdown_hooks w),
  )
