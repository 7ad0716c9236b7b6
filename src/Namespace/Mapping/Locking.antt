-- ===== src/Namespace/Mapping/Locking.antt =====
-- The critical sections of MappingManager in pkg/proxy/namespace_round_tripper.go, statement by
-- statement: the goroutine of watchFile in loadMappings, and any number of requests in GetNamespace.
-- `sync.RWMutex` is given by when its calls return: Lock while nobody holds it, RLock while no
-- writer holds it.
pub mod Held
pub mod Atomic
use pf9_oidc_proxy.Base.{ℕ, suc, ◌-◌, Bool, true, false, Option, List, [], ◌∷◌, ◌≡◌}
use pf9_oidc_proxy.Strings.{Str}
use pf9_oidc_proxy.Maps.{Map, lookup}
use pf9_oidc_proxy.Namespace.Mapping.{ReadResult, Decoded, MappingManager, load_mappings}

-- Where a request is in `GetNamespace`: before RLock; behind it; with `m.mappings` read; with the
-- result, before RUnlock; and behind that.
pub data Lookup : Type 0 where
  asking holding : Str → Lookup
  reading : Str → Map Str → Lookup
  found answered : Str → Option Str → Lookup

-- Where the goroutine is in `loadMappings`: outside; before Lock; behind it; with the file read; with
-- `m.mappings` set or the error, before Unlock.
pub data Reload : Type 0 where
  outside requested locked : Reload
  loaded finished : ReadResult → Reload

pub record Shared : Type 0 where
  pub manager : MappingManager
  -- the state of `mutex`
  pub is_locked : Bool
  pub readers : ℕ
  pub reload : Reload
  pub lookups : List Lookup

unfoldable pub begin : MappingManager → Shared
begin m = record { manager = m; is_locked = false; readers = 0; reload = outside; lookups = [] }

-- One element is replaced.
pub data Replaced (l l' : Lookup) : List Lookup → List Lookup → Type 0 where
  here : (ls : List Lookup) → Replaced l l' (l ∷ ls) (l' ∷ ls)
  there :
      (k : Lookup) {ls ls' : List Lookup} → Replaced l l' ls ls' → Replaced l l' (k ∷ ls) (k ∷ ls')

-- A statement of `GetNamespace` before RUnlock, with the number of readers behind it.
pub data Act (s : Shared) : Lookup → Lookup → ℕ → Type 0 where
  r_lock :
      (tenant : Str) → s.is_locked ≡ false → Act s (asking tenant) (holding tenant) (suc s.readers)
  read_mappings :
      (tenant : Str) → Act s (holding tenant) (reading tenant s.manager.mappings) s.readers
  look_up :
      (tenant : Str) (m : Map Str)
      → Act s (reading tenant m) (found tenant (lookup tenant m)) s.readers

-- What has been completed: a reload that read this, or a lookup with its answer.
pub data Completed : Type 0 where
  reloaded : ReadResult → Completed
  asked : Str → Option Str → Completed

module _ (unmarshal : Str → Decoded) where
  -- One statement of one goroutine, and what is completed before and behind it, the latest first.
  pub data Turn : Shared → List Completed → Shared → List Completed → Type 0 where
    request_reload :
        (s : Shared) (log : List Completed)
        → s.reload ≡ outside
        → Turn s log (record s { reload = requested }) log
    lock :
        (s : Shared) (log : List Completed)
        → s.reload ≡ requested
        → s.is_locked ≡ false
        → s.readers ≡ 0
        → Turn s log (record s { reload = locked; is_locked = true }) log
    read_file :
        (s : Shared) (log : List Completed) (file : ReadResult)
        → s.reload ≡ locked
        → Turn s log (record s { reload = loaded file }) log
    store :
        (s : Shared) (log : List Completed) (file : ReadResult)
        → s.reload ≡ loaded file
        → Turn s log
            (record s {
              reload = finished file;
              manager = (load_mappings unmarshal s.manager file).0;
            })
            log
    unlock :
        (s : Shared) (log : List Completed) (file : ReadResult)
        → s.reload ≡ finished file
        → Turn s log (record s { reload = outside; is_locked = false }) (reloaded file ∷ log)
    ask :
        (s : Shared) (log : List Completed) (tenant : Str)
        → Turn s log (record s { lookups = asking tenant ∷ s.lookups }) log
    act :
        (s : Shared) (log : List Completed) {l l' : Lookup} {n : ℕ} {ls : List Lookup}
        → Act s l l' n
        → Replaced l l' s.lookups ls
        → Turn s log (record s { lookups = ls; readers = n }) log
    r_unlock :
        (s : Shared) (log : List Completed) (tenant : Str) (answer : Option Str) {ls : List Lookup}
        → Replaced (found tenant answer) (answered tenant answer) s.lookups ls
        → Turn s log
            (record s { lookups = ls; readers = s.readers - 1 })
            (asked tenant answer ∷ log)

  -- The states that the goroutines may come to.
  pub data Turns (m : MappingManager) : Shared → List Completed → Type 0 where
    begun : Turns m (begin m) []
    next :
        {s t : Shared} {log later : List Completed}
        → Turns m s log
        → Turn s log t later
        → Turns m t later
