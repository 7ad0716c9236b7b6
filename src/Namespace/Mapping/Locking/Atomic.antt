-- ===== src/Namespace/Mapping/Locking/Atomic.antt =====
-- That the lock makes each reload and each lookup one step.
use pf9_oidc_proxy.Base.{
  ℕ, ◌+◌, ◌-◌, Bool, true, false, Option, List, [], ◌∷◌, ◌≡◌, ◌≢◌, ◌⊎◌, refl, arith, All,
  Bool-cases, inl, inr, ap, sym, ◌∙◌,
}
use pf9_oidc_proxy.Strings.{Str}
use pf9_oidc_proxy.Namespace.Mapping.{Decoded, MappingManager, load_mappings, get_namespace}
use pf9_oidc_proxy.Namespace.Mapping.Locking.{
  Lookup, found, answered, Reload, outside, requested, locked, loaded, finished, Shared, begin,
  Replaced, Act, r_lock, read_mappings, look_up, Completed, reloaded, asked, Turn, request_reload,
  lock, read_file, store, unlock, ask, act, r_unlock, Turns, begun, next,
}
use pf9_oidc_proxy.Namespace.Mapping.Locking.Held.{
  held, all_held, Replaced-all_held, Replaced-All, Replaced-before, Replaced-held, IsCurrent,
  unheld-IsCurrent, looked_up,
}

-- The goroutine is between Lock and Unlock.
abbrev pub is_writing : Reload → Bool
is_writing outside = false
is_writing requested = false
is_writing locked = true
is_writing (loaded file) = true
is_writing (finished file) = true

module _ (unmarshal : Str → Decoded) (m : MappingManager) where
  -- The manager behind the reloads alone, each whole.
  abbrev pub current : List Completed → MappingManager
  current [] = m
  current (reloaded file ∷ log) = (load_mappings unmarshal (current log) file).0
  current (asked tenant answer ∷ log) = current log

  -- Each lookup was answered by the manager that the reloads before it left.
  abbrev pub IsSequential : List Completed → Type 0
  IsSequential [] = Unit {0}
  IsSequential (reloaded file ∷ log) = IsSequential log
  IsSequential (asked tenant answer ∷ log) =
      (answer ≡ get_namespace (current log) tenant) × IsSequential log

  -- The manager in the course of a reload.
  abbrev manager_at : Reload → List Completed → MappingManager
  manager_at (finished file) log = (load_mappings unmarshal (current log) file).0
  manager_at _ log = current log

  managed_asked :
      (r : Reload) (tenant : Str) (answer : Option Str) (log : List Completed)
      → manager_at r log ≡ manager_at r (asked tenant answer ∷ log)
  managed_asked outside tenant answer log = refl
  managed_asked requested tenant answer log = refl
  managed_asked locked tenant answer log = refl
  managed_asked (loaded file) tenant answer log = refl
  managed_asked (finished file) tenant answer log = refl

  record IsExclusive (s : Shared) (log : List Completed) : Type 0 where
    writing : s.is_locked ≡ is_writing s.reload
    counted : s.readers ≡ all_held s.lookups
    exclusive : s.is_locked ≡ true → s.readers ≡ 0
    managed : s.manager ≡ manager_at s.reload log
    current_is : All (IsCurrent (current log)) s.lookups
    sequential : IsSequential log

  begin-IsExclusive : IsExclusive (begin m) []
  unfolding begin
  begin-IsExclusive = record {
    writing = refl;
    counted = refl;
    exclusive = λ e. cc;
    managed = refl;
    current_is = tt;
    sequential = tt;
  }

  free :
      (s : Shared) (log : List Completed) → IsExclusive s log → s.readers ≢ 0 → s.is_locked ≡ false
  free s log h e = elim (Bool-cases s.is_locked) [
    | inl is ↦ absurd (e (h.exclusive is))
    | inr open_lock ↦ open_lock
  ]

  managed_outside :
      (s : Shared) (log : List Completed)
      → IsExclusive s log
      → s.is_locked ≡ false
      → s.manager ≡ current log
  managed_outside s log h unlocked = h.managed ∙ at_rest s.reload (sym h.writing ∙ unlocked)
    where
      at_rest : (r : Reload) → is_writing r ≡ false → manager_at r log ≡ current log
      at_rest outside e = refl
      at_rest requested e = refl
      at_rest locked e = cc
      at_rest (loaded file) e = cc
      at_rest (finished file) e = cc

  -- A request goes on by one statement.
  Replaced-IsExclusive :
      (s : Shared) (log : List Completed) (l l' : Lookup) (n : ℕ) (ls : List Lookup)
      → IsExclusive s log
      → Replaced l l' s.lookups ls
      → n + held l ≡ s.readers + held l'
      → (s.is_locked ≡ true → n ≡ 0)
      → IsCurrent (current log) l'
      → IsExclusive (record s { lookups = ls; readers = n }) log
  Replaced-IsExclusive s log l l' n ls h r count zero_locked is_current = record {
    writing = h.writing;
    counted = omega (arith, h.counted, Replaced-all_held l l' s.lookups ls r);
    exclusive = zero_locked;
    managed = h.managed;
    current_is = Replaced-All (IsCurrent (current log)) l l' s.lookups ls r h.current_is is_current;
    sequential = h.sequential;
  }

  -- A lookup that holds the lock keeps a reload out.
  held-free :
      (s : Shared) (log : List Completed) (l l' : Lookup) (ls : List Lookup)
      → IsExclusive s log
      → Replaced l l' s.lookups ls
      → held l ≡ 1
      → s.is_locked ≡ false
  held-free s log l l' ls h r e =
      free s log h (λ none_left.
        absurd (omega (arith, h.counted, none_left, Replaced-held l l' s.lookups ls r)))

  Act-IsExclusive :
      (s : Shared) (log : List Completed) (l l' : Lookup) (n : ℕ) (ls : List Lookup)
      → IsExclusive s log
      → Act s l l' n
      → Replaced l l' s.lookups ls
      → IsExclusive (record s { lookups = ls; readers = n }) log
  Act-IsExclusive s log l l' n ls h (r_lock tenant unlocked) r =
      Replaced-IsExclusive s log l l' n ls h r (omega arith) (λ is. cc) tt
  Act-IsExclusive s log l l' n ls h (read_mappings tenant) r =
      Replaced-IsExclusive s log l l' n ls h r refl h.exclusive
        (ap (λ k. k.mappings) (managed_outside s log h (held-free s log l l' ls h r refl)))
  Act-IsExclusive s log l l' n ls h (look_up tenant m') r =
      Replaced-IsExclusive s log l l' n ls h r refl h.exclusive (
        looked_up tenant m' (current log)
          (Replaced-before (IsCurrent (current log)) l l' s.lookups ls r h.current_is))

  -- The goroutine goes on by one statement that is not a call of the lock.
  Reload-IsExclusive :
      (s : Shared) (log : List Completed) (reload : Reload) (manager : MappingManager)
      → IsExclusive s log
      → is_writing s.reload ≡ is_writing reload
      → manager ≡ manager_at reload log
      → IsExclusive (record s { reload = reload; manager = manager }) log
  Reload-IsExclusive s log reload manager h same managed = record {
    writing = h.writing ∙ same;
    counted = h.counted;
    exclusive = h.exclusive;
    managed = managed;
    current_is = h.current_is;
    sequential = h.sequential;
  }

  Turn-IsExclusive :
      (s t : Shared) (log later : List Completed)
      → IsExclusive s log
      → Turn unmarshal s log t later
      → IsExclusive t later
  Turn-IsExclusive s t log later h (request_reload _ _ e) =
      Reload-IsExclusive s log requested s.manager h (rw e refl) (h.managed ∙ rw e refl)
  Turn-IsExclusive s t log later h (lock _ _ e unlocked zero_readers) = record {
    writing = refl;
    counted = h.counted;
    exclusive = λ _. zero_readers;
    managed = h.managed ∙ rw e refl;
    current_is = h.current_is;
    sequential = h.sequential;
  }
  Turn-IsExclusive s t log later h (read_file _ _ file e) =
      Reload-IsExclusive s log (loaded file) s.manager h (rw e refl) (h.managed ∙ rw e refl)
  Turn-IsExclusive s t log later h (store _ _ file e) =
      Reload-IsExclusive s log (finished file) _ h (rw e refl)
        (ap (λ k. (load_mappings unmarshal k file).0) (h.managed ∙ rw e refl))
  Turn-IsExclusive s t log later h (unlock _ _ file e) = record {
    writing = refl;
    counted = h.counted;
    exclusive = λ e. cc;
    managed = h.managed ∙ rw e refl;
    current_is =
        unheld-IsCurrent (current later) s.lookups
          (sym h.counted ∙ h.exclusive (h.writing ∙ rw e refl));
    sequential = h.sequential;
  }
  Turn-IsExclusive s t log later h (ask _ _ tenant) = record {
    writing = h.writing;
    counted = omega (arith, h.counted);
    exclusive = h.exclusive;
    managed = h.managed;
    current_is = (tt, h.current_is);
    sequential = h.sequential;
  }
  Turn-IsExclusive s t log later h (act _ _ {l} {l'} {n} {ls} a r) =
      Act-IsExclusive s log l l' n ls h a r
  Turn-IsExclusive s t log later h (r_unlock _ _ tenant answer {ls} r) =
      let before = found tenant answer in
      let behind = answered tenant answer in
      let some_held = Replaced-held before behind s.lookups ls r in
      let left =
        Replaced-IsExclusive s log before behind (s.readers - 1) ls h r
          (omega (arith, h.counted, some_held))
          (λ is. absurd (omega (arith, h.counted, h.exclusive is, some_held))) tt in
      record {
        writing = left.writing;
        counted = left.counted;
        exclusive = left.exclusive;
        managed = left.managed ∙ managed_asked s.reload tenant answer log;
        current_is = left.current_is;
        sequential = (
          Replaced-before (IsCurrent (current log)) before behind s.lookups ls r h.current_is,
          h.sequential,
        );
      }

  Turns-IsExclusive :
      (s : Shared) (log : List Completed) → Turns unmarshal m s log → IsExclusive s log
  Turns-IsExclusive s log begun = begin-IsExclusive
  Turns-IsExclusive s log (next {s = before} {log = old} turns turn) =
      Turn-IsExclusive before s old log (Turns-IsExclusive before old turns) turn

  -- However the statements of the reloading goroutine and of the requests are interleaved, each
  -- completed lookup was answered by the mappings that the completed reloads before it leave, each
  -- taken as one step; and no request is in its critical section while the goroutine is in its own.
  pub lookups_atomic :
      (s : Shared) (log : List Completed)
      → Turns unmarshal m s log
      → IsSequential log × ((is_writing s.reload ≡ false) ⊎ (all_held s.lookups ≡ 0))
  lookups_atomic s log turns =
      let h = Turns-IsExclusive s log turns in
      (
        h.sequential,
        elim (Bool-cases s.is_locked) [
          | inl is ↦ inr (sym h.counted ∙ h.exclusive is)
          | inr unlocked ↦ inl (sym h.writing ∙ unlocked)
        ],
      )
