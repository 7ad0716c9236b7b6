-- ===== src/Tests/Locking.antt =====
-- A lookup and a reload, statement by statement.
use pf9_oidc_proxy.Base.{false, Option, some, List, [], ◌∷◌, ◌≡◌, ◌⊎◌, refl}
use pf9_oidc_proxy.Strings.{Str, bytes, ◌==◌}
use pf9_oidc_proxy.Maps.{lookup}
use pf9_oidc_proxy.Namespace.Mapping.{read, MappingManager, load_mappings}
use pf9_oidc_proxy.Namespace.Mapping.Locking.{
  answered, outside, Shared, begin, here, r_lock, read_mappings, look_up, Completed, reloaded,
  asked, request_reload, lock, read_file, store, unlock, ask, act, r_unlock, Turns, begun, next,
}
use pf9_oidc_proxy.Namespace.Mapping.Locking.Held.{all_held}
use pf9_oidc_proxy.Namespace.Mapping.Locking.Atomic.{IsSequential, is_writing, lookups_atomic}
use pf9_oidc_proxy.Tests.Reloading.{before, decode_text}

abbrev tenant : Str
tenant = bytes "tenant1"

abbrev swapped : MappingManager
swapped = (load_mappings decode_text before (read (bytes "2"))).0

abbrev answer : Option Str
answer = lookup tenant swapped.mappings

abbrev log : List Completed
log = asked tenant answer ∷ reloaded (read (bytes "2")) ∷ []

abbrev at_end : Shared
at_end = record {
  manager = swapped;
  is_locked = false;
  readers = 0;
  reload = outside;
  lookups = answered tenant answer ∷ [];
}

-- The answer is that of the file that was read while the request waited.
ask_during_reload : Turns decode_text before at_end log
unfolding begin
ask_during_reload =
    next
      (next
        (next
          (next
            (next
              (next
                (next
                  (next (next (next begun (ask _ _ tenant)) (request_reload _ _ refl))
                    (lock _ _ refl refl refl))
                  (read_file _ _ (read (bytes "2")) refl))
                (store _ _ (read (bytes "2")) refl))
              (unlock _ _ (read (bytes "2")) refl))
            (act _ _ (r_lock tenant refl) (here [])))
          (act _ _ (read_mappings tenant) (here [])))
        (act _ _ (look_up tenant swapped.mappings) (here [])))
      (r_unlock _ _ tenant answer (here []))

lookups_atomic_example :
    IsSequential decode_text before log
    × ((is_writing at_end.reload ≡ false) ⊎ (all_held at_end.lookups ≡ 0))
lookups_atomic_example = lookups_atomic decode_text before at_end log ask_during_reload

answer_of_second : answer ≡ some (bytes "ns-two")
unfolding lookup load_mappings ◌==◌
answer_of_second = refl
