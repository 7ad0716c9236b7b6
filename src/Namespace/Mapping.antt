-- ===== src/Namespace/Mapping.antt =====
-- MappingManager of pkg/proxy/namespace_round_tripper.go: the mapping file, its reloads and lookups.
-- What the file holds when it is read is an input; encoding/json enters as `unmarshal`.
pub mod Reloads
pub mod Live
pub mod Locking
use pf9_oidc_proxy.Base.{
  Bool, true, false, not, ◌&&◌, ◌||◌, Option, none, some, List, [], ◌∷◌, if◌then◌else◌, eqb, ℕ,
}
use pf9_oidc_proxy.Strings.{Str, bytes, ◌==◌}
use pf9_oidc_proxy.Maps.{Map, lookup}

-- os.Open and ioutil.ReadAll
pub data ReadResult : Type 0 where
  read : Str → ReadResult
  read_failed : Str → ReadResult

-- `mutex` orders the operations: each runs whole.
pub record MappingManager : Type 0 where
  pub mappings : Map Str

-- An error, or nil.
pub data Error : Type 0 where
  nil : Error
  failed : Str → Error

abbrev pub kubelet_data_symlink : Str
kubelet_data_symlink = bytes "..data"

-- json.Unmarshal into a map of strings: the map, or an error
pub data Decoded : Type 0 where
  decoded : Map Str → Decoded
  malformed : Str → Decoded

-- filepath.Base, on Unix
trim_slashes_cons : ℕ → Str → Str
trim_slashes_cons c [] = if eqb c b'/' then [] else c ∷ []
trim_slashes_cons c (d ∷ s) = c ∷ d ∷ s

trim_slashes : Str → Str
unfolding trim_slashes_cons
trim_slashes [] = []
trim_slashes (c ∷ s) = trim_slashes_cons c (trim_slashes s)

-- what follows the last slash; the first argument is what was read since the last one
has_slash : Str → Bool
has_slash [] = false
has_slash (c ∷ s) = eqb c b'/' || has_slash s

last_element : Str → Str
unfolding has_slash
last_element [] = []
last_element (c ∷ s) =
    let later = last_element s in if has_slash s then later else if eqb c b'/' then s else c ∷ s

or_else : Str → Str → Str
or_else [] other = other
or_else (c ∷ s) other = c ∷ s

unfoldable pub base : Str → Str
unfolding trim_slashes last_element or_else
base [] = bytes "."
base (c ∷ path) = or_else (last_element (trim_slashes (c ∷ path))) (bytes "/")

-- An fsnotify watcher of the file's directory delivers these. A `changed` event carries what a
-- read of the mapping file gives when the loop comes to the event.
pub data WatchEvent : Type 0 where
  changed : Str → ReadResult → WatchEvent
  watcher_error : Str → WatchEvent
  events_closed errors_closed : WatchEvent

-- The events that `watchFile` does not skip.
unfoldable pub is_relevant : Str → Str → Bool
unfolding base
is_relevant file_path event_name =
    let name = base event_name in
    not (not (name == kubelet_data_symlink) && not (name == base file_path))

module _ (unmarshal : Str → Decoded) where
  store_mappings : MappingManager → Decoded → MappingManager × Error
  store_mappings m (malformed e) = (m, failed e)
  store_mappings m (decoded new_mappings) = (record m { mappings = new_mappings }, nil)

  unfoldable pub load_mappings : MappingManager → ReadResult → MappingManager × Error
  unfolding store_mappings
  load_mappings m (read_failed e) = (m, failed e)
  load_mappings m (read text) = store_mappings m (unmarshal text)

  -- An error leaves no manager.
  started : MappingManager × Error → Option MappingManager
  started (m, nil) = some m
  started (m, failed e) = none

  unfoldable pub new_mapping_manager : ReadResult → Option MappingManager
  unfolding load_mappings started
  new_mapping_manager file = started (load_mappings (record { mappings = [] }) file)

  -- The loop of `watchFile`, once the watcher runs. The manager is what it leaves behind.
  unfoldable pub watch_file : Str → List WatchEvent → MappingManager → MappingManager
  unfolding load_mappings is_relevant
  watch_file file_path [] m = m
  watch_file file_path (changed name file ∷ events) m =
      watch_file file_path events
        (if is_relevant file_path name then (load_mappings m file).0 else m)
  watch_file file_path (watcher_error e ∷ events) m = watch_file file_path events m
  watch_file file_path (events_closed ∷ events) m = m
  watch_file file_path (errors_closed ∷ events) m = m

unfoldable pub get_namespace : MappingManager → Str → Option Str
get_namespace m path_suffix = lookup path_suffix m.mappings
