-- ===== src/Namespace/Mapping/Reloads.antt =====
-- The mapping that requests see is that of the last read that succeeded.
use pf9_oidc_proxy.Base.{
  true, Option, none, some, List, [], ◌∷◌, ◌++◌, ◌≡◌, ◌↔◌, ◌⊎◌, refl, arith, inl, inr, Bool-cases,
}
use mathlib.Core.Option
use pf9_oidc_proxy.Strings.{Str}
use pf9_oidc_proxy.Strings.Equality.{eq_iff}
use pf9_oidc_proxy.Maps.{Map}
use pf9_oidc_proxy.Namespace.Mapping.{
  ReadResult, read, read_failed, MappingManager, Decoded, decoded, malformed, WatchEvent, changed,
  watcher_error, events_closed, errors_closed, load_mappings, new_mapping_manager, is_relevant,
  watch_file, kubelet_data_symlink, base,
}

module _ (unmarshal : Str → Decoded) where
  -- The mappings of a file that is read whole and decodes.
  abbrev pub content : ReadResult → Option (Map Str)
  content (read_failed e) = none
  content (read text) = elim (unmarshal text) [ decoded m ↦ some m | malformed e ↦ none ]

  -- The mapping is loaded at the start exactly if the file can be read and decodes.
  pub new_mapping_manager_lem :
      (file : ReadResult)
      → new_mapping_manager unmarshal file
        ≡ Option.map (λ m. record { mappings = m }) (content file)
  unfolding new_mapping_manager
  new_mapping_manager_lem (read_failed e) = refl
  new_mapping_manager_lem (read text) = ground arith

  module _ (file_path : Str) where
    -- No event before the watcher stops leads to a new mapping: each is skipped, or its read fails.
    abbrev pub NoReload : List WatchEvent → Type 0
    NoReload [] = Unit
    NoReload (changed name file ∷ events) =
        (is_relevant file_path name ≡ true → content file ≡ none) × NoReload events
    NoReload (watcher_error e ∷ events) = NoReload events
    NoReload (events_closed ∷ events) = Unit
    NoReload (errors_closed ∷ events) = Unit

    -- The watcher does not stop at these events.
    abbrev pub StaysOpen : List WatchEvent → Type 0
    StaysOpen [] = Unit
    StaysOpen (changed name file ∷ events) = StaysOpen events
    StaysOpen (watcher_error e ∷ events) = StaysOpen events
    StaysOpen (events_closed ∷ events) = ⊥
    StaysOpen (errors_closed ∷ events) = ⊥

    pub load_mappings-none :
        (m : MappingManager) (file : ReadResult)
        → content file ≡ none
        → (load_mappings unmarshal m file).0 ≡ m
    unfolding load_mappings
    load_mappings-none m (read_failed e) h = refl
    load_mappings-none m (read text) h = ground arith

    pub load_mappings-some :
        (m : MappingManager) (file : ReadResult) (new_mappings : Map Str)
        → content file ≡ some new_mappings
        → (load_mappings unmarshal m file).0 ≡ record { mappings = new_mappings }
    unfolding load_mappings
    load_mappings-some m (read_failed e) new_mappings h = cc
    load_mappings-some m (read text) new_mappings h = ground arith

    -- A manager whose file gives no new mapping keeps the old one.
    pub watch_file-keeps :
        (events : List WatchEvent) (m : MappingManager)
        → NoReload events
        → watch_file unmarshal file_path events m ≡ m
    unfolding watch_file
    watch_file-keeps [] m h = refl
    watch_file-keeps (changed name file ∷ events) m (h, hs) =
        elim (Bool-cases (is_relevant file_path name)) [
          | inl e ↦ rw (e, load_mappings-none m file (h e)) (watch_file-keeps events m hs)
          | inr e ↦ rw e (watch_file-keeps events m hs)
        ]
    watch_file-keeps (watcher_error e ∷ events) m h = watch_file-keeps events m h
    watch_file-keeps (events_closed ∷ events) m h = refl
    watch_file-keeps (errors_closed ∷ events) m h = refl

    watch_file-reload :
        (later : List WatchEvent) (name : Str) (file : ReadResult) (m : MappingManager)
        (new_mappings : Map Str)
        → is_relevant file_path name ≡ true
        → content file ≡ some new_mappings
        → NoReload later
        → watch_file unmarshal file_path (changed name file ∷ later) m
          ≡ record { mappings = new_mappings }
    unfolding watch_file
    watch_file-reload later name file m new_mappings r c n =
        rw (r, load_mappings-some m file new_mappings c) (watch_file-keeps later _ n)

    -- After any events that leave the watcher running, one relevant event whose read succeeds, and
    -- no reload after it, the mappings are those of that read, whatever they were before.
    pub watch_file-last :
        (earlier later : List WatchEvent) (name : Str) (file : ReadResult) (m : MappingManager)
        (new_mappings : Map Str)
        → StaysOpen earlier
        → is_relevant file_path name ≡ true
        → content file ≡ some new_mappings
        → NoReload later
        → watch_file unmarshal file_path (earlier ++ changed name file ∷ later) m
          ≡ record { mappings = new_mappings }
    unfolding watch_file
    watch_file-last [] later name file m new_mappings o r c n =
        watch_file-reload later name file m new_mappings r c n
    watch_file-last (changed x f ∷ earlier) later name file m new_mappings o r c n =
        watch_file-last earlier later name file _ new_mappings o r c n
    watch_file-last (watcher_error e ∷ earlier) later name file m new_mappings o r c n =
        watch_file-last earlier later name file m new_mappings o r c n
    watch_file-last (events_closed ∷ earlier) later name file m new_mappings o r c n = absurd o
    watch_file-last (errors_closed ∷ earlier) later name file m new_mappings o r c n = absurd o

-- An event is acted on exactly if it is about the mapping file's name or kubelet's `..data`, in
-- whatever directory.
pub is_relevant_iff :
    (file_path event_name : Str)
    → (is_relevant file_path event_name ≡ true)
      ↔ ((base event_name ≡ kubelet_data_symlink) ⊎ (base event_name ≡ base file_path))
unfolding is_relevant
is_relevant_iff file_path event_name = ground (
  arith,
  eq_iff (base event_name) kubelet_data_symlink,
  eq_iff (base event_name) (base file_path),
)
