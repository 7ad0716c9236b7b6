-- ===== src/Namespace/Mapping/Live.antt =====
-- The mapping manager in a running proxy: the watching goroutine and the requests' lookups, which
-- the manager's mutex makes one sequence of whole steps.
use pf9_oidc_proxy.Base.{
  Bool, true, false, Option, none, some, List, [], ◌∷◌, ◌≡◌, refl, ap, ◌∙◌, if◌then◌else◌,
  Bool-cases, Option-cases, inl, inr,
}
use pf9_oidc_proxy.Strings.{Str}
use pf9_oidc_proxy.Maps.{Map, lookup}
use pf9_oidc_proxy.Namespace.Mapping.{
  ReadResult, MappingManager, Decoded, WatchEvent, changed, watcher_error, events_closed,
  errors_closed, is_relevant, load_mappings, watch_file, get_namespace,
}
use pf9_oidc_proxy.Namespace.Mapping.Reloads.{content, load_mappings-none, load_mappings-some}

-- The watching goroutine before it runs, in its loop, and after it has returned.
pub data Watcher : Type 0 where
  not_started watching stopped : Watcher

pub record Live : Type 0 where
  pub manager : MappingManager
  pub watcher : Watcher

-- What happens next: the goroutine starts, with the errors of making the watcher and of adding the
-- directory; the watcher delivers an event; or a request asks for a tenant's namespace.
pub data Action : Type 0 where
  start : Option Str → Option Str → Action
  deliver : WatchEvent → Action
  ask : Str → Action

-- `watchFile` up to its loop.
start_watch : Watcher → Option Str → Option Str → Watcher
start_watch watching watcher_err add_err = watching
start_watch stopped watcher_err add_err = stopped
start_watch not_started (some e) add_err = stopped
start_watch not_started none (some e) = stopped
start_watch not_started none none = watching

-- Whether the loop goes on.
after_event : WatchEvent → Watcher
after_event (changed name file) = watching
after_event (watcher_error e) = watching
after_event events_closed = stopped
after_event errors_closed = stopped

-- Of the abstract view: whether the watching has not started, runs, or is over.
pub data Phase : Type 0 where
  before_start running over : Phase

module _ (unmarshal : Str → Decoded) (file_path : Str) where
  deliver_event : WatchEvent → MappingManager → Watcher → Live
  unfolding after_event
  deliver_event e m watching = record {
    manager = watch_file unmarshal file_path (e ∷ []) m;
    watcher = after_event e;
  }
  deliver_event e m not_started = record { manager = m; watcher = not_started }
  deliver_event e m stopped = record { manager = m; watcher = stopped }

  -- The answers of the lookups, in their order.
  unfoldable pub answers : List Action → Live → List (Option Str)
  unfolding start_watch deliver_event
  answers [] l = []
  answers (start watcher_err add_err ∷ actions) l =
      answers actions (record l { watcher = start_watch l.watcher watcher_err add_err })
  answers (deliver e ∷ actions) l = answers actions (deliver_event e l.manager l.watcher)
  answers (ask tenant ∷ actions) l = get_namespace l.manager tenant ∷ answers actions l

  -- The abstract view: a function from tenants to namespaces, which a relevant change of the file
  -- replaces as a whole if the file can be read and decodes.
  abbrev pub View : Type 0
  View = Str → Option Str

  abbrev pub replaced : Option (Map Str) → View → View
  replaced none view = view
  replaced (some m) view = λ tenant. lookup tenant m

  abbrev pub view_after : WatchEvent → View → View
  view_after (changed name file) view =
      if is_relevant file_path name then replaced (content unmarshal file) view else view
  view_after (watcher_error e) view = view
  view_after events_closed view = view
  view_after errors_closed view = view

  abbrev pub goes_on : WatchEvent → Bool
  goes_on (changed name file) = true
  goes_on (watcher_error e) = true
  goes_on events_closed = false
  goes_on errors_closed = false

  abbrev pub is_none : Option Str → Bool
  is_none none = true
  is_none (some e) = false

  abbrev pub replay : List Action → Phase → View → List (Option Str)
  replay [] phase view = []
  replay (ask tenant ∷ actions) phase view = view tenant ∷ replay actions phase view
  replay (start e e' ∷ actions) before_start view =
      replay actions (if is_none e then (if is_none e' then running else over) else over) view
  replay (start e e' ∷ actions) running view = replay actions running view
  replay (start e e' ∷ actions) over view = replay actions over view
  replay (deliver e ∷ actions) running view =
      replay actions (if goes_on e then running else over) (view_after e view)
  replay (deliver e ∷ actions) before_start view = replay actions before_start view
  replay (deliver e ∷ actions) over view = replay actions over view

  abbrev pub phase_of : Watcher → Phase
  phase_of not_started = before_start
  phase_of watching = running
  phase_of stopped = over

  abbrev pub view_of : MappingManager → View
  view_of m tenant = lookup tenant m.mappings

  view_of-load_mappings :
      (m : MappingManager) (file : ReadResult)
      → view_of (load_mappings unmarshal m file).0 ≡ replaced (content unmarshal file) (view_of m)
  view_of-load_mappings m file = elim (Option-cases (content unmarshal file)) [
    | inl e ↦ rw (e, load_mappings-none unmarshal file_path m file e) refl
    | inr (new_mappings, e) ↦
        rw (e, load_mappings-some unmarshal file_path m file new_mappings e) refl
  ]

  view_of-watch_file :
      (e : WatchEvent) (m : MappingManager)
      → view_of (watch_file unmarshal file_path (e ∷ []) m) ≡ view_after e (view_of m)
  unfolding watch_file
  view_of-watch_file (changed name file) m = elim (Bool-cases (is_relevant file_path name)) [
    | inl r ↦ rw r (view_of-load_mappings m file)
    | inr r ↦ rw r refl
  ]
  view_of-watch_file (watcher_error e) m = refl
  view_of-watch_file events_closed m = refl
  view_of-watch_file errors_closed m = refl

  phase_of-after_event :
      (e : WatchEvent) → phase_of (after_event e) ≡ (if goes_on e then running else over)
  unfolding after_event
  phase_of-after_event (changed name file) = refl
  phase_of-after_event (watcher_error e) = refl
  phase_of-after_event events_closed = refl
  phase_of-after_event errors_closed = refl

  answers-replay :
      (actions : List Action) (m : MappingManager) (w : Watcher)
      → answers actions (record { manager = m; watcher = w })
        ≡ replay actions (phase_of w) (view_of m)
  unfolding answers get_namespace start_watch deliver_event
  answers-replay [] m w = refl
  answers-replay (ask tenant ∷ actions) m w =
      ap (◌∷◌ (lookup tenant m.mappings)) (answers-replay actions m w)
  answers-replay (start none none ∷ actions) m not_started = answers-replay actions m watching
  answers-replay (start (some e) e' ∷ actions) m not_started = answers-replay actions m stopped
  answers-replay (start none (some e) ∷ actions) m not_started = answers-replay actions m stopped
  answers-replay (start e e' ∷ actions) m watching = answers-replay actions m watching
  answers-replay (start e e' ∷ actions) m stopped = answers-replay actions m stopped
  answers-replay (deliver e ∷ actions) m not_started = answers-replay actions m not_started
  answers-replay (deliver e ∷ actions) m watching =
      answers-replay actions (watch_file unmarshal file_path (e ∷ []) m) (after_event e)
      ∙ rw (view_of-watch_file e m, phase_of-after_event e) refl
  answers-replay (deliver e ∷ actions) m stopped = answers-replay actions m stopped

  -- Whatever the order of the goroutine's start, the events and the lookups is, the lookups are
  -- answered as by one function that each relevant change replaces as a whole, if the file can be
  -- read and decodes, from the start of the watching to its end.
  pub answers_refines :
      (actions : List Action) (m : MappingManager)
      → answers actions (record { manager = m; watcher = not_started })
        ≡ replay actions before_start (view_of m)
  answers_refines actions m = answers-replay actions m not_started
