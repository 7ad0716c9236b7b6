-- ===== src/Tests/Reloading.antt =====
-- The mapping file and its reloads, as in TestMappingManagerReloadsOnConfigMapSwap.
use pf9_oidc_proxy.Base.{none, some, List, [], ◌∷◌, ◌++◌, ◌≡◌, refl, if◌then◌else◌, arith}
use pf9_oidc_proxy.Strings.{Str, bytes, ◌==◌}
use pf9_oidc_proxy.Maps.{Map, lookup}
use pf9_oidc_proxy.Namespace.Mapping.Live.{
  Action, start, deliver, ask, not_started, answers, replay, before_start, view_of, answers_refines,
}
use pf9_oidc_proxy.Namespace.Mapping.{
  read, read_failed, MappingManager, Decoded, decoded, malformed, changed, watcher_error,
  events_closed, is_relevant, watch_file, get_namespace, base, kubelet_data_symlink,
}
use pf9_oidc_proxy.Result.{ok}
use pf9_oidc_proxy.Namespace.Path.{namespaces}
use pf9_oidc_proxy.Namespace.Path.Segments.{path_of}
use pf9_oidc_proxy.Namespace.Region.Labelled.{IsSelected}
use pf9_oidc_proxy.Namespace.RoundTrip.{rewrite_url}
use pf9_oidc_proxy.Namespace.RoundTrip.Reloaded.{rewrite_url-reloaded}
use pf9_oidc_proxy.Tests.Rewriting.{plain_codec, group_path, machines-IsAddressed}

-- A decoder of one text.
abbrev first_version : Map Str
first_version = (bytes "tenant1", bytes "ns-one") ∷ []

abbrev second_version : Map Str
second_version = (bytes "tenant1", bytes "ns-two") ∷ []

abbrev pub decode_text : Str → Decoded
decode_text text =
    if text == bytes "1"
    then decoded first_version
    else if text == bytes "2"
    then decoded second_version
    else malformed []

abbrev pub file : Str
file = bytes "/etc/ns-mapping.json"

abbrev pub before : MappingManager
before = record { mappings = first_version }

bases :
    (base file ≡ bytes "ns-mapping.json")
    × (base (bytes "/etc/..data") ≡ kubelet_data_symlink)
    × (base (bytes "a//") ≡ bytes "a")
    × (base (bytes "//") ≡ bytes "/")
    × (base [] ≡ bytes ".")
unfolding base
bases = (refl, refl, refl, refl, refl)

abbrev swapped : MappingManager
swapped =
    watch_file decode_text file
      ((changed (bytes "/etc/other") (read (bytes "1")) ∷ watcher_error [] ∷ [])
        ++ changed (bytes "/etc/..data") (read (bytes "2"))
          ∷ changed file (read_failed [])
          ∷ events_closed
          ∷ [])
      before

rewrite_url-reloaded_example :
    (sent : Map (List Str)) × (rewrite_url plain_codec (get_namespace swapped) (record {
      path = path_of (
          bytes "tenant1" ∷ bytes "region1" ∷ group_path
          ++ namespaces ∷ bytes "default" ∷ bytes "machines" ∷ []);
      raw_query = [];
    })
      ≡ ok (record {
        path = path_of (group_path ++ namespaces ∷ bytes "ns-two" ∷ bytes "machines" ∷ []);
        raw_query = sent;
      }))
    × IsSelected plain_codec (bytes "region1") (bytes "machines") [] sent
unfolding is_relevant ◌==◌ lookup
rewrite_url-reloaded_example =
    rewrite_url-reloaded plain_codec decode_text file
      (changed (bytes "/etc/other") (read (bytes "1")) ∷ watcher_error [] ∷ [])
      (changed file (read_failed []) ∷ events_closed ∷ []) (bytes "/etc/..data") (read (bytes "2"))
      before second_version (bytes "tenant1") (bytes "region1") group_path (bytes "default")
      (bytes "machines") (bytes "ns-two") [] tt refl refl (λ _. refl, tt) refl machines-IsAddressed
      (ground arith) (ground arith) (ground arith)

abbrev swap_then_ask : List Action
swap_then_ask =
    ask (bytes "tenant1")
    ∷ deliver (changed file (read (bytes "2")))
    ∷ start none none
    ∷ deliver (changed (bytes "/etc/..data") (read (bytes "2")))
    ∷ ask (bytes "tenant1")
    ∷ []

answered_live :
    answers decode_text file swap_then_ask (record { manager = before; watcher = not_started })
    ≡ some (bytes "ns-one") ∷ some (bytes "ns-two") ∷ []
unfolding answers is_relevant ◌==◌ watch_file get_namespace lookup base
answered_live = refl

answers_refines_example :
    answers decode_text file swap_then_ask (record { manager = before; watcher = not_started })
    ≡ replay decode_text file swap_then_ask before_start (view_of decode_text file before)
answers_refines_example = answers_refines decode_text file swap_then_ask before
