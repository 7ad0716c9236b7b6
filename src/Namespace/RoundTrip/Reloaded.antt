-- ===== src/Namespace/RoundTrip/Reloaded.antt =====
-- Requests behind a reload of the mapping file.
use pf9_oidc_proxy.Base.{true, Option, some, List, [], ◌∷◌, ◌++◌, ◌≡◌, refl, ap, ◌∙◌, sym, subst}
use pf9_oidc_proxy.Strings.{Str}
use pf9_oidc_proxy.Maps.{Map, lookup}
use pf9_oidc_proxy.Result.{ok}
use pf9_oidc_proxy.Namespace.Mapping.{
  ReadResult, MappingManager, Decoded, WatchEvent, changed, is_relevant, watch_file, get_namespace,
}
use pf9_oidc_proxy.Namespace.Mapping.Reloads.{content, NoReload, StaysOpen, watch_file-last}
use pf9_oidc_proxy.Namespace.Path.{namespaces}
use pf9_oidc_proxy.Namespace.Path.Segments.{IsSegment, path_of}
use pf9_oidc_proxy.Namespace.Path.Tenant.{IsPlain, namespace_or}
use pf9_oidc_proxy.Namespace.Region.{QueryCodec, Url, add_selector}
use pf9_oidc_proxy.Namespace.Region.Labelled.{IsSelected, add_selector-IsSelected}
use pf9_oidc_proxy.Namespace.RoundTrip.{rewrite_url}
use pf9_oidc_proxy.Namespace.RoundTrip.Laws.{IsAddressed, rewrite_url-added}

module _ (codec : QueryCodec) (unmarshal : Str → Decoded) (file_path : Str) where
  open codec use {RawQuery}

  abbrev list_of : List Str → RawQuery → Url RawQuery
  list_of segments raw = record { path = path_of segments; raw_query = raw }

  mapped_to :
      (tenant region_name : Str) (pre : List Str) (asked object target : Str) (raw : RawQuery)
      (found : Str → Option Str)
      → found tenant ≡ some target
      → IsAddressed tenant region_name pre (asked ∷ object ∷ [])
      → IsSegment target
      → IsPlain target
      → IsPlain object
      → rewrite_url codec found
          (list_of (tenant ∷ region_name ∷ pre ++ namespaces ∷ asked ∷ object ∷ []) raw)
        ≡ ok (
            list_of
              (pre ++ namespaces ∷ target ∷ object ∷ [])
              (add_selector codec region_name object raw))
  mapped_to tenant region_name pre asked object target raw found known a segment plain plain' =
      let same : namespace_or (found tenant) asked ≡ target = rw known refl in
      rewrite_url-added codec found tenant region_name pre asked object raw a
        (subst IsSegment (sym same) segment) (subst IsPlain (sym same) plain) plain'
      ∙ ap
          (λ n. ok (
            list_of (pre ++ namespaces ∷ n ∷ object ∷ [])
              (add_selector codec region_name object raw)))
          same

  -- After any events that leave the watcher running, one relevant event whose read succeeds, and no
  -- reload after it, a request for a collection in a namespace goes to the namespace that the file
  -- which was read maps the tenant to, whatever the mappings were before, without the tenant and the
  -- region. For byomachines, byohosts, hostedcontrolplanes, openstackclusters, machines,
  -- machinedeployments and clusters its query has the region's selector as the only `labelSelector`;
  -- for every other collection it is unchanged. The segments of the path are not empty, the tenant is
  -- not `api`, and neither the tenant, nor the region, nor a segment before `namespaces`, nor the
  -- collection, nor the namespace that is put in is spelled `namespaces`; the latter is one segment.
  pub rewrite_url-reloaded :
      (earlier later : List WatchEvent) (name : Str) (file : ReadResult) (m : MappingManager)
      (new_mappings : Map Str) (tenant region_name : Str) (pre : List Str)
      (asked object target : Str) (raw : RawQuery)
      → StaysOpen unmarshal file_path earlier
      → is_relevant file_path name ≡ true
      → content unmarshal file ≡ some new_mappings
      → NoReload unmarshal file_path later
      → lookup tenant new_mappings ≡ some target
      → IsAddressed tenant region_name pre (asked ∷ object ∷ [])
      → IsSegment target
      → IsPlain target
      → IsPlain object
      → (sent : RawQuery) × (rewrite_url codec
            (get_namespace
              (watch_file unmarshal file_path (earlier ++ changed name file ∷ later) m))
            (list_of (tenant ∷ region_name ∷ pre ++ namespaces ∷ asked ∷ object ∷ []) raw)
          ≡ ok (list_of (pre ++ namespaces ∷ target ∷ object ∷ []) sent))
        × IsSelected codec region_name object raw sent
  unfolding get_namespace
  rewrite_url-reloaded earlier later name file m new_mappings tenant region_name pre asked object
        target raw o r c n known a segment plain plain' =
      let last =
        watch_file-last unmarshal file_path earlier later name file m new_mappings o r c n in
      (
        add_selector codec region_name object raw,
        mapped_to tenant region_name pre asked object target raw _
            (ap (λ k. lookup tenant k.mappings) last ∙ known) a segment plain plain',
        add_selector-IsSelected codec region_name object raw,
      )
