-- ===== src/Namespace/Region/Selector.antt =====
-- What the region prefix of a path does, and when the label selector is added.
use pf9_oidc_proxy.Base.{
  ◌&&◌, List, [], ◌∷◌, ◌++◌, ◌≡◌, ◌≢◌, refl, ap, ◌∙◌, arith, if◌then◌else◌, All, All-append,
  All-append-left, All-append-right, append_assoc, Bool-cases, inl, inr,
}
use pf9_oidc_proxy.Strings.{Str, ◌==◌}
use pf9_oidc_proxy.Strings.Equality.{eq-false}
use pf9_oidc_proxy.Result.{ok, map_ok}
use pf9_oidc_proxy.Namespace.Path.{namespaces, filter_parts}
use pf9_oidc_proxy.Namespace.Path.Segments.{
  IsSegment, path_of, split-path_of, join_path-cleared, join_path_lem, filter_parts_lem,
  filter_parts-nil, filter_parts-hole,
}
use pf9_oidc_proxy.Namespace.Path.Tenant.{IsPlain}
use pf9_oidc_proxy.Namespace.Region.{
  QueryCodec, clusters, all_clusters, has_name, clear_all_clusters, add_selector, region_parts,
  add_region_label_selector_in_path,
}
use pf9_oidc_proxy.Namespace.Region.Steps.{
  region_parts-plain, step_nil, step_plain, step_list, step_named,
}

-- What stays behind the object of a request that names one.
abbrev pub kept_name : Str → Str → List Str → List Str
kept_name object name more =
    if object == clusters && name == all_clusters then more else name ∷ more

IsSegment-kept_name :
    (pre : List Str) (namespace object name : Str) (more : List Str)
    → All IsSegment (pre ++ namespaces ∷ namespace ∷ object ∷ name ∷ more)
    → All IsSegment (pre ++ namespaces ∷ namespace ∷ object ∷ kept_name object name more)
IsSegment-kept_name pre namespace object name more h =
    let (a, (b, (c, (d, e)))) = All-append-right IsSegment pre _ h in
    All-append IsSegment pre _ (All-append-left IsSegment pre _ h) (ground arith)

filter_parts-clear_all_clusters :
    (pre : List Str) (namespace object name : Str) (more : List Str)
    → All IsSegment (pre ++ namespaces ∷ namespace ∷ object ∷ name ∷ more)
    → filter_parts (pre ++ namespaces ∷ clear_all_clusters (namespace ∷ object ∷ name ∷ more))
      ≡ pre ++ namespaces ∷ namespace ∷ object ∷ kept_name object name more
unfolding clear_all_clusters
filter_parts-clear_all_clusters pre namespace object name more h =
    elim (Bool-cases (object == clusters && name == all_clusters)) [
      | inl e ↦ rw e (
          rw (← append_assoc pre (namespaces ∷ namespace ∷ object ∷ []) ([] ∷ more)) (
            filter_parts-hole (pre ++ namespaces ∷ namespace ∷ object ∷ []) more
              (All-append IsSegment pre _ (All-append-left IsSegment pre _ h)
                (r.0, (r.1.0, (r.1.1.0, tt))))
              r.1.1.1.1
            ∙ append_assoc pre (namespaces ∷ namespace ∷ object ∷ []) more))
      | inr e ↦ rw e (filter_parts_lem _ h)
    ]
  where
    r : All IsSegment (namespaces ∷ namespace ∷ object ∷ name ∷ more)
    r = All-append-right IsSegment pre _ h

pub nil-IsPlain : IsPlain []
nil-IsPlain = cc

module _ (codec : QueryCodec) where
  open codec use {RawQuery, query}

  module _ (region_name : Str) (pre : List Str) (namespace object : Str)
      (plain : All IsPlain pre) where
    region_parts-list :
        (raw : RawQuery)
        → IsPlain namespace
        → IsPlain object
        → region_parts codec region_name
            ([] ∷ [] ∷ (pre ++ namespaces ∷ namespace ∷ object ∷ []))
            raw
          ≡ ok (
            [] ∷ [] ∷ (pre ++ namespaces ∷ namespace ∷ object ∷ []),
            add_selector codec region_name object raw,
          )
    region_parts-list raw h k =
        region_parts-plain codec region_name ([] ∷ [] ∷ pre) (namespaces ∷ namespace ∷ object ∷ [])
          raw (nil-IsPlain, (nil-IsPlain, plain))
        ∙ ap (map_ok _) (
            step_list codec region_name (namespace ∷ object ∷ []) object raw
              (unfold has_name in refl) refl
            ∙ ap (map_ok _) (
                step_plain codec region_name namespace (object ∷ []) _ h
                ∙ ap (map_ok _) (
                    step_plain codec region_name object [] _ k
                    ∙ ap (map_ok _) (step_nil codec region_name _))))

    region_parts-named :
        (name : Str) (more : List Str) (raw : RawQuery)
        → name ≢ []
        → region_parts codec region_name
            ([] ∷ [] ∷ (pre ++ namespaces ∷ namespace ∷ object ∷ name ∷ more))
            raw
          ≡ ok (
            [] ∷ [] ∷ (pre ++ namespaces ∷ clear_all_clusters (namespace ∷ object ∷ name ∷ more)),
            raw,
          )
    region_parts-named name more raw h =
        region_parts-plain codec region_name ([] ∷ [] ∷ pre)
          (namespaces ∷ namespace ∷ object ∷ name ∷ more) raw (nil-IsPlain, (nil-IsPlain, plain))
        ∙ ap (map_ok _) (
            step_named codec region_name (namespace ∷ object ∷ name ∷ more) raw
              (unfold has_name in rw (eq-false name [] h)))

    -- A request for a collection in a namespace loses its first segment, the region, and its query
    -- gets the region's label selector if the collection is one of the labelled ones.
    pub add_region-list :
        (raw : RawQuery)
        → IsPlain namespace
        → IsPlain object
        → All IsSegment (region_name ∷ pre ++ namespaces ∷ namespace ∷ object ∷ [])
        → add_region_label_selector_in_path codec (record {
          path = path_of (region_name ∷ pre ++ namespaces ∷ namespace ∷ object ∷ []);
          raw_query = raw;
        })
          ≡ ok (record {
            path = path_of (pre ++ namespaces ∷ namespace ∷ object ∷ []);
            raw_query = add_selector codec region_name object raw;
          })
    unfolding add_region_label_selector_in_path
    add_region-list raw h k s =
        rw (split-path_of region_name (pre ++ namespaces ∷ namespace ∷ object ∷ []) s) (
          ap (map_ok _) (region_parts-list raw h k)
          ∙ rw (join_path-cleared (pre ++ namespaces ∷ namespace ∷ object ∷ []) s.1))

    -- A request for a named object loses its first segment, the region, and keeps its query; the
    -- name that stands for all clusters of the namespace is dropped.
    pub add_region-named :
        (name : Str) (more : List Str) (raw : RawQuery)
        → All IsSegment (region_name ∷ pre ++ namespaces ∷ namespace ∷ object ∷ name ∷ more)
        → add_region_label_selector_in_path codec (record {
          path = path_of (region_name ∷ pre ++ namespaces ∷ namespace ∷ object ∷ name ∷ more);
          raw_query = raw;
        })
          ≡ ok (record {
            path = path_of (pre ++ namespaces ∷ namespace ∷ object ∷ kept_name object name more);
            raw_query = raw;
          })
    unfolding add_region_label_selector_in_path
    add_region-named name more raw s =
        rw (split-path_of region_name (pre ++ namespaces ∷ namespace ∷ object ∷ name ∷ more) s) (
          ap (map_ok _)
            (region_parts-named name more raw (All-append-right IsSegment pre _ s.1).1.1.1.0.0)
          ∙ ap (λ p. ok (record { path = p; raw_query = raw }))
              (join_path_lem _ _
                (filter_parts-nil _
                  ∙ filter_parts-nil _
                  ∙ filter_parts-clear_all_clusters pre namespace object name more s.1)
                (IsSegment-kept_name pre namespace object name more s.1)))
