-- ===== src/Namespace/RoundTrip/Laws.antt =====
-- What the round tripper does to a request for `/tenant/region/.../namespaces/...`.
use pf9_oidc_proxy.Base.{
  Option, false, List, [], ◌∷◌, ◌++◌, ◌≡◌, ◌≢◌, arith, All, All-append, All-append-left,
  All-append-right,
}
use pf9_oidc_proxy.Strings.{Str, split}
use pf9_oidc_proxy.Result.{ok, panic}
use pf9_oidc_proxy.Namespace.Path.{namespaces, api, modify_namespace_in_path, modify_parts}
use pf9_oidc_proxy.Namespace.Path.Segments.{IsSegment, path_of, join_path-slash}
use pf9_oidc_proxy.Namespace.Path.Tenant.{
  IsPlain, namespace_or, modify_namespace_in_path-tenant, modify_namespace_in_path-last,
}
use pf9_oidc_proxy.Namespace.Region.{QueryCodec, Url, add_selector}
use pf9_oidc_proxy.Namespace.Region.Selector.{kept_name, add_region-list, add_region-named}
use pf9_oidc_proxy.Namespace.Region.Labelled.{IsSelected, add_selector-IsSelected}
use pf9_oidc_proxy.Namespace.Region.Panics.{add_region_panics, add_region_returns, IsFollowed}
use pf9_oidc_proxy.Namespace.RoundTrip.{rewrite_url}

-- What a request must look like: the tenant is not `api`, and neither it nor any segment before
-- the first `namespaces` is spelled `namespaces`.
pub record IsAddressed (tenant region_name : Str) (pre rest : List Str) : Type 0 where
  pub not_api : tenant ≢ api
  pub plain : All IsPlain (tenant ∷ region_name ∷ pre)
  pub segments : All IsSegment (tenant ∷ region_name ∷ pre ++ namespaces ∷ rest)

module _ (codec : QueryCodec) (get_namespace : Str → Option Str) where
  open codec use {RawQuery}

  abbrev pub url_of : List Str → RawQuery → Url RawQuery
  url_of segments raw = record { path = path_of segments; raw_query = raw }

  module _ {tenant region_name : Str} {pre : List Str} where
    rewritten :
        (asked : Str) (rest : List Str)
        → IsAddressed tenant region_name pre (asked ∷ rest)
        → IsSegment (namespace_or (get_namespace tenant) asked)
        → modify_namespace_in_path get_namespace
            (path_of (tenant ∷ region_name ∷ pre ++ namespaces ∷ asked ∷ rest))
          ≡ path_of
              (region_name ∷ pre ++ namespaces ∷ namespace_or (get_namespace tenant) asked ∷ rest)
    rewritten asked rest a mapped =
        modify_namespace_in_path-tenant get_namespace tenant (region_name ∷ pre) asked rest
          a.not_api a.plain.0 a.plain.1 a.segments mapped

    still_segments :
        (asked mapped : Str) (rest : List Str)
        → IsAddressed tenant region_name pre (asked ∷ rest)
        → IsSegment mapped
        → All IsSegment (region_name ∷ pre ++ namespaces ∷ mapped ∷ rest)
    still_segments asked mapped rest a m =
        All-append IsSegment (region_name ∷ pre) (namespaces ∷ mapped ∷ rest)
          (All-append-left IsSegment (region_name ∷ pre) (namespaces ∷ asked ∷ rest) a.segments.1)
          (let (n, (_, r)) =
              All-append-right IsSegment (region_name ∷ pre) (namespaces ∷ asked ∷ rest)
                a.segments.1 in
            (n, (m, r)))

  -- The path as `rewrite_url-list` has it, with the query as the code makes it.
  pub rewrite_url-added :
      (tenant region_name : Str) (pre : List Str) (asked object : Str) (raw : RawQuery)
      → IsAddressed tenant region_name pre (asked ∷ object ∷ [])
      → IsSegment (namespace_or (get_namespace tenant) asked)
      → IsPlain (namespace_or (get_namespace tenant) asked)
      → IsPlain object
      → rewrite_url codec get_namespace
          (url_of (tenant ∷ region_name ∷ pre ++ namespaces ∷ asked ∷ object ∷ []) raw)
        ≡ ok (
            url_of
              (pre ++ namespaces ∷ namespace_or (get_namespace tenant) asked ∷ object ∷ [])
              (add_selector codec region_name object raw))
  unfolding rewrite_url
  rewrite_url-added tenant region_name pre asked object raw a m plain plain' =
      rw (rewritten asked (object ∷ []) a m) (
        add_region-list codec region_name pre _ object a.plain.1.1 raw plain plain'
          (still_segments asked _ (object ∷ []) a m))

  -- A request for a collection in a namespace goes to the path without the tenant and the region, in
  -- the namespace that the tenant is mapped to (or the one asked for, if the tenant is not mapped).
  -- For byomachines, byohosts, hostedcontrolplanes, openstackclusters, machines, machinedeployments
  -- and clusters its query has the region's selector as the only `labelSelector`; for every other
  -- collection it is unchanged. The segments of the path are not empty, the tenant is not `api`, and
  -- neither the tenant, nor the region, nor a segment before `namespaces`, nor the collection, nor the
  -- namespace that is put in is spelled `namespaces`; the latter is one segment.
  pub rewrite_url-list :
      (tenant region_name : Str) (pre : List Str) (asked object : Str) (raw : RawQuery)
      → IsAddressed tenant region_name pre (asked ∷ object ∷ [])
      → IsSegment (namespace_or (get_namespace tenant) asked)
      → IsPlain (namespace_or (get_namespace tenant) asked)
      → IsPlain object
      → (sent : RawQuery) × (rewrite_url codec get_namespace
            (url_of (tenant ∷ region_name ∷ pre ++ namespaces ∷ asked ∷ object ∷ []) raw)
          ≡ ok (
              url_of
                (pre ++ namespaces ∷ namespace_or (get_namespace tenant) asked ∷ object ∷ [])
                sent))
        × IsSelected codec region_name object raw sent
  rewrite_url-list tenant region_name pre asked object raw a m plain plain' = (
    add_selector codec region_name object raw,
    rewrite_url-added tenant region_name pre asked object raw a m plain plain',
    add_selector-IsSelected codec region_name object raw,
  )

  -- A request for a named object in a namespace goes to the path without the tenant and the region,
  -- in the namespace that the tenant is mapped to (or the one asked for), with its query unchanged;
  -- for clusters, the name that stands for all of them is dropped. The segments of the path are not
  -- empty, the tenant is not `api`, neither the tenant, nor the region, nor a segment before
  -- `namespaces` is spelled `namespaces`, and the namespace that is put in is one segment.
  pub rewrite_url-named :
      (tenant region_name : Str) (pre : List Str) (asked object name : Str) (more : List Str)
      (raw : RawQuery)
      → IsAddressed tenant region_name pre (asked ∷ object ∷ name ∷ more)
      → IsSegment (namespace_or (get_namespace tenant) asked)
      → rewrite_url codec get_namespace
          (url_of (tenant ∷ region_name ∷ pre ++ namespaces ∷ asked ∷ object ∷ name ∷ more) raw)
        ≡ ok (
            url_of
              (pre
                ++ namespaces
                  ∷ namespace_or (get_namespace tenant) asked
                  ∷ object
                  ∷ kept_name object name more)
              raw)
  unfolding rewrite_url
  rewrite_url-named tenant region_name pre asked object name more raw a m =
      rw (rewritten asked (object ∷ name ∷ more) a m) (
        add_region-named codec region_name pre _ object a.plain.1.1 name more raw
          (still_segments asked _ (object ∷ name ∷ more) a m))

  -- A request for /tenant/region/.../namespaces, as for the collection of namespaces, makes the
  -- round tripper panic, if the tenant is not `api`, neither the tenant, nor the region, nor a
  -- segment between them and the last is spelled `namespaces`, and no segment is empty.
  pub rewrite_url_panics_at_namespaces :
      (tenant region_name : Str) (pre : List Str) (raw : RawQuery)
      → IsAddressed tenant region_name pre []
      → rewrite_url codec get_namespace (url_of (tenant ∷ region_name ∷ pre ++ namespaces ∷ []) raw)
        ≡ panic
  unfolding rewrite_url
  rewrite_url_panics_at_namespaces tenant region_name pre raw a =
      rw
        (modify_namespace_in_path-last get_namespace tenant (region_name ∷ pre) a.not_api a.plain.0
          a.plain.1 a.segments)
        (add_region_panics codec region_name pre [] raw a.plain.1.1 (omega arith) a.segments.1)

  -- A request for /tenant/region/.../namespaces/name, with nothing behind it, makes the round
  -- tripper panic, if the tenant is not `api`, neither the tenant, nor the region, nor a segment
  -- before `namespaces` is spelled `namespaces`, no segment is empty, and the namespace that takes
  -- the place of the name is one segment.
  pub rewrite_url_panics_at_namespace :
      (tenant region_name : Str) (pre : List Str) (asked : Str) (raw : RawQuery)
      → IsAddressed tenant region_name pre (asked ∷ [])
      → IsSegment (namespace_or (get_namespace tenant) asked)
      → rewrite_url codec get_namespace
          (url_of (tenant ∷ region_name ∷ pre ++ namespaces ∷ asked ∷ []) raw)
        ≡ panic
  unfolding rewrite_url
  rewrite_url_panics_at_namespace tenant region_name pre asked raw a m =
      rw (rewritten asked [] a m) (
        add_region_panics codec region_name pre (namespace_or (get_namespace tenant) asked ∷ []) raw
          a.plain.1.1 (omega arith) (still_segments asked _ [] a m))

  -- Whatever path comes in, the round tripper returns if every `namespaces` segment of the path
  -- with the tenant removed has two segments behind it.
  pub rewrite_url_returns :
      (url : Url RawQuery)
      → IsFollowed (split b'/' (modify_namespace_in_path get_namespace url.path))
      → (sent : Url RawQuery) × (rewrite_url codec get_namespace url ≡ ok sent)
  unfolding rewrite_url modify_namespace_in_path split
  rewrite_url_returns url h =
      let (rest, e) = join_path-slash (modify_parts get_namespace [] false (split b'/' url.path)) in
      rw e (add_region_returns codec rest url.raw_query ((rw (e, split) at h).1))
