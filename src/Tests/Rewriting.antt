-- ===== src/Tests/Rewriting.antt =====
-- The namespace round tripper on the paths of pkg/proxy/namespace_round_tripper_test.go.
use pf9_oidc_proxy.Base.{Option, List, [], ◌∷◌, ◌++◌, ◌≡◌, refl, arith}
use pf9_oidc_proxy.Strings.{Str, bytes, ◌==◌, split, join, has_prefix}
use pf9_oidc_proxy.Maps.{Map, lookup}
use pf9_oidc_proxy.Result.{ok, panic}
use pf9_oidc_proxy.Namespace.Path.{namespaces, modify_namespace_in_path}
use pf9_oidc_proxy.Namespace.Path.Segments.{IsSegment}
use pf9_oidc_proxy.Namespace.Path.Tenant.{IsPlain, namespace_or}
use pf9_oidc_proxy.Namespace.Region.{QueryCodec, Url, clusters, all_clusters}
use pf9_oidc_proxy.Namespace.Region.Labelled.{IsSelected}
use pf9_oidc_proxy.Namespace.Region.Selector.{kept_name}
use pf9_oidc_proxy.Namespace.RoundTrip.{rewrite_url}
use pf9_oidc_proxy.Namespace.RoundTrip.Laws.{
  IsAddressed, url_of, rewrite_url-list, rewrite_url-named, rewrite_url_panics_at_namespaces,
  rewrite_url_panics_at_namespace, rewrite_url_returns,
}

abbrev pub tenants : Map Str
tenants = (bytes "tenant1", bytes "namespace1") ∷ (bytes "tenant2", bytes "namespace2") ∷ []

abbrev pub mapped : Str → Option Str
mapped tenant = lookup tenant tenants

modified_paths :
    (modify_namespace_in_path mapped (bytes "/tenant1/api/v1/namespaces/default/pods")
      ≡ bytes "/api/v1/namespaces/namespace1/pods")
    × (modify_namespace_in_path mapped (bytes "/api/v1/pods") ≡ bytes "/api/v1/pods")
    × (modify_namespace_in_path mapped (bytes "/other/api/v1/namespaces/default/pods")
        ≡ bytes "/api/v1/namespaces/default/pods")
    × (modify_namespace_in_path mapped (bytes "/tenant2/api/v1/namespaces/default/pods/namespaces")
        ≡ bytes "/api/v1/namespaces/namespace2/pods/namespaces")
    × (modify_namespace_in_path mapped (bytes "/api/tenant1/v1/namespaces/default/pods")
        ≡ bytes "/api/tenant1/v1/namespaces/default/pods")
    × (modify_namespace_in_path mapped [] ≡ bytes "/")
    × (modify_namespace_in_path mapped (bytes "tenant1/api/v1/namespaces/default/pods")
        ≡ bytes "/api/v1/namespaces/namespace1/pods")
unfolding modify_namespace_in_path split join has_prefix ◌==◌ lookup
modified_paths = (refl, refl, refl, refl, refl, refl, refl)

-- Queries kept as their values.
abbrev pub plain_codec : QueryCodec
plain_codec = record {
  RawQuery = Map (List Str);
  query = λ values. values;
  encode = λ values. values;
}

abbrev pub group_path : List Str
group_path = bytes "apis" ∷ bytes "cluster.x-k8s.io" ∷ bytes "v1" ∷ []

pub machines-IsAddressed :
    IsAddressed
      (bytes "tenant1")
      (bytes "region1")
      group_path
      (bytes "default" ∷ bytes "machines" ∷ [])
machines-IsAddressed = ground arith

pub namespace1-IsSegment : IsSegment (namespace_or (mapped (bytes "tenant1")) (bytes "default"))
unfolding lookup ◌==◌
namespace1-IsSegment = ground arith

pub namespace1-IsPlain : IsPlain (namespace_or (mapped (bytes "tenant1")) (bytes "default"))
unfolding lookup ◌==◌
namespace1-IsPlain = ground arith

rewrite_url-list_example :
    (sent : Map (List Str)) × (rewrite_url plain_codec mapped (
        url_of plain_codec mapped
          (bytes "tenant1" ∷ bytes "region1" ∷ group_path
            ++ namespaces ∷ bytes "default" ∷ bytes "machines" ∷ [])
          [])
      ≡ ok (
          url_of plain_codec mapped
            (group_path
              ++ namespaces
                ∷ namespace_or (mapped (bytes "tenant1")) (bytes "default")
                ∷ bytes "machines"
                ∷ [])
            sent))
    × IsSelected plain_codec (bytes "region1") (bytes "machines") [] sent
rewrite_url-list_example =
    rewrite_url-list plain_codec mapped (bytes "tenant1") (bytes "region1") group_path
      (bytes "default") (bytes "machines") [] machines-IsAddressed namespace1-IsSegment
      namespace1-IsPlain (ground arith)

all_clusters-IsAddressed :
    IsAddressed
      (bytes "tenant1")
      (bytes "region1")
      group_path
      (bytes "default" ∷ clusters ∷ all_clusters ∷ [])
all_clusters-IsAddressed = ground arith

rewrite_url-named_example :
    rewrite_url plain_codec mapped (
      url_of plain_codec mapped
        (bytes "tenant1" ∷ bytes "region1" ∷ group_path
          ++ namespaces ∷ bytes "default" ∷ clusters ∷ all_clusters ∷ [])
        [])
    ≡ ok (
        url_of plain_codec mapped
          (group_path
            ++ namespaces
              ∷ namespace_or (mapped (bytes "tenant1")) (bytes "default")
              ∷ clusters
              ∷ kept_name clusters all_clusters [])
          [])
rewrite_url-named_example =
    rewrite_url-named plain_codec mapped (bytes "tenant1") (bytes "region1") group_path
      (bytes "default") clusters all_clusters [] [] all_clusters-IsAddressed namespace1-IsSegment

-- kubectl get namespaces
namespaces-IsAddressed :
    IsAddressed (bytes "tenant1") (bytes "region1") (bytes "api" ∷ bytes "v1" ∷ []) []
namespaces-IsAddressed = ground arith

rewrite_url_panics_at_namespaces_example :
    rewrite_url plain_codec mapped (
      url_of plain_codec mapped
        (bytes "tenant1" ∷ bytes "region1" ∷ bytes "api" ∷ bytes "v1" ∷ namespaces ∷ [])
        [])
    ≡ panic
rewrite_url_panics_at_namespaces_example =
    rewrite_url_panics_at_namespaces plain_codec mapped (bytes "tenant1") (bytes "region1")
      (bytes "api" ∷ bytes "v1" ∷ []) [] namespaces-IsAddressed

namespace-IsAddressed :
    IsAddressed
      (bytes "tenant1")
      (bytes "region1")
      (bytes "api" ∷ bytes "v1" ∷ [])
      (bytes "default" ∷ [])
namespace-IsAddressed = ground arith

rewrite_url_panics_at_namespace_example :
    rewrite_url plain_codec mapped (
      url_of plain_codec mapped
        (bytes "tenant1"
          ∷ bytes "region1"
          ∷ bytes "api"
          ∷ bytes "v1"
          ∷ namespaces
          ∷ bytes "default"
          ∷ [])
        [])
    ≡ panic
rewrite_url_panics_at_namespace_example =
    rewrite_url_panics_at_namespace plain_codec mapped (bytes "tenant1") (bytes "region1")
      (bytes "api" ∷ bytes "v1" ∷ []) (bytes "default") [] namespace-IsAddressed
      namespace1-IsSegment

abbrev pods : Url (Map (List Str))
pods = record { path = bytes "/tenant1/region1/api/v1/pods"; raw_query = [] }

rewrite_url_returns_example :
    (sent : Url (Map (List Str))) × (rewrite_url plain_codec mapped pods ≡ ok sent)
unfolding modify_namespace_in_path split join has_prefix ◌==◌ lookup
rewrite_url_returns_example = rewrite_url_returns plain_codec mapped pods (ground arith)

-- A server address with a tenant and no region: the first part of the API's path counts as the region.
region_missing :
    rewrite_url plain_codec mapped
      (record { path = bytes "/tenant1/api/v1/namespaces/default/pods"; raw_query = [] })
    ≡ ok (record { path = bytes "/v1/namespaces/namespace1/pods"; raw_query = [] })
unfolding rewrite_url modify_namespace_in_path split join has_prefix ◌==◌ lookup
region_missing = refl
