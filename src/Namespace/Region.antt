-- ===== src/Namespace/Region.antt =====
-- addRegionLabelSelectorInPath of pkg/proxy/namespace_round_tripper.go. The query of a URL is kept
-- as its encoded text, which net/url decodes and encodes.
pub mod Steps
pub mod Selector
pub mod Panics
pub mod Labelled
use pf9_oidc_proxy.Base.{
  ℕ, zero, suc, Bool, true, false, not, ◌&&◌, ◌||◌, Option, none, some, List, [], ◌∷◌, ◌++◌, ◌≡◌,
  any, if◌then◌else◌,
}
use pf9_oidc_proxy.Strings.{Str, bytes, ◌==◌, split}
use pf9_oidc_proxy.Maps.{Map, insert, values_at}
use pf9_oidc_proxy.Result.{Result, ok, panic, map_ok}
use pf9_oidc_proxy.Namespace.Path.{namespaces, join_path}

-- Query().Get(key)
unfoldable pub first : List Str → Str
first [] = []
first (v ∷ _) = v

-- The queries of a URL: `Query` and `Encode` of net/url.
pub record QueryCodec : Type 1 where
  pub RawQuery : Type 0
  pub query : RawQuery → Map (List Str)
  pub encode : Map (List Str) → RawQuery

abbrev pub label_selector_prefix : Str
label_selector_prefix = bytes "pcd-kaapi.pf9.io/region="

abbrev pub label_selector : Str
label_selector = bytes "labelSelector"

abbrev pub clusters : Str
clusters = bytes "clusters"

abbrev pub all_clusters : Str
all_clusters = bytes "all-clusters-in-pf9-tenant-namespace"

abbrev pub label_selector_to_be_added : List Str
label_selector_to_be_added =
    bytes "byomachines"
    ∷ bytes "byohosts"
    ∷ bytes "hostedcontrolplanes"
    ∷ bytes "openstackclusters"
    ∷ bytes "machines"
    ∷ bytes "machinedeployments"
    ∷ bytes "clusters"
    ∷ []

-- slices.Contains(labelSelectorToBeAdded, object)
unfoldable pub is_labelled : Str → Bool
is_labelled object = any (λ o. o == object) label_selector_to_be_added

abbrev pub get_elem? : List Str → ℕ → Option Str
get_elem? [] i = none
get_elem? (x ∷ xs) zero = some x
get_elem? (x ∷ xs) (suc i) = get_elem? xs i

-- `len(parts) > i+3 && parts[i+3] != ""`, of the parts behind index i
unfoldable pub has_name : Option Str → Bool
has_name none = false
has_name (some name) = not (name == [])

-- The branch for a request with an object name, before its `break`.
unfoldable pub clear_all_clusters : List Str → List Str
clear_all_clusters (namespace ∷ object ∷ name ∷ more) =
    if object == clusters && name == all_clusters
    then namespace ∷ object ∷ [] ∷ more
    else namespace ∷ object ∷ name ∷ more
clear_all_clusters parts = parts

pub record Url (Query : Type 0) : Type 0 where
  pub path : Str
  pub raw_query : Query

module _ (codec : QueryCodec) where
  open codec use {RawQuery, query, encode}

  -- query.Set("labelSelector", selector) and the query's encoding
  unfoldable pub set_selector : Str → RawQuery → RawQuery
  set_selector region_name raw =
      encode (insert label_selector ((label_selector_prefix ++ region_name) ∷ []) (query raw))

  unfoldable pub add_selector : Str → Str → RawQuery → RawQuery
  unfolding set_selector is_labelled
  add_selector region_name object raw =
      if is_labelled object then set_selector region_name raw else raw

  -- The loop over the parts. It panics where `partsOfPath[i+2]` is out of range.
  unfoldable pub region_parts : Str → List Str → RawQuery → Result (Unit {0}) (List Str × RawQuery)
  unfolding add_selector has_name clear_all_clusters
  region_parts region_name [] raw = ok ([], raw)
  region_parts region_name (part ∷ rest) raw = elim (part == namespaces) [
    | false ↦ map_ok (λ r. (part ∷ r.0, r.1)) (region_parts region_name rest raw)
    | true ↦ elim (has_name (get_elem? rest 2)) [
      | true ↦ ok (part ∷ clear_all_clusters rest, raw)
      | false ↦ elim (get_elem? rest 1) [
        | none ↦ panic
        | some object ↦
            map_ok (λ r. (part ∷ r.0, r.1))
              (region_parts region_name rest (add_selector region_name object raw))
      ]
    ]
  ]

  -- `partsOfPath[1]` is the region; it panics if there is no such part.
  unfoldable pub add_region_to_parts : List Str → RawQuery → Result (Unit {0}) (List Str × RawQuery)
  unfolding region_parts
  add_region_to_parts (before ∷ region_name ∷ rest) raw =
      region_parts region_name (before ∷ [] ∷ rest) raw
  add_region_to_parts _ raw = panic

  unfoldable pub add_region_label_selector_in_path : Url RawQuery → Result (Unit {0}) (Url RawQuery)
  unfolding add_region_to_parts
  add_region_label_selector_in_path url =
      map_ok (λ r. record { path = join_path r.0; raw_query = r.1 })
        (add_region_to_parts (split b'/' url.path) url.raw_query)
