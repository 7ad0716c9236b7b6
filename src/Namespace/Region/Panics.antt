-- ===== src/Namespace/Region/Panics.antt =====
-- Where addRegionLabelSelectorInPath reads a part that is not there, and where it does not.
use pf9_oidc_proxy.Base.{
  ◌≤◌, ◌<◌, false, none, some, List, [], ◌∷◌, ◌++◌, ◌≡◌, refl, ap, ◌∙◌, arith, All, Bool-cases, inl,
  inr, length,
}
use pf9_oidc_proxy.Strings.{Str, ◌==◌, split}
use pf9_oidc_proxy.Strings.Equality.{eq_iff}
use pf9_oidc_proxy.Strings.Splitting.{split-cons}
use pf9_oidc_proxy.Result.{Result, ok, panic, map_ok}
use pf9_oidc_proxy.Namespace.Path.{namespaces, join_path}
use pf9_oidc_proxy.Namespace.Path.Segments.{IsSegment, path_of, split-path_of}
use pf9_oidc_proxy.Namespace.Path.Tenant.{IsPlain}
use pf9_oidc_proxy.Namespace.Region.{
  QueryCodec, Url, get_elem?, has_name, add_selector, region_parts,
  add_region_label_selector_in_path,
}
use pf9_oidc_proxy.Namespace.Region.Selector.{nil-IsPlain}
use pf9_oidc_proxy.Namespace.Region.Steps.{
  region_parts-plain, step_nil, step_plain, step_list, step_named, step_panic,
}

-- Every `namespaces` segment has two parts behind it.
abbrev pub IsFollowed : List Str → Type 0
IsFollowed [] = Unit
IsFollowed (part ∷ rest) = (part ≡ namespaces → 2 ≤ length rest) × IsFollowed rest

object_found :
    (rest : List Str) → 2 ≤ length rest → (object : Str) × (get_elem? rest 1 ≡ some object)
object_found [] h = absurd (omega arith)
object_found (a ∷ []) h = absurd (omega arith)
object_found (a ∷ b ∷ rest) h = (b, refl)

no_object : (short : List Str) → length short < 2 → get_elem? short 1 ≡ none
no_object [] _ = refl
no_object (a ∷ []) _ = refl
no_object (a ∷ b ∷ rest) h = absurd (omega arith)

no_name : (short : List Str) → length short < 2 → has_name (get_elem? short 2) ≡ false
unfolding has_name
no_name [] _ = refl
no_name (a ∷ []) _ = refl
no_name (a ∷ b ∷ rest) h = absurd (omega arith)

module _ (codec : QueryCodec) (region_name : Str) where
  open codec use {RawQuery}

  abbrev Returns : Result (Unit {0}) (List Str × RawQuery) → Type 0
  Returns m = (r : List Str × RawQuery) × (m ≡ ok r)

  Returns-map_ok :
      (f : List Str × RawQuery → List Str × RawQuery) (m : Result (Unit {0}) (List Str × RawQuery))
      → Returns m
      → Returns (map_ok f m)
  Returns-map_ok f m (r, e) = (f r, ap (map_ok f) e)

  pub region_parts_returns :
      (parts : List Str) (raw : RawQuery)
      → IsFollowed parts
      → (r : List Str × RawQuery) × (region_parts codec region_name parts raw ≡ ok r)
  region_parts_returns [] raw _ = (([], raw), step_nil codec region_name raw)
  region_parts_returns (part ∷ rest) raw (h, hs) = elim (Bool-cases (part == namespaces)) [
    | inr e ↦
        rw (step_plain codec region_name part rest raw (ground (arith, eq_iff part namespaces)))
          (Returns-map_ok _ _ (region_parts_returns rest raw hs))
    | inl e ↦ rw ((eq_iff part namespaces).0 e) (elim (Bool-cases (has_name (get_elem? rest 2))) [
      | inl n ↦ (_, step_named codec region_name rest raw n)
      | inr n ↦
          let (object, found) = object_found rest (h ((eq_iff part namespaces).0 e)) in
          rw (step_list codec region_name rest object raw n found) (
            Returns-map_ok _ _
              (region_parts_returns rest (add_selector codec region_name object raw) hs))
    ])
  ]

  -- A `namespaces` segment with at most one segment behind it makes the function panic.
  pub add_region_panics :
      (pre short : List Str) (raw : RawQuery)
      → All IsPlain pre
      → length short < 2
      → All IsSegment (region_name ∷ pre ++ namespaces ∷ short)
      → add_region_label_selector_in_path codec
          (record { path = path_of (region_name ∷ pre ++ namespaces ∷ short); raw_query = raw })
        ≡ panic
  unfolding add_region_label_selector_in_path
  add_region_panics pre short raw plain few s =
      rw (split-path_of region_name (pre ++ namespaces ∷ short) s) (
        ap (map_ok _) (
          region_parts-plain codec region_name ([] ∷ [] ∷ pre) (namespaces ∷ short) raw
            (nil-IsPlain, (nil-IsPlain, plain))
          ∙ ap (map_ok _)
              (step_panic codec region_name short raw (no_name short few) (no_object short few))))

-- On an absolute path whose `namespaces` segments all have two segments behind them the function
-- returns: no part is read out of range, the region's own index included.
pub add_region_returns :
    (codec : QueryCodec) (rest : Str) (raw : codec.RawQuery)
    → IsFollowed (split b'/' rest)
    → (url : Url codec.RawQuery) × (add_region_label_selector_in_path codec
          (record { path = b'/' ∷ rest; raw_query = raw })
        ≡ ok url)
unfolding add_region_label_selector_in_path split
add_region_returns codec rest raw h =
    let (region_name, parts, e) = split-cons b'/' rest in
    let (r, returned) =
      region_parts_returns codec region_name ([] ∷ [] ∷ parts) raw
        (λ p. absurd (nil-IsPlain p), (λ p. absurd (nil-IsPlain p), (rw e at h).1)) in
    (record { path = join_path r.0; raw_query = r.1 }, rw e (ap (map_ok _) returned))
