-- ===== src/Namespace/Region/Steps.antt =====
-- The branches of the loop of addRegionLabelSelectorInPath, as equations.
use pf9_oidc_proxy.Base.{true, false, none, some, List, [], ◌∷◌, ◌++◌, ◌≡◌, refl, sym, ap, ◌∙◌, All}
use pf9_oidc_proxy.Strings.{Str}
use pf9_oidc_proxy.Strings.Equality.{eq-false, eq_refl}
use pf9_oidc_proxy.Result.{ok, panic, map_ok, map_ok-id, map_ok-map_ok}
use pf9_oidc_proxy.Namespace.Path.{namespaces}
use pf9_oidc_proxy.Namespace.Path.Tenant.{IsPlain}
use pf9_oidc_proxy.Namespace.Region.{
  QueryCodec, get_elem?, has_name, clear_all_clusters, add_selector, region_parts,
}

module _ (codec : QueryCodec) where
  open codec use {RawQuery}

  module _ (region_name : Str) where
    pub step_nil : (raw : RawQuery) → region_parts codec region_name [] raw ≡ ok ([], raw)
    unfolding region_parts
    step_nil raw = refl

    pub step_plain :
        (part : Str) (rest : List Str) (raw : RawQuery)
        → IsPlain part
        → region_parts codec region_name (part ∷ rest) raw
          ≡ map_ok (λ r. (part ∷ r.0, r.1)) (region_parts codec region_name rest raw)
    unfolding region_parts
    step_plain part rest raw h = rw (eq-false part namespaces h, region_parts)

    pub step_named :
        (rest : List Str) (raw : RawQuery)
        → has_name (get_elem? rest 2) ≡ true
        → region_parts codec region_name (namespaces ∷ rest) raw
          ≡ ok (namespaces ∷ clear_all_clusters rest, raw)
    unfolding region_parts
    step_named rest raw h = rw (eq_refl namespaces, h, region_parts)

    pub step_list :
        (rest : List Str) (object : Str) (raw : RawQuery)
        → has_name (get_elem? rest 2) ≡ false
        → get_elem? rest 1 ≡ some object
        → region_parts codec region_name (namespaces ∷ rest) raw
          ≡ map_ok
              (λ r. (namespaces ∷ r.0, r.1))
              (region_parts codec region_name rest (add_selector codec region_name object raw))
    unfolding region_parts
    step_list rest object raw h k = rw (eq_refl namespaces, h, k, region_parts)

    pub step_panic :
        (rest : List Str) (raw : RawQuery)
        → has_name (get_elem? rest 2) ≡ false
        → get_elem? rest 1 ≡ none
        → region_parts codec region_name (namespaces ∷ rest) raw ≡ panic
    unfolding region_parts
    step_panic rest raw h k = rw (eq_refl namespaces, h, k, region_parts)

    pub region_parts-plain :
        (pre rest : List Str) (raw : RawQuery)
        → All IsPlain pre
        → region_parts codec region_name (pre ++ rest) raw
          ≡ map_ok (λ r. (pre ++ r.0, r.1)) (region_parts codec region_name rest raw)
    region_parts-plain [] rest raw _ = sym (map_ok-id (region_parts codec region_name rest raw))
    region_parts-plain (p ∷ pre) rest raw (h, hs) =
        step_plain p (pre ++ rest) raw h
        ∙ ap (map_ok (λ r. (p ∷ r.0, r.1))) (region_parts-plain pre rest raw hs)
        ∙ map_ok-map_ok _ _ (region_parts codec region_name rest raw)
