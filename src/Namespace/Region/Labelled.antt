-- ===== src/Namespace/Region/Labelled.antt =====
-- Which requests get the region's label selector, described beside the code.
use pf9_oidc_proxy.Base.{true, [], ◌∷◌, ◌++◌, ◌≡◌, ◌⊎◌, ◌↔◌, inl, inr, refl, arith, Bool-cases}
use pf9_oidc_proxy.Strings.{Str, bytes}
use pf9_oidc_proxy.Strings.Equality.{eq_iff}
use pf9_oidc_proxy.Maps.{insert}
use pf9_oidc_proxy.Namespace.Region.{QueryCodec, is_labelled, set_selector, add_selector}

-- The collections whose objects carry the label of their region.
abbrev pub IsRegional : Str → Type 0
IsRegional object =
    (object ≡ bytes "byomachines")
    ⊎ (object ≡ bytes "byohosts")
    ⊎ (object ≡ bytes "hostedcontrolplanes")
    ⊎ (object ≡ bytes "openstackclusters")
    ⊎ (object ≡ bytes "machines")
    ⊎ (object ≡ bytes "machinedeployments")
    ⊎ (object ≡ bytes "clusters")

is_labelled_iff : (object : Str) → (is_labelled object ≡ true) ↔ IsRegional object
unfolding is_labelled
is_labelled_iff object = ground (
  arith,
  eq_iff (bytes "byomachines") object,
  eq_iff (bytes "byohosts") object,
  eq_iff (bytes "hostedcontrolplanes") object,
  eq_iff (bytes "openstackclusters") object,
  eq_iff (bytes "machines") object,
  eq_iff (bytes "machinedeployments") object,
  eq_iff (bytes "clusters") object,
)

module _ (codec : QueryCodec) (region_name object : Str) where
  open codec use {RawQuery, query, encode}

  -- What is sent in place of a query: for these collections the query with the selector of the
  -- region as the only `labelSelector`, and the query itself for every other one.
  abbrev pub IsSelected : RawQuery → RawQuery → Type 0
  IsSelected raw sent =
      (IsRegional object
        × (sent
            ≡ encode (
                insert (bytes "labelSelector")
                  ((bytes "pcd-kaapi.pf9.io/region=" ++ region_name) ∷ []) (query raw))))
      ⊎ (¬ IsRegional object × (sent ≡ raw))

  pub add_selector-IsSelected :
      (raw : RawQuery) → IsSelected raw (add_selector codec region_name object raw)
  unfolding add_selector set_selector
  add_selector-IsSelected raw = elim (Bool-cases (is_labelled object)) [
    | inl e ↦ inl ((is_labelled_iff object).0 e, rw e refl)
    | inr e ↦ inr (λ h. cc (e, (is_labelled_iff object).1 h), rw e refl)
  ]
