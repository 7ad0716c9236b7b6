-- ===== src/Namespace/Path/Tenant.antt =====
-- What the tenant prefix of a path does.
use pf9_oidc_proxy.Base.{
  Bool, false, ◌||◌, Option, none, some, List, [], ◌∷◌, ◌++◌, ◌≡◌, ◌≢◌, refl, ap, All, All-append,
  All-append-left, All-append-right,
}
use pf9_oidc_proxy.Strings.{Str, ◌==◌}
use pf9_oidc_proxy.Strings.Equality.{eq-false, eq_refl}
use pf9_oidc_proxy.Namespace.Path.{
  namespaces, api, replace_next, modify_parts, modify_namespace_in_path,
}
use pf9_oidc_proxy.Namespace.Path.Segments.{IsSegment, path_of, split-path_of, join_path-cleared}

-- The namespace that takes the place of `asked`.
abbrev pub namespace_or : Option Str → Str → Str
namespace_or none asked = asked
namespace_or (some mapped) asked = mapped

abbrev pub IsPlain : Str → Type 0
IsPlain s = s ≢ namespaces

replace_next_lem :
    (found : Option Str) (asked : Str) (rest : List Str)
    → replace_next found (asked ∷ rest) ≡ namespace_or found asked ∷ rest
unfolding replace_next
replace_next_lem none asked rest = refl
replace_next_lem (some mapped) asked rest = refl

module _ (get_namespace : Str → Option Str) (tenant : Str) (known : tenant ≢ []) where
  -- After the tenant is known nothing changes up to the first `namespaces`.
  modify_parts-tail :
      (hit : Bool) (pre : List Str) (asked : Str) (rest : List Str)
      → All IsPlain pre
      → modify_parts get_namespace tenant hit (pre ++ namespaces ∷ asked ∷ rest)
        ≡ pre ++ namespaces ∷ namespace_or (get_namespace tenant) asked ∷ rest
  unfolding modify_parts
  modify_parts-tail hit [] asked rest _ =
      rw (eq-false tenant [] known, eq_refl namespaces)
        (ap (◌∷◌ namespaces) (replace_next_lem (get_namespace tenant) asked rest))
  modify_parts-tail hit (p ∷ pre) asked rest (h, hs) =
      rw (eq-false tenant [] known, eq-false p namespaces h)
        (ap (◌∷◌ p) (modify_parts-tail (hit || p == api) pre asked rest hs))

  modify_parts-last :
      (hit : Bool) (pre : List Str)
      → All IsPlain pre
      → modify_parts get_namespace tenant hit (pre ++ namespaces ∷ []) ≡ pre ++ namespaces ∷ []
  unfolding modify_parts
  modify_parts-last hit [] _ = rw (eq-false tenant [] known, eq_refl namespaces)
  modify_parts-last hit (p ∷ pre) (h, hs) =
      rw (eq-false tenant [] known, eq-false p namespaces h)
        (ap (◌∷◌ p) (modify_parts-last (hit || p == api) pre hs))

  modify_parts-plain :
      (hit : Bool) (segments : List Str)
      → All IsPlain segments
      → modify_parts get_namespace tenant hit segments ≡ segments
  unfolding modify_parts
  modify_parts-plain hit [] _ = refl
  modify_parts-plain hit (p ∷ segments) (h, hs) =
      rw (eq-false tenant [] known, eq-false p namespaces h)
        (ap (◌∷◌ p) (modify_parts-plain (hit || p == api) segments hs))

  -- The first segment is taken as the tenant, unless it is `api`.
  modify_parts-tenant :
      (parts : List Str)
      → tenant ≢ api
      → IsPlain tenant
      → modify_parts get_namespace [] false ([] ∷ tenant ∷ parts)
        ≡ [] ∷ [] ∷ modify_parts get_namespace tenant false parts
  unfolding modify_parts ◌==◌
  modify_parts-tenant parts not_api plain =
      rw (eq-false tenant api not_api, eq-false tenant namespaces plain)

-- A path that has a `namespaces` segment with a namespace behind it loses its first segment, the
-- tenant, and the namespace behind the first `namespaces` is replaced by the one that the tenant is
-- mapped to, or kept if the tenant is not mapped. All other segments are kept. The tenant is neither
-- `api` nor `namespaces`.
pub modify_namespace_in_path-tenant :
    (get_namespace : Str → Option Str) (tenant : Str) (pre : List Str) (asked : Str)
    (rest : List Str)
    → tenant ≢ api
    → IsPlain tenant
    → All IsPlain pre
    → All IsSegment (tenant ∷ pre ++ namespaces ∷ asked ∷ rest)
    → IsSegment (namespace_or (get_namespace tenant) asked)
    → modify_namespace_in_path get_namespace (path_of (tenant ∷ pre ++ namespaces ∷ asked ∷ rest))
      ≡ path_of (pre ++ namespaces ∷ namespace_or (get_namespace tenant) asked ∷ rest)
unfolding modify_namespace_in_path
modify_namespace_in_path-tenant get_namespace tenant pre asked rest not_api plain plains h mapped =
    rw
      (
        split-path_of tenant (pre ++ namespaces ∷ asked ∷ rest) h,
        modify_parts-tenant get_namespace tenant h.0.0 (pre ++ namespaces ∷ asked ∷ rest) not_api
            plain,
        modify_parts-tail get_namespace tenant h.0.0 false pre asked rest plains,
      )
      (join_path-cleared _ segments)
  where
    segments : All IsSegment (pre ++ namespaces ∷ namespace_or (get_namespace tenant) asked ∷ rest)
    segments = All-append IsSegment pre _ (All-append-left IsSegment pre _ h.1) (
      (All-append-right IsSegment pre _ h.1).0,
      (mapped, (All-append-right IsSegment pre _ h.1).1.1),
    )

-- A path with no `namespaces` segment loses its first segment, the tenant, which is not `api`.
pub modify_namespace_in_path-plain :
    (get_namespace : Str → Option Str) (tenant : Str) (segments : List Str)
    → tenant ≢ api
    → All IsPlain (tenant ∷ segments)
    → All IsSegment (tenant ∷ segments)
    → modify_namespace_in_path get_namespace (path_of (tenant ∷ segments)) ≡ path_of segments
unfolding modify_namespace_in_path
modify_namespace_in_path-plain get_namespace tenant segments not_api plain h =
    rw
      (
        split-path_of tenant segments h,
        modify_parts-tenant get_namespace tenant h.0.0 segments not_api plain.0,
        modify_parts-plain get_namespace tenant h.0.0 false segments plain.1,
      )
      (join_path-cleared segments h.1)

-- A path that ends in its only `namespaces` segment loses its first segment, the tenant.
pub modify_namespace_in_path-last :
    (get_namespace : Str → Option Str) (tenant : Str) (pre : List Str)
    → tenant ≢ api
    → IsPlain tenant
    → All IsPlain pre
    → All IsSegment (tenant ∷ pre ++ namespaces ∷ [])
    → modify_namespace_in_path get_namespace (path_of (tenant ∷ pre ++ namespaces ∷ []))
      ≡ path_of (pre ++ namespaces ∷ [])
unfolding modify_namespace_in_path
modify_namespace_in_path-last get_namespace tenant pre not_api plain plains h =
    rw
      (
        split-path_of tenant (pre ++ namespaces ∷ []) h,
        modify_parts-tenant get_namespace tenant h.0.0 (pre ++ namespaces ∷ []) not_api plain,
        modify_parts-last get_namespace tenant h.0.0 false pre plains,
      )
      (join_path-cleared (pre ++ namespaces ∷ []) h.1)
