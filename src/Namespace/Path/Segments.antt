-- ===== src/Namespace/Path/Segments.antt =====
-- Absolute paths given by their segments.
use pf9_oidc_proxy.Base.{
  Bool-cases, inl, inr, true, arith, false, List, [], ◌∷◌, ◌++◌, ◌≡◌, ◌≢◌, refl, ap, ◌∙◌, All,
}
use pf9_oidc_proxy.Strings.{Str, ◌==◌, split, join, has_prefix}
use pf9_oidc_proxy.Strings.Splitting.{Lacks, split-append, split-join}
use pf9_oidc_proxy.Namespace.Path.{slash, filter_parts, join_path}

-- Not empty, and free of slashes.
abbrev pub IsSegment : Str → Type 0
IsSegment s = (s ≢ []) × Lacks b'/' s

-- The path with these segments.
unfoldable pub path_of : List Str → Str
path_of segments = slash ++ join slash segments

pub split-path_of :
    (s : Str) (segments : List Str)
    → All IsSegment (s ∷ segments)
    → split b'/' (path_of (s ∷ segments)) ≡ [] ∷ s ∷ segments
unfolding path_of
split-path_of s segments h =
    split-append b'/' [] _ tt ∙ ap (◌∷◌ []) (split-join b'/' s segments (lacking (s ∷ segments) h))
  where
    lacking : (l : List Str) → All IsSegment l → All (Lacks b'/') l
    lacking [] _ = tt
    lacking (x ∷ l) (k, ks) = (k.1, lacking l ks)

eq-nil_of_IsSegment : (s : Str) → IsSegment s → (s == []) ≡ false
unfolding ◌==◌
eq-nil_of_IsSegment [] h = absurd (h.0 refl)
eq-nil_of_IsSegment (c ∷ s) _ = refl

pub filter_parts-nil : (parts : List Str) → filter_parts ([] ∷ parts) ≡ filter_parts parts
unfolding filter_parts ◌==◌
filter_parts-nil parts = refl

pub filter_parts_lem : (parts : List Str) → All IsSegment parts → filter_parts parts ≡ parts
unfolding filter_parts
filter_parts_lem [] _ = refl
filter_parts_lem (p ∷ parts) (h, hs) =
    rw (eq-nil_of_IsSegment p h) (ap (◌∷◌ p) (filter_parts_lem parts hs))

no_slash_first :
    (s : Str) (segments : List Str)
    → IsSegment s
    → has_prefix (join slash (s ∷ segments)) slash ≡ false
unfolding join has_prefix
no_slash_first [] _ h = absurd (h.0 refl)
no_slash_first (c ∷ s) [] (_, (h, _)) = rw h
no_slash_first (c ∷ s) (t ∷ segments) (_, (h, _)) = rw h

-- Empty parts are dropped, and the others become the segments of an absolute path.
pub join_path_lem :
    (parts segments : List Str)
    → filter_parts parts ≡ segments
    → All IsSegment segments
    → join_path parts ≡ path_of segments
unfolding join_path path_of
join_path_lem parts [] e _ = rw e (unfold join has_prefix in refl)
join_path_lem parts (s ∷ segments) e (h, _) = rw e (rw (no_slash_first s segments h))

-- The two parts before the first segment are empty once it is removed.
pub join_path-cleared :
    (segments : List Str)
    → All IsSegment segments
    → join_path ([] ∷ [] ∷ segments) ≡ path_of segments
join_path-cleared segments h =
    join_path_lem ([] ∷ [] ∷ segments) segments
      (filter_parts-nil ([] ∷ segments) ∙ filter_parts-nil segments ∙ filter_parts_lem segments h) h

pub filter_parts-append :
    (xs ys : List Str) → filter_parts (xs ++ ys) ≡ filter_parts xs ++ filter_parts ys
unfolding filter_parts
filter_parts-append [] ys = refl
filter_parts-append (x ∷ xs) ys = ground (arith, filter_parts-append xs ys)

-- An empty part between segments is dropped.
pub filter_parts-hole :
    (xs ys : List Str)
    → All IsSegment xs
    → All IsSegment ys
    → filter_parts (xs ++ [] ∷ ys) ≡ xs ++ ys
filter_parts-hole xs ys h k =
    filter_parts-append xs ([] ∷ ys)
    ∙ rw (filter_parts_lem xs h, filter_parts-nil ys, filter_parts_lem ys k)

-- A joined path is absolute.
pub join_path-slash : (parts : List Str) → (rest : Str) × (join_path parts ≡ b'/' ∷ rest)
unfolding join_path has_prefix
join_path-slash parts = elim (Bool-cases (has_prefix (join slash (filter_parts parts)) slash)) [
  | inl e ↦ rw e (absolute (join slash (filter_parts parts)) e)
  | inr e ↦ rw e (join slash (filter_parts parts), refl)
]
  where
    absolute : (s : Str) → has_prefix s slash ≡ true → (rest : Str) × (s ≡ b'/' ∷ rest)
    absolute [] h = cc
    absolute (c ∷ s) h = (s, ground arith)
