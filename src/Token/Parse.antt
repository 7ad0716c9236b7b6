-- ===== src/Token/Parse.antt =====
-- Which headers hold a bearer token.
use pf9_oidc_proxy.Base.{
  ℕ, false, some, [], ◌∷◌, ◌++◌, ◌≡◌, ◌≢◌, refl, ap, ◌∙◌, arith, append_assoc,
}
use pf9_oidc_proxy.Strings.{Str, to_lower, is_space, trim_left, trim_right, trim_space}
use pf9_oidc_proxy.Strings.Equality.{eq_refl, eq-false}
use pf9_oidc_proxy.Strings.Splitting.{Lacks, split_of_Lacks, split-append}
use pf9_oidc_proxy.Http.{Header, get}
use pf9_oidc_proxy.Token.{authorization, bearer, token_of_parts, parse_token_from_request}

-- No byte is white space.
abbrev pub IsSolid : Str → Type 0
IsSolid [] = Unit
IsSolid (c ∷ s) = (is_space c ≡ false) × IsSolid s

trim_right_of_IsSolid : (s : Str) → IsSolid s → trim_right s ≡ s
unfolding trim_right
trim_right_of_IsSolid [] _ = refl
trim_right_of_IsSolid (c ∷ []) (h, _) = rw h
trim_right_of_IsSolid (c ∷ d ∷ s) (_, h) = rw (trim_right_of_IsSolid (d ∷ s) h)

trim_right-append : (s t : Str) → t ≢ [] → IsSolid t → trim_right (s ++ t) ≡ s ++ t
unfolding trim_right
trim_right-append [] t ne h = trim_right_of_IsSolid t h
trim_right-append (c ∷ s) [] ne h = absurd (ne refl)
trim_right-append (c ∷ []) (d ∷ t) ne h = rw (trim_right_of_IsSolid (d ∷ t) h)
trim_right-append (c ∷ e ∷ s) (d ∷ t) ne h = rw (trim_right-append (e ∷ s) (d ∷ t) ne h)

Lacks-of_IsSolid : (s : Str) → IsSolid s → Lacks b' ' s
unfolding is_space
Lacks-of_IsSolid [] _ = tt
Lacks-of_IsSolid (c ∷ s) (h, hs) = (ground arith, Lacks-of_IsSolid s hs)

trim_left-append : (s t : Str) → s ≢ [] → IsSolid s → trim_left (s ++ t) ≡ s ++ t
unfolding trim_left
trim_left-append [] t ne _ = absurd (ne refl)
trim_left-append (c ∷ s) t ne (h, _) = rw (trim_left, h)

trim_space_lem :
    (scheme token : Str)
    → scheme ≢ []
    → IsSolid scheme
    → token ≢ []
    → IsSolid token
    → trim_space (scheme ++ b' ' ∷ token) ≡ scheme ++ b' ' ∷ token
unfolding trim_space
trim_space_lem scheme token named solid ne h =
    ap trim_right (trim_left-append scheme (b' ' ∷ token) named solid)
    ∙ (rw (← append_assoc scheme (b' ' ∷ []) token)
        (trim_right-append (scheme ++ b' ' ∷ []) token ne h))

append-ne-nil : (s : Str) (c : ℕ) (t : Str) → s ++ c ∷ t ≢ []
append-ne-nil [] c t = cc
append-ne-nil (d ∷ s) c t = cc

-- A scheme that is `bearer` in any case, one space, and a token with no white space in it: that is the
-- token.
pub parse_token-bearer :
    (header : Header) (scheme token : Str)
    → get authorization header ≡ scheme ++ b' ' ∷ token
    → scheme ≢ []
    → IsSolid scheme
    → to_lower scheme ≡ bearer
    → token ≢ []
    → IsSolid token
    → parse_token_from_request header ≡ some token
unfolding parse_token_from_request token_of_parts
parse_token-bearer header scheme token e named solid lowered ne h = rw (
  e,
  trim_space_lem scheme token named solid ne h,
  eq-false (scheme ++ b' ' ∷ token) [] (append-ne-nil scheme b' ' token),
  split-append b' ' scheme token (Lacks-of_IsSolid scheme solid),
  split_of_Lacks b' ' token (Lacks-of_IsSolid token h),
  lowered,
  eq_refl bearer,
  eq-false token [] ne,
)
