-- ===== src/Token/Accepted.antt =====
-- The token of a review that succeeds, and where it stands in the header.
use pf9_oidc_proxy.Base.{
  true, Option, none, some, List, [], ◌∷◌, ◌++◌, ◌≡◌, ◌≢◌, refl, arith, ap, ◌∙◌, if-true,
}
use pf9_oidc_proxy.Strings.{Str, ◌==◌, trim_space}
use pf9_oidc_proxy.Strings.Equality.{eq_refl, eq_iff}
use pf9_oidc_proxy.Maps.{values_at, values_at-insert}
use pf9_oidc_proxy.Result.{ok}
use pf9_oidc_proxy.Http.{Header, first_value, get, add, canonical_key}
use pf9_oidc_proxy.Token.{
  authorization, TokenReviewSpec, TokenReply, status, build_review, review_result, review_token,
  review, parse_token_from_request,
}

reply-accepted : (reply : TokenReply) → review_result reply ≡ ok true → reply ≡ status [] true
unfolding review_result
reply-accepted (TokenReply.failed text) e = absurd (cc)
reply-accepted (status text accepted) e = ground (arith, eq_iff text [])

token-accepted :
    (create : TokenReviewSpec → TokenReply) (audiences : List Str) (found : Option Str)
    → review_token create audiences found ≡ ok true
    → (token : Str) × (found ≡ some token)
      × (create (build_review audiences token) ≡ status [] true)
unfolding review_token
token-accepted create audiences none e = absurd (cc)
token-accepted create audiences (some token) e =
    (token, refl, reply-accepted (create (build_review audiences token)) e)

-- A token that is accepted was found in the header, and `Create` says that it is authenticated.
pub review-accepted :
    (create : TokenReviewSpec → TokenReply) (audiences : List Str) (header : Header)
    → review create audiences header ≡ ok true
    → (token : Str) × (parse_token_from_request header ≡ some token)
      × (create (build_review audiences token) ≡ status [] true)
unfolding review
review-accepted create audiences header e =
    token-accepted create audiences (parse_token_from_request header) e

pub parse_token-get :
    (header header' : Header)
    → get authorization header ≡ get authorization header'
    → parse_token_from_request header ≡ parse_token_from_request header'
unfolding parse_token_from_request
parse_token-get header header' e = rw e refl

parse_token-absent :
    (header : Header) → get authorization header ≡ [] → parse_token_from_request header ≡ none
unfolding parse_token_from_request trim_space ◌==◌
parse_token-absent header e = rw e refl

first-append :
    (vs : List Str) (v : Str) → first_value vs ≢ [] → first_value (vs ++ v ∷ []) ≡ first_value vs
unfolding first_value
first-append [] v present = absurd (present refl)
first-append (_ ∷ _) v present = refl

-- One more value behind the others is not the first.
get-add :
    (key value : Str) (header : Header)
    → get key header ≢ []
    → get key (add key value header) ≡ get key header
unfolding get add
get-add key value header present =
    ap first_value (
      values_at-insert _ _ _ header
      ∙ if-true (canonical_key key == canonical_key key) _ _ (eq_refl (canonical_key key)))
    ∙ first-append (values_at (canonical_key key) header) value present

-- A value that is added to the header does not hide a token.
pub parse_token-add :
    (value token : Str) (header : Header)
    → parse_token_from_request header ≡ some token
    → parse_token_from_request (add authorization value header) ≡ some token
parse_token-add value token header found =
    parse_token-get _ _
      (get-add authorization value header (λ e. absurd (cc (parse_token-absent header e))))
    ∙ found
