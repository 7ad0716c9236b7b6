-- ===== src/Command/Reviewers.antt =====
-- The reviewers that cmd/app/run.go makes: New of pkg/proxy/tokenreview and of
-- pkg/proxy/subjectaccessreview. The API server's client is a library's.
use pf9_oidc_proxy.Base.{Bool, true, false, Option, none, some, List, ◌≡◌, if◌then◌else◌, sym, ap}
use pf9_oidc_proxy.Strings.{Str}
use pf9_oidc_proxy.Result.{Result, ok, map_ok, map_ok-eq-ok}
use pf9_oidc_proxy.Token.{TokenReviewSpec, TokenReply}
use pf9_oidc_proxy.Access.Review.{Review, Reply}
use pf9_oidc_proxy.Command.Options.{Options, TokenPassthroughOptions, proxy_config}

pub record TokenReview : Type 0 where
  pub review_requester : TokenReviewSpec → TokenReply
  pub audiences : List Str

pub record SubjectAccessReview : Type 0 where
  pub subject_access_reviewer : Review → Reply

-- What is created gets the errors of the library.
unfoldable pub new_subject_access_review : (Review → Reply) → Result Str SubjectAccessReview
new_subject_access_review reviewer = ok (record { subject_access_reviewer = reviewer })

module _ (new_client : Result Str (TokenReviewSpec → TokenReply)) where
  unfoldable pub new_token_review : List Str → Result Str TokenReview
  new_token_review audiences =
      map_ok (λ reviews. record { review_requester = reviews; audiences = audiences }) new_client

  -- The reviewer of the command, nil unless token passthrough is enabled.
  unfoldable pub token_reviewer : TokenPassthroughOptions → Result Str (Option TokenReview)
  unfolding new_token_review
  token_reviewer o = if o.enabled then map_ok some (new_token_review o.audiences) else ok none

  made :
      (enabled : Bool) (audiences : List Str) (r : Option TokenReview)
      → enabled ≡ true
      → (if enabled then map_ok some (new_token_review audiences) else ok none) ≡ ok r
      → (t : TokenReview) × (r ≡ some t) × (t.audiences ≡ audiences)
  unfolding new_token_review
  made true audiences r on e =
      let (t, made_it, same) = map_ok-eq-ok some (new_token_review audiences) e in
      let (reviews, _, built) = map_ok-eq-ok _ new_client made_it in
      (t, sym same, ap (λ k. k.audiences) (sym built))
  made false audiences r on e = cc

  -- Where the proxy's configuration has token review enabled, the command has a reviewer, with the
  -- audiences of the options.
  pub token_reviewer-enabled :
      (o : Options) (r : Option TokenReview)
      → (proxy_config o.app).token_review ≡ true
      → token_reviewer o.app.token_passthrough ≡ ok r
      → (t : TokenReview) × (r ≡ some t) × (t.audiences ≡ o.app.token_passthrough.audiences)
  unfolding token_reviewer proxy_config
  token_reviewer-enabled o r on e =
      made o.app.token_passthrough.enabled o.app.token_passthrough.audiences r on e
