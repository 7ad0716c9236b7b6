-- ===== src/Token/Fake.antt =====
-- FakeJWT of pkg/util/token.go, and the fake reviewer of pkg/proxy/tokenreview/fake.
use pf9_oidc_proxy.Base.{ℕ, Option, none, List, []}
use pf9_oidc_proxy.Strings.{Str, bytes}
use pf9_oidc_proxy.Result.{Result, ◌>>=◌}
use pf9_oidc_proxy.Token.{TokenReviewSpec, TokenReply}

-- The day at whose start, in UTC, the token starts to be valid.
pub record Day : Type 0 where
  pub year : ℕ
  pub month : ℕ
  pub day : ℕ

-- `jwt.Claims`, as far as they are set. The audience is nil.
pub record Claims : Type 0 where
  pub subject : Str
  pub issuer : Str
  pub not_before : Day
  pub audience : List Str

unfoldable pub fake_claims : Str → Claims
fake_claims issuer_url = record {
  subject = bytes "fake";
  issuer = issuer_url;
  not_before = record { year = 2016; month = 1; day = 1 };
  audience = [];
}

-- The signer for HS256 by a key, and the signed text, are those of a library.
unfoldable pub fake_jwt :
    {Signer : Type 0}
    → (Str → Result Str Signer)
    → (Signer → Claims → Result Str Str)
    → Str
    → Result Str Str
unfolding fake_claims
fake_jwt new_signer serialize issuer_url =
    new_signer (bytes "secret") >>= λ sig. serialize sig (fake_claims issuer_url)

-- `CreateFn`, by the review that it is given and what it returns: nil for both at first.
pub record FakeReviewer : Type 0 where
  pub create_fn : TokenReviewSpec → Option TokenReply

unfoldable pub new_fake : FakeReviewer
new_fake = record { create_fn = λ spec. none }

unfoldable pub create_fake : FakeReviewer → TokenReviewSpec → Option TokenReply
create_fake f spec = f.create_fn spec

unfoldable pub with_create : Option TokenReply → FakeReviewer → FakeReviewer
with_create reply f = record f { create_fn = λ spec. reply }
