-- ===== src/Proxy/Laws/Chain.antt =====
-- What follows an admitted request through the authentication and impersonation handlers.
use pf9_oidc_proxy.Base.{
  Bool, true, false, Option, none, some, [], ◌≡◌, ◌≢◌, refl, arith, Bool-cases, if◌then◌else◌, inl,
  inr, ap,
}
use pf9_oidc_proxy.Strings.{Str, ◌==◌}
use pf9_oidc_proxy.Strings.Equality.{eq_iff}
use pf9_oidc_proxy.Result.{Result, ok, err, panic}
use pf9_oidc_proxy.Users.{User}
use pf9_oidc_proxy.Http.{Header}
use pf9_oidc_proxy.Access.Check.{check_authorized_for_impersonation}
use pf9_oidc_proxy.Access.Sound.{checked_target-IsAuthorized}
use pf9_oidc_proxy.Access.Left.{any-NoImpersonation, check_authorized-NoImpersonation}
use pf9_oidc_proxy.Access.Review
use pf9_oidc_proxy.Access.Untouched.{check_authorized-none_inv}
use pf9_oidc_proxy.Token
use pf9_oidc_proxy.Token.{review}
use pf9_oidc_proxy.Namespace.Region.{Url}
use pf9_oidc_proxy.Proxy.Context.{
  Request, ImpersonationRequest, no_impersonation, impersonation_config, with_no_impersonation,
  with_impersonation_config, with_user, remote_addr,
}
use pf9_oidc_proxy.Proxy.Errors.{Error, Response, panicked, Handler}
use pf9_oidc_proxy.Proxy.Impersonation.Build.{build_request}
use pf9_oidc_proxy.Proxy.Impersonation.{
  Authentication, authenticated, not_authenticated, failed, Proxy, fail, has_impersonation, pass_on,
  with_target, with_user_of_context, impersonate_request, with_impersonate_request,
}
use pf9_oidc_proxy.Proxy.Handlers.{
  is_reviewed, authenticated_request, review_token, with_token_review, with_authenticate_request,
}
use pf9_oidc_proxy.Access.NoPanic.{check_authorized-no_panic}
use pf9_oidc_proxy.Proxy.Laws.Extra.{build_request-built}
use pf9_oidc_proxy.Proxy.Laws.Building.{build_request-no_panic}
use pf9_oidc_proxy.Proxy.Laws.Admitted.{
  fresh, Returns, IsFor, client_address, Admitted, by_token_review, without_impersonation, as_user,
  as_target,
}

is_reviewed-true : (m : Result Token.Error Bool) → is_reviewed m ≡ true → m ≡ ok true
unfolding is_reviewed
is_reviewed-true (ok b) e = ap ok e
is_reviewed-true (err _) e = cc
is_reviewed-true panic e = cc

-- Two handlers behind the chain, a relation of the answers that holds of each answer of the error
-- handler and of itself, and of the two handlers' answers to an admitted request.
module _ {Query : Type 0} (p : Proxy Query) (header : Header) (url : Url Query) (address : Str)
    (Related : Response Query → Response Query → Type 0)
    (failing : (r : Request Query) (e : Error) → Related (fail p r e) (fail p r e))
    (panicking : ¬ Returns p (fresh header url address) → Related panicked panicked)
    (h h' : Handler Query)
    (agree : (r : Request Query)
      → Admitted p (fresh header url address) r
      → Related (h r) (h' r)) where
  if-Related :
      (b : Bool) (x y x' y' : Response Query)
      → (b ≡ true → Related x x')
      → (b ≡ false → Related y y')
      → Related (if b then x else y) (if b then x' else y')
  if-Related true x y x' y' taken skipped = taken refl
  if-Related false x y x' y' taken skipped = skipped refl

  abbrev arrived : Request Query
  arrived = fresh header url address

  abbrev remaining : Header
  remaining = (p.authenticate_request arrived).1

  abbrev left_request : Request Query
  left_request = fresh remaining url address

  -- The request with the user of its context.
  abbrev known_request : User → Request Query
  known_request user = with_user (remote_addr p.get_remote_addr left_request).0 user

  agree_unreviewed :
      (text : Str)
      → (p.authenticate_request arrived).0 ≡ failed text
      → Related
          (with_token_review p (with_impersonate_request p h) left_request)
          (with_token_review p (with_impersonate_request p h') left_request)
  unfolding with_token_review with_impersonate_request with_no_impersonation no_impersonation
  agree_unreviewed text e = elim (Bool-cases p.config.token_review) [
    | inr off ↦ rw off (failing _ _)
    | inl on ↦ elim (Bool-cases (review_token p left_request)) [
      | inr bad ↦ rw (on, bad) (failing _ _)
      | inl good ↦
          rw (on, good)
            (agree (with_no_impersonation left_request) (
              by_token_review text e on (unfold review_token in is_reviewed-true _ good) refl
                (record { header_is = refl; url_is = refl })))
    ]
  ]

  module _ (user : User) (known : (p.authenticate_request arrived).0 ≡ authenticated user) where
    agree_passed :
        (target : Option User) (left : Header)
        → user.name ≢ []
        → ((conf : ImpersonationRequest) (r : Request Query)
            → r.header ≡ left
            → r.url ≡ url
            → no_impersonation r ≡ false
            → impersonation_config r ≡ some conf
            → IsFor p (client_address p arrived) user target conf
            → Related (h r) (h' r))
        → (b : Result Str (ImpersonationRequest × User))
        → build_request p.config p.marshal (client_address p arrived) user target ≡ b
        → Related
            (pass_on p h (record (known_request user) { header = left }) b)
            (pass_on p h' (record (known_request user) { header = left }) b)
    unfolding pass_on with_impersonation_config impersonation_config no_impersonation with_user
        remote_addr
    agree_passed target left named same (ok (conf, shared)) e =
        let (name_is, groups_are, extra_is) = build_request-built _ _ _ _ _ _ _ e in
        same conf _ refl refl refl refl (record {
          named = named;
          name_is = name_is;
          groups_are = groups_are;
          extra_is = extra_is;
        })
    agree_passed target left named same (err text) e = failing _ _
    agree_passed target left named same panic e =
        panicking
          (λ returns. build_request-no_panic p.config p.marshal _ user target returns.marshals e)

    agree_target :
        p.config.disable_impersonation ≡ false
        → user.name ≢ []
        → (m : Result Review.Error (Option User × Header))
        → check_authorized_for_impersonation p.create_access_review user remaining ≡ m
        → Related
            (with_target p h (known_request user) (client_address p arrived) user m)
            (with_target p h' (known_request user) (client_address p arrived) user m)
    unfolding with_target
    agree_target on named (ok (none, left)) e =
        agree_passed none left named
          (λ conf r kept placed unmarked conf_is is_for.
            let (plain, same) =
              check_authorized-none_inv p.create_access_review user remaining left e in
            agree r (
              as_user user conf known on placed (unfold has_impersonation in rw (kept, same) plain)
                unmarked conf_is is_for))
          _ refl
    agree_target on named (ok (some target, left)) e =
        agree_passed (some target) left named
          (λ conf r kept placed unmarked conf_is is_for. agree r (
            as_target user target conf known on
              (checked_target-IsAuthorized p.create_access_review user remaining left target e)
              placed
              (unfold has_impersonation in
                rw kept (
                  any-NoImpersonation left (
                    check_authorized-NoImpersonation p.create_access_review user remaining left
                      target e)))
              unmarked conf_is is_for))
          _ refl
    agree_target on named (err _) e = failing _ _
    agree_target on named panic e = panicking (λ returns.
        check_authorized-no_panic p.create_access_review user remaining returns.has_values e)

    -- A user with a name, with impersonation enabled.
    agree_named :
        p.config.disable_impersonation ≡ false
        → user.name ≢ []
        → Related
            (with_target p h (known_request user) (client_address p arrived) user (
              if has_impersonation remaining
              then check_authorized_for_impersonation p.create_access_review user remaining
              else ok (none, remaining)))
            (with_target p h' (known_request user) (client_address p arrived) user (
              if has_impersonation remaining
              then check_authorized_for_impersonation p.create_access_review user remaining
              else ok (none, remaining)))
    unfolding with_target
    agree_named on named = elim (Bool-cases (has_impersonation remaining)) [
      | inl asked ↦ rw asked (agree_target on named _ refl)
      | inr plain ↦ rw plain (
          agree_passed none remaining named
            (λ conf r kept placed unmarked conf_is is_for. agree r (
              as_user user conf known on placed (unfold has_impersonation in rw kept plain) unmarked
                conf_is is_for))
            _ refl)
    ]

    agree_known :
        Related
          (with_impersonate_request p h (known_request user))
          (with_impersonate_request p h' (known_request user))
    unfolding with_impersonate_request impersonate_request with_user_of_context no_impersonation
        with_user remote_addr with_no_impersonation
    agree_known =
        if-Related p.config.disable_impersonation _ _ _ _
          (λ off. agree (with_no_impersonation (known_request user)) (
            without_impersonation user known off refl (record { header_is = refl; url_is = refl })))
          (λ on.
            if-Related (user.name == []) _ _ _ _ (λ unnamed. failing _ _)
              (λ named.
                agree_named on
                  (λ (e : user.name ≡ []). absurd (ground (arith, eq_iff user.name [])))))

  agree_authenticated :
      (info : Authentication)
      → (p.authenticate_request arrived).0 ≡ info
      → Related
          (authenticated_request p (with_impersonate_request p h) left_request info)
          (authenticated_request p (with_impersonate_request p h') left_request info)
  unfolding authenticated_request
  agree_authenticated (authenticated user) e = agree_known user e
  agree_authenticated not_authenticated e = failing _ _
  agree_authenticated (failed text) e = agree_unreviewed text e

  pub with_authenticate_request-Related :
      Related
        (with_authenticate_request p (with_impersonate_request p h) arrived)
        (with_authenticate_request p (with_impersonate_request p h') arrived)
  unfolding with_authenticate_request
  with_authenticate_request-Related = agree_authenticated (p.authenticate_request arrived).0 refl
