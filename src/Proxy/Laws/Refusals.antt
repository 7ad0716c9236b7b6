-- ===== src/Proxy/Laws/Refusals.antt =====
-- What a user gets who may not impersonate whom the headers name.
use pf9_oidc_proxy.Base.{true, false, [], ◌∷◌, ◌++◌, ◌≡◌, ◌≢◌, refl, arith}
use pf9_oidc_proxy.Strings.{Str, bytes, ◌==◌, contains, has_prefix}
use pf9_oidc_proxy.Strings.Equality.{eq_iff}
use pf9_oidc_proxy.Result.{err}
use pf9_oidc_proxy.Users.{User}
use pf9_oidc_proxy.Http.{Header}
use pf9_oidc_proxy.Access.Review.{
  Error, user_not_allowed, group_not_allowed, uid_not_allowed, extra_not_allowed,
  no_impersonation_user_found, unknown_header, api_error, error_text,
}
use pf9_oidc_proxy.Access.Check.{check_authorized_for_impersonation}
use pf9_oidc_proxy.Namespace.Region.{Url}
use pf9_oidc_proxy.Proxy.Context.{Request, no_impersonation, with_user, remote_addr}
use pf9_oidc_proxy.Proxy.Errors.{review_error, Handler, http_error, handle_error, not_allowed_text}
use pf9_oidc_proxy.Proxy.Impersonation.{
  authenticated, Proxy, fail, has_impersonation, with_target, with_user_of_context,
  impersonate_request, with_impersonate_request,
}
use pf9_oidc_proxy.Proxy.Handlers.{authenticated_request, with_authenticate_request, with_handlers}
use pf9_oidc_proxy.Proxy.Laws.Admission.{fresh}

has_prefix-append : (part rest : Str) → has_prefix (part ++ rest) part ≡ true
unfolding has_prefix
has_prefix-append [] [] = refl
has_prefix-append [] (c ∷ rest) = refl
has_prefix-append (c ∷ part) rest = ground (arith, has_prefix-append part rest)

contains-start : (s part : Str) → has_prefix s part ≡ true → contains s part ≡ true
unfolding contains
contains-start [] part h = h
contains-start (c ∷ s) part h = rw h refl

contains-later : (p s part : Str) → contains s part ≡ true → contains (p ++ s) part ≡ true
unfolding contains
contains-later [] s part h = h
contains-later (c ∷ p) s part h = rw (contains-later p s part h) (ground arith)

-- The errors of a review that is answered with no.
abbrev pub IsDenial : Error → Type 0
IsDenial (user_not_allowed requester name) = Unit
IsDenial (group_not_allowed requester name) = Unit
IsDenial (uid_not_allowed requester name) = Unit
IsDenial (extra_not_allowed requester key value) = Unit
IsDenial no_impersonation_user_found = ⊥
IsDenial (unknown_header key) = ⊥
IsDenial (api_error text) = ⊥

contains-refusal :
    (requester rest : Str)
    → contains (requester ++ (bytes " is not allowed to impersonate " ++ rest)) not_allowed_text
      ≡ true
contains-refusal requester rest = contains-later requester _ not_allowed_text (
    contains-later (bytes " is ") _ not_allowed_text
      (contains-start _ not_allowed_text (has_prefix-append not_allowed_text (bytes " " ++ rest))))

error_text-IsDenial : (e : Error) → IsDenial e → contains (error_text e) not_allowed_text ≡ true
unfolding error_text
error_text-IsDenial (user_not_allowed requester name) _ = contains-refusal requester _
error_text-IsDenial (group_not_allowed requester name) _ = contains-refusal requester _
error_text-IsDenial (uid_not_allowed requester name) _ = contains-refusal requester _
error_text-IsDenial (extra_not_allowed requester key value) _ =
    contains-later requester _ not_allowed_text (
      contains-later (bytes " is ") _ not_allowed_text (
        contains-start _ not_allowed_text (
          has_prefix-append not_allowed_text
            (bytes " extra info '" ++ (key ++ (bytes "'='" ++ (value ++ bytes "'")))))))
error_text-IsDenial no_impersonation_user_found d = elim d [ ]
error_text-IsDenial (unknown_header key) d = elim d [ ]
error_text-IsDenial (api_error text) d = elim d [ ]

module _ {Query : Type 0} (p : Proxy Query) where
  fail-IsDenial :
      (req : Request Query) (e : Error)
      → IsDenial e
      → fail p req (review_error e) ≡ http_error (error_text e) 403
  unfolding handle_error
  fail-IsDenial req (user_not_allowed requester name) d =
      rw (error_text-IsDenial (user_not_allowed requester name) d) refl
  fail-IsDenial req (group_not_allowed requester name) d =
      rw (error_text-IsDenial (group_not_allowed requester name) d) refl
  fail-IsDenial req (uid_not_allowed requester name) d =
      rw (error_text-IsDenial (uid_not_allowed requester name) d) refl
  fail-IsDenial req (extra_not_allowed requester key value) d =
      rw (error_text-IsDenial (extra_not_allowed requester key value) d) refl
  fail-IsDenial req no_impersonation_user_found d = elim d [ ]
  fail-IsDenial req (unknown_header key) d = elim d [ ]
  fail-IsDenial req (api_error text) d = elim d [ ]

  -- With impersonation enabled, an authenticated user with a name who has impersonation headers,
  -- and for whom the check of these headers ends with the error that a user, a group, an id or an
  -- extra value is not allowed, is answered with 403 and the text of the error, whatever the
  -- handler is: the request is never handed on.
  pub with_handlers-denied :
      (handler : Handler Query) (header : Header) (url : Url Query) (address : Str) (user : User)
      (e : Error)
      → (p.authenticate_request (fresh header url address)).0 ≡ authenticated user
      → p.config.disable_impersonation ≡ false
      → user.name ≢ []
      → has_impersonation (p.authenticate_request (fresh header url address)).1 ≡ true
      → check_authorized_for_impersonation p.create_access_review user
          (p.authenticate_request (fresh header url address)).1
        ≡ err e
      → IsDenial e
      → with_handlers p handler (fresh header url address) ≡ http_error (error_text e) 403
  unfolding with_handlers with_authenticate_request authenticated_request with_impersonate_request
      impersonate_request with_user_of_context with_target no_impersonation with_user remote_addr
  with_handlers-denied handler header url address user e known on named asked refused d =
      let unnamed : (user.name == []) ≡ false = ground (arith, eq_iff user.name []) in
      rw known (rw on (rw unnamed (rw asked (rw refused (fail-IsDenial _ e d)))))
