-- ===== src/Access/NoPanic.antt =====
-- No index of CheckAuthorizedForImpersonation is out of range on the headers that net/http delivers.
use pf9_oidc_proxy.Base.{
  Bool, true, false, List, [], ◌∷◌, ◌≢◌, refl, arith, All, if◌then◌else◌, not,
}
use pf9_oidc_proxy.Strings.{Str, ◌==◌}
use pf9_oidc_proxy.Result.{Result, panic, >>=-no_panic, ok-no_panic, err-no_panic}
use pf9_oidc_proxy.Users.{User}
use pf9_oidc_proxy.Http.{Header}
use pf9_oidc_proxy.Access.Review.{Review, Reply, Error, answered, failed, reply_result}
use pf9_oidc_proxy.Access.Check.{
  Found, nothing_found, check_user, check_groups, check_uid, check_extras, check_header,
  check_headers, check_authorized_for_impersonation,
}
use pf9_oidc_proxy.Access.Steps.{
  authorized-users, authorized-groups, authorized-uids, authorized-extras,
}

-- Each name has a value.
abbrev pub HasValues : Header → Type 0
HasValues = All (λ e. e.1 ≢ [])

reply_result-no_panic : (r : Reply) → reply_result r ≢ panic
unfolding reply_result
reply_result-no_panic (answered b) = ground arith
reply_result-no_panic (failed text) = ground arith

if-no_panic :
    {A : Type 0} (b : Bool) (m m' : Result Error A)
    → m ≢ panic
    → m' ≢ panic
    → (if b then m else m') ≢ panic
if-no_panic true m m' h h' = h
if-no_panic false m m' h h' = h'

module _ (create : Review → Reply) (requester : User) where
  check_user-no_panic :
      (vs : List Str) (f : Found) → vs ≢ [] → check_user create requester vs f ≢ panic
  unfolding check_user
  check_user-no_panic [] f h = absurd (h refl)
  check_user-no_panic (v ∷ vs) f h = if-no_panic (v == []) _ _ (ok-no_panic _) (
      >>=-no_panic _ _ (rw (authorized-users create requester v) (reply_result-no_panic (create _)))
        (λ b. if-no_panic b _ _ (ok-no_panic _) (err-no_panic _)))

  check_uid-no_panic :
      (vs : List Str) (f : Found) → vs ≢ [] → check_uid create requester vs f ≢ panic
  unfolding check_uid
  check_uid-no_panic [] f h = absurd (h refl)
  check_uid-no_panic (v ∷ vs) f h =
      >>=-no_panic _ _ (rw (authorized-uids create requester v) (reply_result-no_panic (create _)))
        (λ b. if-no_panic b _ _ (ok-no_panic _) (err-no_panic _))

  check_groups-no_panic : (vs : List Str) (f : Found) → check_groups create requester vs f ≢ panic
  unfolding check_groups
  check_groups-no_panic [] f = ok-no_panic f
  check_groups-no_panic (v ∷ vs) f =
      >>=-no_panic _ _
        (rw (authorized-groups create requester v) (reply_result-no_panic (create _)))
        (λ b. if-no_panic b _ _ (check_groups-no_panic vs _) (err-no_panic _))

  check_extras-no_panic :
      (key : Str) (vs : List Str) (f : Found) → check_extras create requester key vs f ≢ panic
  unfolding check_extras
  check_extras-no_panic key [] f = ok-no_panic f
  check_extras-no_panic key (v ∷ vs) f =
      >>=-no_panic _ _
        (rw (authorized-extras create requester key v) (reply_result-no_panic (create _)))
        (λ b. if-no_panic b _ _ (check_extras-no_panic key vs _) (err-no_panic _))

  check_header-no_panic :
      (b : Bool) (key : Str) (vs : List Str) (f : Found)
      → vs ≢ []
      → check_header create requester b key vs f ≢ panic
  unfolding check_header
  check_header-no_panic b key vs f h =
      if-no_panic _ _ _
        (if-no_panic (not b) _ _ (err-no_panic _) (
          if-no_panic _ _ _ (check_user-no_panic vs _ h) (
            if-no_panic _ _ _ (check_groups-no_panic vs _) (
              if-no_panic _ _ _ (check_uid-no_panic vs _ h)
                (if-no_panic _ _ _ (check_extras-no_panic _ vs _) (err-no_panic _))))))
        (ok-no_panic f)

  check_headers-no_panic :
      (b : Bool) (header : Header) (f : Found)
      → HasValues header
      → check_headers create requester b header f ≢ panic
  unfolding check_headers
  check_headers-no_panic b [] f _ = ok-no_panic f
  check_headers-no_panic b ((key, vs) ∷ header) f (h, hs) =
      >>=-no_panic _ _ (check_header-no_panic b key vs f h)
        (λ f'. check_headers-no_panic b header f' hs)

  -- If each name of the header has a value, no index of the check is out of range.
  pub check_authorized-no_panic :
      (header : Header)
      → HasValues header
      → check_authorized_for_impersonation create requester header ≢ panic
  unfolding check_authorized_for_impersonation
  check_authorized-no_panic header h =
      >>=-no_panic _ _ (check_headers-no_panic _ header nothing_found h) (λ f. ok-no_panic _)
