-- ===== src/Access/Spec.antt =====
-- What CheckAuthorizedForImpersonation promises: which reviews must be granted for a header, and what
-- a header asks for. Stated per header, with no loop state.
use pf9_oidc_proxy.Base.{true, List, [], ◌∷◌, ◌++◌, ◌≡◌, ◌⊎◌, if◌then◌else◌, All}
use pf9_oidc_proxy.Strings.{Str, bytes, ◌==◌, to_lower, has_prefix, split}
use pf9_oidc_proxy.Maps.{append_values}
use pf9_oidc_proxy.Users.{User}
use pf9_oidc_proxy.Http.{Header}
use pf9_oidc_proxy.Access.Review.{Review, Reply, answered, review_of, authentication_group}
use pf9_oidc_proxy.Access.Check.{
  Found, impersonate, impersonate_user, impersonate_group, impersonate_uid, impersonate_extra, drop,
}

pub data Kind : Type 0 where
  other user group uid unknown : Kind
  extra : Str → Kind

unfoldable pub classify : Str → Kind
classify key =
    let k = to_lower key in
    if has_prefix k impersonate
    then (if k == impersonate_user
        then user
        else if k == impersonate_group
        then group
        else if k == impersonate_uid
        then uid
        else if has_prefix k impersonate_extra
        then extra (to_lower (drop 18 key))
        else unknown)
    else other

-- The text before the first slash.
abbrev pub first_of : List Str → Str
first_of [] = []
first_of (s ∷ _) = s

module _ (create : Review → Reply) (requester : User) where
  -- The API server lets the requester impersonate this.
  abbrev pub MayUser : Str → Type 0
  MayUser name = create (review_of requester (bytes "users") [] [] name) ≡ answered true

  abbrev pub MayGroup : Str → Type 0
  MayGroup name = create (review_of requester (bytes "groups") [] [] name) ≡ answered true

  abbrev pub MayUid : Str → Type 0
  MayUid name = create (review_of requester (bytes "uids") [] [] name) ≡ answered true

  abbrev pub MayExtra : Str → Str → Type 0
  MayExtra key value =
      create (
        review_of requester (bytes "userextras") (first_of (split b'/' key)) authentication_group
          value)
      ≡ answered true

  abbrev pub Permitted : Kind → List Str → Type 0
  Permitted other vs = Unit
  Permitted user [] = ⊥
  Permitted user (v ∷ vs) = (v ≡ []) ⊎ MayUser v
  Permitted group vs = All MayGroup vs
  Permitted uid [] = ⊥
  Permitted uid (v ∷ vs) = MayUid v
  Permitted (extra key) vs = All (MayExtra key) vs
  Permitted unknown vs = ⊥

  abbrev pub AllPermitted : Header → Type 0
  AllPermitted [] = Unit
  AllPermitted ((key, vs) ∷ header) = Permitted (classify key) vs × AllPermitted header

abbrev pub mark : Str → Found → Found
mark key f = record f { headers_to_remove = key ∷ f.headers_to_remove; has_impersonation = true }

abbrev pub effect : Kind → Str → List Str → Found → Found
effect other key vs f = f
effect user key [] f = mark key f
effect user key (v ∷ vs) f = if v == [] then mark key f else record (mark key f) { name = v }
effect group key vs f = record (mark key f) { groups = f.groups ++ vs }
effect uid key [] f = mark key f
effect uid key (v ∷ vs) f = record (mark key f) { uid = v }
effect (extra k) key vs f = record (mark key f) { extra = append_values k vs f.extra }
effect unknown key vs f = mark key f

abbrev pub effects : Header → Found → Found
effects [] f = f
effects ((key, vs) ∷ header) f = effects header (effect (classify key) key vs f)
