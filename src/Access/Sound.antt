-- ===== src/Access/Sound.antt =====
-- What a target holds when it is handed back: only names, groups, ids and extra values for which the
-- API server has granted the requester's review.
use pf9_oidc_proxy.Base.{
  Option, some, List, [], ◌∷◌, ◌≡◌, ◌⊎◌, inl, inr, refl, ap, arith, subst, All, All-append,
  Bool-cases,
}
use pf9_oidc_proxy.Strings.{Str, ◌==◌}
use pf9_oidc_proxy.Strings.Equality.{eq_iff}
use pf9_oidc_proxy.Maps.{append_value, append_values, values_at, Map, insert, lookup, slice_at}
use pf9_oidc_proxy.Result.{ok}
use pf9_oidc_proxy.Users.{User, entries}
use pf9_oidc_proxy.Http.{Header}
use pf9_oidc_proxy.Access.Review.{Review, Reply}
use pf9_oidc_proxy.Access.Check.{
  Found, nothing_found, target_user, conclude, check_authorized_for_impersonation,
}
use pf9_oidc_proxy.Access.Spec.{
  Kind, other, user, group, uid, unknown, extra, MayUser, MayGroup, MayUid, MayExtra, Permitted,
  AllPermitted, effect, effects, classify,
}
use pf9_oidc_proxy.Access.Outcomes.{check_authorized_iff, check_authorized_some_user}

module _ (create : Review → Reply) (requester : User) where
  abbrev pub MayExtras : Map (List Str) → Type 0
  MayExtras = All (λ e. All (MayExtra create requester e.0) e.1)

  pub record IsAuthorized (name uid : Str) (groups : List Str) (extra : Map (List Str))
      : Type 0 where
    pub may_name : (name ≡ []) ⊎ MayUser create requester name
    pub may_groups : All (MayGroup create requester) groups
    pub may_uid : (uid ≡ []) ⊎ MayUid create requester uid
    pub may_extras : MayExtras extra

  MayExtras-slice :
      (key : Str) (m : Map (List Str))
      → MayExtras m
      → All (MayExtra create requester key) (slice_at (lookup key m))
  unfolding lookup
  MayExtras-slice key [] _ = tt
  MayExtras-slice key ((j, vs) ∷ m) (h, hs) = elim (Bool-cases (j == key)) [
    | inl e ↦
        rw (e, lookup) (subst (λ x. All (MayExtra create requester x) vs) ((eq_iff j key).0 e) h)
    | inr e ↦ rw (e, lookup) (MayExtras-slice key m hs)
  ]

  MayExtras-insert :
      (key : Str) (vs : List Str) (m : Map (List Str))
      → All (MayExtra create requester key) vs
      → MayExtras m
      → MayExtras (insert key vs m)
  unfolding insert
  MayExtras-insert key vs [] h _ = (h, tt)
  MayExtras-insert key vs ((j, ws) ∷ m) h (k, ks) = elim (Bool-cases (j == key)) [
    | inl e ↦ rw e (h, ks)
    | inr e ↦ rw e (k, MayExtras-insert key vs m h ks)
  ]

  MayExtras-append :
      (key : Str) (vs : List Str) (m : Map (List Str))
      → All (MayExtra create requester key) vs
      → MayExtras m
      → MayExtras (append_values key vs m)
  unfolding append_value values_at
  MayExtras-append key [] m _ k = k
  MayExtras-append key (v ∷ vs) m (h, hs) k = MayExtras-append key vs _ hs (
      MayExtras-insert key _ m
        (All-append _ (slice_at (lookup key m)) (v ∷ []) (MayExtras-slice key m k) (h, tt)) k)

  abbrev FoundAuthorized : Found → Type 0
  FoundAuthorized f = IsAuthorized f.name f.uid f.groups f.extra

  effect-IsAuthorized :
      (k : Kind) (key : Str) (vs : List Str) (f : Found)
      → Permitted create requester k vs
      → FoundAuthorized f
      → FoundAuthorized (effect k key vs f)
  effect-IsAuthorized other key vs f _ a = a
  effect-IsAuthorized user key (v ∷ vs) f p a = ground (arith, eq_iff v [])
  effect-IsAuthorized user key [] f p a = absurd p
  effect-IsAuthorized group key vs f p a = record {
    may_name = a.may_name;
    may_uid = a.may_uid;
    may_extras = a.may_extras;
    may_groups = All-append _ f.groups vs a.may_groups p;
  }
  effect-IsAuthorized uid key (v ∷ vs) f p a = record {
    may_name = a.may_name;
    may_uid = inr p;
    may_extras = a.may_extras;
    may_groups = a.may_groups;
  }
  effect-IsAuthorized uid key [] f p a = absurd p
  effect-IsAuthorized (extra k) key vs f p a = record {
    may_name = a.may_name;
    may_uid = a.may_uid;
    may_groups = a.may_groups;
    may_extras = MayExtras-append k vs f.extra p a.may_extras;
  }
  effect-IsAuthorized unknown key vs f p a = absurd p

  effects-IsAuthorized :
      (header : Header) (f : Found)
      → AllPermitted create requester header
      → FoundAuthorized f
      → FoundAuthorized (effects header f)
  effects-IsAuthorized [] f _ a = a
  effects-IsAuthorized ((key, vs) ∷ header) f (p, ps) a =
      effects-IsAuthorized header _ ps (effect-IsAuthorized (classify key) key vs f p a)

  target-conclude :
      (header left : Header) (target : User) (f : Found)
      → ◌≡◌ {A = Option User × Header} (some target, left) (conclude header f)
      → target ≡ target_user f
  target-conclude header left target f e = elim (Bool-cases f.has_impersonation) [
    | inl h ↦ cc (ap (λ r. r.0) (rw h at e))
    | inr h ↦ cc (ap (λ r. r.0) (rw h at e))
  ]

  -- Whatever the headers are, a target that is handed back holds only what the API server has granted
  -- the requester: its name (or none), each group, its id (or none), and each extra value.
  pub checked_target-IsAuthorized :
      (header left : Header) (target : User)
      → check_authorized_for_impersonation create requester header ≡ ok (some target, left)
      → IsAuthorized target.name target.uid target.groups (entries target.extra)
  checked_target-IsAuthorized header left target e =
      let asked = check_authorized_some_user create requester header left target e in
      let (p, e') = (check_authorized_iff create requester header (some target, left) asked).0 e in
      let same = target-conclude header left target (effects header nothing_found) e' in
      rw same (
        effects-IsAuthorized header nothing_found p
          (record { may_name = inl refl; may_uid = inl refl; may_groups = tt; may_extras = tt }))
