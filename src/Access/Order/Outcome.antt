-- ===== src/Access/Order/Outcome.antt =====
-- The order in which Go meets the headers has no influence on whether an impersonation is allowed,
-- nor on its target, nor on the headers that are left.
use mathlib.Core.List.{Permᴰ}
use pf9_oidc_proxy.Permutations.{any-perm, AtMostOne-perm}
use pf9_oidc_proxy.Base.{
  true, false, ◌||◌, Option, some, [], ◌++◌, ◌≡◌, ◌≢◌, inl, inr, refl, ap, sym, ◌∙◌, Bool-cases,
  if◌then◌else◌,
}
use pf9_oidc_proxy.Strings.{Str}
use pf9_oidc_proxy.Maps.{values_at}
use pf9_oidc_proxy.Result.{ok}
use pf9_oidc_proxy.Users.{User, entries}
use pf9_oidc_proxy.Http.{Header, get, first_value}
use pf9_oidc_proxy.Access.Review.{Review, Reply}
use pf9_oidc_proxy.Access.Check.{
  Found, nothing_found, impersonate_user, copy_headers, conclude, target_user,
  check_authorized_for_impersonation,
}
use pf9_oidc_proxy.Access.Spec.{user, group, uid, extra, AllPermitted, effects}
use pf9_oidc_proxy.Access.Outcomes.{
  asks_impersonation, check_authorized_iff, check_authorized_some_user,
}
use pf9_oidc_proxy.Access.Untouched.{effects-has_impersonation}
use pf9_oidc_proxy.Access.Left.Values.{IsDelivered, check_authorized-left}
use pf9_oidc_proxy.Access.Order.{
  same, named, identified, flat, effects-name, effects-uid, effects-groups, effects-extra,
}
use pf9_oidc_proxy.Access.Order.Permuted.{IsDelivered-perm, values_at-perm, picked-perm, IsUnique}
use pf9_oidc_proxy.Access.Order.Unique.{HasTokens, IsDelivered-IsUnique}

-- Two targets that agree, their extra values as maps.
pub record SameTarget (t t' : User) : Type 0 where
  pub names : t'.name ≡ t.name
  pub uids : t'.uid ≡ t.uid
  pub groups : t'.groups ≡ t.groups
  pub extras : (e : Str) → values_at e (entries t'.extra) ≡ values_at e (entries t.extra)

effects-SameTarget :
    (header header' : Header)
    → Permᴰ header header'
    → IsUnique header
    → SameTarget
        (target_user (effects header nothing_found))
        (target_user (effects header' nothing_found))
effects-SameTarget header header' p u = record {
  names =
      effects-name header' nothing_found
      ∙ ap (λ r. named r []) (AtMostOne-perm (picked-perm user p) u.users)
      ∙ sym (effects-name header nothing_found);
  uids =
      effects-uid header' nothing_found
      ∙ ap (λ r. identified r []) (AtMostOne-perm (picked-perm uid p) u.uids)
      ∙ sym (effects-uid header nothing_found);
  groups =
      effects-groups header' nothing_found
      ∙ ap flat (AtMostOne-perm (picked-perm group p) u.groups)
      ∙ sym (effects-groups header nothing_found);
  extras = λ e.
      effects-extra e header' nothing_found
      ∙ ap (λ r. values_at e [] ++ flat r) (AtMostOne-perm (picked-perm (extra e) p) (u.extras e))
      ∙ sym (effects-extra e header nothing_found);
}

module _ (create : Review → Reply) (requester : User) where
  AllPermitted-perm :
      {header header' : Header}
      → Permᴰ header header'
      → AllPermitted create requester header
      → AllPermitted create requester header'
  AllPermitted-perm Permᴰ.nil h = tt
  AllPermitted-perm (Permᴰ.cons e p) (h, hs) = (rw (← e) h, AllPermitted-perm p hs)
  AllPermitted-perm (Permᴰ.swap e e') (h, (k, hs)) = (rw (← e') k, (rw (← e) h, hs))
  AllPermitted-perm (Permᴰ.trans p q) h = AllPermitted-perm q (AllPermitted-perm p h)

  conclude-some :
      (header left : Header) (target : User) (f : Found)
      → ◌≡◌ {A = Option User × Header} (some target, left) (conclude header f)
      → (f.has_impersonation ≡ true) × (target ≡ target_user f)
  conclude-some header left target f e = elim (Bool-cases f.has_impersonation) [
    | inl h ↦ (h, cc (ap (λ r. r.0) (rw h at e)))
    | inr h ↦ absurd (cc (ap (λ r. r.0) (rw h at e)))
  ]

  -- The result on the other order, from what holds of it.
  outcome_of :
      (header : Header)
      → get impersonate_user header ≢ []
      → AllPermitted create requester header
      → (effects header nothing_found).has_impersonation ≡ true
      → check_authorized_for_impersonation create requester header
        ≡ ok (
          some (target_user (effects header nothing_found)),
          copy_headers (effects header nothing_found).headers_to_remove header header [],
        )
  outcome_of header asked may has =
      (check_authorized_iff create requester header _ asked).1 (may, rw has refl)

  -- In whatever order Go meets the headers of a request that is allowed to impersonate, whose names
  -- net/http accepts and makes canonical, each once: the request is allowed, with the same target,
  -- and the same values are left under each name.
  pub check_authorized_any_order :
      (header header' left : Header) (target : User)
      → Permᴰ header header'
      → IsDelivered header
      → HasTokens header
      → check_authorized_for_impersonation create requester header ≡ ok (some target, left)
      → (target' : User) × (left' : Header) × (check_authorized_for_impersonation create requester
            header'
          ≡ ok (some target', left'))
        × SameTarget target target'
        × ((name : Str) → values_at name left' ≡ values_at name left)
  unfolding get
  check_authorized_any_order header header' left target p d t e =
      let asked = check_authorized_some_user create requester header left target e in
      let (may, same) =
        (check_authorized_iff create requester header (some target, left) asked).0 e in
      let (has, is_found) = conclude-some header left target (effects header nothing_found) same in
      let asked' = λ (none_left : get impersonate_user header' ≡ []).
        asked (ap first_value (sym (values_at-perm _ p d)) ∙ none_left) in
      let has' =
        effects-has_impersonation header' nothing_found
        ∙ ap (λ b. b || false) (any-perm (λ e. asks_impersonation e.0) p)
        ∙ sym (effects-has_impersonation header nothing_found)
        ∙ has in
      let e' = outcome_of header' asked' (AllPermitted-perm p may) has' in
      (
        target_user (effects header' nothing_found),
        _,
        e',
        rw is_found (effects-SameTarget header header' p (IsDelivered-IsUnique header t d)),
        λ name.
            check_authorized-left create requester header' _ _ name (IsDelivered-perm p d) e'
            ∙ ap (λ vs. if asks_impersonation name then [] else vs) (values_at-perm name p d)
            ∙ sym (check_authorized-left create requester header left target name d e),
      )
