-- ===== src/Access/Left/Values.antt =====
-- What the headers that are left hold.
use pf9_oidc_proxy.Base.{
  Bool, true, false, some, List, [], ◌∷◌, ◌++◌, ◌≡◌, inl, inr, refl, ap, sym, ◌∙◌, arith, any, All,
  Bool-cases, if◌then◌else◌, append_assoc, append-nil,
}
use pf9_oidc_proxy.Strings.{Str, ◌==◌}
use pf9_oidc_proxy.Strings.Equality.{eq_iff, eq_refl}
use pf9_oidc_proxy.Maps.{lookup, values_at, append_value, append_values, append_values-values}
use pf9_oidc_proxy.Result.{ok}
use pf9_oidc_proxy.Users.{User}
use pf9_oidc_proxy.Http.{Header, add, canonical_key, values}
use pf9_oidc_proxy.Access.Review.{Review, Reply}
use pf9_oidc_proxy.Access.Check.{
  Found, nothing_found, add_all, copy_headers, check_authorized_for_impersonation,
}
use pf9_oidc_proxy.Access.Spec.{effect, effects, classify}
use pf9_oidc_proxy.Access.Outcomes.{
  asks_impersonation, check_authorized_iff, check_authorized_some_user,
}
use pf9_oidc_proxy.Access.Left.{
  left-conclude, is_removed, effect-headers_to_remove, Covered, effects-Covered,
}

-- The headers as net/http delivers them: canonical names, each once.
abbrev pub IsDelivered : Header → Type 0
IsDelivered [] = Unit
IsDelivered ((key, vs) ∷ header) =
    (canonical_key key ≡ key) × All (λ e. (e.0 == key) ≡ false) header × IsDelivered header

abbrev AllAsk : List Str → Type 0
AllAsk = All (λ k. asks_impersonation k ≡ true)

add_all-append_values :
    (key : Str) (vs : List Str) (header : Header)
    → canonical_key key ≡ key
    → add_all key vs header ≡ append_values key vs header
add_all-append_values key [] header c = refl
add_all-append_values key (v ∷ vs) header c =
    add_all-append_values key vs (add key v header) c
    ∙ ap (append_values key vs) (unfold add append_value in rw c refl)

add_all-values :
    (wanted key : Str) (vs : List Str) (header : Header)
    → canonical_key key ≡ key
    → values_at wanted (add_all key vs header)
      ≡ values_at wanted header ++ (if key == wanted then vs else [])
add_all-values wanted key vs header c =
    rw (add_all-append_values key vs header c) (append_values-values wanted key vs header)

is_removed-asks :
    (removed : List Str) (x : Str)
    → AllAsk removed
    → is_removed removed x ≡ true
    → asks_impersonation x ≡ true
is_removed-asks [] x _ h = cc
is_removed-asks (k ∷ removed) x (a, later) h = elim (Bool-cases (k == x)) [
  | inl e ↦ let same = (eq_iff k x).0 e in rw (← same) a
  | inr e ↦ is_removed-asks removed x later (rw e at h)
]

effects-AllAsk :
    (header : Header) (f : Found)
    → AllAsk f.headers_to_remove
    → AllAsk (effects header f).headers_to_remove
effects-AllAsk [] f a = a
effects-AllAsk ((key, vs) ∷ header) f a = effects-AllAsk header (effect (classify key) key vs f) (
    rw (effect-headers_to_remove key vs f)
      (elim (Bool-cases (asks_impersonation key)) [ inl e ↦ rw e (e, a) | inr e ↦ rw e a ]))

abbrev has_key : Str → Header → Bool
has_key key header = any (λ e. e.0 == key) header

has_key-false :
    (key : Str) (header : Header)
    → All (λ e. (e.0 == key) ≡ false) header
    → has_key key header ≡ false
has_key-false key [] _ = refl
has_key-false key ((k, vs) ∷ header) (h, hs) = rw h (has_key-false key header hs)

values_at-no_key :
    (key : Str) (header : Header) → has_key key header ≡ false → values_at key header ≡ []
unfolding values_at lookup
values_at-no_key key [] h = refl
values_at-no_key key ((k, vs) ∷ header) h = elim (Bool-cases (k == key)) [
  | inl e ↦ cc (rw e at h)
  | inr e ↦ rw (e, lookup) (values_at-no_key key header (rw e at h))
]

has_key-removed :
    (key : Str) (removed : List Str) (header : Header)
    → Covered removed header
    → has_key key header ≡ true
    → asks_impersonation key ≡ true
    → is_removed removed key ≡ true
has_key-removed key removed [] _ h a = cc
has_key-removed key removed ((k, vs) ∷ header) (c, cs) h a = elim (Bool-cases (k == key)) [
  | inl e ↦ let same = (eq_iff k key).0 e in ground (arith, rw same at c)
  | inr e ↦ has_key-removed key removed header cs (rw e at h) a
]

-- The values that one entry adds to those copied before.
copied-values :
    (wanted key : Str) (removed : List Str) (header copied : Header)
    → canonical_key key ≡ key
    → values_at wanted
        (if is_removed removed key then copied else add_all key (values key header) copied)
      ≡ values_at wanted copied
        ++ (if key == wanted
            then (if is_removed removed key then [] else values_at key header)
            else [])
unfolding values
copied-values wanted key removed header copied c = elim (Bool-cases (is_removed removed key)) [
  | inl e ↦ rw e (ground (arith, append-nil (values_at wanted copied)))
  | inr e ↦ rw e (rw c (add_all-values wanted key (values_at key header) copied c))
]

copy_headers-values :
    (wanted : Str) (removed : List Str) (header rest copied : Header)
    → IsDelivered rest
    → values_at wanted (copy_headers removed header rest copied)
      ≡ values_at wanted copied
        ++ (if has_key wanted rest
            then (if is_removed removed wanted then [] else values_at wanted header)
            else [])
unfolding copy_headers
copy_headers-values wanted removed header [] copied _ = sym (append-nil (values_at wanted copied))
copy_headers-values wanted removed header ((key, vs) ∷ rest) copied (c, others, d) =
    copy_headers-values wanted removed header rest _ d
    ∙ rw (copied-values wanted key removed header copied c) (elim (Bool-cases (key == wanted)) [
      | inl e ↦
          let same = (eq_iff key wanted).0 e in
          rw (← same) (rw (eq_refl key, has_key-false key rest others) (append-nil _))
      | inr e ↦ rw e (append_assoc (values_at wanted copied) [] _)
    ])

kept-values :
    (wanted : Str) (removed : List Str) (header : Header)
    → AllAsk removed
    → Covered removed header
    → (if has_key wanted header
        then (if is_removed removed wanted then [] else values_at wanted header)
        else [])
      ≡ (if asks_impersonation wanted then [] else values_at wanted header)
kept-values wanted removed header a c = ground (
  arith,
  values_at-no_key wanted header,
  has_key-removed wanted removed header c,
  is_removed-asks removed wanted a,
)

module _ (create : Review → Reply) (requester : User) where
  -- With a target, of a header with canonical names, each once, the values under each name are left
  -- as they are, but for the names that start with `Impersonate-`, in any case: they have none.
  pub check_authorized-left :
      (header left : Header) (target : User) (name : Str)
      → IsDelivered header
      → check_authorized_for_impersonation create requester header ≡ ok (some target, left)
      → values_at name left ≡ (if asks_impersonation name then [] else values_at name header)
  unfolding values_at lookup
  check_authorized-left header left target name d e =
      let asked = check_authorized_some_user create requester header left target e in
      let same = ((check_authorized_iff create requester header (some target, left) asked).0 e).1 in
      let found = effects header nothing_found in
      rw (left-conclude header left target found same) (
        copy_headers-values name found.headers_to_remove header header [] d
        ∙ kept-values name found.headers_to_remove header (effects-AllAsk header nothing_found tt)
            (effects-Covered header nothing_found))
