-- ===== src/Access/Order/Unique.antt =====
-- Of canonical names, each once, no two ask for the same part of the target.
use pf9_oidc_proxy.Base.{
  ℕ, zero, suc, Bool, true, false, [], ◌∷◌, ◌++◌, ◌≡◌, inl, inr, refl, ap, sym, ◌∙◌, arith, All,
  Bool-cases, eqb, length,
}
use pf9_oidc_proxy.Strings.{Str, ◌==◌, lower, upper, to_lower, has_prefix}
use pf9_oidc_proxy.Strings.Equality.{eq_iff}
use pf9_oidc_proxy.Http.{Header, canonical_key, canonical_from, all_tokens}
use pf9_oidc_proxy.Access.Check.{
  drop, impersonate_user, impersonate_group, impersonate_uid, impersonate_extra,
}
use pf9_oidc_proxy.Access.Spec.{Kind, other, user, group, uid, unknown, extra, classify}
use pf9_oidc_proxy.Access.Left.Values.{IsDelivered}
use pf9_oidc_proxy.Access.Order.{same, picked}
use pf9_oidc_proxy.Access.Order.Permuted.{IsUnique}
use pf9_oidc_proxy.Permutations.{AtMostOne}

upper-lower : (c : ℕ) → upper (lower c) ≡ upper c
unfolding upper lower
upper-lower c = ground arith

lower_idem : (c : ℕ) → lower (lower c) ≡ lower c
unfolding lower
lower_idem c = ground arith

is_dash-lower : (c : ℕ) → eqb (lower c) b'-' ≡ eqb c b'-'
unfolding lower
is_dash-lower c = ground arith

canonical_from-to_lower :
    (up : Bool) (s : Str) → canonical_from up (to_lower s) ≡ canonical_from up s
unfolding canonical_from to_lower
canonical_from-to_lower up [] = refl
canonical_from-to_lower true (c ∷ s) =
    rw (upper-lower c, is_dash-lower c, canonical_from-to_lower (eqb c b'-') s) refl
canonical_from-to_lower false (c ∷ s) =
    rw (lower_idem c, is_dash-lower c, canonical_from-to_lower (eqb c b'-') s) refl

canonical-injective :
    (a b : Str)
    → all_tokens a ≡ true
    → all_tokens b ≡ true
    → canonical_key a ≡ a
    → canonical_key b ≡ b
    → to_lower a ≡ to_lower b
    → a ≡ b
unfolding canonical_key
canonical-injective a b ta tb ca cb e =
    let ca' : canonical_from true a ≡ a = rw ta at ca in
    let cb' : canonical_from true b ≡ b = rw tb at cb in
    sym ca'
    ∙ sym (canonical_from-to_lower true a)
    ∙ ap (canonical_from true) e
    ∙ canonical_from-to_lower true b
    ∙ cb'

to_lower-drop : (n : ℕ) (s : Str) → to_lower (drop n s) ≡ drop n (to_lower s)
unfolding to_lower
to_lower-drop zero s = refl
to_lower-drop (suc n) [] = refl
to_lower-drop (suc n) (c ∷ s) = to_lower-drop n s

has_prefix-append : (s p : Str) → has_prefix s p ≡ true → s ≡ p ++ drop (length p) s
unfolding has_prefix
has_prefix-append s [] h = refl
has_prefix-append [] (y ∷ p) h = cc
has_prefix-append (x ∷ s) (y ∷ p) h = ground (arith, has_prefix-append s p)

-- The lower case name of a header of a kind; for the kinds that are parts of the target.
abbrev lower_name : Kind → Str
lower_name user = impersonate_user
lower_name group = impersonate_group
lower_name uid = impersonate_uid
lower_name (extra e) = impersonate_extra ++ e
lower_name other = []
lower_name unknown = []

extra-prefix :
    (e key : Str)
    → same (extra e) (classify key) ≡ true
    → has_prefix (to_lower key) impersonate_extra ≡ true
unfolding classify
extra-prefix e key h = ground arith

extra-rest : (e key : Str) → same (extra e) (classify key) ≡ true → to_lower (drop 18 key) ≡ e
unfolding classify
extra-rest e key h = ground (arith, eq_iff (to_lower (drop 18 key)) e)

same-classify : (k : Kind) (key : Str) → same k (classify key) ≡ true → to_lower key ≡ lower_name k
unfolding classify
same-classify user key h = ground (arith, eq_iff (to_lower key) impersonate_user)
same-classify group key h = ground (arith, eq_iff (to_lower key) impersonate_group)
same-classify uid key h = ground (arith, eq_iff (to_lower key) impersonate_uid)
same-classify (extra e) key h =
    has_prefix-append (to_lower key) impersonate_extra (extra-prefix e key h)
    ∙ ap (◌++◌ impersonate_extra) (sym (to_lower-drop 18 key) ∙ extra-rest e key h)
same-classify other key h = ground arith
same-classify unknown key h = ground arith

-- Names that net/http accepts.
abbrev pub HasTokens : Header → Type 0
HasTokens = All (λ e. all_tokens e.0 ≡ true)

picked-none :
    (k : Kind) (key : Str) (header : Header)
    → all_tokens key ≡ true
    → canonical_key key ≡ key
    → same k (classify key) ≡ true
    → HasTokens header
    → All (λ e. (e.0 == key) ≡ false) header
    → IsDelivered header
    → picked k header ≡ []
picked-none k key [] t c s _ _ _ = refl
picked-none k key ((key', vs) ∷ header) t c s (t', ts) (apart, aparts) (c', others, d) =
    elim (Bool-cases (same k (classify key'))) [
      | inr e ↦ rw e (picked-none k key header t c s ts aparts d)
      | inl e ↦
          let equal =
            canonical-injective key' key t' t c' c
              (same-classify k key' e ∙ sym (same-classify k key s)) in
          absurd (ground (arith, eq_iff key' key))
    ]

picked-AtMostOne :
    (k : Kind) (header : Header)
    → HasTokens header
    → IsDelivered header
    → AtMostOne (picked k header)
picked-AtMostOne k [] _ _ = inl refl
picked-AtMostOne k ((key, vs) ∷ header) (t, ts) (c, others, d) =
    elim (Bool-cases (same k (classify key))) [
      | inr e ↦ rw e (picked-AtMostOne k header ts d)
      | inl e ↦ rw e (inr (vs, ap (◌∷◌ vs) (picked-none k key header t c e ts others d)))
    ]

pub IsDelivered-IsUnique :
    (header : Header) → HasTokens header → IsDelivered header → IsUnique header
IsDelivered-IsUnique header t d = record {
  users = picked-AtMostOne user header t d;
  groups = picked-AtMostOne group header t d;
  uids = picked-AtMostOne uid header t d;
  extras = λ e. picked-AtMostOne (extra e) header t d;
}
