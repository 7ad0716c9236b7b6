-- ===== src/Access/Order.antt =====
-- What a target holds, by the headers that ask for each part of it, and how the order of the headers,
-- which Go leaves open, enters.
pub mod Permuted
pub mod Unique
pub mod Outcome
use pf9_oidc_proxy.Base.{
  Bool, true, false, List, [], ◌∷◌, ◌++◌, ◌≡◌, ◌⊎◌, inl, inr, refl, ap, sym, ◌∙◌, arith, Bool-cases,
  if◌then◌else◌, append_assoc, append-nil,
}
use pf9_oidc_proxy.Strings.{Str, ◌==◌}
use pf9_oidc_proxy.Strings.Equality.{eq_iff}
use pf9_oidc_proxy.Maps.{Map, values_at, append_value, append_values, append_values-values}
use pf9_oidc_proxy.Http.{Header}
use pf9_oidc_proxy.Access.Check.{Found}
use pf9_oidc_proxy.Access.Spec.{
  Kind, other, user, group, uid, unknown, extra, effect, effects, classify, mark,
}

abbrev pub same : Kind → Kind → Bool
same user user = true
same group group = true
same uid uid = true
same (extra e) (extra e') = e' == e
same _ _ = false

abbrev pub pick : Kind → Kind → List Str → List (List Str)
pick k k' vs = if same k k' then vs ∷ [] else []

-- The values of each header of a kind.
abbrev pub picked : Kind → Header → List (List Str)
picked k [] = []
picked k ((key, vs) ∷ header) = pick k (classify key) vs ++ picked k header

abbrev pub named : List (List Str) → Str → Str
named [] n = n
named ([] ∷ r) n = named r n
named ((v ∷ vs) ∷ r) n = named r (if v == [] then n else v)

abbrev pub identified : List (List Str) → Str → Str
identified [] n = n
identified ([] ∷ r) n = identified r n
identified ((v ∷ vs) ∷ r) n = identified r v

abbrev pub flat : List (List Str) → List Str
flat [] = []
flat (vs ∷ r) = vs ++ flat r

effect-name :
    (k : Kind) (key : Str) (vs : List Str) (f : Found) (r : List (List Str))
    → named r (effect k key vs f).name ≡ named (pick user k vs ++ r) f.name
effect-name other key vs f r = refl
effect-name user key [] f r = refl
effect-name user key (v ∷ vs) f r = elim (Bool-cases (v == [])) [ inl e ↦ rw e | inr e ↦ rw e ]
effect-name group key vs f r = refl
effect-name uid key [] f r = refl
effect-name uid key (v ∷ vs) f r = refl
effect-name (extra e) key vs f r = refl
effect-name unknown key vs f r = refl

effect-uid :
    (k : Kind) (key : Str) (vs : List Str) (f : Found) (r : List (List Str))
    → identified r (effect k key vs f).uid ≡ identified (pick uid k vs ++ r) f.uid
effect-uid other key vs f r = refl
effect-uid user key [] f r = refl
effect-uid user key (v ∷ vs) f r = elim (Bool-cases (v == [])) [ inl e ↦ rw e | inr e ↦ rw e ]
effect-uid group key vs f r = refl
effect-uid uid key [] f r = refl
effect-uid uid key (v ∷ vs) f r = refl
effect-uid (extra e) key vs f r = refl
effect-uid unknown key vs f r = refl

effect-groups :
    (k : Kind) (key : Str) (vs : List Str) (f : Found) (r : List (List Str))
    → (effect k key vs f).groups ++ flat r ≡ f.groups ++ flat (pick group k vs ++ r)
effect-groups other key vs f r = refl
effect-groups user key [] f r = refl
effect-groups user key (v ∷ vs) f r = elim (Bool-cases (v == [])) [ inl e ↦ rw e | inr e ↦ rw e ]
effect-groups group key vs f r = append_assoc f.groups vs (flat r)
effect-groups uid key [] f r = refl
effect-groups uid key (v ∷ vs) f r = refl
effect-groups (extra e) key vs f r = refl
effect-groups unknown key vs f r = refl

effect-extra :
    (e : Str) (k : Kind) (key : Str) (vs : List Str) (f : Found) (r : List (List Str))
    → values_at e (effect k key vs f).extra ++ flat r
      ≡ values_at e f.extra ++ flat (pick (extra e) k vs ++ r)
effect-extra e other key vs f r = refl
effect-extra e user key [] f r = refl
effect-extra e user key (v ∷ vs) f r = elim (Bool-cases (v == [])) [ inl h ↦ rw h | inr h ↦ rw h ]
effect-extra e group key vs f r = refl
effect-extra e uid key [] f r = refl
effect-extra e uid key (v ∷ vs) f r = refl
effect-extra e (extra e') key vs f r = elim (Bool-cases (e' == e)) [
  | inl h ↦
      rw (append_values-values e e' vs f.extra, h) (append_assoc (values_at e f.extra) vs (flat r))
  | inr h ↦ rw (append_values-values e e' vs f.extra, h, append-nil (values_at e f.extra)) refl
]
effect-extra e unknown key vs f r = refl

-- The target of the loop, by kinds.
pub effects-name :
    (header : Header) (f : Found) → (effects header f).name ≡ named (picked user header) f.name
effects-name [] f = refl
effects-name ((key, vs) ∷ header) f =
    effects-name header (effect (classify key) key vs f)
    ∙ effect-name (classify key) key vs f (picked user header)

pub effects-uid :
    (header : Header) (f : Found) → (effects header f).uid ≡ identified (picked uid header) f.uid
effects-uid [] f = refl
effects-uid ((key, vs) ∷ header) f =
    effects-uid header (effect (classify key) key vs f)
    ∙ effect-uid (classify key) key vs f (picked uid header)

pub effects-groups :
    (header : Header) (f : Found)
    → (effects header f).groups ≡ f.groups ++ flat (picked group header)
effects-groups [] f = sym (append-nil f.groups)
effects-groups ((key, vs) ∷ header) f =
    effects-groups header (effect (classify key) key vs f)
    ∙ effect-groups (classify key) key vs f (picked group header)

pub effects-extra :
    (e : Str) (header : Header) (f : Found)
    → values_at e (effects header f).extra ≡ values_at e f.extra ++ flat (picked (extra e) header)
effects-extra e [] f = sym (append-nil (values_at e f.extra))
effects-extra e ((key, vs) ∷ header) f =
    effects-extra e header (effect (classify key) key vs f)
    ∙ effect-extra e (classify key) key vs f (picked (extra e) header)
