-- ===== src/Access/Order/Permuted.antt =====
-- Lists of headers in another order.
use mathlib.Core.List.{Permᴰ}
use mathlib.Core.List.Permᴰ
use pf9_oidc_proxy.Permutations.{All-perm, pick_swap, AtMostOne}
use pf9_oidc_proxy.Base.{subst, false, List, ◌≡◌, refl, ◌∙◌, arith, All}
use pf9_oidc_proxy.Strings.{Str, ◌==◌}
use pf9_oidc_proxy.Strings.Equality.{eq_iff}
use pf9_oidc_proxy.Maps.{values_at, lookup}
use pf9_oidc_proxy.Http.{Header}
use pf9_oidc_proxy.Access.Spec.{Kind, user, group, uid, extra, classify}
use pf9_oidc_proxy.Access.Left.Values.{IsDelivered}
use pf9_oidc_proxy.Access.Order.{same, pick, picked}

pub picked-perm :
    (k : Kind) {header header' : Header}
    → Permᴰ header header'
    → Permᴰ (picked k header) (picked k header')
picked-perm k Permᴰ.nil = Permᴰ.nil
picked-perm k (Permᴰ.cons {a} {b} e p) =
    rw e (Permᴰ.append_left (pick k (classify b.0) b.1) (picked-perm k p))
picked-perm k (Permᴰ.swap {a} {b} {a'} {b'} {l} e e') =
    rw (e, e') (pick_swap (same k (classify b'.0)) (same k (classify a'.0)) b'.1 a'.1 (picked k l))
picked-perm k (Permᴰ.trans p q) = Permᴰ.trans (picked-perm k p) (picked-perm k q)

-- No two names ask for the same part of the target; net/http's names, each once, never do.
pub record IsUnique (header : Header) : Type 0 where
  pub users : AtMostOne (picked user header)
  pub groups : AtMostOne (picked group header)
  pub uids : AtMostOne (picked uid header)
  pub extras : (e : Str) → AtMostOne (picked (extra e) header)

eq_sym : (a b : Str) → (a == b) ≡ false → (b == a) ≡ false
eq_sym a b h = ground (arith, eq_iff a b, eq_iff b a)

abbrev Apart : Str × List Str → Header → Type 0
Apart z = All (λ x. (x.0 == z.0) ≡ false)

pub IsDelivered-perm :
    {header header' : Header} → Permᴰ header header' → IsDelivered header → IsDelivered header'
IsDelivered-perm Permᴰ.nil d = d
IsDelivered-perm (Permᴰ.cons {l₂ = l} e p) (c, others, d) =
    (rw (← e) c, subst (λ z. Apart z l) e (All-perm _ p others), IsDelivered-perm p d)
IsDelivered-perm (Permᴰ.swap {a} {b} {l = l} e e') (c, (o, others), (c', others', d)) = (
  rw (← e') c',
  (rw (← e, ← e') (eq_sym b.0 a.0 o), subst (λ z. Apart z l) e' others'),
  (rw (← e) c, subst (λ z. Apart z l) e others, d),
)
IsDelivered-perm (Permᴰ.trans p q) d = IsDelivered-perm q (IsDelivered-perm p d)

pub values_at-perm :
    (name : Str) {header header' : Header}
    → Permᴰ header header'
    → IsDelivered header
    → values_at name header' ≡ values_at name header
unfolding values_at lookup
values_at-perm name Permᴰ.nil d = refl
values_at-perm name (Permᴰ.cons {a} {b} e p) (c, others, d) =
    rw (← e) (ground (arith, values_at-perm name p d))
values_at-perm name (Permᴰ.swap {a} {b} e e') (c, (o, others), (c', others', d)) =
    rw (← e, ← e') (ground (arith, eq_iff a.0 name, eq_iff b.0 name, eq_iff b.0 a.0))
values_at-perm name (Permᴰ.trans p q) d =
    values_at-perm name q (IsDelivered-perm p d) ∙ values_at-perm name p d
