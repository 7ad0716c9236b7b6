-- ===== src/Query/Parsed.antt =====
-- What is parsed of a query of bytes: each key once, and bytes.
use pf9_oidc_proxy.Base.{
  subst, ℕ, ◌+◌, ◌≤◌, false, Option, none, some, List, [], ◌∷◌, ◌≡◌, refl, inl, inr, All, any, eqb,
  arith, Bool-cases, All-append,
}
use Prim.Native.Nat.{◌*◌}
use pf9_oidc_proxy.Strings.{Str, ◌==◌, split}
use pf9_oidc_proxy.Strings.Splitting.{All-split}
use pf9_oidc_proxy.Strings.Equality.{eq_iff}
use pf9_oidc_proxy.Maps.{Map, insert, values_at, lookup, append_value}
use pf9_oidc_proxy.Maps.Entries.{Distinct}
use pf9_oidc_proxy.Query.{
  Place, plain, percent, malformed, digit, hex_value, unescape_byte, unescape_bytes, unescape,
  unescaped, Unescaping, at, first_digit, second_digit, cut, add_unescaped, parse_part, parse_parts,
  parse_query,
}
use pf9_oidc_proxy.Query.Escape.{IsBytes}
use pf9_oidc_proxy.Query.RoundTrip.{IsByteMap}

pub All-insert :
    (P : Str × List Str → Type 0) (k : Str) (vs : List Str) (m : Map (List Str))
    → P (k, vs)
    → All P m
    → All P (insert k vs m)
unfolding insert
All-insert P k vs [] p _ = (p, tt)
All-insert P k vs ((name, old) ∷ m) p (q, qs) = elim (Bool-cases (name == k)) [
  | inl e ↦ rw e (p, qs)
  | inr e ↦ rw e (q, All-insert P k vs m p qs)
]

pub insert-Distinct :
    (k : Str) (vs : List Str) (m : Map (List Str)) → Distinct m → Distinct (insert k vs m)
unfolding insert
insert-Distinct k vs [] _ = (tt, tt)
insert-Distinct k vs ((name, old) ∷ m) (others, d) = elim (Bool-cases (name == k)) [
  | inl e ↦
      let same = (eq_iff name k).0 e in
      rw e (subst (λ z. All (λ x. (x.0 == z) ≡ false) m) same others, d)
  | inr e ↦ rw e (
    All-insert (λ x. (x.0 == name) ≡ false) k vs m (ground (arith, eq_iff name k, eq_iff k name))
        others,
    insert-Distinct k vs m d,
  )
]

values_at-IsBytes : (k : Str) (m : Map (List Str)) → IsByteMap m → All IsBytes (values_at k m)
unfolding values_at lookup
values_at-IsBytes k [] _ = tt
values_at-IsBytes k ((name, vs) ∷ m) ((_, h), hs) = elim (Bool-cases (name == k)) [
  | inl e ↦ rw e h
  | inr e ↦ rw e (values_at-IsBytes k m hs)
]

-- What holds of the map while it is parsed.
abbrev pub IsParsed : Map (List Str) → Type 0
IsParsed m = Distinct m × IsByteMap m

append_value-IsParsed :
    (k v : Str) (m : Map (List Str))
    → IsBytes k
    → IsBytes v
    → IsParsed m
    → IsParsed (append_value k v m)
unfolding append_value
append_value-IsParsed k v m h g (d, b) = (
  insert-Distinct k _ m d,
  All-insert _ k _ m (h, All-append IsBytes _ (v ∷ []) (values_at-IsBytes k m b) (g, tt)) b,
)

abbrev IsSmall : Place → Type 0
IsSmall plain = Unit
IsSmall percent = Unit
IsSmall malformed = Unit
IsSmall (digit n) = n ≤ 15

abbrev IsSound : Unescaping → Type 0
IsSound u = IsSmall u.place × IsBytes u.text

hex_value-small : (c n : ℕ) → hex_value c ≡ some n → n ≤ 15
unfolding hex_value
hex_value-small c n h = ground arith

first_digit-IsSound :
    (o : Option ℕ) (text : Str)
    → ((n : ℕ) → o ≡ some n → n ≤ 15)
    → IsBytes text
    → IsSound (first_digit o text)
unfolding first_digit
first_digit-IsSound none text h b = (tt, b)
first_digit-IsSound (some n) text h b = (h n refl, b)

second_digit-IsSound :
    (n : ℕ) (o : Option ℕ) (text : Str)
    → n ≤ 15
    → ((k : ℕ) → o ≡ some k → k ≤ 15)
    → IsBytes text
    → IsSound (second_digit n o text)
unfolding second_digit
second_digit-IsSound n none text g h b = (tt, b)
second_digit-IsSound n (some k) text g h b =
    let small = h k refl in
    (tt, All-append (λ c. c ≤ 255) text ((16 * n + k) ∷ []) b (omega arith, tt))

unescape_byte-IsSound :
    (p : Place) (c : ℕ) (text : Str)
    → IsSmall p
    → c ≤ 255
    → IsBytes text
    → IsSound (unescape_byte p c text)
unfolding unescape_byte
unescape_byte-IsSound plain c text _ h b = elim (Bool-cases (eqb c b'%')) [
  | inl e ↦ rw e (tt, b)
  | inr e ↦ rw e (tt, All-append (λ x. x ≤ 255) text (_ ∷ []) b (ground arith, tt))
]
unescape_byte-IsSound percent c text _ h b =
    first_digit-IsSound (hex_value c) text (hex_value-small c) b
unescape_byte-IsSound (digit n) c text s h b =
    second_digit-IsSound n (hex_value c) text s (hex_value-small c) b
unescape_byte-IsSound malformed c text _ h b = (tt, b)

unescape_bytes-IsSound :
    (s : Str) (u : Unescaping) → IsBytes s → IsSound u → IsSound (unescape_bytes s u)
unfolding unescape_bytes
unescape_bytes-IsSound [] u _ i = i
unescape_bytes-IsSound (c ∷ s) u (h, hs) (i, b) =
    unescape_bytes-IsSound s _ hs (unescape_byte-IsSound u.place c u.text i h b)

abbrev HoldsBytes : Option Str → Type 0
HoldsBytes none = Unit
HoldsBytes (some s) = IsBytes s

unescaped-HoldsBytes : (p : Place) (text : Str) → IsBytes text → HoldsBytes (unescaped p text)
unfolding unescaped
unescaped-HoldsBytes plain text b = b
unescaped-HoldsBytes percent text b = tt
unescaped-HoldsBytes (digit n) text b = tt
unescaped-HoldsBytes malformed text b = tt

unescape-HoldsBytes : (s : Str) → IsBytes s → HoldsBytes (unescape s)
unfolding unescape
unescape-HoldsBytes s h =
    let u = unescape_bytes s (at plain []) in
    unescaped-HoldsBytes u.place u.text (unescape_bytes-IsSound s (at plain []) h (tt, tt)).1

add_unescaped-IsParsed :
    (o p : Option Str) (m : Map (List Str))
    → HoldsBytes o
    → HoldsBytes p
    → IsParsed m
    → IsParsed (add_unescaped o p m)
unfolding add_unescaped
add_unescaped-IsParsed none p m _ _ i = i
add_unescaped-IsParsed (some k) none m _ _ i = i
add_unescaped-IsParsed (some k) (some v) m h g i = append_value-IsParsed k v m h g i

cut-IsBytes : (sep : ℕ) (s : Str) → IsBytes s → IsBytes (cut sep s).0 × IsBytes (cut sep s).1
unfolding cut
cut-IsBytes sep [] _ = (tt, tt)
cut-IsBytes sep (c ∷ s) (h, hs) = elim (Bool-cases (eqb c sep)) [
  | inl e ↦ rw e (tt, hs)
  | inr e ↦ let (a, b) = cut-IsBytes sep s hs in rw e ((h, a), b)
]

parse_part-IsParsed :
    (part : Str) (m : Map (List Str)) → IsBytes part → IsParsed m → IsParsed (parse_part part m)
unfolding parse_part
parse_part-IsParsed [] m _ i = i
parse_part-IsParsed (c ∷ s) m h i = elim (Bool-cases (any (λ x. eqb x b';') (c ∷ s))) [
  | inl e ↦ rw e i
  | inr e ↦
      let (a, b) = cut-IsBytes b'=' (c ∷ s) h in
      rw e (add_unescaped-IsParsed _ _ m (unescape-HoldsBytes _ a) (unescape-HoldsBytes _ b) i)
]

parse_parts-IsParsed :
    (parts : List Str) (m : Map (List Str))
    → All IsBytes parts
    → IsParsed m
    → IsParsed (parse_parts parts m)
unfolding parse_parts
parse_parts-IsParsed [] m _ i = i
parse_parts-IsParsed (p ∷ parts) m (h, hs) i =
    parse_parts-IsParsed parts (parse_part p m) hs (parse_part-IsParsed p m h i)

pub parse_query-IsParsed : (raw : Str) → IsBytes raw → IsParsed (parse_query raw)
unfolding parse_query
parse_query-IsParsed raw h =
    parse_parts-IsParsed (split b'&' raw) [] (All-split (λ c. c ≤ 255) b'&' raw h) (tt, tt)
