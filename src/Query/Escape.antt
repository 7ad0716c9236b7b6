-- ===== src/Query/Escape.antt =====
-- What is escaped is unescaped again.
use Prim.Native.Nat.{◌*◌, ◌/◌, ◌%◌}
use pf9_oidc_proxy.Base.{
  ℕ, ◌+◌, ◌≤◌, true, false, some, [], ◌∷◌, ◌++◌, ◌≡◌, refl, ap, ◌∙◌, inl, inr, eqb, All, arith,
  Bool-cases, append_assoc, append-nil,
}
use pf9_oidc_proxy.Strings.{Str}
use pf9_oidc_proxy.Strings.Splitting.{Lacks}
use pf9_oidc_proxy.Query.{
  is_unreserved, hex_digit, hex_value, escape_byte, escape, plain, at, unescape_byte,
  unescape_bytes, unescape, first_digit, second_digit, unescaped,
}

abbrev pub IsBytes : Str → Type 0
IsBytes = All (λ c. c ≤ 255)

hex_value-hex_digit : (n : ℕ) → n ≤ 15 → hex_value (hex_digit n) ≡ some n
unfolding hex_value hex_digit
hex_value-hex_digit n h = ground arith

unescape_byte-unreserved :
    (c : ℕ) (text : Str)
    → is_unreserved c ≡ true
    → unescape_byte plain c text ≡ at plain (text ++ c ∷ [])
unfolding unescape_byte is_unreserved
unescape_byte-unreserved c text h = ground arith

quotient_small : (c : ℕ) → c ≤ 255 → c / 16 ≤ 15
quotient_small c h = omega arith

remainder_small : (c : ℕ) → c % 16 ≤ 15
remainder_small c = omega arith

digits : (c : ℕ) → 16 * (c / 16) + c % 16 ≡ c
digits c = omega arith

unescape-escape_byte :
    (c : ℕ) (rest text : Str)
    → c ≤ 255
    → unescape_bytes (escape_byte c ++ rest) (at plain text)
      ≡ unescape_bytes rest (at plain (text ++ c ∷ []))
unfolding escape_byte unescape_bytes unescape_byte is_unreserved first_digit second_digit
unescape-escape_byte c rest text h = elim (Bool-cases (eqb c b' ')) [
  | inl e ↦ let same : c ≡ b' ' = ground arith in rw same refl
  | inr e ↦ elim (Bool-cases (is_unreserved c)) [
    | inl f ↦ rw (e, f) (ap (unescape_bytes rest) (unescape_byte-unreserved c text f))
    | inr f ↦
        rw (e, f)
          (ap (λ v. unescape_bytes (hex_digit (c % 16) ∷ rest) (first_digit v text))
              (hex_value-hex_digit (c / 16) (quotient_small c h))
            ∙ ap (λ v. unescape_bytes rest (second_digit (c / 16) v text))
                (hex_value-hex_digit (c % 16) (remainder_small c))
            ∙ ap (λ b. unescape_bytes rest (at plain (text ++ b ∷ []))) (digits c))
  ]
]

unescape_bytes-escape :
    (s text : Str) → IsBytes s → unescape_bytes (escape s) (at plain text) ≡ at plain (text ++ s)
unfolding escape unescape_bytes
unescape_bytes-escape [] text _ = rw (append-nil text) refl
unescape_bytes-escape (c ∷ s) text (h, hs) =
    unescape-escape_byte c (escape s) text h
    ∙ unescape_bytes-escape s (text ++ c ∷ []) hs
    ∙ ap (at plain) (append_assoc text (c ∷ []) s)

pub unescape-escape : (s : Str) → IsBytes s → unescape (escape s) ≡ some s
unfolding unescape unescaped
unescape-escape s h = ap (λ u. unescaped u.place u.text) (unescape_bytes-escape s [] h)

-- A separator of queries is escaped.
abbrev pub IsSeparator : ℕ → Type 0
IsSeparator sep = (is_unreserved sep ≡ false) × ((eqb b'+' sep ≡ false) × ((eqb b'%' sep ≡ false)))

hex_digit-separator :
    (n sep : ℕ) → n ≤ 15 → is_unreserved sep ≡ false → eqb (hex_digit n) sep ≡ false
unfolding hex_digit is_unreserved
hex_digit-separator n sep h u = ground arith

unreserved-separator :
    (c sep : ℕ) → is_unreserved c ≡ true → is_unreserved sep ≡ false → eqb c sep ≡ false
unfolding is_unreserved
unreserved-separator c sep h u = ground arith

Lacks-escape_byte :
    (c sep : ℕ) (s : Str) → c ≤ 255 → IsSeparator sep → Lacks sep s → Lacks sep (escape_byte c ++ s)
unfolding escape_byte
Lacks-escape_byte c sep s h (u, (p, q)) later = elim (Bool-cases (eqb c b' ')) [
  | inl e ↦ rw e (p, later)
  | inr e ↦ elim (Bool-cases (is_unreserved c)) [
    | inl f ↦ rw (e, f) (unreserved-separator c sep f u, later)
    | inr f ↦
        rw (e, f)
          (
            q,
            (
              hex_digit-separator (c / 16) sep (quotient_small c h) u,
              (hex_digit-separator (c % 16) sep (remainder_small c) u, later),
            ),
          )
  ]
]

pub Lacks-escape : (sep : ℕ) (s : Str) → IsSeparator sep → IsBytes s → Lacks sep (escape s)
unfolding escape
Lacks-escape sep [] _ _ = tt
Lacks-escape sep (c ∷ s) k (h, hs) =
    Lacks-escape_byte c sep (escape s) h k (Lacks-escape sep s k hs)
