-- ===== src/Query.antt =====
-- The queries of package net/url: `QueryEscape`, `QueryUnescape`, `ParseQuery` as `Query` calls it,
-- which skips what is malformed, and `Encode`, for strings of bytes.
pub mod Escape
pub mod Sorted
pub mod RoundTrip
pub mod Parsed
use Prim.Native.Nat.{◌*◌, ◌/◌, ◌%◌}
use pf9_oidc_proxy.Base.{
  ℕ, ◌+◌, ◌-◌, Bool, true, false, ◌&&◌, ◌||◌, Option, none, some, List, [], ◌∷◌, ◌++◌, leb, eqb,
  any, if◌then◌else◌,
}
use pf9_oidc_proxy.Strings.{Str, split, join}
use pf9_oidc_proxy.Maps.{Map, append_value}
use pf9_oidc_proxy.Maps.Entries.{flat_entries}
use pf9_oidc_proxy.Namespace.Region.{QueryCodec}

-- The bytes that are not escaped.
unfoldable pub is_unreserved : ℕ → Bool
is_unreserved c =
    (leb b'a' c && leb c b'z')
    || ((leb b'A' c && leb c b'Z')
        || ((leb b'0' c && leb c b'9')
            || (eqb c b'-' || (eqb c b'_' || (eqb c b'.' || eqb c b'~')))))

unfoldable pub hex_digit : ℕ → ℕ
hex_digit n = if leb n 9 then n + 48 else n + 55

unfoldable pub hex_value : ℕ → Option ℕ
hex_value c =
    if leb b'0' c && leb c b'9'
    then some (c - 48)
    else if leb b'a' c && leb c b'f'
    then some (c - 87)
    else if leb b'A' c && leb c b'F'
    then some (c - 55)
    else none

unfoldable pub escape_byte : ℕ → Str
unfolding is_unreserved hex_digit
escape_byte c =
    if eqb c b' '
    then b'+' ∷ []
    else if is_unreserved c
    then c ∷ []
    else b'%' ∷ hex_digit (c / 16) ∷ hex_digit (c % 16) ∷ []

unfoldable pub escape : Str → Str
unfolding escape_byte
escape [] = []
escape (c ∷ s) = escape_byte c ++ escape s

-- Where the unescaping is: between escapes, behind a percent sign, behind its first digit, or past
-- an error.
pub data Place : Type 0 where
  plain percent malformed : Place
  digit : ℕ → Place

pub record Unescaping : Type 0 where
  pub place : Place
  pub text : Str

abbrev pub at : Place → Str → Unescaping
at place text = record { place = place; text = text }

pub first_digit : Option ℕ → Str → Unescaping
first_digit none text = at malformed text
first_digit (some n) text = at (digit n) text

pub second_digit : ℕ → Option ℕ → Str → Unescaping
second_digit n none text = at malformed text
second_digit n (some k) text = at plain (text ++ (16 * n + k) ∷ [])

unfoldable pub unescape_byte : Place → ℕ → Str → Unescaping
unfolding hex_value first_digit second_digit
unescape_byte plain c text =
    if eqb c b'%' then at percent text else at plain (text ++ (if eqb c b'+' then b' ' else c) ∷ [])
unescape_byte percent c text = first_digit (hex_value c) text
unescape_byte (digit n) c text = second_digit n (hex_value c) text
unescape_byte malformed c text = at malformed text

unfoldable pub unescape_bytes : Str → Unescaping → Unescaping
unfolding unescape_byte
unescape_bytes [] u = u
unescape_bytes (c ∷ s) u = unescape_bytes s (unescape_byte u.place c u.text)

pub unescaped : Place → Str → Option Str
unescaped plain text = some text
unescaped percent text = none
unescaped (digit n) text = none
unescaped malformed text = none

unfoldable pub unescape : Str → Option Str
unfolding unescape_bytes unescaped
unescape s = let u = unescape_bytes s (at plain []) in unescaped u.place u.text

-- strings.Cut with a separator of one byte
unfoldable pub cut : ℕ → Str → Str × Str
cut sep [] = ([], [])
cut sep (c ∷ s) = let rest = cut sep s in if eqb c sep then ([], s) else (c ∷ rest.0, rest.1)

unfoldable pub add_unescaped : Option Str → Option Str → Map (List Str) → Map (List Str)
add_unescaped (some key) (some value) m = append_value key value m
add_unescaped (some key) none m = m
add_unescaped none value m = m

-- One part of a query between its `&`.
unfoldable pub parse_part : Str → Map (List Str) → Map (List Str)
unfolding unescape cut add_unescaped
parse_part [] m = m
parse_part (c ∷ s) m =
    let pair = cut b'=' (c ∷ s) in
    if any (λ x. eqb x b';') (c ∷ s) then m else add_unescaped (unescape pair.0) (unescape pair.1) m

unfoldable pub parse_parts : List Str → Map (List Str) → Map (List Str)
unfolding parse_part
parse_parts [] m = m
parse_parts (part ∷ parts) m = parse_parts parts (parse_part part m)

unfoldable pub parse_query : Str → Map (List Str)
unfolding parse_parts
parse_query raw = parse_parts (split b'&' raw) []

-- a <= b
unfoldable pub is_sorted : Str → Str → Bool
is_sorted [] b = true
is_sorted (x ∷ a) [] = false
is_sorted (x ∷ a) (y ∷ b) = if eqb x y then is_sorted a b else leb x y

unfoldable pub insert_sorted : Str × List Str → Map (List Str) → Map (List Str)
unfolding is_sorted
insert_sorted e [] = e ∷ []
insert_sorted e (x ∷ m) =
    let rest = insert_sorted e m in if is_sorted e.0 x.0 then e ∷ x ∷ m else x ∷ rest

-- The entries in the order of their keys.
unfoldable pub sort : Map (List Str) → Map (List Str)
unfolding insert_sorted
sort [] = []
sort (e ∷ m) = insert_sorted e (sort m)

unfoldable pub pair_texts : List (Str × Str) → List Str
unfolding escape
pair_texts [] = []
pair_texts ((key, value) ∷ entries) = (escape key ++ b'=' ∷ escape value) ∷ pair_texts entries

unfoldable pub encode_query : Map (List Str) → Str
unfolding pair_texts sort
encode_query m = join (b'&' ∷ []) (pair_texts (flat_entries (sort m)))

abbrev pub net_url : QueryCodec
net_url = record { RawQuery = Str; query = parse_query; encode = encode_query }
