-- ===== src/Strings.antt =====
-- Go strings as lists of bytes, and the functions of the standard package `strings` that the
-- program calls. Case folding and white space are those of ASCII.
pub mod Equality
pub mod Splitting
use Prim.Native.Char.{code}
use Prim.Native.String
use pf9_oidc_proxy.Base.{
  ℕ, ◌+◌, ◌-◌, String, Bool, true, false, ◌&&◌, ◌||◌, Option, none, some, List, [], ◌∷◌, ◌++◌, leb,
  eqb, if◌then◌else◌,
}

abbrev pub Str : Type 0
Str = List ℕ

-- The bytes of an ASCII literal.
abbrev pub bytes : String → Str
bytes (String.◌∷◌ letter rest) = code letter ∷ bytes rest
bytes String.[] = []

infix 50 ◌==◌
unfoldable pub ◌==◌ : Str → Str → Bool
[] == [] = true
(x ∷ xs) == (y ∷ ys) = eqb x y && xs == ys
_ == _ = false

push_head : ℕ → List Str → List Str
push_head c [] = (c ∷ []) ∷ []
push_head c (p ∷ ps) = (c ∷ p) ∷ ps

-- strings.Split with a separator of one byte
unfoldable pub split : ℕ → Str → List Str
unfolding push_head
split sep [] = [] ∷ []
split sep (c ∷ s) = let rest = split sep s in if eqb c sep then [] ∷ rest else push_head c rest

-- strings.Join
unfoldable pub join : Str → List Str → Str
join sep [] = []
join sep (x ∷ []) = x
join sep (x ∷ y ∷ ys) = x ++ (sep ++ join sep (y ∷ ys))

-- strings.HasPrefix s prefix
unfoldable pub has_prefix : Str → Str → Bool
has_prefix s [] = true
has_prefix [] (y ∷ ys) = false
has_prefix (x ∷ xs) (y ∷ ys) = eqb x y && has_prefix xs ys

-- strings.HasSuffix s suffix
unfoldable pub has_suffix : Str → Str → Bool
unfolding ◌==◌
has_suffix [] suffix = [] == suffix
has_suffix (x ∷ xs) suffix = (x ∷ xs) == suffix || has_suffix xs suffix

-- strings.Contains s part
unfoldable pub contains : Str → Str → Bool
unfolding has_prefix
contains [] part = has_prefix [] part
contains (x ∷ xs) part = has_prefix (x ∷ xs) part || contains xs part

suc_index : Option ℕ → Option ℕ
suc_index none = none
suc_index (some i) = some (i + 1)

-- strings.Index with a needle of one byte; `none` stands for -1
unfoldable pub index : ℕ → Str → Option ℕ
unfolding suc_index
index c [] = none
index c (x ∷ xs) = let later = index c xs in if eqb x c then some 0 else suc_index later

unfoldable pub lower : ℕ → ℕ
lower c = if leb b'A' c && leb c b'Z' then c + 32 else c

unfoldable pub upper : ℕ → ℕ
upper c = if leb b'a' c && leb c b'z' then c - 32 else c

-- strings.ToLower
unfoldable pub to_lower : Str → Str
unfolding lower
to_lower [] = []
to_lower (c ∷ s) = lower c ∷ to_lower s

unfoldable pub is_space : ℕ → Bool
is_space c = eqb c b' ' || (leb 9 c && leb c 13)

unfoldable pub trim_left : Str → Str
unfolding is_space
trim_left [] = []
trim_left (c ∷ s) = let rest = trim_left s in if is_space c then rest else c ∷ s

trim_cons : ℕ → Str → Str
trim_cons c [] = if is_space c then [] else c ∷ []
trim_cons c (d ∷ s) = c ∷ d ∷ s

unfoldable pub trim_right : Str → Str
unfolding is_space trim_cons
trim_right [] = []
trim_right (c ∷ s) = trim_cons c (trim_right s)

-- strings.TrimSpace
unfoldable pub trim_space : Str → Str
unfolding trim_left trim_right
trim_space s = trim_right (trim_left s)
