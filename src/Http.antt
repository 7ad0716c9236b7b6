-- ===== src/Http.antt =====
-- net/http headers: `http.Header` and the functions of it that the program calls.
use pf9_oidc_proxy.Base.{
  ℕ, Bool, true, ◌&&◌, ◌||◌, List, [], ◌∷◌, ◌++◌, leb, eqb, if◌then◌else◌, any,
}
use pf9_oidc_proxy.Strings.{Str, bytes, lower, upper}
use pf9_oidc_proxy.Maps.{Map, insert, values_at}

-- A nil header reads as the empty list.
abbrev pub Header : Type 0
Header = Map (List Str)

-- The bytes that textproto takes in the name of a header.
unfoldable pub is_token : ℕ → Bool
is_token c =
    leb b'a' c && leb c b'z'
    || leb b'A' c && leb c b'Z'
    || leb b'0' c && leb c b'9'
    || any (λ d. eqb c d) (bytes "!#$%&'*+-.^_`|~")

unfoldable pub all_tokens : Str → Bool
all_tokens [] = true
all_tokens (c ∷ s) = is_token c && all_tokens s

-- Upper case at the start and behind a dash, lower case elsewhere.
unfoldable pub canonical_from : Bool → Str → Str
canonical_from up [] = []
canonical_from up (c ∷ s) = (if up then upper c else lower c) ∷ canonical_from (eqb c b'-') s

-- textproto.CanonicalMIMEHeaderKey
unfoldable pub canonical_key : Str → Str
unfolding is_token all_tokens canonical_from lower upper
canonical_key key = if all_tokens key then canonical_from true key else key

-- The first value, or "".
unfoldable pub first_value : List Str → Str
first_value [] = []
first_value (v ∷ _) = v

-- header.Get(key)
unfoldable pub get : Str → Header → Str
unfolding first_value canonical_key
get key header = first_value (values_at (canonical_key key) header)

-- header.Values(key)
unfoldable pub values : Str → Header → List Str
unfolding canonical_key
values key header = values_at (canonical_key key) header

-- header.Add(key, value)
unfoldable pub add : Str → Str → Header → Header
unfolding canonical_key
add key value header =
    insert (canonical_key key) (values_at (canonical_key key) header ++ value ∷ []) header
