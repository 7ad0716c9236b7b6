-- ===== src/Namespace/Path.antt =====
-- joinPath and modifyNamespaceInPath of pkg/proxy/namespace_round_tripper.go.
pub mod Segments
pub mod Tenant
use pf9_oidc_proxy.Base.{
  Bool, true, false, not, ◌&&◌, ◌||◌, Option, none, some, List, [], ◌∷◌, ◌++◌, if◌then◌else◌,
}
use pf9_oidc_proxy.Strings.{Str, bytes, ◌==◌, split, join, has_prefix}

abbrev pub slash : Str
slash = bytes "/"

abbrev pub namespaces : Str
namespaces = bytes "namespaces"

abbrev pub api : Str
api = bytes "api"

-- The loop of `joinPath` over the parts.
unfoldable pub filter_parts : List Str → List Str
filter_parts [] = []
filter_parts (part ∷ parts) =
    let rest = filter_parts parts in if part == [] then rest else part ∷ rest

unfoldable pub join_path : List Str → Str
unfolding filter_parts
join_path parts =
    let full_path = join slash (filter_parts parts) in
    if has_prefix full_path slash then full_path else slash ++ full_path

-- `parts[i+1] = namespace`, if the namespace exists
unfoldable pub replace_next : Option Str → List Str → List Str
replace_next (some namespace) (_ ∷ rest) = namespace ∷ rest
replace_next _ rest = rest

has_next : List Str → Bool
has_next [] = false
has_next (_ ∷ _) = true

-- The loop of `modifyNamespaceInPath` over the parts, with its variables `suffix` and `apiTokHit`.
unfoldable pub modify_parts : (Str → Option Str) → Str → Bool → List Str → List Str
unfolding replace_next has_next
modify_parts get_namespace suffix api_tok_hit [] = []
modify_parts get_namespace suffix api_tok_hit (part ∷ rest) =
    let hit = api_tok_hit || part == api in
    let taken = suffix == [] && not hit in
    let suffix' = if taken then part else suffix in
    let part' = if taken then [] else part in
    let later = modify_parts get_namespace suffix' hit rest in
    if part == namespaces && has_next rest
    then part' ∷ replace_next (get_namespace suffix') rest
    else part' ∷ later

unfoldable pub modify_namespace_in_path : (Str → Option Str) → Str → Str
unfolding modify_parts join_path
modify_namespace_in_path get_namespace path =
    join_path (modify_parts get_namespace [] false (split b'/' path))
