-- ===== src/Query/RoundTrip.antt =====
-- What is encoded as a query is parsed again.
use pf9_oidc_proxy.Base.{
  ℕ, false, List, [], ◌∷◌, ◌++◌, ◌≡◌, refl, ap, ◌∙◌, sym, All, any, eqb, arith, append-nil,
  All-append,
}
use pf9_oidc_proxy.Strings.{Str, ◌==◌, split, join}
use pf9_oidc_proxy.Strings.Splitting.{Lacks, split-join}
use pf9_oidc_proxy.Maps.{Map, values_at, lookup, append_value, values_at-append_value}
use pf9_oidc_proxy.Maps.Entries.{
  chosen, chosen-step, key_entries, flat_entries, Distinct, chosen-flat_entries,
}
use pf9_oidc_proxy.Query.{
  is_unreserved, unescape, escape, cut, add_unescaped, parse_part, parse_parts, parse_query, sort,
  pair_texts, encode_query,
}
use pf9_oidc_proxy.Query.Escape.{IsBytes, IsSeparator, unescape-escape, Lacks-escape}
use pf9_oidc_proxy.Query.Sorted.{All-sort, chosen-sort}

abbrev pub IsByteEntry : Str × Str → Type 0
IsByteEntry (k, v) = IsBytes k × IsBytes v

abbrev pub IsByteMap : Map (List Str) → Type 0
IsByteMap = All (λ x. IsBytes x.0 × All IsBytes x.1)

cut-append : (sep : ℕ) (p rest : Str) → Lacks sep p → cut sep (p ++ sep ∷ rest) ≡ (p, rest)
unfolding cut
cut-append sep [] rest _ = ground arith
cut-append sep (c ∷ p) rest (h, hs) = rw (h, cut-append sep p rest hs) refl

Lacks-append : (sep : ℕ) (p q : Str) → Lacks sep p → Lacks sep q → Lacks sep (p ++ q)
Lacks-append sep [] q _ h = h
Lacks-append sep (c ∷ p) q (g, gs) h = (g, Lacks-append sep p q gs h)

any-Lacks : (sep : ℕ) (s : Str) → Lacks sep s → any (λ x. eqb x sep) s ≡ false
any-Lacks sep [] _ = refl
any-Lacks sep (c ∷ s) (h, hs) = rw h (any-Lacks sep s hs)

is_separator : IsSeparator b'&' × (IsSeparator b'=' × IsSeparator b';')
unfolding is_unreserved
is_separator = ((refl, (refl, refl)), ((refl, (refl, refl)), (refl, (refl, refl))))

pair-Lacks :
    (sep : ℕ) (k v : Str)
    → IsSeparator sep
    → eqb b'=' sep ≡ false
    → IsByteEntry (k, v)
    → Lacks sep (escape k ++ b'=' ∷ escape v)
pair-Lacks sep k v s e (h, g) =
    Lacks-append sep (escape k) (b'=' ∷ escape v) (Lacks-escape sep k s h)
      (e, Lacks-escape sep v s g)

parse_part-step :
    (p rest : Str) (m : Map (List Str))
    → Lacks b';' (p ++ b'=' ∷ rest)
    → parse_part (p ++ b'=' ∷ rest) m ≡ (
        let pair = cut b'=' (p ++ b'=' ∷ rest) in
        add_unescaped (unescape pair.0) (unescape pair.1) m)
unfolding parse_part
parse_part-step [] rest m h = rw (any-Lacks b';' (b'=' ∷ rest) h) refl
parse_part-step (c ∷ p) rest m h = rw (any-Lacks b';' (c ∷ (p ++ b'=' ∷ rest)) h) refl

parse_part-pair :
    (k v : Str) (m : Map (List Str))
    → IsByteEntry (k, v)
    → parse_part (escape k ++ b'=' ∷ escape v) m ≡ append_value k v m
unfolding add_unescaped
parse_part-pair k v m (h, g) =
    parse_part-step (escape k) (escape v) m (pair-Lacks b';' k v is_separator.1.1 refl (h, g))
    ∙ ap (λ pair. add_unescaped (unescape pair.0) (unescape pair.1) m)
        (cut-append b'=' (escape k) (escape v) (Lacks-escape b'=' k is_separator.1.0 h))
    ∙ rw (unescape-escape k h, unescape-escape v g) refl

parse_parts-values :
    (key : Str) (entries : List (Str × Str)) (m : Map (List Str))
    → All IsByteEntry entries
    → values_at key (parse_parts (pair_texts entries) m) ≡ values_at key m ++ chosen key entries
unfolding parse_parts pair_texts
parse_parts-values key [] m _ = sym (append-nil _)
parse_parts-values key ((k, v) ∷ entries) m (h, hs) =
    ap (λ m'. values_at key (parse_parts (pair_texts entries) m')) (parse_part-pair k v m h)
    ∙ parse_parts-values key entries (append_value k v m) hs
    ∙ ap (λ xs. xs ++ chosen key entries) (values_at-append_value key k v m)
    ∙ chosen-step (k == key) (values_at key m) v (chosen key entries)

pair_texts-Lacks :
    (entries : List (Str × Str)) → All IsByteEntry entries → All (Lacks b'&') (pair_texts entries)
unfolding pair_texts
pair_texts-Lacks [] _ = tt
pair_texts-Lacks ((k, v) ∷ entries) (h, hs) =
    (pair-Lacks b'&' k v is_separator.0 refl h, pair_texts-Lacks entries hs)

parse_query-pairs :
    (key : Str) (entries : List (Str × Str))
    → All IsByteEntry entries
    → values_at key (parse_query (join (b'&' ∷ []) (pair_texts entries))) ≡ chosen key entries
unfolding parse_query pair_texts values_at lookup parse_part parse_parts split join
parse_query-pairs key [] _ = refl
parse_query-pairs key ((k, v) ∷ entries) h =
    ap (λ parts. values_at key (parse_parts parts []))
      (split-join b'&' (escape k ++ b'=' ∷ escape v) (pair_texts entries)
        (pair_texts-Lacks ((k, v) ∷ entries) h))
    ∙ parse_parts-values key ((k, v) ∷ entries) [] h

key_entries-IsByteEntry :
    (k : Str) (vs : List Str) → IsBytes k → All IsBytes vs → All IsByteEntry (key_entries k vs)
key_entries-IsByteEntry k [] _ _ = tt
key_entries-IsByteEntry k (v ∷ vs) h (g, gs) = ((h, g), key_entries-IsByteEntry k vs h gs)

flat_entries-IsByteEntry : (m : Map (List Str)) → IsByteMap m → All IsByteEntry (flat_entries m)
flat_entries-IsByteEntry [] _ = tt
flat_entries-IsByteEntry ((k, vs) ∷ m) ((h, g), later) =
    All-append IsByteEntry (key_entries k vs) (flat_entries m) (key_entries-IsByteEntry k vs h g)
      (flat_entries-IsByteEntry m later)

-- A map of byte strings, with each key once, has the same values when it is encoded and parsed.
pub parse_query-encode_query :
    (key : Str) (m : Map (List Str))
    → Distinct m
    → IsByteMap m
    → values_at key (parse_query (encode_query m)) ≡ values_at key m
unfolding encode_query
parse_query-encode_query key m d b =
    parse_query-pairs key (flat_entries (sort m))
      (flat_entries-IsByteEntry (sort m) (All-sort _ m b))
    ∙ chosen-sort key m d
    ∙ chosen-flat_entries key m d
