-- ===== src/Tests/Querying.antt =====
-- Queries, as net/url parses and encodes them.
use pf9_oidc_proxy.Base.{true, none, some, [], ◌∷◌, ◌++◌, ◌≡◌, refl, arith, if◌then◌else◌}
use pf9_oidc_proxy.Strings.{Str, bytes, ◌==◌, split, join}
use pf9_oidc_proxy.Result.{ok}
use pf9_oidc_proxy.Maps.{values_at, lookup, insert, append_value}
use pf9_oidc_proxy.Query.{net_url, parse_query, encode_query, escape, unescape}
use pf9_oidc_proxy.Query.Escape.{IsBytes}
use pf9_oidc_proxy.Namespace.Path.{namespaces}
use pf9_oidc_proxy.Namespace.Region.{Url, label_selector, label_selector_prefix, is_labelled}
use pf9_oidc_proxy.Namespace.RoundTrip.{rewrite_url}
use pf9_oidc_proxy.Namespace.RoundTrip.Laws.{url_of}
use pf9_oidc_proxy.Namespace.RoundTrip.Queries.{rewrite_url-query}
use pf9_oidc_proxy.Tests.Rewriting.{
  group_path, mapped, machines-IsAddressed, namespace1-IsSegment, namespace1-IsPlain,
}

-- All that the queries compute with.
querying : Unit {0}
unfolding parse_query encode_query escape unescape ◌==◌ split join lookup insert append_value
    values_at
querying = tt

escaped :
    (escape (bytes "a b/c=d~") ≡ bytes "a+b%2Fc%3Dd~")
    × (unescape (bytes "a+b%2fc%3Dd~") ≡ some (bytes "a b/c=d~"))
    × (unescape (bytes "a%2") ≡ none)
    × (unescape (bytes "%zz") ≡ none)
unfolding querying
escaped = (refl, refl, refl, refl)

-- A key with no value, a part that is malformed, and a key twice.
parsed_query :
    (parse_query (bytes "b=1&a&&c;d=2&e=%&b=2")
      ≡ (bytes "b", bytes "1" ∷ bytes "2" ∷ []) ∷ (bytes "a", bytes "" ∷ []) ∷ [])
    × (encode_query ((bytes "b", bytes "1" ∷ bytes "2" ∷ []) ∷ (bytes "a", bytes "x=y" ∷ []) ∷ [])
        ≡ bytes "a=x%3Dy&b=1&b=2")
unfolding querying
parsed_query = (refl, refl)

abbrev limited : Str
limited = bytes "limit=500&labelSelector=a%3Db"

limited-IsBytes : IsBytes limited
limited-IsBytes = ground arith

region1-IsBytes : IsBytes (bytes "region1")
region1-IsBytes = ground arith

machines_labelled : is_labelled (bytes "machines") ≡ true
unfolding is_labelled ◌==◌
machines_labelled = refl

rewrite_url-query_example :
    (sent : Url Str) × (rewrite_url net_url mapped (
        url_of net_url mapped
          (bytes "tenant1" ∷ bytes "region1" ∷ group_path
            ++ namespaces ∷ bytes "default" ∷ bytes "machines" ∷ [])
          limited)
      ≡ ok sent)
    × (values_at (bytes "limit") (parse_query sent.raw_query) ≡ (
        if label_selector == bytes "limit"
        then (label_selector_prefix ++ bytes "region1") ∷ []
        else values_at (bytes "limit") (parse_query limited)))
rewrite_url-query_example =
    rewrite_url-query mapped (bytes "tenant1") (bytes "region1") group_path (bytes "default")
      (bytes "machines") limited (bytes "limit") machines-IsAddressed namespace1-IsSegment
      namespace1-IsPlain (ground arith) machines_labelled region1-IsBytes limited-IsBytes
