-- ===== src/Namespace/RoundTrip/Queries.antt =====
-- What the API server finds in the query of a list request, with the queries of net/url.
use pf9_oidc_proxy.Base.{
  ◌≤◌, Option, true, List, [], ◌∷◌, ◌++◌, ◌≡◌, ◌∙◌, arith, All-append, if◌then◌else◌,
}
use pf9_oidc_proxy.Strings.{Str, ◌==◌}
use pf9_oidc_proxy.Result.{ok}
use pf9_oidc_proxy.Maps.{values_at, values_at-insert, insert}
use pf9_oidc_proxy.Query.{net_url, parse_query}
use pf9_oidc_proxy.Query.Escape.{IsBytes}
use pf9_oidc_proxy.Query.RoundTrip.{parse_query-encode_query}
use pf9_oidc_proxy.Query.Parsed.{All-insert, insert-Distinct, parse_query-IsParsed}
use pf9_oidc_proxy.Namespace.Path.{namespaces}
use pf9_oidc_proxy.Namespace.Path.Segments.{IsSegment}
use pf9_oidc_proxy.Namespace.Path.Tenant.{IsPlain, namespace_or}
use pf9_oidc_proxy.Namespace.Region.{
  Url, label_selector, label_selector_prefix, is_labelled, set_selector, add_selector,
}
use pf9_oidc_proxy.Namespace.RoundTrip.{rewrite_url}
use pf9_oidc_proxy.Namespace.RoundTrip.Laws.{IsAddressed, url_of, rewrite_url-added}

prefix-IsBytes : IsBytes label_selector_prefix
prefix-IsBytes = ground arith

label_selector-IsBytes : IsBytes label_selector
label_selector-IsBytes = ground arith

parse_query-set_selector :
    (key region_name raw : Str)
    → IsBytes region_name
    → IsBytes raw
    → values_at key (parse_query (set_selector net_url region_name raw)) ≡ (
        if label_selector == key
        then (label_selector_prefix ++ region_name) ∷ []
        else values_at key (parse_query raw))
unfolding set_selector
parse_query-set_selector key region_name raw h g =
    let (d, b) = parse_query-IsParsed raw g in
    let selector = label_selector_prefix ++ region_name in
    parse_query-encode_query key (insert label_selector (selector ∷ []) (parse_query raw))
      (insert-Distinct label_selector (selector ∷ []) (parse_query raw) d)
      (All-insert _ label_selector (selector ∷ []) (parse_query raw)
        (
          label_selector-IsBytes,
          (All-append (λ c. c ≤ 255) label_selector_prefix region_name prefix-IsBytes h, tt),
        )
        b)
    ∙ values_at-insert key label_selector (selector ∷ []) (parse_query raw)

module _ (get_namespace : Str → Option Str) where
  -- A request for a collection of labelled objects in a namespace is sent with a query of which the
  -- API server reads the region's selector as the only `labelSelector`, and under every other name
  -- the values that the proxy had read, if region and query are strings of bytes. The segments of
  -- the path are not empty, the tenant is not `api`, neither the tenant, nor the region, nor a
  -- segment before `namespaces` is spelled `namespaces`, and the namespace that is put in is one
  -- segment; neither it nor the collection is spelled `namespaces`.
  pub rewrite_url-query :
      (tenant region_name : Str) (pre : List Str) (asked object raw key : Str)
      → IsAddressed tenant region_name pre (asked ∷ object ∷ [])
      → IsSegment (namespace_or (get_namespace tenant) asked)
      → IsPlain (namespace_or (get_namespace tenant) asked)
      → IsPlain object
      → is_labelled object ≡ true
      → IsBytes region_name
      → IsBytes raw
      → (sent : Url Str) × (rewrite_url net_url get_namespace (
            url_of net_url get_namespace
              (tenant ∷ region_name ∷ pre ++ namespaces ∷ asked ∷ object ∷ [])
              raw)
          ≡ ok sent)
        × (values_at key (parse_query sent.raw_query) ≡ (
            if label_selector == key
            then (label_selector_prefix ++ region_name) ∷ []
            else values_at key (parse_query raw)))
  unfolding add_selector
  rewrite_url-query tenant region_name pre asked object raw key a m p q labelled h g = (
    _,
    rewrite_url-added net_url get_namespace tenant region_name pre asked object raw a m p q,
    rw labelled (parse_query-set_selector key region_name raw h g),
  )
