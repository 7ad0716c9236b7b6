-- ===== src/Namespace/RoundTrip.antt =====
-- RoundTrip of CustomNamespaceRoundTripper, up to the call of the next transport.
pub mod Laws
pub mod Queries
pub mod Reloaded
use pf9_oidc_proxy.Base.{Option}
use pf9_oidc_proxy.Strings.{Str}
use pf9_oidc_proxy.Result.{Result}
use pf9_oidc_proxy.Namespace.Path.{modify_namespace_in_path}
use pf9_oidc_proxy.Namespace.Region.{QueryCodec, Url, add_region_label_selector_in_path}

module _ (codec : QueryCodec) where
  open codec use {RawQuery}

  -- The URL that is handed to the next transport.
  unfoldable pub rewrite_url : (Str → Option Str) → Url RawQuery → Result (Unit {0}) (Url RawQuery)
  unfolding modify_namespace_in_path add_region_label_selector_in_path
  rewrite_url get_namespace url =
      add_region_label_selector_in_path codec
        (record url { path = modify_namespace_in_path get_namespace url.path })
