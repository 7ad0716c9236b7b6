-- ===== src/Proxy/Laws/Admitted.antt =====
-- The requests that the chain of handlers may pass on.
use pf9_oidc_proxy.Base.{true, false, List, Option, none, some, [], ◌≡◌, ◌≢◌}
use pf9_oidc_proxy.Strings.{Str}
use pf9_oidc_proxy.Result.{ok, panic}
use pf9_oidc_proxy.Users.{User, entries}
use pf9_oidc_proxy.Http.{Header}
use pf9_oidc_proxy.Access.Sound.{IsAuthorized}
use pf9_oidc_proxy.Token.{review}
use pf9_oidc_proxy.Namespace.Region.{Url}
use pf9_oidc_proxy.Proxy.Context.{
  Request, ImpersonationRequest, empty_context, no_impersonation, impersonation_config,
}
use pf9_oidc_proxy.Proxy.Impersonation.{authenticated, failed, Proxy, has_impersonation}
use pf9_oidc_proxy.Maps.{Map, values_at}
use pf9_oidc_proxy.Access.NoPanic.{HasValues}
use pf9_oidc_proxy.Proxy.Laws.Extra.{extra_values}
use pf9_oidc_proxy.Proxy.Laws.Building.{impersonated_name, impersonated_groups, IsEnsured}

-- A request as the server hands it to the first handler.
abbrev pub fresh : {Query : Type 0} → Header → Url Query → Str → Request Query
fresh header url address = record {
  header = header;
  url = url;
  remote_addr = address;
  context = empty_context;
}

-- The configuration that belongs to a user and the target that the user impersonates, if any, for a
-- request from this address.
pub record IsFor {Query : Type 0} (p : Proxy Query) (address : Str) (user : User)
    (target : Option User) (conf : ImpersonationRequest) : Type 0 where
  pub named : user.name ≢ []
  pub name_is : conf.config.user_name ≡ impersonated_name user target
  pub groups_are : IsEnsured (impersonated_groups user target) conf.config.groups
  pub extra_is :
      (key : Str)
      → values_at key conf.config.extra ≡ extra_values p.config p.marshal address user target key

module _ {Query : Type 0} (p : Proxy Query) (req : Request Query) where
  -- The address that is gathered behind the authentication.
  abbrev pub client_address : Str
  client_address = p.get_remote_addr (record req { header = (p.authenticate_request req).1 })

  -- What keeps the chain from a panic: each name of the header that the authentication leaves has a
  -- value, as net/http delivers it, and `json.Marshal` does not panic.
  pub record Returns : Type 0 where
    pub has_values : HasValues (p.authenticate_request req).1
    pub marshals : (m : Map (List Str)) → p.marshal m ≢ panic

  -- A request goes on with the header that the authentication leaves, and with its URL.
  pub record IsUnchanged (r : Request Query) : Type 0 where
    pub header_is : r.header ≡ (p.authenticate_request req).1
    pub url_is : r.url ≡ req.url

  -- The ways for a request to be passed on, as `r`.
  pub data Admitted (r : Request Query) : Type 0 where
    by_token_review :
        (text : Str)
        → (p.authenticate_request req).0 ≡ failed text
        → p.config.token_review ≡ true
        → review p.create_token_review p.audiences (p.authenticate_request req).1 ≡ ok true
        → no_impersonation r ≡ true
        → IsUnchanged r
        → Admitted r
    without_impersonation :
        (user : User)
        → (p.authenticate_request req).0 ≡ authenticated user
        → p.config.disable_impersonation ≡ true
        → no_impersonation r ≡ true
        → IsUnchanged r
        → Admitted r
    as_user :
        (user : User) (conf : ImpersonationRequest)
        → (p.authenticate_request req).0 ≡ authenticated user
        → p.config.disable_impersonation ≡ false
        → r.url ≡ req.url
        → has_impersonation r.header ≡ false
        → no_impersonation r ≡ false
        → impersonation_config r ≡ some conf
        → IsFor p client_address user none conf
        → Admitted r
    as_target :
        (user target : User) (conf : ImpersonationRequest)
        → (p.authenticate_request req).0 ≡ authenticated user
        → p.config.disable_impersonation ≡ false
        → IsAuthorized p.create_access_review user target.name target.uid target.groups
            (entries target.extra)
        → r.url ≡ req.url
        → has_impersonation r.header ≡ false
        → no_impersonation r ≡ false
        → impersonation_config r ≡ some conf
        → IsFor p client_address user (some target) conf
        → Admitted r
