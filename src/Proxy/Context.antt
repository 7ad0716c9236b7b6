-- ===== src/Proxy/Context.antt =====
-- pkg/proxy/context/context.go: what the handlers pass on in a request's context.
use pf9_oidc_proxy.Base.{Bool, true, false, Option, none, some, List, []}
use pf9_oidc_proxy.Strings.{Str}
use pf9_oidc_proxy.Maps.{Map}
use pf9_oidc_proxy.Users.{User}
use pf9_oidc_proxy.Http.{Header, get}
use pf9_oidc_proxy.Token.{authorization}
use pf9_oidc_proxy.Namespace.Region.{Url}

-- `transport.ImpersonationConfig` of client-go, with a field for each of its own
pub record ImpersonationConfig : Type 0 where
  pub user_name : Str
  pub uid : Str
  pub groups : List Str
  pub extra : Map (List Str)

pub record ImpersonationRequest : Type 0 where
  pub config : ImpersonationConfig
  pub inbound_user : User
  pub impersonated_user : Option User

-- One field for each context key, and the user that k8s.io/apiserver keeps.
pub record Context : Type 0 where
  pub no_impersonation : Option Bool
  pub impersonation_config : Option ImpersonationRequest
  pub bearer_token : Option Str
  pub client_address : Option Str
  pub user : Option User

abbrev pub empty_context : Context
empty_context = record {
  no_impersonation = none;
  impersonation_config = none;
  bearer_token = none;
  client_address = none;
  user = none;
}

pub record Request (Query : Type 0) : Type 0 where
  pub header : Header
  pub url : Url Query
  pub remote_addr : Str
  pub context : Context

or_false : Option Bool → Bool
or_false none = false
or_false (some b) = b

or_empty : Option Str → Str
or_empty none = []
or_empty (some s) = s

-- The user of the context, if a user is impersonated
context_user : Option User → Option User → Option User
context_user before none = before
context_user before (some u) = some u

module _ {Query : Type 0} where
  unfoldable pub with_no_impersonation : Request Query → Request Query
  with_no_impersonation req = record req {
    context = record (req.context) { no_impersonation = some true };
  }

  unfoldable pub no_impersonation : Request Query → Bool
  unfolding or_false
  no_impersonation req = or_false req.context.no_impersonation

  unfoldable pub with_impersonation_config : Request Query → ImpersonationRequest → Request Query
  unfolding context_user
  with_impersonation_config req conf = record req {
    context = record (req.context) {
      impersonation_config = some conf;
      user = context_user req.context.user conf.impersonated_user;
    };
  }

  unfoldable pub impersonation_config : Request Query → Option ImpersonationRequest
  impersonation_config req = req.context.impersonation_config

  unfoldable pub with_bearer_token : Request Query → Header → Request Query
  with_bearer_token req header = record req {
    context = record (req.context) { bearer_token = some (get authorization header) };
  }

  unfoldable pub bearer_token : Request Query → Str
  unfolding or_empty
  bearer_token req = or_empty req.context.bearer_token

  -- `genericapirequest.WithUser`
  unfoldable pub with_user : Request Query → User → Request Query
  with_user req u = record req { context = record (req.context) { user = some u } }

  remember : Request Query → Str → Option Str → Request Query × Str
  remember req gathered none =
      (record req { context = record (req.context) { client_address = some gathered } }, gathered)
  remember req gathered (some address) = (req, address)

  -- The address that `xff.GetRemoteAddr` gathers is an argument.
  unfoldable pub remote_addr : (Request Query → Str) → Request Query → Request Query × Str
  unfolding remember
  remote_addr get_remote_addr req = remember req (get_remote_addr req) req.context.client_address
