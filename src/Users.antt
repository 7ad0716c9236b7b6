-- ===== src/Users.antt =====
-- `user.Info` of k8s.io/apiserver: what the program reads of a user.
use pf9_oidc_proxy.Base.{Option, none, some, List, []}
use pf9_oidc_proxy.Strings.{Str}
use pf9_oidc_proxy.Maps.{Map}

-- `extra` is nil or a map.
pub record User : Type 0 where
  pub name : Str
  pub uid : Str
  pub groups : List Str
  pub extra : Option (Map (List Str))

-- A nil map reads as an empty one.
abbrev pub entries : Option (Map (List Str)) → Map (List Str)
entries none = []
entries (some m) = m
