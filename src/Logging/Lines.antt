-- ===== src/Logging/Lines.antt =====
-- LogSuccessfulRequest and LogFailedRequest of pkg/proxy/logging/accesslog.go: the lines that they
-- print. The time is an argument, in the layout of the log.
use pf9_oidc_proxy.Base.{Option, none, some, List, [], ◌∷◌, ◌++◌}
use pf9_oidc_proxy.Strings.{Str, bytes, join}
use pf9_oidc_proxy.Maps.{Map}
use pf9_oidc_proxy.Users.{User, entries}
use pf9_oidc_proxy.Http.{Header, get}
use pf9_oidc_proxy.Logging.{logged_addr, find_x_forwarded_for}

pub record LoggedRequest : Type 0 where
  pub remote_addr : Str
  pub header : Header
  pub request_uri : Str

-- The loop over a user's extra values; a nil map gives none.
extras_text : Map (List Str) → Str
extras_text [] = []
extras_text ((key, value) ∷ extra) =
    (key ++ (bytes "=" ++ (join (bytes "|") value ++ bytes " "))) ++ extras_text extra

outbound_text : Option User → Str
unfolding extras_text
outbound_text none = []
outbound_text (some u) =
    bytes " outbound:["
    ++ (u.name
        ++ (bytes " / "
            ++ (join (bytes "|") u.groups
                ++ (bytes " / "
                    ++ (u.uid ++ (bytes " / " ++ (extras_text (entries u.extra) ++ bytes "]")))))))

source_text : Str → Str → Str → Str
source_text addr forwarded uri =
    bytes " src:[" ++ (addr ++ (bytes " / " ++ (forwarded ++ (bytes "] URI:" ++ uri))))

-- The inbound user, and the user that is impersonated, if there is one.
unfoldable pub successful_line : Str → LoggedRequest → User → Option User → Str
unfolding extras_text outbound_text source_text
successful_line now req inbound outbound =
    let addr = logged_addr req.remote_addr in
    bytes "["
    ++ (now
        ++ (bytes "] AuSuccess"
            ++ (source_text addr (find_x_forwarded_for req.header addr) req.request_uri
                ++ (bytes " inbound:["
                    ++ (inbound.name
                        ++ (bytes " / "
                            ++ (join (bytes "|") inbound.groups
                                ++ (bytes " / "
                                    ++ (extras_text (entries inbound.extra)
                                        ++ (bytes "]"
                                            ++ (outbound_text outbound ++ 10 ∷ [])))))))))))

unfoldable pub failed_line : Str → LoggedRequest → Str
unfolding source_text
failed_line now req =
    bytes "["
    ++ (now
        ++ (bytes "] AuFail"
            ++ (source_text (logged_addr req.remote_addr) (get (bytes "x-forwarded-for") req.header)
                  req.request_uri
                ++ 10 ∷ [])))
