-- ===== src/Lib.antt =====
-- kube-oidc-proxy: a reverse proxy that authenticates requests to a Kubernetes API server by OpenID
-- Connect, and sends them on as impersonated requests.
--
-- A request passes through a chain of handlers (pkg/proxy/handlers.go): authentication of the bearer
-- token, or else a review of it by the API server (pkg/proxy/tokenreview), then the impersonation,
-- which may ask the API server for permission (pkg/proxy/subjectaccessreview). What the handlers find
-- out travels in the request's context (pkg/proxy/context). `RoundTrip` (pkg/proxy/proxy.go) then
-- chooses headers and transport; impersonated requests go through the namespace round tripper
-- (pkg/proxy/namespace_round_tripper.go), which takes the tenant and the region off the path.
--
-- Files, with the code that each models:
--   Base, Strings, Maps, Result, Http, Users, Csv: lists and tests; Go strings as lists of bytes with
--     the functions of package strings; maps as lists of entries; errors and panics; http.Header;
--     user.Info; the reader and the writer of encoding/csv. Query: the queries of net/url.
--   Namespace/Path, Namespace/Region, Namespace/RoundTrip: modifyNamespaceInPath, joinPath,
--     addRegionLabelSelectorInPath and RoundTrip of pkg/proxy/namespace_round_tripper.go; one function
--     for each loop, over the list of parts, with the loop's variables as arguments. In
--     Namespace/RoundTrip/Queries the query that is sent is read again, and in
--     Namespace/RoundTrip/Reloaded the mappings are those of a file that changes.
--   Namespace/Mapping: MappingManager of the same file: loadMappings, watchFile over the list of the
--     events that the watcher delivers, GetNamespace.
--   Namespace/Mapping/Live: the same manager in use, the start of its goroutine, the events and the
--     lookups in any order, each a whole step. Namespace/Mapping/Locking: the critical sections of
--     loadMappings and GetNamespace, statement by statement, for any number of requests, with
--     sync.RWMutex given by when its calls return.
--   Access: CheckAuthorizedForImpersonation and checkRbacImpersonationAuthorization of
--     pkg/proxy/subjectaccessreview/subjectaccessreview.go. `Found` holds the loop's variables.
--     Access/Left, Access/NoPanic and Access/Order: the headers that are left, the indices, and the
--     order in which Go meets the headers. Access/Fake: the fake reviewer of the same package.
--   Token: ParseTokenFromRequest of pkg/util/token.go, Review of pkg/proxy/tokenreview/tokenreview.go.
--     Token/Fake: FakeJWT, and the fake reviewer of pkg/proxy/tokenreview/fake.
--   Proxy/Context, Proxy/Errors, Proxy/Impersonation, Proxy/Handlers, Proxy/Transports:
--     pkg/proxy/context/context.go, and newErrorHandler, withImpersonateRequest, the other handlers,
--     Run and RoundTrip of pkg/proxy.
--   Proxy/Start, Audit: New, Run and serve of pkg/proxy/proxy.go, with the libraries' errors as
--     arguments, and pkg/proxy/audit; what is started and stopped is a list of effects. Audit/Filters: the answers behind the wrappings.
--     Proxy/Laws: which requests the chain admits (Admitted, with the proof over two chains in Chain),
--     every answer (Outcomes), what is sent (Serving, Delivery), that an answer is sent (Answering),
--     what is passed on with the client's token (Passthrough), the configuration (Building, Extra).
--   Process: the goroutines from the return of Run to the end of the process, as a step relation:
--     that of pkg/util/signals.go, the server, the waits of cmd/app/run.go and the end of cmd/main.go.
--   Hooks, Probe, Logging, Signals: pkg/proxy/hooks/hooks.go, pkg/probe/probe.go, the
--     addresses and, in Logging/Lines, the lines of pkg/proxy/logging/accesslog.go, and the goroutine
--     of pkg/util/signals.go.
--   Command/Flags, Command/Flags/Text: Set and String of pkg/util/flags/string_to_string_slice.go.
--   Command/Options, Command/FlagSets, Command/Run: the validation of the options in cmd/app/options,
--     with its proofs in Command/Options/Valid; their flags and default values, and the loop that
--     gives them to the command; the steps of the command in cmd/app/run.go, each call with its outcome
--     from an argument. Command/Main, Command/Reviewers: the command, its usage and the exit code of
--     cmd/main.go; the two reviewers. Command/Version: the text of the version in
--     cmd/app/options/misc.go.
--   Permutations: lists in another order.
--   Tests: runs on concrete inputs and instances of the theorems.
--
-- Loops are recursions on the list that they run over, so no fuel is needed. A map's list of entries
-- stands for one order of iteration. An index out of range is the result `panic`.
--
-- Arguments of the model are what the code calls and does not contain: the OIDC authenticator, the
-- answers of the API server, xff.GetRemoteAddr, the audit filters, the impersonating round tripper
-- of client-go, the reverse proxy of net/http/httputil, encoding/json, the signer of tokens, and
-- what the calls of the start return, pflag's AddFlagSet, and what cobra does with the arguments.
-- The reverse proxy may join paths and drop headers; a theorem that needs a part of a request kept
-- says so of that request. The rewriting takes the queries of net/url as a record of
-- functions, which Query fills.
-- The server of k8s.io/apiserver enters Process as what it documents: once the stop channel is closed
-- it may close its two channels, in either order. The channel of the signals holds two, and
-- signal.Notify drops what finds it full. A run of the process is a list of steps, without fuel.
-- Bounds: case folding and white space are those of ASCII, to which net/http restricts header names.
-- Slices are values: writes through shared backing arrays do not occur in the code that is modelled,
-- but the map of a user's extra values is shared, and that is modelled (`share_extra`).
-- Not modelled: TLS and server set-up, the usage texts of single flags, the flags of libraries, the
-- time-outs of reviews, and FreePort of pkg/util/port.go, which only tests call.
pub mod Base
pub mod Strings
pub mod Result
pub mod Maps
pub mod Namespace
pub mod Http
pub mod Users
pub mod Access
pub mod Audit
pub mod Token
pub mod Proxy
pub mod Command
pub mod Csv
pub mod Query
pub mod Hooks
pub mod Permutations
pub mod Logging
pub mod Probe
pub mod Signals
pub mod Process
pub mod Tests
