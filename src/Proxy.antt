-- ===== src/Proxy.antt =====
-- pkg/proxy: the request handlers of the proxy, its error handler and its transports.
pub mod Context
pub mod Errors
pub mod Handlers
pub mod Impersonation
pub mod Transports
pub mod Start
pub mod Laws
