-- ===== src/Namespace.antt =====
-- pkg/proxy/namespace_round_tripper.go: the round tripper that rewrites the tenant and the region
-- of a request's path.
pub mod Mapping
pub mod Path
pub mod Region
pub mod RoundTrip
