-- ===== src/Proxy/Laws.antt =====
-- What the chain of handlers guarantees.
pub mod Refusals
pub mod Building
pub mod Extra
pub mod Admitted
pub mod Chain
pub mod Outcomes
pub mod Serving
pub mod Delivery
pub mod Answering
pub mod Admission
pub mod Sending
pub mod Passthrough
