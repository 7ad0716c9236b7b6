-- ===== src/Access.antt =====
-- pkg/proxy/subjectaccessreview: whether a user may impersonate what the headers of a request ask.
pub mod Review
pub mod Check
pub mod Spec
pub mod Steps
pub mod Exact
pub mod Outcomes
pub mod Untouched
pub mod Left
pub mod NoPanic
pub mod Order
pub mod Fake
pub mod Sound
