-- ===== src/Tests.antt =====
-- Runs on concrete inputs, among them those of the repository's own tests, and the instances of the
-- theorems.
mod Rewriting
mod Reloading
mod Reviewing
mod Serving
mod Starting
mod Ending
mod Headers
mod Flagging
mod Querying
mod Refusing
mod Delivering
mod Passing
mod Shutting
mod Locking
