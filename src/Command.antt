-- ===== src/Command.antt =====
-- The command line of the program: cmd/app and pkg/util/flags.
pub mod Flags
pub mod Options
pub mod Run
pub mod FlagSets
pub mod Version
pub mod Main
pub mod Reviewers
