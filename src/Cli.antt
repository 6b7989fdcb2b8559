-- ===== src/Cli.antt =====
-- crates/cli/src: the command line.
pub mod Args
pub mod Commands
pub mod Main
pub mod Skills
