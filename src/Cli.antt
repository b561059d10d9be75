-- ===== src/Cli.antt =====
-- internal/cli: the command line.
pub mod Flags
pub mod Values
pub mod FlagSet
pub mod Validity
