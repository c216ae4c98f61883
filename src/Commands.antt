-- ===== src/Commands.antt =====
-- cmd: the two programs of the repository.
pub mod Standalone
pub mod Serving
pub mod Cli
