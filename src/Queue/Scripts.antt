-- ===== src/Queue/Scripts.antt =====
-- internal/queue/scripts.go: each Lua script as a function from the database to its reply and the
-- database that it leaves. Arguments stand in the order of KEYS and ARGV.
mod Entry
mod Outcomes
mod Upkeep
unfoldable pub use Entry.*
unfoldable pub use Outcomes.*
unfoldable pub use Upkeep.*
