-- ===== src/Server.antt =====
-- server.go, middleware.go and the error values of winter.go: the server that takes jobs from the
-- queues and runs their handlers.
pub mod Handle
pub mod Pool
pub mod Results
pub mod Config
pub mod Failure
pub mod Process
pub mod Poll
pub mod Order
pub mod Outcome
pub mod Survival
pub mod Upkeep
pub mod Beat
pub mod Alive
pub mod Promotion
pub mod Sweep
