-- ===== src/Queue/Refine.antt =====
-- Each method of internal/queue/queue.go against the transition that it stands for.
pub mod Release
pub mod Nack
pub mod Enqueue
pub mod Dequeue
pub mod Lease
pub mod Promote
pub mod Dead
pub mod Stored
