-- ===== src/Queue/Lifecycle/Moves.antt =====
-- The life of one job as a state machine: what may happen to its view, and when.
use winter.Base.{String, ℤ, Bool, true, ◌≡◌, is_some}
use winter.Queue.Scripts.{EnqueueArgs}
use winter.Queue.View.{JobView}
use winter.Queue.Transitions.{
  enqueued, activated, completed, cancelled, rescheduled, nacked, extended, recovered, promoted,
  revived, purged,
}
use winter.Queue.Lifecycle.{places}

-- The first flag says whether the move may take the job out of the queue, and the second whether a
-- job that it enqueues has the state pending.
pub data Move (ends pending : Bool) (v : JobView) : JobView → Type 0 where
  stay : Move ends pending v v
  enqueue :
      (a : EnqueueArgs) (unique : String)
      → places v ≡ 0
      → (pending ≡ true → a.state ≡ "pending")
      → Move ends pending v (enqueued a unique v)
  activate :
      (now duration : ℤ) → is_some v.ready ≡ true → Move ends pending v (activated now duration v)
  complete : (now : ℤ) → ends ≡ true → v.active ≡ true → Move ends pending v (completed now v)
  cancel :
      (now : ℤ) (reason : String)
      → ends ≡ true
      → v.active ≡ true
      → Move ends pending v (cancelled now reason v)
  reschedule : (time : ℤ) → v.active ≡ true → Move ends pending v (rescheduled time v)
  fail :
      (skip : Bool) (message : String) (attempt max_retries time : ℤ)
      → v.active ≡ true
      → Move ends pending v (nacked skip message attempt max_retries time v)
  extend : (expiry : ℤ) → Move ends pending v (extended expiry v)
  recover : Move ends pending v (recovered v)
  promote : is_some v.delayed ≡ true → Move ends pending v (promoted v)
  revive : Move ends pending v (revived v)
  purge : ends ≡ true → Move ends pending v (purged v)
