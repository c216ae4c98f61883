-- ===== src/Queue/Lifecycle/Invariant.antt =====
-- The places of a job over any operations of its queue (internal/queue/queue.go).
use winter.Base.{String, ◌≡◌, Bool, true, false, not, arith, ◌∙◌}
use winter.Redis.{Redis, Db}
use winter.Queue.View.{JobView, Shows, view}
use winter.Queue.Link.{Link}
use winter.Queue.Lifecycle.{Op, perform, Allowed, Reach, here, next, places, ends_job}
use winter.Queue.Lifecycle.Views.{Shows-IsGood, Move-IsGood, Move_keeps}
use winter.Queue.Lifecycle.Simulation.{IsPlaced, step-Moves}

module _ (R : Redis) where
  step-IsPlaced :
      (q : String) (db : Db R) (link : Link) (op : Op)
      → Allowed R q op db
      → IsPlaced R q db
      → IsPlaced R q (perform R q link op db)
  step-IsPlaced q db link op a g j =
      let (w, m, s) = step-Moves R q db j link op g a in
      Shows-IsGood R q _ j w s (Move-IsGood _ _ _ w m (g j))

  -- In every database that disciplined operations reach from one in which each job of the queue is
  -- in at most one of the ready, delayed, active and dead places, leased exactly while active, and
  -- with its attempts and limit stored if it is in a place, the same holds, whatever the links do.
  pub Reach-IsPlaced :
      (kinds : Op → Bool) (q : String) (start db : Db R)
      → IsPlaced R q start
      → Reach R kinds q start db
      → IsPlaced R q db
  Reach-IsPlaced kinds q start db good here = good
  Reach-IsPlaced kinds q start _ good (next {db} link op r k a) =
      step-IsPlaced q db link op a (Reach-IsPlaced kinds q start db good r)

  places-Shows :
      (q : String) (db : Db R) (j : String) (v : JobView)
      → Shows R q db j v
      → places (view R q db j) ≡ places v
  places-Shows q db j v s = ground (arith, s.ready, s.delayed, s.active, s.dead)

  -- No operation but an acknowledgement, a cancellation or a purge loses a job: from a well placed
  -- database, a job that stands in one place still stands in one place after any disciplined
  -- operations of the other kinds, whatever the links do.
  pub Reach-keeps_jobs :
      (q : String) (start db : Db R) (j : String)
      → IsPlaced R q start
      → places (view R q start j) ≡ 1
      → Reach R (λ op. not (ends_job op)) q start db
      → places (view R q db j) ≡ 1
  Reach-keeps_jobs q start db j good one here = one
  Reach-keeps_jobs q start _ j good one (next {db} link op r k a) =
      let placed = Reach-IsPlaced (λ o. not (ends_job o)) q start db good r in
      let (w, m, s) = step-Moves R q db j link op placed a in
      places-Shows q _ j w s
      ∙ Move_keeps _ (view R q db j) w (rw (negated (ends_job op) k) at m) (placed j)
          (Reach-keeps_jobs q start db j good one r)
    where
      negated : (b : Bool) → not b ≡ true → b ≡ false
      negated b h = ground arith
