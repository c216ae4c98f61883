-- ===== src/Queue/Lifecycle/Labels.antt =====
-- The state that a job's hash names, and the place in which the job stands: the scripts of
-- internal/queue/scripts.go write both.
use winter.Base.{◌<◌, String, ◌≡◌, refl, ap, subst, ◌⊎◌, Bool, true, some, arith, is_some}
use winter.Redis.{Redis, Db, text, to_map}
use winter.Queue.View.{JobView, Shows, view}
use winter.Queue.Lifecycle.{Reach, here, next, starts_pending, ends_job}
use winter.Queue.Lifecycle.Moves.{Move}
use winter.Queue.Lifecycle.Views.{IsGood}
use winter.Queue.Lifecycle.Simulation.{IsPlaced, step-Moves}
use winter.Queue.Lifecycle.Invariant.{Reach-IsPlaced}

-- The state in the hash is the one that the place calls for.
pub record IsLabelled (v : JobView) : Type 0 where
  pub ready : is_some v.ready ≡ true → v.hash "state" ≡ some (text "pending")
  pub waiting :
      is_some v.delayed ≡ true
      → (v.hash "state" ≡ some (text "pending")) ⊎ (v.hash "state" ≡ some (text "retry"))
  pub running : v.active ≡ true → v.hash "state" ≡ some (text "active")
  pub dead : 0 < v.dead → v.hash "state" ≡ some (text "dead")

Move-IsLabelled :
    (ends : Bool) (v w : JobView) → Move ends true v w → IsGood v → IsLabelled v → IsLabelled w
unfolding to_map
Move-IsLabelled ends v w Move.stay g l = l
Move-IsLabelled ends v w (Move.enqueue a unique p st) g l = ground (arith, ap text (st refl))
Move-IsLabelled ends v w (Move.activate now duration p) g l = ground arith
Move-IsLabelled ends v w (Move.complete now e p) g l = ground arith
Move-IsLabelled ends v w (Move.cancel now reason e p) g l = ground arith
Move-IsLabelled ends v w (Move.reschedule time p) g l = ground arith
Move-IsLabelled ends v w (Move.fail skip message a m time p) g l = ground arith
Move-IsLabelled ends v w (Move.extend expiry) g l = record {
  ready = l.ready;
  waiting = l.waiting;
  running = l.running;
  dead = l.dead;
}
Move-IsLabelled ends v w Move.recover g l = ground arith
Move-IsLabelled ends v w (Move.promote p) g l = ground arith
Move-IsLabelled ends v w Move.revive g l = ground arith
Move-IsLabelled ends v w (Move.purge e) g l = ground arith

module _ (R : Redis) where
  Shows-IsLabelled :
      (q : String) (db : Db R) (j : String) (v : JobView)
      → Shows R q db j v
      → IsLabelled v
      → IsLabelled (view R q db j)
  Shows-IsLabelled q db j v s l =
      ground (arith, s.hash "state", s.ready, s.delayed, s.dead, s.active)

  -- In every database that disciplined operations reach from one in which each job of the queue is
  -- well placed and labelled, where a job is enqueued only in the state pending, the state in a
  -- job's hash is the one that its place calls for, whatever the links do: a ready job is pending,
  -- a delayed one is pending or in retry, an active one is active and a dead one is dead.
  pub Reach-IsLabelled :
      (q : String) (start db : Db R)
      → IsPlaced R q start
      → ((j : String) → IsLabelled (view R q start j))
      → Reach R starts_pending q start db
      → (j : String) → IsLabelled (view R q db j)
  Reach-IsLabelled q start db good l here j = l j
  Reach-IsLabelled q start _ good l (next {db} link op r k a) j =
      let placed = Reach-IsPlaced R starts_pending q start db good r in
      let (w, m, s) = step-Moves R q db j link op placed a in
      Shows-IsLabelled q _ j w s (
        Move-IsLabelled (ends_job op) (view R q db j) w
          (subst (λ b. Move (ends_job op) b (view R q db j) w) k m) (placed j)
          (Reach-IsLabelled q start db good l r j))
