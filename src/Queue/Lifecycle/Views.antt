-- ===== src/Queue/Lifecycle/Views.antt =====
-- Where a job stands before and after a move, and which views are good.
use winter.Base.{
  ◌≤◌, String, ℤ, ◌≡◌, refl, Bool, true, false, ◌&&◌, ◌||◌, Option, none, some, arith, nat_eq,
  is_some,
}
use winter.Redis.{Redis, Db, Value, text, num, to_map}
use winter.Queue.Scripts.{EnqueueArgs}
use winter.Queue.View.{JobView, Shows, view}
use winter.Queue.Transitions.{
  enqueued, activated, completed, cancelled, rescheduled, nacked, extended, recovered, promoted,
  revived, purged,
}
use winter.Queue.Lifecycle.{places}
use winter.Queue.Lifecycle.Moves.{Move}

abbrev pub is_number : Option Value → Bool
is_number (some (num z)) = true
is_number _ = false

pub record IsGood (v : JobView) : Type 0 where
  pub single : places v ≤ 1
  pub leased : v.active ≡ is_some v.lease
  pub counted :
      (nat_eq (places v) 0 || (is_number (v.hash "attempt") && is_number (v.hash "max_retries")))
      ≡ true

enqueued-IsGood :
    (a : EnqueueArgs) (unique : String) (v : JobView)
    → places v ≡ 0
    → IsGood v
    → IsGood (enqueued a unique v)
unfolding to_map
enqueued-IsGood a unique v p g = ground arith

activated-IsGood :
    (now duration : ℤ) (v : JobView)
    → is_some v.ready ≡ true
    → IsGood v
    → IsGood (activated now duration v)
unfolding to_map
activated-IsGood now duration v p g = ground arith

completed-IsGood : (now : ℤ) (v : JobView) → IsGood v → IsGood (completed now v)
unfolding to_map
completed-IsGood now v g = ground arith

cancelled-IsGood :
    (now : ℤ) (reason : String) (v : JobView) → IsGood v → IsGood (cancelled now reason v)
unfolding to_map
cancelled-IsGood now reason v g = ground arith

rescheduled-IsGood :
    (time : ℤ) (v : JobView) → v.active ≡ true → IsGood v → IsGood (rescheduled time v)
unfolding to_map
rescheduled-IsGood time v p g = ground arith

nacked-IsGood :
    (skip : Bool) (message : String) (a m time : ℤ) (v : JobView)
    → v.active ≡ true
    → IsGood v
    → IsGood (nacked skip message a m time v)
unfolding to_map
nacked-IsGood skip message a m time v p g = ground arith

extended-IsGood : (expiry : ℤ) (v : JobView) → IsGood v → IsGood (extended expiry v)
extended-IsGood expiry v g = ground arith

recovered-IsGood : (v : JobView) → IsGood v → IsGood (recovered v)
unfolding to_map
recovered-IsGood v g = ground arith

promoted-IsGood : (v : JobView) → is_some v.delayed ≡ true → IsGood v → IsGood (promoted v)
unfolding to_map
promoted-IsGood v p g = ground arith

revived-IsGood : (v : JobView) → IsGood v → IsGood (revived v)
unfolding to_map
revived-IsGood v g = ground arith

purged-IsGood : (v : JobView) → IsGood v → IsGood (purged v)
purged-IsGood v g = ground arith

-- A good job that is active stands in no other place.
pub active-alone :
    (v : JobView)
    → IsGood v
    → v.active ≡ true
    → (v.ready ≡ none) × (v.delayed ≡ none) × (v.dead ≡ 0) × (is_some v.lease ≡ true)
active-alone v g p = ground arith

module _ (R : Redis) where
  -- The database's own view of a job is good if any view that it shows is.
  pub Shows-IsGood :
      (q : String) (db : Db R) (j : String) (v : JobView)
      → Shows R q db j v
      → IsGood v
      → IsGood (view R q db j)
  Shows-IsGood q db j v s g =
      ground (
        arith,
        s.hash "attempt",
        s.hash "max_retries",
        s.ready,
        s.delayed,
        s.dead,
        s.active,
        s.lease,
      )

  pub view-Shows : (q : String) (db : Db R) (j : String) → Shows R q db j (view R q db j)
  view-Shows q db j = record {
    ready = refl;
    delayed = refl;
    lease = refl;
    active = refl;
    dead = refl;
    hash = λ f. refl;
  }

pub number_of : (o : Option Value) → is_number o ≡ true → (z : ℤ) × (o ≡ some (num z))
number_of none h = cc
number_of (some (text s)) h = cc
number_of (some (num z)) h = (z, refl)

-- The stored attempt and limit of a good job that is active.
pub attempt_of : (v : JobView) → IsGood v → v.active ≡ true → is_number (v.hash "attempt") ≡ true
attempt_of v g p = ground arith

pub limit_of : (v : JobView) → IsGood v → v.active ≡ true → is_number (v.hash "max_retries") ≡ true
limit_of v g p = ground arith

-- Every move keeps a job in one place at most, leased exactly while it is active, with its attempts
-- and its limit stored while it is in a place.
pub Move-IsGood :
    (ends pending : Bool) (v w : JobView) → Move ends pending v w → IsGood v → IsGood w
Move-IsGood ends pending v w Move.stay g = g
Move-IsGood ends pending v w (Move.enqueue a unique p st) g = enqueued-IsGood a unique v p g
Move-IsGood ends pending v w (Move.activate now duration p) g = activated-IsGood now duration v p g
Move-IsGood ends pending v w (Move.complete now e p) g = completed-IsGood now v g
Move-IsGood ends pending v w (Move.cancel now reason e p) g = cancelled-IsGood now reason v g
Move-IsGood ends pending v w (Move.reschedule time p) g = rescheduled-IsGood time v p g
Move-IsGood ends pending v w (Move.fail skip message a m time p) g =
    nacked-IsGood skip message a m time v p g
Move-IsGood ends pending v w (Move.extend expiry) g = extended-IsGood expiry v g
Move-IsGood ends pending v w Move.recover g = recovered-IsGood v g
Move-IsGood ends pending v w (Move.promote p) g = promoted-IsGood v p g
Move-IsGood ends pending v w Move.revive g = revived-IsGood v g
Move-IsGood ends pending v w (Move.purge e) g = purged-IsGood v g

-- A move that does not end the job keeps it in a place.
pub Move_keeps :
    (pending : Bool) (v w : JobView)
    → Move false pending v w
    → IsGood v
    → places v ≡ 1
    → places w ≡ 1
Move_keeps pending v w Move.stay g h = h
Move_keeps pending v w (Move.enqueue a unique p st) g h = absurd (omega (arith, p, h))
Move_keeps pending v w (Move.activate now duration p) g h = ground arith
Move_keeps pending v w (Move.complete now e p) g h = cc
Move_keeps pending v w (Move.cancel now reason e p) g h = cc
Move_keeps pending v w (Move.reschedule time p) g h = ground arith
Move_keeps pending v w (Move.fail skip message a m time p) g h = ground arith
Move_keeps pending v w (Move.extend expiry) g h = h
Move_keeps pending v w Move.recover g h = ground arith
Move_keeps pending v w (Move.promote p) g h = ground arith
Move_keeps pending v w Move.revive g h = ground arith
Move_keeps pending v w (Move.purge e) g h = cc
