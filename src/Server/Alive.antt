-- ===== src/Server/Alive.antt =====
-- server.go, heartbeatLoop, and internal/worker/recovery.go: a job that runs for long, over the
-- beats of its worker and the recoveries of any server.
use winter.Base.{ℕ, String, ℤ, ◌+ℤ◌, ◌<ℤ◌, ◌≡◌, refl, true, some, List, [], ◌∷◌, arith}
use winter.Redis.{Redis, Db}
use winter.Queue.Link.{Link}
use winter.Queue.Api.{recover_expired_leases_at, lease_duration}
use winter.Queue.View.{JobView, Shows}
use winter.Queue.Refine.Lease.{recovery_spares_live}
use winter.Server.Upkeep.{beat}
use winter.Server.Beat.{in_flight, up_always, now_always, beat-Shows}

-- A beat of the worker at a time with its jobs in flight, or a recovery of the queue.
pub data Event : Type 0 where
  beats : ℤ → List (String × String) → Event
  recovers : Link → ℕ → ℤ → Event

abbrev pub last_beat : ℤ → List Event → ℤ
last_beat last [] = last
last_beat last (beats now jobs ∷ es) = last_beat now es
last_beat last (recovers link limit time ∷ es) = last_beat last es

-- The job is in flight at each beat, and each recovery comes within 30 seconds of the last one.
abbrev pub Timely : String → String → ℤ → List Event → Type 0
Timely q j last [] = Unit
Timely q j last (beats now jobs ∷ es) = (in_flight q j jobs ≡ true) × Timely q j now es
Timely q j last (recovers link limit time ∷ es) =
    (time <ℤ last +ℤ lease_duration) × Timely q j last es

module _ (R : Redis) (worker q : String) where
  abbrev pub happen : List Event → Db R → Db R
  happen [] db = db
  happen (beats now jobs ∷ es) db =
      happen es (beat R (up_always R now) (now_always R now) worker jobs db)
  happen (recovers link limit time ∷ es) db =
      happen es (recover_expired_leases_at R link q limit time db).1

  -- A worker that beats in time never loses its job: over any number of beats on working links
  -- and of recoveries over any links, in any order, where the job is in flight at each beat and each
  -- recovery comes less than 30 seconds after the beat before it, the job stays where it is, with
  -- its hash, under a lease of 30 seconds from the last beat.
  pub kept_alive :
      (es : List Event) (last : ℤ) (db : Db R) (j : String) (v : JobView)
      → Shows R q db j (record v { lease = some (last +ℤ lease_duration) })
      → Timely q j last es
      → Shows R q (happen es db) j (record v { lease = some (last_beat last es +ℤ lease_duration) })
  kept_alive [] last db j v s t = s
  kept_alive (beats now jobs ∷ es) last db j v s (flies, t) =
      kept_alive es now _ j v
        (beat-Shows R now worker q jobs db j (record v { lease = some (last +ℤ lease_duration) }) s
          refl flies)
        t
  kept_alive (recovers link limit time ∷ es) last db j v s (early, t) =
      kept_alive es last _ j v
        (recovery_spares_live R link q limit time db j
          (record v { lease = some (last +ℤ lease_duration) }) s (λ u e. ground (arith, e, early)))
        t
