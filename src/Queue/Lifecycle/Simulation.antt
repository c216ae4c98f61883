-- ===== src/Queue/Lifecycle/Simulation.antt =====
-- The operations of the queue (internal/queue/queue.go) as moves of a job.
use winter.Base.{
  ℕ, String, ℤ, ◌+ℤ◌, ◌≡◌, refl, subst, Bool, true, false, ◌&&◌, not, Option, none, some, arith,
  ◌==◌, eq_iff, if◌then◌else◌, is_some,
}
use winter.Redis.{Redis, Db, elem}
use winter.Queue.Keys.{delayed_key}
use winter.Queue.Job.{JobRecord}
use winter.Queue.Link.{Link, reached}
use winter.Queue.View.{JobView, Shows, view}
use winter.Queue.Api.{enqueue, enqueue_args, enqueue_keys, lease_duration}
use winter.Queue.Lifecycle.{
  Op, enqueues, dequeues, acks, nacks, reschedules, cancels, promotes, extends, recovers, retries,
  purges, perform, Allowed, ends_job, starts_pending, places,
}
use winter.Queue.Lifecycle.Moves.{Move}
use winter.Queue.Lifecycle.Views.{IsGood, view-Shows, number_of, attempt_of, limit_of}
use winter.Queue.Refine.Release.{ack-Shows, cancel_job-Shows, reschedule_job-Shows}
use winter.Queue.Refine.Nack.{nack-Shows}
use winter.Queue.Refine.Enqueue.{enqueue-Shows, is_duplicate}
use winter.Queue.Refine.Dequeue.{dequeue-Shows, dequeued, next_job, taken_job}
use winter.Queue.Refine.Lease.{extend_lease-Shows, recover_expired_leases_at-Shows, expired}
use winter.Queue.Refine.Promote.{promote-Shows, due}
use winter.Queue.Refine.Dead.{retry_dead-Shows, purge_dead-Shows}

right_of : (a b : Bool) → (a && b) ≡ true → b ≡ true
right_of a b h = ground arith

module _ (R : Redis) where
  -- Every job of the queue is in one place at most, and leased exactly while it is active.
  abbrev pub IsPlaced : String → Db R → Type 0
  IsPlaced q db = (j : String) → IsGood (view R q db j)

  -- From the one database to the other, job `j` made a move.
  abbrev pub Moves : String → Db R → Db R → String → Bool → Bool → Type 0
  Moves q db db' j ends pending =
      (w : JobView) × Move ends pending (view R q db j) w × Shows R q db' j w

  -- A transition that may or may not apply.
  Moves-if :
      (q : String) (db db' : Db R) (j : String) (ends pending b : Bool) (w : JobView)
      → (b ≡ true → Move ends pending (view R q db j) w)
      → Shows R q db' j (if b then w else view R q db j)
      → Moves q db db' j ends pending
  Moves-if q db db' j ends pending true w m s = (w, m refl, s)
  Moves-if q db db' j ends pending false w m s = (view R q db j, Move.stay, s)

  enqueue_here :
      (link : Link) (job : JobRecord) (uniq : String) (period : ℤ) (db : Db R)
      → places (view R job.queue db job.id) ≡ 0
      → (j : String)
      → Moves job.queue db (enqueue R link job uniq period db).1 j false (job.state == "pending")
  enqueue_here link job uniq period db new j =
      Moves-if job.queue db _ j false (job.state == "pending")
        (reached link && (not (is_duplicate R uniq period db) && (job.id == j))) _
        (λ e.
          Move.enqueue (enqueue_args job (enqueue_keys R uniq period).1)
            (enqueue_keys R uniq period).0
            (subst (λ k. places (view R job.queue db k) ≡ 0)
              ((eq_iff job.id j).0
                (right_of (not (is_duplicate R uniq period db)) _ (right_of (reached link) _ e)))
              new)
            (eq_iff job.state "pending").0)
        (enqueue-Shows R job uniq period db link j _ (view-Shows R job.queue db j))

  module _ (q : String) (db : Db R) (j : String) where
    abbrev seen : JobView
    seen = view R q db j

    -- What is known of the named job is known of `j`, if they are one.
    same :
        (P : JobView → Type 0) (b : Bool) (id : String)
        → (b && (id == j)) ≡ true
        → P (view R q db id)
        → P seen
    same P b id h p = subst (λ k. P (view R q db k)) ((eq_iff id j).0 (right_of b (id == j) h)) p

    shown : Shows R q db j seen
    shown = view-Shows R q db j

    enqueue-Moves :
        (link : Link) (job : JobRecord) (uniq : String) (period : ℤ)
        → Allowed R q (enqueues job uniq period) db
        → Moves q db (enqueue R link job uniq period db).1 j false (job.state == "pending")
    enqueue-Moves link job uniq period (e, new) =
        subst
          (λ p.
            places (view R p db job.id) ≡ 0
            → Moves p db (enqueue R link job uniq period db).1 j false (job.state == "pending"))
          e (λ unused. enqueue_here link job uniq period db unused j) new

    nack-Moves :
        (link : Link) (id worker message : String) (backoff : ℤ) (skip : Bool) (now : ℤ)
        → IsGood (view R q db id)
        → Allowed R q (nacks id worker message backoff skip now) db
        → Moves q db (perform R q link (nacks id worker message backoff skip now) db) j false true
    nack-Moves link id worker message backoff skip now good act =
        let (a, ha) = number_of _ (attempt_of (view R q db id) good act) in
        let (m, hm) = number_of _ (limit_of (view R q db id) good act) in
        Moves-if q db _ j false true (reached link && (id == j)) _
          (λ e.
            Move.fail skip message a m (now +ℤ backoff)
              (same (λ v. v.active ≡ true) (reached link) id e act))
          (nack-Shows R q id worker message backoff now skip a m db ha hm link j seen shown)

    dequeued-Moves :
        (db' : Db R) (now : ℤ) (o : Option (String × ℤ))
        → next_job R q db ≡ o
        → Shows R q db' j (dequeued R o now j seen)
        → Moves q db db' j false true
    dequeued-Moves db' now none e s = (seen, Move.stay, s)
    dequeued-Moves db' now (some (id, score)) e s =
        Moves-if q db db' j false true (id == j) _
          (λ h.
            Move.activate now lease_duration
              (same (λ v. is_some v.ready ≡ true) true id h (rw ((taken_job R q db id score e).1))))
          s

    dequeue-Moves :
        (link : Link) (worker : String) (now : ℤ)
        → Moves q db (perform R q link (dequeues worker now) db) j false true
    dequeue-Moves link worker now =
        reached_cases (reached link) (dequeue-Shows R link q worker now db j seen shown)
      where
        reached_cases :
            (b : Bool)
            → Shows R q
                (perform R q link (dequeues worker now) db)
                j
                (if b then dequeued R (next_job R q db) now j seen else seen)
            → Moves q db (perform R q link (dequeues worker now) db) j false true
        reached_cases true s = dequeued-Moves _ now (next_job R q db) refl s
        reached_cases false s = (seen, Move.stay, s)

    delayed_of_due :
        (limit : ℕ) (now : ℤ) → elem j (due R q limit now db) ≡ true → is_some seen.delayed ≡ true
    delayed_of_due limit now h =
        let (t, at, over) = R.range_sound db.zsets (delayed_key q) now limit j h in rw at

    -- From a database in which every job is well placed, each operation that its caller is allowed,
    -- over any link, moves each job of the queue along the state machine, and the job leaves the
    -- queue only by an acknowledgement, a cancellation or a purge.
    pub step-Moves :
        (link : Link) (op : Op)
        → IsPlaced q db
        → Allowed R q op db
        → Moves q db (perform R q link op db) j (ends_job op) (starts_pending op)
    step-Moves link (enqueues job uniq period) g a = enqueue-Moves link job uniq period a
    step-Moves link (dequeues worker now) g a = dequeue-Moves link worker now
    step-Moves link (acks id worker now) g a =
        Moves-if q db _ j true true (reached link && (id == j)) _
          (λ e. Move.complete now refl (same (λ v. v.active ≡ true) (reached link) id e a))
          (ack-Shows R link q id worker now db j seen shown)
    step-Moves link (nacks id worker message backoff skip now) g a =
        nack-Moves link id worker message backoff skip now (g id) a
    step-Moves link (reschedules id worker time) g a =
        Moves-if q db _ j false true (reached link && (id == j)) _
          (λ e. Move.reschedule time (same (λ v. v.active ≡ true) (reached link) id e a))
          (reschedule_job-Shows R link q id worker time db j seen shown)
    step-Moves link (cancels id worker reason now) g a =
        Moves-if q db _ j true true (reached link && (id == j)) _
          (λ e. Move.cancel now reason refl (same (λ v. v.active ≡ true) (reached link) id e a))
          (cancel_job-Shows R link q id worker reason now db j seen shown)
    step-Moves link (promotes limit now) g a =
        Moves-if q db _ j false true (reached link && elem j (due R q limit now db)) _
          (λ e. Move.promote (delayed_of_due limit now (right_of (reached link) _ e)))
          (promote-Shows R link q limit now db j seen shown)
    step-Moves link (extends id extension now) g a =
        Moves-if q db _ j false true (reached link && (id == j)) _
          (λ _. Move.extend (now +ℤ extension))
          (extend_lease-Shows R link q id extension now db j seen shown)
    step-Moves link (recovers limit now) g a =
        Moves-if q db _ j false true (reached link && elem j (expired R q limit now db)) _
          (λ _. Move.recover) (recover_expired_leases_at-Shows R link q limit now db j seen shown)
    step-Moves link (retries id) g a =
        Moves-if q db _ j false true (reached link && (id == j)) _ (λ _. Move.revive)
          (retry_dead-Shows R link q id db j seen shown)
    step-Moves link purges g a =
        Moves-if q db _ j true true (reached link) _ (λ _. Move.purge refl)
          (purge_dead-Shows R link q db j seen shown)
