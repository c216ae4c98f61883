-- ===== src/Queue/Lifecycle.antt =====
-- The operations of one queue as steps of a system: any client, worker, promotion or recovery may
-- act next, over a link that may fail. internal/queue/queue.go.
pub mod Moves
pub mod Views
pub mod Simulation
pub mod Invariant
pub mod Labels
pub mod Stale
use winter.Base.{ℕ, ◌+◌, String, ℤ, Bool, true, false, ◌≡◌, ◌==◌, is_some, Option, none, some}
use winter.Redis.{Redis, Db, Value, num, flag}
use winter.Queue.Keys.{ready_key, active_key}
use winter.Queue.Job.{JobRecord}
use winter.Queue.Link.{Link}
use winter.Queue.View.{JobView, view}
use winter.Queue.Api.{
  enqueue, dequeue, ack, nack, reschedule_job, cancel_job, promote, extend_lease,
  recover_expired_leases_at, retry_dead, purge_dead,
}

pub data Op : Type 0 where
  enqueues : JobRecord → String → ℤ → Op
  dequeues : String → ℤ → Op
  acks : String → String → ℤ → Op
  nacks : String → String → String → ℤ → Bool → ℤ → Op
  reschedules : String → String → ℤ → Op
  cancels : String → String → String → ℤ → Op
  promotes : ℕ → ℤ → Op
  extends : String → ℤ → ℤ → Op
  recovers : ℕ → ℤ → Op
  retries : String → Op
  purges : Op

-- In how many places of the queue the job stands.
abbrev pub places : JobView → ℕ
places v = flag (is_some v.ready) + flag (is_some v.delayed) + flag v.active + v.dead

module _ (R : Redis) where
  abbrev pub perform : String → Link → Op → Db R → Db R
  perform q link (enqueues job uniq period) db = (enqueue R link job uniq period db).1
  perform q link (dequeues worker now) db = (dequeue R link q worker now db).1
  perform q link (acks id worker now) db = (ack R link q id worker now db).1
  perform q link (nacks id worker message backoff skip now) db =
      (nack R link q id worker message backoff skip now db).1
  perform q link (reschedules id worker time) db = (reschedule_job R link q id worker time db).1
  perform q link (cancels id worker reason now) db = (cancel_job R link q id worker reason now db).1
  perform q link (promotes limit now) db = (promote R link q limit now db).1
  perform q link (extends id extension now) db = (extend_lease R link q id extension now db).1
  perform q link (recovers limit now) db = (recover_expired_leases_at R link q limit now db).1
  perform q link (retries id) db = (retry_dead R link q id db).1
  perform q link purges db = (purge_dead R link q db).1

  -- What a disciplined caller guarantees: an id is new to the queue when it is enqueued, and an
  -- outcome is reported only for a job that is active at that moment.
  abbrev pub Allowed : String → Op → Db R → Type 0
  Allowed q (enqueues job uniq period) db = (job.queue ≡ q) × (places (view R q db job.id) ≡ 0)
  Allowed q (acks id worker now) db = (view R q db id).active ≡ true
  Allowed q (nacks id worker message backoff skip now) db = (view R q db id).active ≡ true
  Allowed q (reschedules id worker time) db = (view R q db id).active ≡ true
  Allowed q (cancels id worker reason now) db = (view R q db id).active ≡ true
  Allowed q _ db = Unit {0}

  -- Databases that disciplined operations of the kinds that `kinds` admits lead to.
  pub data Reach (kinds : Op → Bool) (q : String) (start : Db R) : Db R → Type 0 where
    here : Reach kinds q start start
    next :
        {db : Db R} (link : Link) (op : Op)
        → Reach kinds q start db
        → kinds op ≡ true
        → Allowed q op db
        → Reach kinds q start (perform q link op db)

-- The operations that may take a job out of the queue.
abbrev pub ends_job : Op → Bool
ends_job (acks id worker now) = true
ends_job (cancels id worker reason now) = true
ends_job purges = true
ends_job _ = false

-- Whether a job that the operation enqueues has the state pending.
abbrev pub starts_pending : Op → Bool
starts_pending (enqueues job uniq period) = job.state == "pending"
starts_pending _ = true
