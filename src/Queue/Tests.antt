-- ===== src/Queue/Tests.antt =====
-- Runs of the queue on a small Redis in memory, and what is known of the databases that they lead to.
mod Steps
mod Lives
mod Kept
use winter.Base.{
  String, ℤ, pos, ◌+ℤ◌, ◌≤ℤ◌, ◌≤◌, suc, ◌≡◌, refl, arith, Bool, true, false, none, some, [], length,
  is_some,
}
use winter.Redis.{Db, text, num}
use winter.Redis.Memory.{memory}
use winter.Queue.Keys.{
  ready_key, delayed_key, lease_key, active_key, dead_key, job_key, paused_key, stats_key,
  worker_jobs_key,
}
use winter.Queue.Job.{JobRecord, parse_job_record_from_map}
use winter.Queue.Link.{up, refused, ok, err, duplicate}
use winter.Queue.Scripts.{dead, enqueue_script, dequeue_script, nack_script, hset_all}
use winter.Queue.View.{Shows, view}
use winter.Queue.Transitions.{completed, is_final, nacked, recovered, promoted, revived}
use winter.Queue.Api.{enqueue, dequeue, ack, nack, promote, recover_expired_leases_at, retry_dead}
use winter.Queue.Lifecycle.{Op, enqueues, dequeues, perform, Reach, here, next, places}
use winter.Queue.Lifecycle.Views.{view-Shows}
use winter.Queue.Refine.Release.{ack-Shows}
use winter.Queue.Refine.Nack.{nack-Shows, nack_outcome}
use winter.Queue.Refine.Enqueue.{enqueue-Shows, enqueue_unique, enqueue_subsecond}
use winter.Queue.Refine.Dequeue.{dequeue-Shows, dequeue_takes_least, next_job, dequeued, taken_hash}
use winter.Queue.Refine.Lease.{recovery_spares_live, recovery_complete, expired}
use winter.Queue.Refine.Promote.{promotion_spares_later, promotion_complete, due}
use winter.Queue.Refine.Dead.{retry_dead-Shows}
use winter.Queue.Lifecycle.Simulation.{IsPlaced, Moves, step-Moves}
use winter.Queue.Lifecycle.Invariant.{Reach-IsPlaced, Reach-keeps_jobs}
use winter.Queue.Lifecycle.Stale.{stale_nack_doubles, stale_ack_runs_again}

abbrev pub empty : Db memory
empty = record { hashes = []; zsets = []; sets = []; lists = []; strings = [] }

abbrev pub mail : String → ℤ → ℤ → JobRecord
mail id priority scheduled_at = record {
  id = id;
  kind = "mail";
  queue = "q";
  priority = priority;
  state = "pending";
  payload = "{}";
  attempt = pos 0;
  max_retries = pos 3;
  created_at = pos 900;
  scheduled_at = scheduled_at;
  started_at = pos 0;
  completed_at = pos 0;
  last_error = "";
  unique_key = "";
  workflow_id = "";
}

abbrev pub one_ready : Db memory
one_ready = (enqueue memory up (mail "a" (pos 5) (pos 0)) "" (pos 0) empty).1

-- Two ready jobs; the second has the smaller priority.
abbrev pub two_ready : Db memory
two_ready = (enqueue memory up (mail "b" (pos 2) (pos 0)) "" (pos 0) one_ready).1

-- Job b runs under a lease.
abbrev pub busy : Db memory
busy = (dequeue memory up "q" "w" (pos 1_000) two_ready).1

-- Job b is dead.
abbrev pub buried_b : Db memory
buried_b = (nack memory up "q" "b" "w" "boom" (pos 0) true (pos 1_500) busy).1

-- Job c waits until 5,000.
abbrev pub waiting : Db memory
waiting = (enqueue memory up (mail "c" (pos 5) (pos 5_000)) "" (pos 0) empty).1

pub next_b : next_job memory "q" two_ready ≡ some ("b", pos 2)
unfolding enqueue dequeue nack enqueue_script dequeue_script nack_script next_job ready_key
    delayed_key lease_key active_key dead_key paused_key job_key stats_key hset_all
next_b = refl

pub next_nothing : next_job memory "q" empty ≡ none
unfolding enqueue dequeue nack enqueue_script dequeue_script nack_script next_job ready_key
    delayed_key lease_key active_key dead_key paused_key job_key stats_key hset_all
next_nothing = refl

pub ready_a : memory.zscore two_ready.zsets (ready_key "q") "a" ≡ some (pos 5)
unfolding enqueue dequeue nack enqueue_script dequeue_script nack_script next_job ready_key
    delayed_key lease_key active_key dead_key paused_key job_key stats_key hset_all
ready_a = refl

pub attempt_b : memory.hget busy.hashes (job_key "b") "attempt" ≡ some (num (pos 0))
unfolding enqueue dequeue nack enqueue_script dequeue_script nack_script next_job ready_key
    delayed_key lease_key active_key dead_key paused_key job_key stats_key hset_all
attempt_b = refl

pub limit_b : memory.hget busy.hashes (job_key "b") "max_retries" ≡ some (num (pos 3))
unfolding enqueue dequeue nack enqueue_script dequeue_script nack_script next_job ready_key
    delayed_key lease_key active_key dead_key paused_key job_key stats_key hset_all
limit_b = refl

pub lease_b : memory.zscore busy.zsets (lease_key "q") "b" ≡ some (pos 31_000)
unfolding enqueue dequeue nack enqueue_script dequeue_script nack_script next_job ready_key
    delayed_key lease_key active_key dead_key paused_key job_key stats_key hset_all ◌+ℤ◌
lease_b = refl

pub delayed_c : memory.zscore waiting.zsets (delayed_key "q") "c" ≡ some (pos 5_000)
unfolding enqueue dequeue nack enqueue_script dequeue_script nack_script next_job ready_key
    delayed_key lease_key active_key dead_key paused_key job_key stats_key hset_all
delayed_c = refl

pub attempt_a : memory.hget two_ready.hashes (job_key "a") "attempt" ≡ some (num (pos 0))
unfolding enqueue dequeue nack enqueue_script dequeue_script nack_script next_job ready_key
    delayed_key lease_key active_key dead_key paused_key job_key stats_key hset_all
attempt_a = refl

pub limit_a : memory.hget two_ready.hashes (job_key "a") "max_retries" ≡ some (num (pos 3))
unfolding enqueue dequeue nack enqueue_script dequeue_script nack_script next_job ready_key
    delayed_key lease_key active_key dead_key paused_key job_key stats_key hset_all
limit_a = refl

pub one_expired : suc (length (expired memory "q" 10 (pos 40_000) busy)) ≤ 10
unfolding enqueue dequeue nack enqueue_script dequeue_script nack_script next_job ready_key
    delayed_key lease_key active_key dead_key paused_key job_key stats_key hset_all ◌+ℤ◌
one_expired = omega arith
