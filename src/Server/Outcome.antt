-- ===== src/Server/Outcome.antt =====
-- What the report of a run does to the job's place in the queue: server.go, processJob.
use winter.Base.{
  ℕ, String, ℤ, ◌+ℤ◌, Bool, true, false, Option, none, some, ◌≡◌, ◌∙◌, arith, eq_refl,
  if◌then◌else◌,
}
use winter.Redis.{Redis, Db}
use winter.Queue.Keys.{
  lease_key, active_key, delayed_key, dead_key, stats_key, worker_jobs_key, job_key, key_laws,
}
use winter.Queue.Job.{JobRecord}
use winter.Queue.Link.{Link, up, refused, cut, reached}
use winter.Queue.Scripts.{
  Reply, reply, error_reply, Outcome, dead, retry, settle, bury, put_back, release_lease,
  nack_script, verdict, record_failure, to_number,
}
use winter.Queue.Api.{ack, nack, reschedule_job, cancel_job}
use winter.Queue.Lifecycle.Views.{view-Shows}
use winter.Queue.Refine.Release.{ack-Shows, cancel_job-Shows, reschedule_job-Shows}
use winter.Server.Failure.{Failure, is_reschedule, is_cancel, is_skip_retry, error_text}
use winter.Server.Process.{returned, Links, World, report_run, report_error, backoff_of}

module _ (R : Redis) where
  -- The job is not active, and has no lease.
  pub record IsReleased (q id : String) (db : Db R) : Type 0 where
    pub active : R.sismember db.sets (active_key q) id ≡ false
    pub lease : R.zscore db.zsets (lease_key q) id ≡ none

  release_lease-IsReleased :
      (q id worker : String) (db : Db R)
      → IsReleased q id
          (release_lease R (active_key q) (worker_jobs_key worker) (lease_key q) id db)
  unfolding release_lease
  release_lease-IsReleased q id worker db = record {
    active = simp (R.sismember-srem, key_laws) (ground (arith, eq_refl id));
    lease = simp (R.zscore-zrem, key_laws) (ground (arith, eq_refl id));
  }

  settle-IsReleased :
      (v : Reply Outcome) (q id : String) (time : ℤ) (db : Db R)
      → IsReleased q id db
      → IsReleased q id
          (settle R v (job_key id) (delayed_key q) (dead_key q) (stats_key q) time id db)
  unfolding settle bury put_back
  settle-IsReleased (reply dead) q id time db r = record { active = r.active; lease = r.lease }
  settle-IsReleased (reply retry) q id time db r = record {
    active = r.active;
    lease = simp (R.zscore-zadd, key_laws) r.lease;
  }
  settle-IsReleased (error_reply e) q id time db r = r

  nack_script-IsReleased :
      (q id worker message : String) (backoff now : ℤ) (skip : ℕ) (db : Db R)
      → IsReleased q id
          (nack_script R
            (job_key id)
            (active_key q)
            (delayed_key q)
            (dead_key q)
            (stats_key q)
            (worker_jobs_key worker)
            (lease_key q)
            id
            message
            backoff
            now
            skip
            db).1
  unfolding nack_script
  nack_script-IsReleased q id worker message backoff now skip db =
      let db' = release_lease R (active_key q) (worker_jobs_key worker) (lease_key q) id db in
      let hashes = record_failure R (job_key id) (stats_key q) message db'.hashes in
      let attempt = (R.hincrby db'.hashes (job_key id) "attempt" 1).0 in
      let released = release_lease-IsReleased q id worker db in
      settle-IsReleased
        (verdict skip attempt (to_number (R.hget hashes (job_key id) "max_retries"))) q id
        (now +ℤ backoff) (record db' { hashes = hashes })
        (record { active = released.active; lease = released.lease })

  -- Whatever the job's hash holds, a failure that reaches the server releases the job.
  nack-IsReleased :
      (link : Link) (q id worker message : String) (backoff : ℤ) (skip : Bool) (now : ℤ) (db : Db R)
      → reached link ≡ true
      → IsReleased q id (nack R link q id worker message backoff skip now db).1
  unfolding nack
  nack-IsReleased up q id worker message backoff skip now db h =
      nack_script-IsReleased q id worker message backoff now (if skip then 1 else 0) db
  nack-IsReleased (refused e) q id worker message backoff skip now db h = absurd (cc h)
  nack-IsReleased (cut e) q id worker message backoff skip now db h =
      nack_script-IsReleased q id worker message backoff now (if skip then 1 else 0) db

  ack-IsReleased :
      (link : Link) (q id worker : String) (now : ℤ) (db : Db R)
      → reached link ≡ true
      → IsReleased q id (ack R link q id worker now db).1
  ack-IsReleased link q id worker now db h =
      let s = ack-Shows R link q id worker now db id _ (view-Shows R q db id) in
      record {
        active = s.active ∙ ground (arith, h, eq_refl id);
        lease = s.lease ∙ ground (arith, h, eq_refl id);
      }

  cancel-IsReleased :
      (link : Link) (q id worker reason : String) (now : ℤ) (db : Db R)
      → reached link ≡ true
      → IsReleased q id (cancel_job R link q id worker reason now db).1
  cancel-IsReleased link q id worker reason now db h =
      let s = cancel_job-Shows R link q id worker reason now db id _ (view-Shows R q db id) in
      record {
        active = s.active ∙ ground (arith, h, eq_refl id);
        lease = s.lease ∙ ground (arith, h, eq_refl id);
      }

  reschedule-IsReleased :
      (link : Link) (q id worker : String) (time : ℤ) (db : Db R)
      → reached link ≡ true
      → IsReleased q id (reschedule_job R link q id worker time db).1
  reschedule-IsReleased link q id worker time db h =
      let s = reschedule_job-Shows R link q id worker time db id _ (view-Shows R q db id) in
      record {
        active = s.active ∙ ground (arith, h, eq_refl id);
        lease = s.lease ∙ ground (arith, h, eq_refl id);
      }

  module _ (converted : ℕ → ℤ) (duration : ℤ → String) where
    error-IsReleased :
        (links : Links) (worker : String) (later : ℤ) (rec : JobRecord) (e : Failure)
        (delay : Option ℤ) (reason : Option String) (w : World R)
        → reached links.outcome ≡ true
        → IsReleased rec.queue rec.id
            (report_error R converted duration links worker later rec e delay reason w).1.flow.db
    unfolding report_error
    error-IsReleased links worker later rec e (some delay) reason w h =
        reschedule-IsReleased links.outcome rec.queue rec.id worker (later +ℤ delay) w.flow.db h
    error-IsReleased links worker later rec e none (some reason) w h =
        cancel-IsReleased links.outcome rec.queue rec.id worker reason later w.flow.db h
    error-IsReleased links worker later rec e none none w h =
        nack-IsReleased links.outcome rec.queue rec.id worker (error_text duration e)
          (backoff_of R converted duration rec e) (is_skip_retry e) later w.flow.db h

    -- However a handler returns, with no error or with any error, wrapped or not: if the report of it
    -- reaches Redis, its reply lost or not, the job is not active any more and has no lease.
    pub report-IsReleased :
        (links : Links) (worker : String) (later : ℤ) (rec : JobRecord) (e : Option Failure)
        (result : String) (w : World R)
        → reached links.outcome ≡ true
        → IsReleased rec.queue rec.id
            (report_run R converted duration links worker later rec (returned e result) w).1.flow.db
    unfolding report_run
    report-IsReleased links worker later rec none result w h =
        ack-IsReleased links.outcome rec.queue rec.id worker later w.flow.db h
    report-IsReleased links worker later rec (some e) result w h =
        error-IsReleased links worker later rec e (is_reschedule e) (is_cancel e) w h
