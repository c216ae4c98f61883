-- ===== src/Queue/Stats/Changes.antt =====
-- How the operations of internal/queue/queue.go change the depths of a queue.
use winter.Base.{
  ℕ, suc, String, ℤ, ◌≡◌, refl, Bool, true, false, ◌∙◌, ap, ◌+ℤ◌, none, some, eq_refl,
}
use winter.Redis.{Redis, Db}
use winter.Queue.Keys.{
  ready_key, delayed_key, active_key, dead_key, stats_key, lease_key, worker_jobs_key, job_key,
  lease-ready, delayed-ready, lease-delayed, ready-delayed, worker_jobs-active,
}
use winter.Queue.Link.{up, ok, context, of_reply}
use winter.Queue.Scripts.{
  dequeue_script, activate, activate_popped, release_lease, settle, record_failure, nack_script,
  Reply, reply, error_reply, Outcome, dead, retry,
}
use winter.Queue.Api.{lease_duration, dequeue, nack}
use winter.Queue.Refine.Dequeue.{next_job, taken}
use winter.Queue.Stats.Depths.{depths}
use winter.Queue.Stats.Cards.{
  zcard-zadd_other, zcard-zadd_new, zcard-zrem_other, zcard-zrem_member, scard-sadd_other,
  scard-sadd_new, scard-srem_other, scard-srem_member,
}

-- One more, if the outcome is the one that the count is of.
abbrev pub added : Outcome → Outcome → ℕ → ℕ
added dead dead n = suc n
added retry retry n = suc n
added _ _ n = n

module _ (R : Redis) where
  open R use {
    hget, hgetall-map, zcard, scard, lrange, sismember, zscore, zscore-zadd, zscore-zrem, zpopmin,
    zpopmin-some, zcard-zadd, zcard-zrem, scard-sadd, scard-srem,
  }

  depths-activate :
      (q worker : String) (now : ℤ) (db : Db R) (id : String) (score : ℤ)
      → (zpopmin db.zsets (ready_key q)).0 ≡ some (id, score)
      → sismember db.sets (active_key q) id ≡ false
      → let after =
          depths R q
            (activate R
              (active_key q)
              (worker_jobs_key worker)
              (lease_key q)
              now
              lease_duration
              id
              (record db { zsets = (zpopmin db.zsets (ready_key q)).1 })).1 in
        (suc after.ready ≡ (depths R q db).ready)
        × (after.active ≡ suc (depths R q db).active)
        × (after.delayed ≡ (depths R q db).delayed)
        × (after.dead ≡ (depths R q db).dead)
  unfolding activate
  depths-activate q worker now db id score popped idle =
      let least = zpopmin-some db.zsets (ready_key q) id score popped in
      let joined = scard-sadd_new R (active_key q) id db.sets idle in
      (
        rw
            (
              least.0,
              zcard-zadd_other R (lease_key q) (now +ℤ lease_duration) id
                  (R.zrem (ready_key q) id db.zsets) (ready_key q) (lease-ready q q),
            )
            (zcard-zrem_member R (ready_key q) id score db.zsets least.1),
        scard-sadd_other R (worker_jobs_key worker) id (R.sadd (active_key q) id db.sets)
              (active_key q) (worker_jobs-active worker q)
            ∙ joined,
        rw
            (
              least.0,
              zcard-zadd_other R (lease_key q) (now +ℤ lease_duration) id
                  (R.zrem (ready_key q) id db.zsets) (delayed_key q) (lease-delayed q q),
            )
            (zcard-zrem_other R (ready_key q) id db.zsets (delayed_key q) (ready-delayed q q)),
        refl,
      )

  -- On a working link, a Dequeue that takes a job which is not active already moves one job from
  -- the ready to the active count, and leaves the counts of delayed and dead jobs.
  pub depths-dequeue :
      (q worker : String) (now : ℤ) (db : Db R) (id : String) (score : ℤ)
      → next_job R q db ≡ some (id, score)
      → sismember db.sets (active_key q) id ≡ false
      → let after = depths R q (dequeue R up q worker now db).1 in
        (suc after.ready ≡ (depths R q db).ready)
        × (after.active ≡ suc (depths R q db).active)
        × (after.delayed ≡ (depths R q db).delayed)
        × (after.dead ≡ (depths R q db).dead)
  unfolding dequeue dequeue_script
  depths-dequeue q worker now db id score e idle =
      let (running, popped) = taken R q db id score e in
      rw (running, popped, activate_popped) (depths-activate q worker now db id score popped idle)

  release_depths :
      (q worker id : String) (db : Db R)
      → sismember db.sets (active_key q) id ≡ true
      → let after =
          depths R q
            (release_lease R (active_key q) (worker_jobs_key worker) (lease_key q) id db) in
        (after.ready ≡ (depths R q db).ready)
        × (suc after.active ≡ (depths R q db).active)
        × (after.delayed ≡ (depths R q db).delayed)
        × (after.dead ≡ (depths R q db).dead)
  unfolding release_lease
  release_depths q worker id db busy = (
    zcard-zrem_other R (lease_key q) id db.zsets (ready_key q) (lease-ready q q),
    ap suc (
          scard-srem_other R (R.srem db.sets (active_key q) id).1 (worker_jobs_key worker) id
            (active_key q) (worker_jobs-active worker q))
        ∙ scard-srem_member R db.sets (active_key q) id busy,
    zcard-zrem_other R (lease_key q) id db.zsets (delayed_key q) (lease-delayed q q),
    refl,
  )

  depths-settle :
      (v : Reply Outcome) (o : Outcome) (q id : String) (time : ℤ) (db : Db R)
      → context "winter: nack" (of_reply v) ≡ ok o
      → zscore db.zsets (delayed_key q) id ≡ none
      → let after =
          depths R q
            (settle R v (job_key id) (delayed_key q) (dead_key q) (stats_key q) time id db) in
        (after.ready ≡ (depths R q db).ready)
        × (after.active ≡ (depths R q db).active)
        × (after.delayed ≡ added o retry (depths R q db).delayed)
        × (after.dead ≡ added o dead (depths R q db).dead)
  unfolding settle
  depths-settle (reply dead) dead q id time db h e =
      (refl, refl, refl, simp (R.lrange-lpush, eq_refl) refl)
  depths-settle (reply retry) retry q id time db h e = (
    zcard-zadd_other R (delayed_key q) time id db.zsets (ready_key q) (delayed-ready q q),
    refl,
    zcard-zadd_new R (delayed_key q) time id db.zsets e,
    refl,
  )
  depths-settle (reply dead) retry q id time db h e = cc
  depths-settle (reply retry) dead q id time db h e = cc
  depths-settle (error_reply m) o q id time db h e = cc

  -- On a working link, a failure of an active job that is not delayed as well takes it out of the
  -- active count, and adds one to the count of dead or of delayed jobs, as the outcome says that
  -- the caller gets; the other counts stay as they are.
  pub depths-nack :
      (q id worker message : String) (backoff : ℤ) (skip : Bool) (now : ℤ) (db : Db R) (o : Outcome)
      → sismember db.sets (active_key q) id ≡ true
      → zscore db.zsets (delayed_key q) id ≡ none
      → (nack R up q id worker message backoff skip now db).0 ≡ ok o
      → let after = depths R q (nack R up q id worker message backoff skip now db).1 in
        (after.ready ≡ (depths R q db).ready)
        × (suc after.active ≡ (depths R q db).active)
        × (after.delayed ≡ added o retry (depths R q db).delayed)
        × (after.dead ≡ added o dead (depths R q db).dead)
  unfolding nack nack_script
  depths-nack q id worker message backoff skip now db o busy idle h =
      let freed = release_lease R (active_key q) (worker_jobs_key worker) (lease_key q) id db in
      let counted : Db R = record freed {
        hashes = record_failure R (job_key id) (stats_key q) message freed.hashes;
      } in
      let released = release_depths q worker id db busy in
      let settled = depths-settle _ o q id (now +ℤ backoff) counted h (
        R.zscore-zrem (lease_key q) id db.zsets (delayed_key q) id ∙ rw (lease-delayed q q) idle) in
      (
        settled.0 ∙ released.0,
        ap suc settled.1 ∙ released.1,
        settled.2 ∙ ap (added o retry) released.2,
        settled.3 ∙ ap (added o dead) released.3,
      )
