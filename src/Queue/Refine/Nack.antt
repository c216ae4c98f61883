-- ===== src/Queue/Refine/Nack.antt =====
-- internal/queue/queue.go, Nack: a retry with backoff, or the dead letter queue.
use winter.Base.{
  String, ℤ, pos, ◌+ℤ◌, leb_ℤ, ◌≡◌, refl, sym, ap, subst, ◌∙◌, Bool, true, false, ◌&&◌, ◌||◌, some,
  arith, ◌==◌, if◌then◌else◌,
}
use winter.Redis.{Redis, Db, num, to_map}
use winter.Queue.Keys.{
  delayed_key, lease_key, active_key, dead_key, job_key, stats_key, worker_jobs_key, key_laws,
}
use winter.Queue.Link.{
  Link, up, refused, cut, reached, context, of_reply, ok, err, wrapped, redis_error,
}
use winter.Queue.Scripts.{
  Reply, reply, Outcome, dead, retry, verdict, settle, nack_script, release_lease, record_failure,
  to_number,
}
use winter.Queue.View.{JobView, Shows}
use winter.Queue.Transitions.{failed, buried, put_off, is_final, nacked}
use winter.Queue.Api.{nack}

-- The verdict as a Go caller passes the flag.
verdict_lem :
    (skip : Bool) (attempt max : ℤ)
    → verdict (if skip then 1 else 0) attempt (some max)
      ≡ (if skip || leb_ℤ max attempt then reply dead else reply retry)
unfolding verdict
verdict_lem skip attempt max = ground arith

ok_outcome :
    (final : Bool)
    → context "winter: nack" (of_reply (if final then reply dead else reply retry))
      ≡ ok (if final then dead else retry)
ok_outcome true = refl
ok_outcome false = refl

module _ (R : Redis) where
  open R use {
    hget, hincrby, hget-hset, hget-hincrby, hincrby-number, zscore-zadd, zscore-zrem,
    sismember-srem, lrange-lpush,
  }

  -- The failure's bookkeeping, before the verdict.
  abbrev noted : String → String → String → String → Db R → Db R
  noted q id worker message db =
      let db' = release_lease R (active_key q) (worker_jobs_key worker) (lease_key q) id db in
      record db' { hashes = record_failure R (job_key id) (stats_key q) message db'.hashes }

  noted-Shows :
      (q id worker message : String) (a : ℤ) (db : Db R) (j : String) (v : JobView)
      → hget db.hashes (job_key id) "attempt" ≡ some (num a)
      → Shows R q db j v
      → Shows R q (noted q id worker message db) j (if id == j then failed message a v else v)
  unfolding release_lease record_failure to_map
  noted-Shows q id worker message a db j v h s = record {
    ready = simp (zscore-zrem, key_laws) (ground arith);
    delayed = simp (zscore-zrem, key_laws) (ground arith);
    lease = simp (zscore-zrem, key_laws) (ground arith);
    active = simp (sismember-srem, key_laws) (ground arith);
    dead = ground arith;
    hash = λ f.
        simp
          (hget-hset, hget-hincrby, hincrby-number db.hashes (job_key id) "attempt" 1 a h, key_laws)
          (ground (arith, s.hash f));
  }

  noted-max_retries :
      (q id worker message : String) (db : Db R)
      → hget (noted q id worker message db).hashes (job_key id) "max_retries"
        ≡ hget db.hashes (job_key id) "max_retries"
  unfolding release_lease record_failure
  noted-max_retries q id worker message db = simp (hget-hset, hget-hincrby, key_laws)

  bury-Shows :
      (q id : String) (time : ℤ) (db : Db R) (j : String) (v : JobView)
      → Shows R q db j v
      → Shows R q
          (settle R (reply dead) (job_key id) (delayed_key q) (dead_key q) (stats_key q) time id db)
          j
          (if id == j then buried v else v)
  unfolding settle to_map
  bury-Shows q id time db j v s = record {
    ready = ground arith;
    delayed = ground arith;
    lease = ground arith;
    active = ground arith;
    dead = simp (lrange-lpush, key_laws) (ground arith);
    hash = λ f. simp (hget-hset, hget-hincrby, key_laws) (ground (arith, s.hash f));
  }

  put_back-Shows :
      (q id : String) (time : ℤ) (db : Db R) (j : String) (v : JobView)
      → Shows R q db j v
      → Shows R q
          (settle R
            (reply retry)
            (job_key id)
            (delayed_key q)
            (dead_key q)
            (stats_key q)
            time
            id
            db)
          j
          (if id == j then put_off time v else v)
  unfolding settle to_map
  put_back-Shows q id time db j v s = record {
    ready = simp (zscore-zadd, key_laws) (ground arith);
    delayed = simp (zscore-zadd, key_laws) (ground arith);
    lease = simp (zscore-zadd, key_laws) (ground arith);
    active = ground arith;
    dead = ground arith;
    hash = λ f. simp (hget-hset, key_laws) (ground (arith, s.hash f));
  }

  -- The script's reply and the database that it leaves, for a job with a stored attempt and limit.
  abbrev outcome_of : Bool → Reply Outcome
  outcome_of final = if final then reply dead else reply retry

  decided :
      (q id worker message : String) (skip : Bool) (a m : ℤ) (db : Db R)
      → hget db.hashes (job_key id) "attempt" ≡ some (num a)
      → hget db.hashes (job_key id) "max_retries" ≡ some (num m)
      → verdict
          (if skip then 1 else 0)
          (hincrby db.hashes (job_key id) "attempt" 1).0
          (to_number (hget (noted q id worker message db).hashes (job_key id) "max_retries"))
        ≡ outcome_of (is_final skip a m)
  decided q id worker message skip a m db ha hm =
      rw
        (
          hincrby-number db.hashes (job_key id) "attempt" 1 a ha,
          noted-max_retries q id worker message db,
          hm,
        )
        (verdict_lem skip (a +ℤ pos 1) m)

  nack_script_lem :
      (q id worker message : String) (backoff now : ℤ) (skip : Bool) (a m : ℤ) (db : Db R)
      → hget db.hashes (job_key id) "attempt" ≡ some (num a)
      → hget db.hashes (job_key id) "max_retries" ≡ some (num m)
      → nack_script R
          (job_key id)
          (active_key q)
          (delayed_key q)
          (dead_key q)
          (stats_key q)
          (worker_jobs_key worker)
          (lease_key q)
          id
          message
          backoff
          now
          (if skip then 1 else 0)
          db
        ≡ (
          outcome_of (is_final skip a m),
          settle R
              (outcome_of (is_final skip a m))
              (job_key id)
              (delayed_key q)
              (dead_key q)
              (stats_key q)
              (now +ℤ backoff)
              id
              (noted q id worker message db),
        )
  unfolding nack_script
  nack_script_lem q id worker message backoff now skip a m db ha hm =
      ap
        (λ w. (
          w,
          settle R w (job_key id) (delayed_key q) (dead_key q) (stats_key q) (now +ℤ backoff) id
              (noted q id worker message db),
        ))
        (decided q id worker message skip a m db ha hm)

  settled-Shows :
      (q id worker message : String) (final : Bool) (time a : ℤ) (db : Db R) (j : String)
      (v : JobView)
      → hget db.hashes (job_key id) "attempt" ≡ some (num a)
      → Shows R q db j v
      → Shows R q
          (settle R
            (outcome_of final)
            (job_key id)
            (delayed_key q)
            (dead_key q)
            (stats_key q)
            time
            id
            (noted q id worker message db))
          j
          (if id == j
            then (if final then buried (failed message a v) else put_off time (failed message a v))
            else v)
  settled-Shows q id worker message true time a db j v ha s =
      ground (arith, bury-Shows q id time _ j _ (noted-Shows q id worker message a db j v ha s))
  settled-Shows q id worker message false time a db j v ha s =
      ground (arith, put_back-Shows q id time _ j _ (noted-Shows q id worker message a db j v ha s))

  module _ (q id worker message : String) (backoff now : ℤ) (skip : Bool) (a m : ℤ) (db : Db R)
      (ha : hget db.hashes (job_key id) "attempt" ≡ some (num a))
      (hm : hget db.hashes (job_key id) "max_retries" ≡ some (num m)) where
    script : Db R → Reply Outcome × Db R
    script =
        nack_script R (job_key id) (active_key q) (delayed_key q) (dead_key q) (stats_key q)
          (worker_jobs_key worker) (lease_key q) id message backoff now (if skip then 1 else 0)

    nack_script-Shows :
        (j : String) (v : JobView)
        → Shows R q db j v
        → Shows R q
            (script db).1
            j
            (if id == j then nacked skip message a m (now +ℤ backoff) v else v)
    unfolding script
    nack_script-Shows j v s =
        subst
          (λ (p : Reply Outcome × Db R).
            Shows R q p.1 j (if id == j then nacked skip message a m (now +ℤ backoff) v else v))
          (sym (nack_script_lem q id worker message backoff now skip a m db ha hm))
          (settled-Shows q id worker message (is_final skip a m) (now +ℤ backoff) a db j v ha s)

    -- A failure of a job whose hash holds its attempts and its limit: if the request reaches the
    -- server, the job leaves the active set and its lease ends, the attempt is counted and the
    -- message kept, and the job goes to the dead letter queue when it skips retries or the limit
    -- is reached, and else to the delayed set at now plus the backoff. The places and hashes of
    -- the queue's other jobs stay as they are.
    pub nack-Shows :
        (link : Link) (j : String) (v : JobView)
        → Shows R q db j v
        → Shows R q
            (nack R link q id worker message backoff skip now db).1
            j
            (if reached link && (id == j) then nacked skip message a m (now +ℤ backoff) v else v)
    unfolding nack script
    nack-Shows up j v s = nack_script-Shows j v s
    nack-Shows (refused e) j v s = s
    nack-Shows (cut e) j v s = nack_script-Shows j v s

    -- For a job whose hash holds its attempts and its limit, the caller of Nack on a working link gets
    -- the outcome dead when retries are skipped or the limit is reached, and else retry; on a link
    -- that loses the request or the reply it gets the error of the link, wrapped.
    pub nack_outcome :
        (link : Link)
        → (nack R link q id worker message backoff skip now db).0 ≡ elim link [
          | up ↦ ok (if is_final skip a m then dead else retry)
          | refused e ↦ err (wrapped "winter: nack" (redis_error e))
          | cut e ↦ err (wrapped "winter: nack" (redis_error e))
        ]
    unfolding nack
    nack_outcome up =
        ap (λ (p : Reply Outcome × Db R). context "winter: nack" (of_reply p.0))
          (nack_script_lem q id worker message backoff now skip a m db ha hm)
        ∙ ok_outcome (is_final skip a m)
    nack_outcome (refused e) = refl
    nack_outcome (cut e) = refl
