-- ===== src/Queue/Refine/Enqueue.antt =====
-- internal/queue/queue.go, Enqueue: the insertion of a job, and its unique key.
use winter.Base.{
  ℕ, ◌<◌, String, ℤ, pos, negsuc, ◌≤ℤ◌, ltb_ℤ, ◌≡◌, ◌∙◌, Bool, true, false, ◌&&◌, not, arith, ◌==◌,
  eq_refl, if◌then◌else◌, is_some, Bool-cases, inl, inr,
}
use winter.Redis.{Redis, Db, text}
use winter.Queue.Keys.{
  unique_key-empty, ready_key, delayed_key, job_key, stats_key, unique_key, key_laws,
}
use winter.Queue.Job.{JobRecord}
use winter.Queue.Link.{Link, up, refused, cut, reached, ok, err, duplicate}
use winter.Queue.Scripts.{EnqueueArgs, insert_job, enqueue_script}
use winter.Queue.View.{JobView, Shows, hget-hset_all}
use winter.Queue.Transitions.{enqueued}
use winter.Queue.Api.{enqueue, enqueue_keys, enqueue_args, whole_seconds}

module _ (R : Redis) where
  open R use {get, hget-hincrby, zscore-zadd, set_nx_reply, get-set_nx}

  insert_job-Shows :
      (unique : String) (a : EnqueueArgs) (db : Db R) (j : String) (v : JobView)
      → Shows R a.queue db j v
      → Shows R a.queue
          (insert_job R
            (job_key a.id)
            (ready_key a.queue)
            (delayed_key a.queue)
            (stats_key a.queue)
            unique
            a
            db)
          j
          (if a.id == j then enqueued a unique v else v)
  unfolding insert_job
  insert_job-Shows unique a db j v s = elim (Bool-cases (ltb_ℤ (pos 0) a.scheduled_at)) [
    | inl later ↦ rw later (record {
      ready = simp (zscore-zadd, key_laws) (ground arith);
      delayed = simp (zscore-zadd, key_laws) (ground arith);
      lease = simp (zscore-zadd, key_laws) (ground arith);
      active = ground arith;
      dead = ground arith;
      hash = λ f. simp (hget-hset_all R, hget-hincrby, key_laws) (ground (arith, s.hash f));
    })
    | inr now ↦ rw now (record {
      ready = simp (zscore-zadd, key_laws) (ground arith);
      delayed = simp (zscore-zadd, key_laws) (ground arith);
      lease = simp (zscore-zadd, key_laws) (ground arith);
      active = ground arith;
      dead = ground arith;
      hash = λ f. simp (hget-hset_all R, hget-hincrby, key_laws) (ground (arith, s.hash f));
    })
  ]

  with_strings-Shows :
      (q : String) (db : Db R) (t : R.Strings) (j : String) (v : JobView)
      → Shows R q db j v
      → Shows R q (record db { strings = t }) j v
  with_strings-Shows q db t j v s = record {
    ready = s.ready;
    delayed = s.delayed;
    lease = s.lease;
    active = s.active;
    dead = s.dead;
    hash = s.hash;
  }

  -- The script checks a unique key, and the key is taken.
  abbrev pub is_taken : String → ℤ → Db R → Bool
  is_taken unique ttl db =
      (not (unique == "") && ltb_ℤ (pos 0) ttl) && is_some (get db.strings unique)

  enqueue_script-Shows :
      (unique : String) (a : EnqueueArgs) (db : Db R) (j : String) (v : JobView)
      → Shows R a.queue db j v
      → Shows R a.queue
          (enqueue_script R
            (job_key a.id)
            (ready_key a.queue)
            (delayed_key a.queue)
            (stats_key a.queue)
            unique
            a
            db).1
          j
          (if not (is_taken unique a.unique_ttl db) && (a.id == j) then enqueued a unique v else v)
  unfolding enqueue_script
  enqueue_script-Shows unique a db j v s =
      elim (Bool-cases (not (unique == "") && ltb_ℤ (pos 0) a.unique_ttl)) [
        | inl checked ↦ elim (Bool-cases (is_some (get db.strings unique))) [
          | inl taken ↦ rw (checked, set_nx_reply, taken) (with_strings-Shows a.queue db _ j v s)
          | inr free ↦
              rw (checked, set_nx_reply, free)
                (insert_job-Shows unique a _ j v (with_strings-Shows a.queue db _ j v s))
        ]
        | inr unchecked ↦ rw unchecked (insert_job-Shows unique a db j v s)
      ]

  -- Whether Enqueue finds the job's unique key taken.
  abbrev pub is_duplicate : String → ℤ → Db R → Bool
  is_duplicate uniq period db =
      is_taken (enqueue_keys R uniq period).0 (enqueue_keys R uniq period).1 db

  module _ (job : JobRecord) (uniq : String) (period : ℤ) (db : Db R) where
    -- If the request reaches the server and no live job owns the unique key, the job's hash is
    -- written whole and the job stands in the delayed set at its time, if it has one, and else in
    -- the ready set at its priority; the time and the priority are the doubles that the script makes
    -- of the record's. Otherwise no place or hash of the queue's jobs changes, and those of other
    -- jobs never do.
    pub enqueue-Shows :
        (link : Link) (j : String) (v : JobView)
        → Shows R job.queue db j v
        → Shows R job.queue (enqueue R link job uniq period db).1 j (
            if reached link && (not (is_duplicate uniq period db) && (job.id == j))
            then enqueued
                (enqueue_args job (enqueue_keys R uniq period).1)
                (enqueue_keys R uniq period).0
                v
            else v)
    unfolding enqueue
    enqueue-Shows up j v s =
        enqueue_script-Shows (enqueue_keys R uniq period).0
          (enqueue_args job (enqueue_keys R uniq period).1) db j v s
    enqueue-Shows (refused e) j v s = s
    enqueue-Shows (cut e) j v s =
        enqueue_script-Shows (enqueue_keys R uniq period).0
          (enqueue_args job (enqueue_keys R uniq period).1) db j v s

    -- On a working link Enqueue reports a duplicate exactly when the key is taken, and else succeeds.
    pub enqueue_result :
        (enqueue R up job uniq period db).0
        ≡ (if is_duplicate uniq period db then err duplicate else ok tt)
    unfolding enqueue enqueue_script
    enqueue_result =
        ground (arith, set_nx_reply db.strings (enqueue_keys R uniq period).0 (text job.id))

  checked_keys :
      (uniq : String) (period : ℤ)
      → (uniq == "") ≡ false
      → pos 1_000_000_000 ≤ℤ period
      → (enqueue_keys R uniq period ≡ (unique_key uniq, whole_seconds period))
        × (ltb_ℤ (pos 0) (whole_seconds period) ≡ true)
  unfolding enqueue_keys
  checked_keys uniq (pos n) h p = (ground arith, ground arith)
  checked_keys uniq (negsuc n) h p = absurd (omega arith)

  -- Once the script has checked a key, the key is taken.
  taken-enqueue_script :
      (job ready delayed stats unique : String) (a : EnqueueArgs) (db : Db R)
      → (unique == "") ≡ false
      → ltb_ℤ (pos 0) a.unique_ttl ≡ true
      → is_some (get (enqueue_script R job ready delayed stats unique a db).1.strings unique) ≡ true
  unfolding enqueue_script insert_job
  taken-enqueue_script job ready delayed stats unique a db h p =
      ground (arith, get-set_nx db.strings unique (text a.id) unique, eq_refl unique)

  duplicate_after :
      (job : JobRecord) (uniq : String) (period : ℤ) (db : Db R)
      → (uniq == "") ≡ false
      → pos 1_000_000_000 ≤ℤ period
      → is_duplicate uniq period (enqueue R up job uniq period db).1 ≡ true
  unfolding enqueue
  duplicate_after job uniq period db h p =
      let (keys, positive) = checked_keys uniq period h p in
      rw keys (
        ground (
          arith,
          positive,
          unique_key-empty uniq,
          taken-enqueue_script (job_key job.id) (ready_key job.queue) (delayed_key job.queue)
              (stats_key job.queue) (unique_key uniq) (enqueue_args job (whole_seconds period)) db
              (unique_key-empty uniq) positive,
        ))

  -- Within one life of a unique key the second job of that key is refused, whatever its id, kind
  -- and queue: if the text of the key is not empty and the period is a second or more, an Enqueue
  -- right after another with the same key returns the duplicate error.
  pub enqueue_unique :
      (first second : JobRecord) (uniq : String) (period : ℤ) (db : Db R)
      → (uniq == "") ≡ false
      → pos 1_000_000_000 ≤ℤ period
      → (enqueue R up second uniq period (enqueue R up first uniq period db).1).0 ≡ err duplicate
  enqueue_unique first second uniq period db h p =
      enqueue_result second uniq period _ ∙ rw (duplicate_after first uniq period db h p)

  -- A period below one second is rounded down to no period: Enqueue never reports a duplicate.
  pub enqueue_subsecond :
      (job : JobRecord) (uniq : String) (n : ℕ) (db : Db R)
      → n < 1_000_000_000
      → (enqueue R up job uniq (pos n) db).0 ≡ ok tt
  unfolding enqueue_keys
  enqueue_subsecond job uniq n db h = enqueue_result job uniq (pos n) db ∙ ground arith
