-- ===== src/Commands/Serving/Waiting.antt =====
-- internal/queue/scripts.go: a job that waits in a delayed set, and the scripts that do not promote it.
use winter.Base.{
  ℕ, String, ℤ, pos, ◌+ℤ◌, true, false, Option, none, some, List, [], ◌∷◌, ◌≡◌, refl, arith, ◌==◌,
  ◌&&◌, not, eq_iff, is_some, Bool-cases, inl, inr, ltb_ℤ,
}
use winter.Redis.{Redis, Db, text}
use winter.Queue.Keys.{
  ready_key, delayed_key, active_key, lease_key, paused_key, worker_jobs_key, job_key, dead_key,
  stats_key, key_laws,
}
use winter.Queue.Scripts.{
  Outcome, dead, retry, Reply, reply, error_reply, EnqueueArgs, enqueue_script, insert_job,
  dequeue_script, activate, activate_popped, ack_script, nack_script, recover_job, recover_jobs,
  release_lease, settle, record_failure, verdict, to_number,
}

module _ (R : Redis) (q j : String) where
  open R use {
    zscore, sismember, zpopmin, zscore-zadd, zscore-zrem, zpopmin-none, zpopmin-some, srem_reply,
    sismember-srem, sismember-sadd,
  }

  -- The job waits in the delayed set, and stands nowhere that a worker can get it from.
  pub record IsWaiting (db : Db R) : Type 0 where
    pub delayed : is_some (zscore db.zsets (delayed_key q) j) ≡ true
    pub ready : zscore db.zsets (ready_key q) j ≡ none
    pub active : sismember db.sets (active_key q) j ≡ false

  insert_job-IsWaiting :
      (p job stats unique : String) (a : EnqueueArgs) (db : Db R)
      → (a.id == j) ≡ false
      → IsWaiting db
      → IsWaiting (insert_job R job (ready_key p) (delayed_key p) stats unique a db)
  unfolding insert_job
  insert_job-IsWaiting p job stats unique a db new w =
      elim (Bool-cases (ltb_ℤ (pos 0) a.scheduled_at)) [
        | inl later ↦ rw later (record {
          delayed = simp (zscore-zadd, key_laws, new) (ground (arith, w.delayed));
          ready = simp (zscore-zadd, key_laws) w.ready;
          active = w.active;
        })
        | inr now ↦ rw now (record {
          delayed = simp (zscore-zadd, key_laws) w.delayed;
          ready = simp (zscore-zadd, key_laws, new) (ground (arith, w.ready));
          active = w.active;
        })
      ]

  release_lease-IsWaiting :
      (p worker id : String) (db : Db R)
      → IsWaiting db
      → IsWaiting (release_lease R (active_key p) (worker_jobs_key worker) (lease_key p) id db)
  unfolding release_lease
  release_lease-IsWaiting p worker id db w = record {
    delayed = simp (zscore-zrem, key_laws) w.delayed;
    ready = simp (zscore-zrem, key_laws) w.ready;
    active = simp (sismember-srem, key_laws) (ground (arith, w.active));
  }

  settle-IsWaiting :
      (p job dead_list stats id : String) (o : Reply Outcome) (time : ℤ) (db : Db R)
      → IsWaiting db
      → IsWaiting (settle R o job (delayed_key p) dead_list stats time id db)
  unfolding settle
  settle-IsWaiting p job dead_list stats id (reply dead) time db w = record {
    delayed = w.delayed;
    ready = w.ready;
    active = w.active;
  }
  settle-IsWaiting p job dead_list stats id (reply retry) time db w = record {
    delayed = simp (zscore-zadd, key_laws) (ground (arith, w.delayed));
    ready = simp (zscore-zadd, key_laws) w.ready;
    active = w.active;
  }
  settle-IsWaiting p job dead_list stats id (error_reply e) time db w = w

  pub nack_script-IsWaiting :
      (p worker id message : String) (backoff now : ℤ) (skip : ℕ) (db : Db R)
      → IsWaiting db
      → IsWaiting
          (nack_script R
            (job_key id)
            (active_key p)
            (delayed_key p)
            (dead_key p)
            (stats_key p)
            (worker_jobs_key worker)
            (lease_key p)
            id
            message
            backoff
            now
            skip
            db).1
  unfolding nack_script
  nack_script-IsWaiting p worker id message backoff now skip db w =
      let released : Db R =
        release_lease R (active_key p) (worker_jobs_key worker) (lease_key p) id db in
      let hashes = record_failure R (job_key id) (stats_key p) message released.hashes in
      let r = release_lease-IsWaiting p worker id db w in
      settle-IsWaiting p (job_key id) (dead_key p) (stats_key p) id
        (verdict skip (R.hincrby released.hashes (job_key id) "attempt" 1).0
          (to_number (R.hget hashes (job_key id) "max_retries")))
        (now +ℤ backoff) (record released { hashes = hashes })
        (record { delayed = r.delayed; ready = r.ready; active = r.active })

  pub ack_script-IsWaiting :
      (p worker id : String) (now : ℤ) (db : Db R)
      → IsWaiting db
      → IsWaiting
          (ack_script R
            (job_key id)
            (active_key p)
            (stats_key p)
            (worker_jobs_key worker)
            (lease_key p)
            id
            now
            db).1
  unfolding ack_script
  ack_script-IsWaiting p worker id now db w =
      let r = release_lease-IsWaiting p worker id db w in
      record { delayed = r.delayed; ready = r.ready; active = r.active }

  named : (p id : String) → ((p == q) && (id == j)) ≡ true → (p ≡ q) × (id ≡ j)
  named p id h = ((eq_iff p q).0 (ground (arith, h)), (eq_iff id j).0 (ground (arith, h)))

  -- A member of an active or a ready set is another job, or a job of another queue.
  another :
      (p id : String) (db : Db R)
      → IsWaiting db
      → sismember db.sets (active_key p) id ≡ true
      → ((p == q) && (id == j)) ≡ false
  another p id db w member = elim (Bool-cases ((p == q) && (id == j))) [
    | inl both ↦ let (x, y) = named p id both in absurd (cc (x, y, member, w.active))
    | inr other ↦ other
  ]

  another_ready :
      (p id : String) (score : ℤ) (db : Db R)
      → IsWaiting db
      → zscore db.zsets (ready_key p) id ≡ some score
      → ((p == q) && (id == j)) ≡ false
  another_ready p id score db w at = elim (Bool-cases ((p == q) && (id == j))) [
    | inl both ↦ let (x, y) = named p id both in absurd (cc (x, y, at, w.ready))
    | inr other ↦ other
  ]

  recover_job-IsWaiting :
      (p id : String) (db : Db R)
      → IsWaiting db
      → IsWaiting (recover_job R (lease_key p) (active_key p) (ready_key p) id db).1
  unfolding recover_job
  recover_job-IsWaiting p id db w = elim (Bool-cases (sismember db.sets (active_key p) id)) [
    | inl member ↦
        rw (srem_reply, member)
          (record {
            delayed = simp (zscore-zadd, zscore-zrem, key_laws) w.delayed;
            ready = simp (zscore-zadd, zscore-zrem, key_laws, another p id db w member) w.ready;
            active = simp (sismember-srem, key_laws) (ground (arith, w.active));
          })
    | inr gone ↦
        rw (srem_reply, gone)
          (record {
            delayed = simp (zscore-zrem, key_laws) w.delayed;
            ready = simp (zscore-zrem, key_laws) w.ready;
            active = simp (sismember-srem, key_laws) (ground (arith, w.active));
          })
  ]

  pub recover_jobs-IsWaiting :
      (p : String) (ids : List String) (db : Db R)
      → IsWaiting db
      → IsWaiting (recover_jobs R (lease_key p) (active_key p) (ready_key p) ids db).1
  unfolding recover_jobs
  recover_jobs-IsWaiting p [] db w = w
  recover_jobs-IsWaiting p (id ∷ ids) db w =
      recover_jobs-IsWaiting p ids _ (recover_job-IsWaiting p id db w)

  activate-IsWaiting :
      (p worker id : String) (score now duration : ℤ) (db : Db R)
      → (zpopmin db.zsets (ready_key p)).0 ≡ some (id, score)
      → IsWaiting db
      → IsWaiting
          (activate R
            (active_key p)
            (worker_jobs_key worker)
            (lease_key p)
            now
            duration
            id
            (record db { zsets = (zpopmin db.zsets (ready_key p)).1 })).1
  unfolding activate
  activate-IsWaiting p worker id score now duration db e w =
      let popped = zpopmin-some db.zsets (ready_key p) id score e in
      let other = another_ready p id score db w popped.1 in
      record {
        delayed = simp (zscore-zadd, popped.0, zscore-zrem, key_laws) w.delayed;
        ready = simp (zscore-zadd, popped.0, zscore-zrem, key_laws, other) w.ready;
        active = simp (sismember-sadd, key_laws, other) w.active;
      }

  popped-IsWaiting :
      (p worker : String) (now duration : ℤ) (db : Db R) (o : Option (String × ℤ))
      → (zpopmin db.zsets (ready_key p)).0 ≡ o
      → IsWaiting db
      → IsWaiting
          (activate_popped R o
            (active_key p)
            (worker_jobs_key worker)
            (lease_key p)
            now
            duration
            (record db { zsets = (zpopmin db.zsets (ready_key p)).1 })).1
  unfolding activate_popped
  popped-IsWaiting p worker now duration db none e w =
      let same = (zpopmin-none db.zsets (ready_key p) e).0 in
      record { delayed = rw same w.delayed; ready = rw same w.ready; active = w.active }
  popped-IsWaiting p worker now duration db (some (id, score)) e w =
      activate-IsWaiting p worker id score now duration db e w

  pub dequeue_script-IsWaiting :
      (p worker : String) (now duration : ℤ) (db : Db R)
      → IsWaiting db
      → IsWaiting
          (dequeue_script R
            (ready_key p)
            (active_key p)
            (paused_key p)
            (worker_jobs_key worker)
            (lease_key p)
            now
            duration
            db).1
  unfolding dequeue_script
  dequeue_script-IsWaiting p worker now duration db w =
      elim (Bool-cases (is_some (R.get db.strings (paused_key p)))) [
        | inl paused ↦ rw paused w
        | inr running ↦
            rw running
              (popped-IsWaiting p worker now duration db (zpopmin db.zsets (ready_key p)).0 refl w)
      ]

  pub enqueue_script-IsWaiting :
      (p job stats unique : String) (a : EnqueueArgs) (db : Db R)
      → (a.id == j) ≡ false
      → IsWaiting db
      → IsWaiting (enqueue_script R job (ready_key p) (delayed_key p) stats unique a db).1
  unfolding enqueue_script
  enqueue_script-IsWaiting p job stats unique a db new w =
      let kept : Db R = record db { strings = (R.set_nx db.strings unique (text a.id)).1 } in
      let still : IsWaiting kept = record {
        delayed = w.delayed;
        ready = w.ready;
        active = w.active;
      } in
      elim (Bool-cases (not (unique == "") && ltb_ℤ (pos 0) a.unique_ttl)) [
        | inl keyed ↦ rw keyed (elim (Bool-cases (R.set_nx db.strings unique (text a.id)).0) [
          | inl fresh ↦ rw fresh (insert_job-IsWaiting p job stats unique a kept new still)
          | inr dup ↦ rw dup still
        ])
        | inr free ↦ rw free (insert_job-IsWaiting p job stats unique a db new w)
      ]
