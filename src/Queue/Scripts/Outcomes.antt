-- ===== src/Queue/Scripts/Outcomes.antt =====
-- internal/queue/scripts.go: the scripts that end a run of a job: ack, nack, reschedule and cancel.
use winter.Base.{ℕ, String, ℤ, pos, ◌+ℤ◌, leb_ℤ, Option, none, some, [], ◌∷◌, nat_eq, if◌then◌else◌}
use winter.Redis.{Redis, Db, text, num}
use winter.Queue.Scripts.Entry.{
  Reply, reply, error_reply, Outcome, dead, retry, to_number, hset_all, count_up, release_unique,
}

-- `skipRetry == 1 or attempt >= maxRetries`. A comparison with nil is an error, which leaves what
-- the script wrote before it.
unfoldable pub verdict : ℕ → ℤ → Option ℤ → Reply Outcome
verdict skip attempt max_retries = if nat_eq skip 1 then reply dead else elim max_retries [
  | none ↦ error_reply "attempt to compare nil with number"
  | some m ↦ if leb_ℤ m attempt then reply dead else reply retry
]

module _ (R : Redis) where
  open R use {
    Hashes, hget, hgetall, hset, hincrby, hash_del, SortedSets, zadd, zadd_xx, zrem, zpopmin,
    zrangebyscore, Sets, sadd, srem, Lists, lrange, lpush, lrem, list_del, Strings, get, set_nx,
    del,
  }

  -- Out of the active set, the worker's set and the lease set.
  unfoldable pub release_lease : String → String → String → String → Db R → Db R
  release_lease active worker_jobs lease id db = record db {
    sets = (srem (srem db.sets active id).1 worker_jobs id).1;
    zsets = zrem lease id db.zsets;
  }

  unfoldable pub ack_script :
      String → String → String → String → String → String → ℤ → Db R → ℕ × Db R
  unfolding release_lease
  ack_script job active stats worker_jobs lease id now db =
      let db' = release_lease active worker_jobs lease id db in
      let hashes = count_up R stats "completed" (
        hset_all R job (("state", text "completed") ∷ ("completed_at", num now) ∷ []) db'.hashes) in
      (1, record db' { hashes = hashes; strings = release_unique R hashes job id db'.strings })

  -- The job goes to the dead letter queue.
  unfoldable pub bury : String → String → String → String → Db R → Db R
  bury job dead_list stats id db =
      let hashes = count_up R stats "dead_total" (hset job "state" (text "dead") db.hashes) in
      record db {
        lists = lpush dead_list id db.lists;
        hashes = hashes;
        strings = release_unique R hashes job id db.strings;
      }

  -- The job waits for its next attempt.
  unfoldable pub put_back : String → String → ℤ → String → Db R → Db R
  put_back job delayed next_run id db = record db {
    zsets = zadd delayed next_run id db.zsets;
    hashes = hset job "state" (text "retry") db.hashes;
  }

  -- The failure is counted in the job and in the statistics.
  unfoldable pub record_failure : String → String → String → Hashes → Hashes
  record_failure job stats message h =
      count_up R stats "failed" (hset job "last_error" (text message) (hincrby h job "attempt" 1).1)

  unfoldable pub settle :
      Reply Outcome → String → String → String → String → ℤ → String → Db R → Db R
  unfolding bury put_back
  settle (reply dead) job delayed dead_list stats next_run id db = bury job dead_list stats id db
  settle (reply retry) job delayed dead_list stats next_run id db =
      put_back job delayed next_run id db
  settle (error_reply e) job delayed dead_list stats next_run id db = db

  unfoldable pub nack_script :
      String
      → String
      → String
      → String
      → String
      → String
      → String
      → String
      → String
      → ℤ
      → ℤ
      → ℕ
      → Db R
      → Reply Outcome × Db R
  unfolding release_lease record_failure settle verdict
  nack_script job active delayed dead_list stats worker_jobs lease id message backoff now skip db =
      let db' = release_lease active worker_jobs lease id db in
      let attempt = (hincrby db'.hashes job "attempt" 1).0 in
      let failed = record db' { hashes = record_failure job stats message db'.hashes } in
      let v = verdict skip attempt (to_number (hget failed.hashes job "max_retries")) in
      (v, settle v job delayed dead_list stats (now +ℤ backoff) id failed)

  unfoldable pub reschedule_script :
      String → String → String → String → String → String → ℤ → Db R → ℕ × Db R
  unfolding release_lease
  reschedule_script job active delayed worker_jobs lease id time db =
      let db' = release_lease active worker_jobs lease id db in
      (
        1,
        record db' {
          zsets = zadd delayed time id db'.zsets;
          hashes =
              hset_all R job
                (("state", text "pending")
                  ∷ ("scheduled_at", num time)
                  ∷ ("started_at", num (pos 0))
                  ∷ [])
                db'.hashes;
        },
      )

  unfoldable pub cancel_script :
      String → String → String → String → String → ℤ → String → Db R → ℕ × Db R
  unfolding release_lease
  cancel_script job active worker_jobs lease id now reason db =
      let db' = release_lease active worker_jobs lease id db in
      let hashes =
        hset_all R job
          (("state", text "cancelled")
            ∷ ("completed_at", num now)
            ∷ ("last_error", text reason)
            ∷ [])
          db'.hashes in
      (1, record db' { hashes = hashes; strings = release_unique R hashes job id db'.strings })
