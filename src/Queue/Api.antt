-- ===== src/Queue/Api.antt =====
-- internal/queue/queue.go: the methods of Queue. A method takes the link of its round trip, and
-- the clock's reading in milliseconds where it calls time.Now. Each script's reply has one type, so
-- the checks for an unexpected type have no counterpart. Durations are in nanoseconds.
use winter.Base.{
  ℕ, ◌/◌, String, ℤ, pos, negsuc, ◌+ℤ◌, ltb_ℤ, Bool, ◌&&◌, not, Option, none, some, List, [], ◌∷◌,
  ◌==◌, nat_eq, if◌then◌else◌, length,
}
use winter.Redis.{Redis, Db, Value, text, num}
use winter.Queue.Keys.{
  ready_key, delayed_key, active_key, dead_key, paused_key, stats_key, job_key, lease_key,
  worker_jobs_key, unique_key, workers_key, result_key,
}
use winter.Queue.Double.{to_double}
use winter.Queue.Job.{JobRecord, parse_job_record}
use winter.Queue.Link.{
  Link, Done, duplicate, redis_error, wrapped, not_in_dead, Result, ok, err, context, map_result,
  contains, call, call_script,
}
use winter.Queue.Scripts.{
  Outcome, EnqueueArgs, enqueue_script, dequeue_script, ack_script, nack_script, reschedule_script,
  cancel_script, extend_lease_script, recover_leases_script, promote_script, retry_dead_script,
  purge_dead_script,
}

-- int(uniquePeriod.Seconds())
abbrev pub whole_seconds : ℤ → ℤ
whole_seconds (pos n) = pos (n / 1_000_000_000)
whole_seconds (negsuc n) = pos 0

-- The script's arguments for a record, with priority, max_retries and scheduled_at as the doubles
-- that tonumber makes of them: `attempt` and the times of a run start at 0 in the script.
abbrev pub enqueue_args : JobRecord → ℤ → EnqueueArgs
enqueue_args job ttl = record {
  id = job.id;
  kind = job.kind;
  queue = job.queue;
  priority = to_double job.priority;
  state = job.state;
  payload = job.payload;
  max_retries = to_double job.max_retries;
  created_at = job.created_at;
  scheduled_at = to_double job.scheduled_at;
  unique_ttl = ttl;
  workflow_id = job.workflow_id;
}

-- `strings.Contains(err.Error(), "DUPLICATE")`
abbrev enqueue_error : Result String → Result Done
enqueue_error (ok id) = ok tt
enqueue_error (err (redis_error e)) =
    if contains e "DUPLICATE"
    then err duplicate
    else err (wrapped "winter: enqueue" (redis_error e))
enqueue_error (err e) = err (wrapped "winter: enqueue" e)

-- A hash that is empty is no job.
abbrev pub found_job : List (String × Value) → Option JobRecord
found_job [] = none
found_job (v ∷ vals) = some (parse_job_record (v ∷ vals))

abbrev pub first_job : Option (List (String × Value)) → Option JobRecord
first_job none = none
first_job (some vals) = found_job vals

abbrev retried : String → Result ℕ → Result Done
retried id (ok n) = if nat_eq n 0 then err (not_in_dead id) else ok tt
retried id (err e) = err (wrapped "winter: retry dead" e)

abbrev stored_bytes : Option Value → Option String
stored_bytes (some (text s)) = some s
stored_bytes _ = none

-- DefaultLeaseDuration in milliseconds.
abbrev pub lease_duration : ℤ
lease_duration = pos 30_000

module _ (R : Redis) where
  open R use {hget, hgetall, hset, hdel, lrange, Strings, get, set, del, set_del}

  -- The unique key and its time to live, as Enqueue passes them on.
  unfoldable pub enqueue_keys : String → ℤ → String × ℤ
  enqueue_keys uniq period =
      if not (uniq == "") && ltb_ℤ (pos 0) period
      then (unique_key uniq, whole_seconds period)
      else ("", pos 0)

  unfoldable pub enqueue : Link → JobRecord → String → ℤ → Db R → Result Done × Db R
  unfolding enqueue_keys call_script to_double
  enqueue link job uniq period db =
      let (unique, ttl) = enqueue_keys uniq period in
      let (result, db') =
        call_script link
          (enqueue_script R (job_key job.id) (ready_key job.queue) (delayed_key job.queue)
            (stats_key job.queue) unique (enqueue_args job ttl))
          db in
      (enqueue_error result, db')

  unfoldable pub dequeue : Link → String → String → ℤ → Db R → Result (Option JobRecord) × Db R
  unfolding call parse_job_record
  dequeue link queue worker now db =
      let (result, db') =
        call link
          (dequeue_script R (ready_key queue) (active_key queue) (paused_key queue)
            (worker_jobs_key worker) (lease_key queue) now lease_duration)
          db in
      (context "winter: dequeue" (map_result first_job result), db')

  unfoldable pub ack : Link → String → String → String → ℤ → Db R → Result Done × Db R
  unfolding call
  ack link queue id worker now db =
      let (result, db') =
        call link
          (ack_script R (job_key id) (active_key queue) (stats_key queue) (worker_jobs_key worker)
            (lease_key queue) id now)
          db in
      (context "winter: ack" (map_result (λ _. tt) result), db')

  unfoldable pub nack :
      Link → String → String → String → String → ℤ → Bool → ℤ → Db R → Result Outcome × Db R
  unfolding call_script
  nack link queue id worker message backoff skip_retry now db =
      let (result, db') =
        call_script link
          (nack_script R (job_key id) (active_key queue) (delayed_key queue) (dead_key queue)
            (stats_key queue) (worker_jobs_key worker) (lease_key queue) id message backoff now
            (if skip_retry then 1 else 0))
          db in
      (context "winter: nack" result, db')

  unfoldable pub reschedule_job : Link → String → String → String → ℤ → Db R → Result Done × Db R
  unfolding call
  reschedule_job link queue id worker time db =
      let (result, db') =
        call link
          (reschedule_script R (job_key id) (active_key queue) (delayed_key queue)
            (worker_jobs_key worker) (lease_key queue) id time)
          db in
      (context "winter: reschedule" (map_result (λ _. tt) result), db')

  unfoldable pub cancel_job :
      Link → String → String → String → String → ℤ → Db R → Result Done × Db R
  unfolding call
  cancel_job link queue id worker reason now db =
      let (result, db') =
        call link
          (cancel_script R (job_key id) (active_key queue) (worker_jobs_key worker)
            (lease_key queue) id now reason)
          db in
      (context "winter: cancel" (map_result (λ _. tt) result), db')

  unfoldable pub promote : Link → String → ℕ → ℤ → Db R → Result ℕ × Db R
  unfolding call
  promote link queue limit now db =
      let (result, db') =
        call link (promote_script R (delayed_key queue) (ready_key queue) now limit) db in
      (context "winter: promote" result, db')

  -- The extension is in milliseconds.
  unfoldable pub extend_lease : Link → String → String → ℤ → ℤ → Db R → Result Done × Db R
  unfolding call
  extend_lease link queue id extension now db =
      let (result, db') =
        call link (λ s. (tt, extend_lease_script R (lease_key queue) id (now +ℤ extension) s)) db in
      (context "winter: extend lease" result, db')

  unfoldable pub recover_expired_leases_at :
      Link → String → ℕ → ℤ → Db R → Result (List String) × Db R
  unfolding call
  recover_expired_leases_at link queue limit now db =
      let (result, db') =
        call link
          (recover_leases_script R (lease_key queue) (active_key queue) (ready_key queue) now limit)
          db in
      (context "winter: recover leases" result, db')

  unfoldable pub heartbeat : Link → String → ℤ → Db R → Result Done × Db R
  unfolding call
  heartbeat link worker now =
      call link (λ s. (tt, record s { hashes = hset workers_key worker (num now) s.hashes }))

  unfoldable pub deregister_worker : Link → String → Db R → Result Done × Db R
  unfolding call
  deregister_worker link worker = call link (λ s. (
    tt,
    record s {
      hashes = hdel workers_key worker s.hashes;
      sets = set_del (worker_jobs_key worker) s.sets;
    },
  ))

  unfoldable pub pause : Link → String → Db R → Result Done × Db R
  unfolding call
  pause link queue =
      call link (λ s. (tt, record s { strings = set (paused_key queue) (text "1") s.strings }))

  unfoldable pub resume : Link → String → Db R → Result Done × Db R
  unfolding call
  resume link queue = call link (λ s. (tt, record s { strings = del (paused_key queue) s.strings }))

  unfoldable pub get_job : Link → String → Db R → Result (Option JobRecord) × Db R
  unfolding call parse_job_record
  get_job link id db =
      let (result, db') = call link (λ s. (hgetall s.hashes (job_key id), s)) db in
      (context "winter: get job" (map_result found_job result), db')

  unfoldable pub retry_dead : Link → String → String → Db R → Result Done × Db R
  unfolding call
  retry_dead link queue id db =
      let (result, db') =
        call link
          (retry_dead_script R (job_key id) (dead_key queue) (ready_key queue) (stats_key queue) id)
          db in
      (retried id result, db')

  unfoldable pub purge_dead : Link → String → Db R → Result ℕ × Db R
  unfolding call
  purge_dead link queue db =
      let (result, db') = call link (purge_dead_script R (dead_key queue)) db in
      (context "winter: purge dead" result, db')

  unfoldable pub dead_count : Link → String → Db R → Result ℕ × Db R
  unfolding call
  dead_count link queue = call link (λ s. (length (lrange s.lists (dead_key queue)), s))

  -- The seven days of a result's life are not modelled.
  unfoldable pub set_result : Link → String → String → Db R → Result Done × Db R
  unfolding call
  set_result link id value =
      call link (λ s. (tt, record s { strings = set (result_key id) (text value) s.strings }))

  unfoldable pub get_result : Link → String → Db R → Result (Option String) × Db R
  unfolding call
  get_result link id db =
      let (result, db') = call link (λ s. (get s.strings (result_key id), s)) db in
      (context "winter: get result" (map_result stored_bytes result), db')
