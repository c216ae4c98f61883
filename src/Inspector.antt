-- ===== src/Inspector.antt =====
-- inspector.go: reads and management of queues without a server. Times are in milliseconds.
use winter.Base.{ℕ, String, ℤ, pos, ◌≡◌, refl, Option, List, map, map_option}
use winter.Redis.{Redis, Db}
use winter.Queue.Keys.{stats_key}
use winter.Queue.Job.{JobRecord, int_of}
use winter.Queue.Link.{Link, up, Result, ok, map_result, Done}
use winter.Queue.Api.{retry_dead, purge_dead, dead_count, pause, resume, get_result}
use winter.Queue.Batch.{list_dead, peek_dead}
use winter.Queue.Stats.{Stats, stat, queue_stats}
use winter.Queue.Stats.Depths.{IsPlain, depths, stats_depths}

pub record QueueInfo : Type 0 where
  pub name : String
  pub ready : ℤ
  pub active : ℤ
  pub delayed : ℤ
  pub dead : ℤ
  pub completed : ℤ
  pub enqueued : ℤ

pub record DeadJob : Type 0 where
  pub id : String
  pub kind : String
  pub queue : String
  pub payload : String
  pub attempt : ℤ
  pub max_retries : ℤ
  pub last_error : String
  pub created_at : ℤ
  pub completed_at : ℤ

abbrev pub queue_info : String → Stats → QueueInfo
queue_info name stats = record {
  name = name;
  ready = stat stats "ready";
  active = stat stats "active";
  delayed = stat stats "delayed";
  dead = stat stats "dead";
  completed = stat stats "completed";
  enqueued = stat stats "enqueued";
}

abbrev pub dead_job_from_record : JobRecord → DeadJob
dead_job_from_record rec = record {
  id = rec.id;
  kind = rec.kind;
  queue = rec.queue;
  payload = rec.payload;
  attempt = rec.attempt;
  max_retries = rec.max_retries;
  last_error = rec.last_error;
  created_at = rec.created_at;
  completed_at = rec.completed_at;
}

module _ (R : Redis) where
  unfoldable pub inspect_queue : Link → String → Db R → Result QueueInfo × Db R
  inspect_queue link name db =
      let (result, db') = queue_stats R link name db in (map_result (queue_info name) result, db')

  unfoldable pub inspect_dead : (ℕ → Link) → String → ℕ → ℕ → Db R → Result (List DeadJob)
  inspect_dead links queue offset limit db =
      map_result (map dead_job_from_record) (list_dead R links queue offset limit db)

  unfoldable pub inspect_peek_dead : Link → Link → String → Db R → Result (Option DeadJob)
  inspect_peek_dead link get_link queue db =
      map_result (map_option dead_job_from_record) (peek_dead R link get_link queue db)

  -- The methods that hand their arguments on.
  unfoldable pub inspect_retry : Link → String → String → Db R → Result Done × Db R
  inspect_retry link queue id = retry_dead R link queue id

  unfoldable pub inspect_purge_dead : Link → String → Db R → Result ℕ × Db R
  inspect_purge_dead link queue = purge_dead R link queue

  unfoldable pub inspect_dead_count : Link → String → Db R → Result ℕ × Db R
  inspect_dead_count link queue = dead_count R link queue

  unfoldable pub inspect_pause : Link → String → Db R → Result Done × Db R
  inspect_pause link queue = pause R link queue

  unfoldable pub inspect_resume : Link → String → Db R → Result Done × Db R
  inspect_resume link queue = resume R link queue

  unfoldable pub job_result : Link → String → Db R → Result (Option String) × Db R
  job_result link id = get_result R link id

  -- The inspector's view of a queue on a working link: where no counter of the queue has the name
  -- of a depth, it shows the number of ready, active, delayed and dead jobs and the counters of
  -- completed and enqueued jobs, 0 for one that is missing, and the database stays as it is.
  pub inspect_queue_exact :
      (name : String) (db : Db R)
      → IsPlain R name db
      → inspect_queue up name db ≡ (
        ok (record {
          name = name;
          ready = pos (depths R name db).ready;
          active = pos (depths R name db).active;
          delayed = pos (depths R name db).delayed;
          dead = pos (depths R name db).dead;
          completed = int_of (R.hget db.hashes (stats_key name) "completed");
          enqueued = int_of (R.hget db.hashes (stats_key name) "enqueued");
        }),
        db,
      )
  unfolding inspect_queue
  inspect_queue_exact name db plain =
      let (m, shown, r, a, d, b, c, e, f) = stats_depths R name db plain in
      rw (shown, r, a, d, b, c, e) refl
