-- ===== src/Queue/Batch.antt =====
-- internal/queue/queue.go: EnqueueMany, ListDead and PeekDead. A batch is a load of the script and
-- one pipeline, in which each command is run in turn. Errors inside a pipeline are not modelled.
pub mod Exact
use winter.Base.{
  ℕ, zero, suc, ◌+◌, ◌-◌, String, ℤ, pos, Option, none, some, List, [], ◌∷◌, take, drop, leb,
  if◌then◌else◌, length, negsuc,
}
use winter.Redis.{Redis, Db, Value, text, num}
use winter.Queue.Keys.{job_key, ready_key, delayed_key, stats_key, dead_key}
use winter.Queue.Job.{JobRecord}
use winter.Queue.Link.{Link, up, Result, ok, err, wrapped, context, Done, call}
use winter.Queue.Scripts.{enqueue_script}
use winter.Queue.Api.{enqueue_args, get_job}

abbrev pub chunk_size : ℕ
chunk_size = 100

module _ (R : Redis) where
  -- One command of the pipeline: no unique key.
  unfoldable pub enqueue_plain : JobRecord → Db R → Db R
  unfolding enqueue_script
  enqueue_plain job db =
      (enqueue_script R (job_key job.id) (ready_key job.queue) (delayed_key job.queue)
        (stats_key job.queue) "" (enqueue_args job (pos 0)) db).1

  unfoldable pub run_pipeline : List JobRecord → Db R → Db R
  unfolding enqueue_plain
  run_pipeline [] db = db
  run_pipeline (job ∷ jobs) db = run_pipeline jobs (enqueue_plain job db)

  abbrev pub loaded_batch : Link → List JobRecord → Result Done × Db R → Result Done × Db R
  loaded_batch link jobs (err e, db) = (err (wrapped "winter: script load" e), db)
  loaded_batch link jobs (ok d, db) =
      let (result, db') = call link (λ s. (tt, run_pipeline jobs s)) db in
      (context "winter: batch enqueue" result, db')

  unfoldable pub enqueue_batch : Link → Link → List JobRecord → Db R → Result Done × Db R
  unfolding run_pipeline call
  enqueue_batch load_link link jobs db = loaded_batch link jobs (call load_link (λ s. (tt, s)) db)

  abbrev pub and_batch : Result Done × Db R → (Db R → Result Done × Db R) → Result Done × Db R
  and_batch (ok d, db) rest = rest db
  and_batch (err e, db) rest = (err e, db)

  -- The loop over the chunks; there are no more of them than jobs.
  unfoldable pub enqueue_chunks : ℕ → (ℕ → Link) → ℕ → List JobRecord → Db R → Result Done × Db R
  unfolding enqueue_batch
  enqueue_chunks fuel links i [] db = (ok tt, db)
  enqueue_chunks zero links i (j ∷ jobs) db = (ok tt, db)
  enqueue_chunks (suc fuel) links i (j ∷ jobs) db =
      and_batch (enqueue_batch (links i) (links (suc i)) (take chunk_size (j ∷ jobs)) db)
        (enqueue_chunks fuel links (suc (suc i)) (drop chunk_size (j ∷ jobs)))

  unfoldable pub enqueue_many : (ℕ → Link) → List JobRecord → Db R → Result Done × Db R
  unfolding enqueue_chunks
  enqueue_many links jobs = enqueue_chunks (length jobs) links 0 jobs

  abbrev pub and_record :
      Result (Option JobRecord) → Result (List JobRecord) → Result (List JobRecord)
  and_record (err e) rest = err e
  and_record (ok none) rest = rest
  and_record (ok (some r)) (ok l) = ok (r ∷ l)
  and_record (ok (some r)) (err e) = err e

  unfoldable pub get_jobs : ℕ → (ℕ → Link) → List String → Db R → Result (List JobRecord)
  unfolding get_job
  get_jobs i links [] db = ok []
  get_jobs i links (id ∷ ids) db =
      and_record (get_job R (links i) id db).0 (get_jobs (suc i) links ids db)

  abbrev pub listed : (ℕ → Link) → Db R → Result (List String) → Result (List JobRecord)
  listed links db (ok ids) = get_jobs 1 links ids db
  listed links db (err e) = err (wrapped "winter: list dead" e)

  -- LRANGE from `offset` to offset + limit - 1, where -1 is the last of the list.
  abbrev pub lrange_page : ℕ → ℕ → List String → List String
  lrange_page zero zero l = l
  lrange_page offset limit l = take limit (drop offset l)

  unfoldable pub list_dead : (ℕ → Link) → String → ℕ → ℕ → Db R → Result (List JobRecord)
  unfolding get_jobs call
  list_dead links queue offset limit db =
      listed links db
        (call (links 0) (λ s. (lrange_page offset limit (R.lrange s.lists (dead_key queue)), s))
          db).0

  abbrev pub peeked : Link → Db R → Result (List String) → Result (Option JobRecord)
  peeked link db (ok []) = ok none
  peeked link db (ok (id ∷ ids)) = (get_job R link id db).0
  peeked link db (err e) = err (wrapped "winter: peek dead" e)

  unfoldable pub peek_dead : Link → Link → String → Db R → Result (Option JobRecord)
  unfolding call
  peek_dead link get_link queue db =
      peeked get_link db (call link (λ s. (take 1 (R.lrange s.lists (dead_key queue)), s)) db).0
