-- ===== src/Queue/Batch/Exact.antt =====
-- internal/queue/queue.go, EnqueueMany: the chunks of a batch and the pipeline of all its jobs.
use winter.Base.{
  ℕ, zero, suc, ◌+◌, ◌≤◌, List, [], ◌∷◌, ◌≡◌, refl, ap, ◌∙◌, arith, take, drop, length,
}
use winter.Redis.{Redis, Db}
use winter.Queue.Job.{JobRecord}
use winter.Queue.Link.{up, ok}
use winter.Queue.Batch.{
  run_pipeline, enqueue_batch, enqueue_chunks, enqueue_many, enqueue_plain, chunk_size,
}

length-drop : (n : ℕ) (l : List JobRecord) (m : ℕ) → length l ≤ n + m → length (drop n l) ≤ m
length-drop zero l m h = omega (arith, h)
length-drop (suc n) [] m h = omega arith
length-drop (suc n) (x ∷ l) m h = length-drop n l m (omega (arith, h))

module _ (R : Redis) where
  pipeline-take-drop :
      (n : ℕ) (jobs : List JobRecord) (db : Db R)
      → run_pipeline R (drop n jobs) (run_pipeline R (take n jobs) db) ≡ run_pipeline R jobs db
  unfolding run_pipeline
  pipeline-take-drop zero jobs db = refl
  pipeline-take-drop (suc n) [] db = refl
  pipeline-take-drop (suc n) (j ∷ jobs) db = pipeline-take-drop n jobs (enqueue_plain R j db)

  chunks_exact :
      (fuel i : ℕ) (jobs : List JobRecord) (db : Db R)
      → length jobs ≤ fuel
      → enqueue_chunks R fuel (λ _. up) i jobs db ≡ (ok tt, run_pipeline R jobs db)
  unfolding enqueue_chunks enqueue_batch
  chunks_exact zero i [] db h = refl
  chunks_exact (suc fuel) i [] db h = refl
  chunks_exact zero i (j ∷ jobs) db h = absurd (omega (arith, h))
  chunks_exact (suc fuel) i (j ∷ jobs) db h =
      chunks_exact fuel (suc (suc i)) (drop chunk_size (j ∷ jobs)) _
        (length-drop 100 (j ∷ jobs) fuel (omega (arith, h)))
      ∙ ap (λ d. (ok tt, d)) (pipeline-take-drop chunk_size (j ∷ jobs) db)

  -- On working links EnqueueMany enqueues every job of its argument, in their order, and succeeds,
  -- however many chunks of a hundred it takes.
  pub enqueue_many_exact :
      (jobs : List JobRecord) (db : Db R)
      → enqueue_many R (λ _. up) jobs db ≡ (ok tt, run_pipeline R jobs db)
  unfolding enqueue_many
  enqueue_many_exact jobs db = chunks_exact (length jobs) 0 jobs db (omega arith)
