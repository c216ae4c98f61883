-- ===== src/Tests/Clients.antt =====
-- The scheduler, the client, the state table, the settings and the gRPC service at concrete runs.
use winter.Base.{ℤ, pos, ◌+ℤ◌, ◌<ℤ◌, true, some, [], ◌∷◌, ◌≡◌, refl, arith, is_some}
use winter.Redis.{Db, num}
use winter.Redis.Memory.{memory}
use winter.Queue.Link.{up, ok}
use winter.Queue.Keys.{job_key, stats_key}
use winter.Queue.Scripts.{enqueue_script, hset_all}
use winter.Queue.Api.{enqueue}
use winter.Queue.Batch.{enqueue_many, run_pipeline}
use winter.Queue.Batch.Exact.{enqueue_many_exact}
use winter.Workflow.{job_of_spec}
use winter.Workflow.Progress.{always_up}
use winter.Cron.{
  Entry, cron_key, cron_job, read_next_run, compare_and_swap, compare_and_swap_script,
}
use winter.Cron.Interleaved.{
  Ticks, Reach, here, next, read, swap, put, waiting, seen, won, set_stage,
}
use winter.Cron.Interleaved.Orderly.{IsDistinct}
use winter.Cron.Interleaved.Windows.{windows_once}
use winter.Client.{TaskOptions, Task, InsertOpts, default_opts}
use winter.Grpc.{grpc_dequeue, deadline_of}
use winter.Backoff.{wrap_64}
use winter.Grpc.Answers.{dequeue_answers, after_deadline}
use winter.Tests.{empty, digits, digest, job, ready_j}

-- Every minute.
abbrev report_entry : Entry
report_entry = record {
  name = "report";
  queue = "q";
  kind = "report";
  payload = "{}";
  next_time = λ t. t +ℤ pos 60_000;
}

abbrev seeded : Db memory
seeded = record empty { hashes = memory.hset cron_key "report" (num (pos 60_000)) [] }

later : (t : ℤ) → t <ℤ t +ℤ pos 60_000
unfolding ◌+ℤ◌
later t = ground arith

-- Two servers tick at once, and both read the entry's window before either of them swaps.
abbrev both_seen : Ticks memory digits report_entry
both_seen = record {
  db = seeded;
  stage = set_stage "b" (seen (pos 60_000)) (set_stage "a" (seen (pos 60_000)) (λ _. waiting));
  enqueued = [];
}

abbrev a_won : Ticks memory digits report_entry
a_won = record both_seen {
  db = (compare_and_swap memory digits up "report" (pos 60_000) (pos 120_500) seeded).1;
  stage = set_stage "a" (won (pos 60_000)) both_seen.stage;
}

abbrev b_lost : Ticks memory digits report_entry
b_lost = record a_won {
  db = (compare_and_swap memory digits up "report" (pos 60_000) (pos 120_700) a_won.db).1;
  stage = set_stage "b" waiting a_won.stage;
}

abbrev a_put : Ticks memory digits report_entry
a_put = record {
  db =
      (enqueue memory up (cron_job memory digits report_entry (pos 60_000) (pos 60_500)) "" (pos 0)
        b_lost.db).1;
  stage = set_stage "a" waiting b_lost.stage;
  enqueued = pos 60_000 ∷ [];
}

tick_race :
    Reach memory digits report_entry
      (record { db = seeded; stage = λ _. waiting; enqueued = [] })
      a_put
unfolding read_next_run compare_and_swap compare_and_swap_script ◌+ℤ◌
tick_race =
    next
      (next
        (next (next (next here (read "a" up refl)) (read "b" up refl))
          (swap "a" up (pos 60_000) (pos 60_500) refl refl))
        (swap "b" up (pos 60_000) (pos 60_700) refl refl))
      (put "a" up (pos 60_000) (pos 60_500) refl)

windows_once_example : IsDistinct (pos 60_000 ∷ [])
windows_once_example =
    windows_once memory digits report_entry later (pos 60_000) refl (λ k. refl) refl tick_race

enqueue_many_exact_example :
    enqueue_many memory (λ _. up) (job ∷ job ∷ []) empty
    ≡ (ok tt, run_pipeline memory (job ∷ job ∷ []) empty)
enqueue_many_exact_example = enqueue_many_exact memory (job ∷ job ∷ []) empty

abbrev named_options : TaskOptions
named_options = record { queue = "own"; max_retries = pos 7 }

abbrev mail_task : Task
mail_task = record { kind = "mail"; payload = some "{}"; options = some named_options }

abbrev unique_opts : InsertOpts
unique_opts = record (default_opts "q") { unique_period = pos 2_000_000_000 }

attempt_j : memory.hget ready_j.hashes (job_key "j") "attempt" ≡ some (num (pos 0))
unfolding enqueue enqueue_script hset_all job_key stats_key job_of_spec
attempt_j = refl

limit_j : memory.hget ready_j.hashes (job_key "j") "max_retries" ≡ some (num (pos 3))
unfolding enqueue enqueue_script hset_all job_key stats_key job_of_spec
limit_j = refl

late_enough :
    after_deadline (deadline_of (pos 0) (pos 100)) (pos 50_000_000 ∷ pos 150_000_000 ∷ []) ≡ true
unfolding ◌+ℤ◌ deadline_of wrap_64
late_enough = refl

dequeue_answers_example :
    is_some
      (grpc_dequeue memory digest always_up "q" "w"
        (pos 100)
        (pos 0)
        (pos 50_000_000 ∷ pos 150_000_000 ∷ [])
        empty).0
    ≡ true
dequeue_answers_example =
    dequeue_answers memory digest always_up "q" "w" (pos 100) (pos 0)
      (pos 50_000_000 ∷ pos 150_000_000 ∷ []) empty late_enough
