-- ===== src/Tests.antt =====
-- What the runs of the parts around the queue share: data for them, on a small Redis in memory.
mod Limits
mod Workflows
mod Servers
mod Clients
mod Pools
mod Loops
mod Trips
use winter.Base.{
  ℕ, ◌+◌, ◌*◌, ◌^◌, ◌≤◌, String, ℤ, pos, negsuc, ◌+ℤ◌, ◌-ℤ◌, ◌<ℤ◌, true, false, Option, none, some,
  List, [], ◌∷◌, ◌≡◌, refl, arith, ◌==◌, ◌-◌, is_some, if◌then◌else◌, inr, map, ltb, ltb_ℤ, ◌||◌,
}
use winter.Redis.{Db, text, num}
use winter.Redis.Memory.{memory}
use winter.Queue.Job.{JobRecord}
use winter.Queue.Link.{up, ok, err, duplicate}
use winter.Queue.Keys.{job_key, stats_key}
use winter.Queue.Scripts.{enqueue_script, hset_all}
use winter.Queue.Api.{enqueue, nack, reschedule_job}
use winter.Queue.View.{occurrences}
use winter.Queue.Batch.{enqueue_many, run_pipeline}
use winter.Queue.Batch.Exact.{enqueue_many_exact}
use winter.Backoff.{next, exponential, max_backoff}
use winter.Backoff.{exponential_exact, exponential_overflow}
use winter.States.{valid_transition, edges_missing}
use winter.RateLimit.{Bucket, token_bucket_script, stored, denied, refilled}
use winter.RateLimit.Bound.{Holds}
use winter.Workflow.{
  TaskSpec, Record, Flow, chain, group, chord, job_of_spec, workflow_key, deps_key,
}
use winter.Workflow.Advance.{on_job_completed}
use winter.Workflow.Progress.{always_up, completions, completion, recorded, counter, group_progress}
use winter.Workflow.Races.{
  both_advance, group_lost_update, chord_waits, chord_fires, all_done, left_after,
}
use winter.Workflow.Chain.{stepped, chain_step}
use winter.Server.Failure.{Failure, wrapping, skip_retry}
use winter.Server.Process.{
  World, Links, Server, returned, panicked, recover, report_run, process_job, HandlerFn,
}
use winter.Server.Config.{
  QueueWeight, ServerConfig, new_server, queues_or_default, build_weighted_queues,
  build_strict_queues, sort_by_weight,
}
use winter.Server.Order.{Descending, every_queue_polled, strict_order}
use winter.Server.Poll.{strict_pass, first_ready, all_up, strict_takes_first}
use winter.Cron.{Entry, due_entry, cron_key}
use winter.Cron.Once.{window_once}
use winter.Client.{
  TaskOptions, Task, InsertOpts, default_opts, enqueue_payload, enqueue_opts, batch_job,
  apply_settings, to_queue,
}
use winter.Client.Laws.{client_unique, batch_ignores_queue}
use winter.Settings.{Config, apply_defaults, validate, validated_durations}
use winter.Grpc.{grpc_dequeue}
use winter.Grpc.Answers.{dequeue_answers}

abbrev pub empty : Db memory
empty = record { hashes = []; zsets = []; sets = []; lists = []; strings = [] }

-- What the digits of a time, of a hash or of a delay are in these runs.
abbrev pub digits : ℤ → String
digits z = "0"

abbrev pub digest : String → String
digest s = "abc"

abbrev pub converted : ℕ → ℤ
converted n = negsuc (2 ^ 63 - 1)

abbrev pub task : TaskSpec
task = record { kind = "mail"; payload = "{}"; queue = "q"; priority = pos 5; max_retries = pos 3 }

abbrev pub job : JobRecord
job = job_of_spec "j" (pos 1) task ""

abbrev pub links : Links
links = record { limit = up; outcome = up; result = up; workflow = always_up; hook = λ _. none }

abbrev pub ready_j : Db memory
ready_j = (enqueue memory up job "" (pos 0) empty).1

abbrev pub clock : ℕ → ℤ
clock i = pos i
