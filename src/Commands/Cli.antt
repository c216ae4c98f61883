-- ===== src/Commands/Cli.antt =====
-- cmd/winter/main.go: the command line. Flags arrive as arguments; connecting and the layout of the
-- output are not modelled, and a command gives the lines of its output, as fields. The digits of
-- numbers and the JSON of a record are parameters. A clock reading is in nanoseconds.
use winter.Base.{
  ℕ, ltb, String, ◌<>◌, ℤ, pos, ◌+ℤ◌, ltb_ℤ, false, Option, none, some, List, [], ◌∷◌, ◌++◌, map,
  ◌==◌, if◌then◌else◌, length, take,
}
use winter.Redis.{Redis, Db}
use winter.Queue.Job.{JobRecord}
use winter.Queue.Link.{Link, Result, ok, err, Error, Done}
use winter.Queue.Api.{enqueue, get_job, retry_dead, purge_dead}
use winter.Queue.Batch.{list_dead}
use winter.Queue.Stats.{Stats, stat, queue_stats}
use winter.Settings.{Config, QueueConfig, parse_duration}
use winter.Server.Config.{QueueWeight, ServerConfig}
use winter.Cron.{CronEntry}
use winter.Grpc.{milliseconds}
use winter.Commands.Standalone.{cron_entries}

-- A zero Config but for the address.
abbrev pub address_only : String → Config
address_only addr = record {
  redis_addr = addr;
  redis_password = "";
  redis_db = pos 0;
  grpc_port = "";
  log_level = "";
  queues = [];
  heartbeat_interval = "";
  stale_threshold = "";
  recovery_interval = "";
  concurrency = pos 0;
  poll_interval = "";
  cron = [];
}

-- The configuration of a command: the loaded file if one is named, where none ends the program.
abbrev pub get_config : String → String → Option Config → Option Config
get_config cfg_file redis_addr loaded =
    if cfg_file == "" then some (address_only redis_addr) else loaded

abbrev pub weight_one : List (String × QueueConfig) → List QueueWeight
weight_one [] = []
weight_one ((name, q) ∷ qs) = record { name = name; weight = pos 1 } ∷ weight_one qs

abbrev pub cli_queues : List (String × QueueConfig) → List QueueWeight
cli_queues [] = record { name = "default"; weight = pos 1 } ∷ []
cli_queues (q ∷ qs) = weight_one (q ∷ qs)

-- What the server command gives to NewServer.
unfoldable pub cli_server_config : (String → Option ℤ) → Config → ServerConfig × List CronEntry
cli_server_config parse cfg = (
  record {
    concurrency = cfg.concurrency;
    queues = cli_queues cfg.queues;
    strict_priority = false;
    poll_interval = parse_duration parse cfg.poll_interval (pos 500_000_000);
    shutdown_timeout = pos 30_000_000_000;
  },
  cron_entries cfg,
)

-- How a command ends: with its output, or with an error that makes the program exit with 1.
pub data Ended : Type 0 where
  printed : List (List String) → Ended
  failed : String → Ended
  queue_error : Error → Ended

-- errMsg[:60] + "...", on bytes.
unfoldable pub shorten : List ℕ → List ℕ
shorten message =
    if ltb 60 (length message) then take 60 message ++ (b'.' ∷ b'.' ∷ b'.' ∷ []) else message

module _ (R : Redis) (decimal : ℤ → String) where
  -- The record of the enqueue command, with the clock's readings in their order.
  unfoldable pub cli_job : (ℕ → ℤ) → String → String → String → ℤ → ℤ → JobRecord
  cli_job now queue kind payload priority delay = record {
    id = "cli-" <> decimal (now 0);
    kind = kind;
    queue = queue;
    priority = priority;
    state = "pending";
    payload = payload;
    attempt = pos 0;
    max_retries = pos 3;
    created_at = milliseconds (now 1);
    scheduled_at = if ltb_ℤ (pos 0) delay then milliseconds (now 2 +ℤ delay) else pos 0;
    started_at = pos 0;
    completed_at = pos 0;
    last_error = "";
    unique_key = "";
    workflow_id = "";
  }

  abbrev pub enqueued_line : JobRecord → Result Done → Ended
  enqueued_line job (ok d) = printed (
      (("enqueued " <> job.id <> " (kind=" <> job.kind <> " queue=" <> job.queue <> ")") ∷ []) ∷ [])
  enqueued_line job (err e) = queue_error e

  unfoldable pub cli_enqueue :
      Link → (ℕ → ℤ) → String → String → String → ℤ → ℤ → Db R → Ended × Db R
  unfolding cli_job
  cli_enqueue link now queue kind payload priority delay db =
      if kind == ""
      then (failed "--kind is required", db)
      else (let job = cli_job now queue kind payload priority delay in
          let (result, db') = enqueue R link job "" (pos 0) db in (enqueued_line job result, db'))

  abbrev pub status_lines : String → Result Stats → Ended
  status_lines queue (ok m) = printed (
      ("Queue" ∷ queue ∷ [])
      ∷ ("Ready" ∷ decimal (stat m "ready") ∷ [])
      ∷ ("Active" ∷ decimal (stat m "active") ∷ [])
      ∷ ("Delayed" ∷ decimal (stat m "delayed") ∷ [])
      ∷ ("Dead" ∷ decimal (stat m "dead") ∷ [])
      ∷ ("Completed" ∷ decimal (stat m "completed") ∷ [])
      ∷ ("Enqueued" ∷ decimal (stat m "enqueued") ∷ [])
      ∷ [])
  status_lines queue (err e) = queue_error e

  unfoldable pub cli_status : Link → String → Db R → Ended
  cli_status link queue db = status_lines queue (queue_stats R link queue db).0

  abbrev pub job_lines : (JobRecord → String) → String → Result (Option JobRecord) → Ended
  job_lines json id (ok (some rec)) = printed ((json rec ∷ []) ∷ [])
  job_lines json id (ok none) = failed ("job " <> id <> " not found")
  job_lines json id (err e) = queue_error e

  unfoldable pub cli_jobs : (JobRecord → String) → Link → String → Db R → Ended
  cli_jobs json link id db = job_lines json id (get_job R link id db).0

  -- The bytes of a text, and the text of bytes.
  module _ (bytes : String → List ℕ) (of_bytes : List ℕ → String) where
    abbrev pub dead_row : JobRecord → List String
    dead_row rec =
        rec.id ∷ rec.kind ∷ decimal rec.attempt ∷ of_bytes (shorten (bytes rec.last_error)) ∷ []

    abbrev pub dead_lines : Result (List JobRecord) → Ended
    dead_lines (ok []) = printed (("no dead jobs" ∷ []) ∷ [])
    dead_lines (ok (rec ∷ recs)) =
        printed (("ID" ∷ "Kind" ∷ "Attempt" ∷ "Error" ∷ []) ∷ map dead_row (rec ∷ recs))
    dead_lines (err e) = queue_error e

    unfoldable pub cli_dead_list : (ℕ → Link) → String → Db R → Ended
    unfolding shorten
    cli_dead_list links queue db = dead_lines (list_dead R links queue 0 50 db)

  abbrev pub purged_line : String → Result ℕ → Ended
  purged_line queue (ok n) =
      printed ((("purged " <> decimal (pos n) <> " dead jobs from " <> queue) ∷ []) ∷ [])
  purged_line queue (err e) = queue_error e

  unfoldable pub cli_dead_purge : Link → String → Db R → Ended × Db R
  cli_dead_purge link queue db =
      let (result, db') = purge_dead R link queue db in (purged_line queue result, db')

  abbrev pub retried_line : String → String → Result Done → Ended
  retried_line queue id (ok d) =
      printed ((("retried " <> id <> " from " <> queue <> " dead queue") ∷ []) ∷ [])
  retried_line queue id (err e) = queue_error e

  unfoldable pub cli_retry : Link → String → String → Db R → Ended × Db R
  cli_retry link queue id db =
      let (result, db') = retry_dead R link queue id db in (retried_line queue id result, db')
