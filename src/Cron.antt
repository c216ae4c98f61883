-- ===== src/Cron.antt =====
-- internal/scheduler/cron.go: periodic jobs. The schedule of an entry is that of the cron library:
-- a function from a time to the next time of the schedule, in milliseconds. The state of an entry,
-- a JSON object with one number, is that number.
pub mod Once
pub mod Interleaved
use winter.Base.{
  map_option, ℕ, suc, String, ◌<>◌, ℤ, pos, ltb_ℤ, Bool, true, false, ◌&&◌, Option, none, some,
  List, [], ◌∷◌, ◌==◌, if◌then◌else◌, leb_ℤ,
}
use winter.Redis.{Redis, Db, Value, num, text}
use winter.Queue.Job.{JobRecord}
use winter.Queue.Link.{Link, Result, ok, err, Done, call}
use winter.Queue.Api.{enqueue}
use winter.Ticker.{Turn, ticker_loop}

abbrev pub cron_key : String
cron_key = "winter:cron"

pub record Entry : Type 0 where
  pub name : String
  pub queue : String
  pub kind : String
  pub payload : String
  pub next_time : ℤ → ℤ

-- The queue of an entry that names none, as NewCron sets it.
unfoldable pub new_entry : Entry → Entry
new_entry e = if e.queue == "" then (record e { queue = "default" }) else e

-- CronEntry of server.go, and the scheduler's Entry with the schedule's text.
pub record CronEntry : Type 0 where
  pub name : String
  pub schedule : String
  pub queue : String
  pub kind : String
  pub payload : String

abbrev pub with_parsed : CronEntry → Option (ℤ → ℤ) → Option (List Entry) → Option (List Entry)
with_parsed e none rest = none
with_parsed e (some next_time) rest =
    map_option
      (λ (l : List Entry).
        new_entry (record {
          name = e.name;
          queue = e.queue;
          kind = e.kind;
          payload = e.payload;
          next_time = next_time;
        })
        ∷ l)
      rest

-- NewCron: none if the cron library rejects one of the schedules. The parser is the parameter.
unfoldable pub new_cron : (String → Option (ℤ → ℤ)) → List CronEntry → Option (List Entry)
unfolding new_entry
new_cron parse [] = some []
new_cron parse (e ∷ l) = with_parsed e (parse e.schedule) (new_cron parse l)

-- The decimal digits of a time, fmt.Sprintf's %d, are the parameter.
module _ (R : Redis) (decimal : ℤ → String) where
  -- HSETNX
  unfoldable pub seed_next_run : Link → ℤ → Entry → Db R → Result Done × Db R
  unfolding call
  seed_next_run link now e = call link (λ d. elim (R.hget d.hashes cron_key e.name) [
    | none ↦ (tt, record d { hashes = R.hset cron_key e.name (num (e.next_time now)) d.hashes })
    | some v ↦ (tt, d)
  ])

  unfoldable pub seed_next_runs : ℕ → (ℕ → Link) → ℤ → List Entry → Db R → Db R
  unfolding seed_next_run
  seed_next_runs i links now [] db = db
  seed_next_runs i links now (e ∷ es) db =
      seed_next_runs (suc i) links now es (seed_next_run (links i) now e db).1

  abbrev pub same_value : Option Value → ℤ → Bool
  same_value (some (num z)) expected = leb_ℤ z expected && leb_ℤ expected z
  same_value _ expected = false

  unfoldable pub compare_and_swap_script : String → ℤ → ℤ → Db R → Bool × Db R
  compare_and_swap_script name expected new db =
      if same_value (R.hget db.hashes cron_key name) expected
      then (true, record db { hashes = R.hset cron_key name (num new) db.hashes })
      else (false, db)

  unfoldable pub compare_and_swap : Link → String → ℤ → ℤ → Db R → Result Bool × Db R
  unfolding compare_and_swap_script call
  compare_and_swap link name expected new db =
      call link (compare_and_swap_script name expected new) db

  unfoldable pub cron_job : Entry → ℤ → ℤ → JobRecord
  cron_job e next_run now = record {
    id = "cron:" <> e.name <> ":" <> decimal next_run;
    kind = e.kind;
    queue = e.queue;
    priority = pos 5;
    state = "pending";
    payload = e.payload;
    attempt = pos 0;
    max_retries = pos 3;
    created_at = now;
    scheduled_at = pos 0;
    started_at = pos 0;
    completed_at = pos 0;
    last_error = "";
    unique_key = "";
    workflow_id = "";
  }

  -- HGET of the entry's state, and what it is parsed as.
  abbrev pub parsed : Result (Option Value) → Option ℤ
  parsed (ok (some (num z))) = some z
  parsed _ = none

  unfoldable pub read_next_run : Link → String → Db R → Option ℤ
  unfolding call
  read_next_run link name db = parsed (call link (λ d. (R.hget d.hashes cron_key name, d)) db).0

  -- What a tick does to an entry after the swap: whether it swapped the state and called Enqueue, and
  -- the database. An error of Enqueue is only logged.
  unfoldable pub swapped_entry : Link → Entry → ℤ → ℤ → Result Bool × Db R → Bool × Db R
  swapped_entry link e next_run now (ok true, db) =
      (true, (enqueue R link (cron_job e next_run now) "" (pos 0) db).1)
  swapped_entry link e next_run now (ok false, db) = (false, db)
  swapped_entry link e next_run now (err x, db) = (false, db)

  -- What a tick does to an entry, from the state that it has read on.
  unfoldable pub due_entry : Link → Link → Entry → ℤ → Option ℤ → Db R → Bool × Db R
  unfolding compare_and_swap swapped_entry
  due_entry swap_link link e now none db = (false, db)
  due_entry swap_link link e now (some next_run) db =
      if ltb_ℤ now next_run
      then (false, db)
      else swapped_entry link e next_run now
          (compare_and_swap swap_link e.name next_run (e.next_time now) db)

  unfoldable pub tick_entry : Link → Link → Link → ℤ → Entry → Db R → Bool × Db R
  unfolding due_entry read_next_run
  tick_entry read_link swap_link link now e db =
      due_entry swap_link link e now (read_next_run read_link e.name db) db

  unfoldable pub tick : (ℕ → Link) → ℕ → ℤ → List Entry → Db R → Db R
  unfolding tick_entry
  tick links i now [] db = db
  tick links i now (e ∷ es) db =
      tick links (suc (suc (suc i))) now es
        (tick_entry (links i) (links (suc i)) (links (suc (suc i))) now e db).1

  -- Cron.Run: it seeds the entries, and then ticks. The first links are those of the seeding; the
  -- clock is read once for it, and once for each tick.
  unfoldable pub cron_run : (ℕ → Link) → ℤ → List Entry → List (Turn R) → Db R → Db R
  unfolding ticker_loop tick seed_next_runs
  cron_run links start entries turns db =
      ticker_loop R (λ t. tick t.links 0 (t.now 0) entries) turns
        (seed_next_runs 0 links start entries db)
