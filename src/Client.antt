-- ===== src/Client.antt =====
-- client.go, the options of winter.go and workflow.go: what a client puts in the queue. The ids of
-- uuid.New, the JSON encoding of a task and the digits of SHA-256 are parameters. Times are in
-- milliseconds and periods in nanoseconds.
pub mod Laws
pub mod Connect
pub mod Wait
use winter.Base.{
  ℕ, zero, suc, String, ◌<>◌, ℤ, pos, ◌+ℤ◌, ltb_ℤ, Bool, true, false, Option, none, some, List, [],
  ◌∷◌, ◌==◌, if◌then◌else◌, map,
}
use winter.Redis.{Redis, Db}
use winter.Queue.Job.{JobRecord}
use winter.Queue.Link.{Link, Result, ok, err, redis_error, Done}
use winter.Queue.Api.{enqueue}
use winter.Queue.Batch.{enqueue_many}
use winter.Workflow.{TaskSpec, Flow, Action}
use winter.Workflow.Create.{create_chain, create_group, create_chord}

pub record TaskOptions : Type 0 where
  pub queue : String
  pub max_retries : ℤ

-- A task: its kind, its JSON or the error of json.Marshal, and its options if it has any.
pub record Task : Type 0 where
  pub kind : String
  pub payload : Option String
  pub options : Option TaskOptions

pub record InsertOpts : Type 0 where
  pub queue : String
  pub priority : ℤ
  pub scheduled_at : Option ℤ
  pub unique_period : ℤ

-- Option, with the clock of In at the time of the call.
pub data Setting : Type 0 where
  to_queue : String → Setting
  priority : ℤ → Setting
  in_delay : ℤ → ℤ → Setting
  at_time : ℤ → Setting
  unique : ℤ → Setting

unfoldable pub apply_setting : Setting → InsertOpts → InsertOpts
apply_setting (to_queue name) o = record o { queue = name }
apply_setting (priority p) o = record o { priority = p }
apply_setting (in_delay now d) o = record o { scheduled_at = some (now +ℤ d) }
apply_setting (at_time t) o = record o { scheduled_at = some t }
apply_setting (unique period) o = record o { unique_period = period }

unfoldable pub apply_settings : List Setting → InsertOpts → InsertOpts
unfolding apply_setting
apply_settings [] o = o
apply_settings (s ∷ l) o = apply_settings l (apply_setting s o)

abbrev pub default_opts : String → InsertOpts
default_opts queue = record {
  queue = queue;
  priority = pos 5;
  scheduled_at = none;
  unique_period = pos 0;
}

-- The queue that the options of a task name, or the given one.
abbrev pub queue_or : String → Option TaskOptions → String
queue_or q none = q
queue_or q (some t) = if t.queue == "" then q else t.queue

abbrev pub retries_or : ℤ → Option TaskOptions → ℤ
retries_or n none = n
retries_or n (some t) = if ltb_ℤ (pos 0) t.max_retries then t.max_retries else n

abbrev pub time_or_zero : Option ℤ → ℤ
time_or_zero none = pos 0
time_or_zero (some t) = t

-- The job record of Enqueue and of EnqueueMany.
unfoldable pub new_job : String → ℤ → Task → String → String → InsertOpts → JobRecord
new_job id now task payload queue o = record {
  id = id;
  kind = task.kind;
  queue = queue;
  priority = o.priority;
  state = "pending";
  payload = payload;
  attempt = pos 0;
  max_retries = retries_or (pos 3) task.options;
  created_at = now;
  scheduled_at = time_or_zero o.scheduled_at;
  started_at = pos 0;
  completed_at = pos 0;
  last_error = "";
  unique_key = "";
  workflow_id = "";
}

-- The options of an Enqueue: the caller's settings come after the task's own queue.
abbrev pub enqueue_opts : Task → List Setting → InsertOpts
enqueue_opts task settings =
    apply_settings settings (default_opts (queue_or "default" task.options))

-- The record of a task in a batch: its own queue comes after the caller's settings.
abbrev pub batch_job : String → ℤ → InsertOpts → Task → String → JobRecord
batch_job id now o task payload = new_job id now task payload (queue_or o.queue task.options) o

module _ (R : Redis) (digest : String → String) where
  abbrev pub unique_text : Task → String → InsertOpts → String
  unique_text task payload o =
      if ltb_ℤ (pos 0) o.unique_period then task.kind <> ":" <> digest payload else ""

  abbrev pub returned_job : JobRecord → Result Done → Result JobRecord
  returned_job job (ok d) = ok job
  returned_job job (err e) = err e

  abbrev pub enqueue_payload :
      Link → String → ℤ → Task → InsertOpts → Option String → Db R → Result JobRecord × Db R
  enqueue_payload link id now task o none db = (err (redis_error "winter: marshal args"), db)
  enqueue_payload link id now task o (some payload) db =
      let job = new_job id now task payload o.queue o in
      let (result, db') = enqueue R link job (unique_text task payload o) o.unique_period db in
      (returned_job job result, db')

  unfoldable pub client_enqueue :
      Link → String → ℤ → Task → List Setting → Db R → Result JobRecord × Db R
  unfolding new_job apply_settings
  client_enqueue link id now task settings =
      enqueue_payload link id now task (enqueue_opts task settings) task.payload

  -- The records of a batch, or none if a task cannot be encoded.
  abbrev pub and_job : Option JobRecord → Option (List JobRecord) → Option (List JobRecord)
  and_job (some j) (some l) = some (j ∷ l)
  and_job _ _ = none

  abbrev pub encoded : (String → JobRecord) → Option String → Option JobRecord
  encoded f none = none
  encoded f (some payload) = some (f payload)

  unfoldable pub batch_jobs :
      (ℕ → String) → ℕ → ℤ → InsertOpts → List Task → Option (List JobRecord)
  unfolding new_job
  batch_jobs ids i now o [] = some []
  batch_jobs ids i now o (t ∷ ts) =
      and_job (encoded (batch_job (ids i) now o t) t.payload) (batch_jobs ids (suc i) now o ts)

  abbrev pub enqueue_jobs :
      (ℕ → Link) → Option (List JobRecord) → Db R → Result (List JobRecord) × Db R
  enqueue_jobs links none db = (err (redis_error "winter: marshal args"), db)
  enqueue_jobs links (some jobs) db =
      let (result, db') = enqueue_many R links jobs db in
      (elim result [ ok d ↦ ok jobs | err e ↦ err e ], db')

  unfoldable pub client_enqueue_many :
      (ℕ → Link)
      → (ℕ → String)
      → ℤ
      → List Task
      → List Setting
      → Db R
      → Result (List JobRecord) × Db R
  unfolding batch_jobs apply_settings
  client_enqueue_many links ids now tasks settings =
      enqueue_jobs links
        (batch_jobs ids 0 now (apply_settings settings (default_opts "default")) tasks)

-- workflow.go
abbrev pub task_spec : InsertOpts → Task → String → TaskSpec
task_spec o task payload = record {
  kind = task.kind;
  payload = payload;
  queue = queue_or o.queue task.options;
  priority = o.priority;
  max_retries = retries_or (pos 3) task.options;
}

abbrev pub and_spec : Option TaskSpec → Option (List TaskSpec) → Option (List TaskSpec)
and_spec (some t) (some l) = some (t ∷ l)
and_spec _ _ = none

abbrev pub encoded_spec : (String → TaskSpec) → Option String → Option TaskSpec
encoded_spec f none = none
encoded_spec f (some payload) = some (f payload)

unfoldable pub tasks_to_specs : InsertOpts → List Task → Option (List TaskSpec)
tasks_to_specs o [] = some []
tasks_to_specs o (t ∷ ts) = and_spec (encoded_spec (task_spec o t) t.payload) (tasks_to_specs o ts)

-- The callback of a chord has no priority of its own: it is the zero value.
unfoldable pub callback_spec : InsertOpts → Task → String → TaskSpec
callback_spec o callback payload = record {
  kind = callback.kind;
  payload = payload;
  queue = queue_or o.queue callback.options;
  priority = pos 0;
  max_retries = retries_or (pos 0) callback.options;
}

module _ (R : Redis) (links : ℕ → Link) (ids : ℕ → String) (now : ℤ) where
  abbrev pub with_specs :
      (List TaskSpec → Action (Flow R) String) → Option (List TaskSpec) → Action (Flow R) String
  with_specs f none s = (err (redis_error "winter: marshal task"), s)
  with_specs f (some specs) s = f specs s

  unfoldable pub client_chain : List Task → List Setting → Action (Flow R) String
  unfolding apply_settings tasks_to_specs
  client_chain [] settings s = (err (redis_error "winter: chain requires at least one task"), s)
  client_chain (t ∷ ts) settings s =
      let o = apply_settings settings (default_opts "default") in
      with_specs (λ specs. create_chain R links ids now specs o.queue) (tasks_to_specs o (t ∷ ts)) s

  unfoldable pub client_group : List Task → List Setting → Action (Flow R) String
  unfolding apply_settings tasks_to_specs
  client_group [] settings s = (err (redis_error "winter: group requires at least one task"), s)
  client_group (t ∷ ts) settings s =
      let o = apply_settings settings (default_opts "default") in
      with_specs (λ specs. create_group R links ids now specs o.queue) (tasks_to_specs o (t ∷ ts)) s

  abbrev pub chord_of : InsertOpts → Task → Option String → List TaskSpec → Action (Flow R) String
  chord_of o callback none specs s = (err (redis_error "winter: marshal callback"), s)
  chord_of o callback (some payload) specs s =
      create_chord R links ids now specs (callback_spec o callback payload) o.queue s

  unfoldable pub client_chord : List Task → Task → List Setting → Action (Flow R) String
  unfolding apply_settings tasks_to_specs callback_spec
  client_chord [] callback settings s =
      (err (redis_error "winter: chord requires at least one header task"), s)
  client_chord (t ∷ ts) callback settings s =
      let o = apply_settings settings (default_opts "default") in
      with_specs (chord_of o callback callback.payload) (tasks_to_specs o (t ∷ ts)) s
