-- ===== src/Workflow.antt =====
-- internal/workflow/workflow.go: chains, groups and chords. A workflow's record is kept itself in
-- place of its JSON, apart from the other strings of Redis, and its seven days are not modelled.
pub mod Create
pub mod Advance
pub mod Progress
pub mod Chain
pub mod Races
pub mod ChordRun
pub mod Interleaved
use winter.Base.{
  ℕ, zero, suc, String, ◌<>◌, ℤ, pos, negsuc, Bool, true, false, Option, none, some, List, [], ◌∷◌,
  ◌==◌, if◌then◌else◌, length,
}
use winter.Redis.{Redis, Db}
use winter.Queue.Job.{JobRecord}
use winter.Queue.Link.{Link, Result, ok, err, Error, Done, context, call}
use winter.Queue.Api.{enqueue}

unfoldable pub workflow_key : String → String
workflow_key id = "winter:workflow:" <> id

unfoldable pub deps_key : String → String
deps_key id = "winter:workflow:" <> id <> ":deps"

unfoldable pub counter_key : String → String
counter_key id = "winter:workflow:" <> id <> ":counter"

pub data WorkflowType : Type 0 where
  chain group chord : WorkflowType

pub record TaskSpec : Type 0 where
  pub kind : String
  pub payload : String
  pub queue : String
  pub priority : ℤ
  pub max_retries : ℤ

pub record Record : Type 0 where
  pub id : String
  pub type : WorkflowType
  pub state : String
  pub tasks : List TaskSpec
  pub callback : Option TaskSpec
  pub current : ℕ
  pub total : ℕ
  pub done : ℤ
  pub queue : String

-- Redis with the records of the workflows, by their keys.
pub record Flow (R : Redis) : Type 0 where
  pub db : Db R
  pub records : List (String × Record)

abbrev pub record_at : String → List (String × Record) → Option Record
record_at k [] = none
record_at k ((j, r) ∷ s) = if j == k then some r else record_at k s

-- 3 in place of 0.
abbrev pub or_three : ℤ → ℤ
or_three (pos zero) = pos 3
or_three (pos (suc n)) = pos (suc n)
or_three (negsuc n) = negsuc n

-- The job that enqueueTask makes of a task, with the id that uuid.New gives.
unfoldable pub job_of_spec : String → ℤ → TaskSpec → String → JobRecord
job_of_spec id now spec workflow_id = record {
  id = id;
  kind = spec.kind;
  queue = if spec.queue == "" then "default" else spec.queue;
  priority = spec.priority;
  state = "pending";
  payload = spec.payload;
  attempt = pos 0;
  max_retries = or_three spec.max_retries;
  created_at = now;
  scheduled_at = pos 0;
  started_at = pos 0;
  completed_at = pos 0;
  last_error = "";
  unique_key = "";
  workflow_id = workflow_id;
}

-- Steps that may fail, one after the other.
abbrev pub Action : Type 0 → Type 0 → Type 0
Action S A = S → Result A × S

abbrev pub continue : {S A B : Type 0} → Result A × S → (A → Action S B) → Result B × S
continue (ok a, s) f = f a s
continue (err e, s) f = (err e, s)

abbrev pub and_then : {S A B : Type 0} → Action S A → (A → Action S B) → Action S B
and_then m f s = continue (m s) f

module _ (R : Redis) where
  unfoldable pub save_record : Link → Record → Action (Flow R) Done
  unfolding call
  save_record link rec =
      call link (λ s. (tt, record s { records = (workflow_key rec.id, rec) ∷ s.records }))

  unfoldable pub load_record : Link → String → Action (Flow R) (Option Record)
  unfolding call
  load_record link id s =
      let (result, s') = call link (λ w. (record_at (workflow_key id) w.records, w)) s in
      (context "winter: load workflow" result, s')

  -- A command on the rest of the database.
  abbrev pub on_db : {A : Type 0} → Action (Db R) A → Action (Flow R) A
  on_db m s = let (result, db) = m s.db in (result, record s { db = db })

  unfoldable pub enqueue_task : Link → String → ℤ → TaskSpec → String → Action (Flow R) String
  enqueue_task link id now spec workflow_id =
      and_then (on_db (enqueue R link (job_of_spec id now spec workflow_id) "" (pos 0)))
        (λ _ s. (ok id, s))
