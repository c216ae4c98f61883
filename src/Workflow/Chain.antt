-- ===== src/Workflow/Chain.antt =====
-- internal/workflow/chain.go: the steps of a chain.
use winter.Base.{
  ℕ, suc, ◌<◌, ◌≤◌, String, ℤ, pos, true, false, Option, some, ◌∷◌, ◌≡◌, refl, ap, ◌∙◌, arith, leb,
  get_elem?,
}
use winter.Redis.{Redis}
use winter.Queue.Link.{up, Result, Done}
use winter.Queue.Api.{enqueue}
use winter.Workflow.{
  chain, TaskSpec, Record, Flow, on_db, job_of_spec, workflow_key, counter_key, save_record,
  enqueue_task,
}
use winter.Workflow.Advance.{on_job_completed, advance_chain, count_up, in_context, enqueue_next}
use winter.Workflow.Progress.{
  same_state, recorded, counter, Counts, incr-Counts, always_up, loaded, dispatched,
}

module _ (R : Redis) where
  -- The chain's counter is one more, and the record is saved.
  abbrev pub stepped : Record → Record → Flow R → Flow R
  stepped rec saved s = record {
    db = record (s.db) { strings = (R.incr s.db.strings (counter_key rec.id)).1 };
    records = (workflow_key saved.id, saved) ∷ s.records;
  }

  enqueued_next :
      (new_id id : String) (now : ℤ) (t : TaskSpec) (o : Option TaskSpec) (s : Flow R)
      → o ≡ some t
      → (enqueue_next R always_up new_id now up id o s).1
        ≡ (record s { db = (enqueue R up (job_of_spec new_id now t id) "" (pos 0) s.db).1 })
  unfolding enqueue_task
  enqueued_next new_id id now t o s e = rw e (
      same_state R tt (
        in_context R always_up new_id now "winter: chain enqueue step"
          (enqueue_task R up new_id now t id) s)
      ∙ same_state R {A = Done} new_id
          (on_db R (enqueue R up (job_of_spec new_id now t id) "" (pos 0)) s))

  advance_chain_goes_on :
      (rec : Record) (new_id : String) (n : ℕ) (now : ℤ) (t : TaskSpec) (s : Flow R)
      → Counts R n (counter R s rec.id)
      → suc n < rec.total
      → get_elem? rec.tasks (suc n) ≡ some t
      → (advance_chain R always_up new_id now rec s).1
        ≡ (record (stepped rec (record rec { current = suc n }) s) {
          db =
              (enqueue R up
                (job_of_spec new_id now t rec.id)
                ""
                (pos 0)
                (stepped rec (record rec { current = suc n }) s).db).1;
        })
  unfolding advance_chain count_up save_record
  advance_chain_goes_on rec new_id n now t s counts more at =
      rw ((incr-Counts R n (counter_key rec.id) s.db.strings counts).0, over rec.total (suc n) more)
        (enqueued_next new_id rec.id now t _ (stepped rec (record rec { current = suc n }) s) at)
    where
      over : (total m : ℕ) → m < total → leb total m ≡ false
      over total m h = ground arith

  advance_chain_ends :
      (rec : Record) (new_id : String) (n : ℕ) (now : ℤ) (s : Flow R)
      → Counts R n (counter R s rec.id)
      → rec.total ≤ suc n
      → (advance_chain R always_up new_id now rec s).1
        ≡ stepped rec (record rec { current = suc n; state = "completed" }) s
  unfolding advance_chain count_up save_record
  advance_chain_ends rec new_id n now s counts last =
      rw ((incr-Counts R n (counter_key rec.id) s.db.strings counts).0, over rec.total (suc n) last)
        refl
    where
      over : (total m : ℕ) → total ≤ m → leb total m ≡ true
      over total m h = ground arith

  module _ (rec : Record) (new_id : String) (n : ℕ) (now : ℤ) (job : String) (s : Flow R)
      (type : rec.type ≡ chain) (running : rec.state ≡ "running")
      (at : recorded R s rec.id ≡ some rec) (counts : Counts R n (counter R s rec.id)) where
    advanced :
        on_job_completed R always_up new_id now rec.id job s
        ≡ advance_chain R always_up new_id now rec s
    advanced =
        loaded R now new_id rec.id job s
        ∙ dispatched R rec chain now new_id job (recorded R s rec.id) s at type running

    -- The completion of a job of a running chain that has counted `n` steps, and has more than one
    -- step to come, counts the step, saves it and enqueues the next task of the list, with the id of
    -- the chain.
    pub chain_step :
        (t : TaskSpec)
        → suc n < rec.total
        → get_elem? rec.tasks (suc n) ≡ some t
        → (on_job_completed R always_up new_id now rec.id job s).1
          ≡ (record (stepped rec (record rec { current = suc n }) s) {
            db =
                (enqueue R up
                  (job_of_spec new_id now t rec.id)
                  ""
                  (pos 0)
                  (stepped rec (record rec { current = suc n }) s).db).1;
          })
    chain_step t more next =
        ap (λ (r : Result Done × Flow R). r.1) advanced
        ∙ advance_chain_goes_on rec new_id n now t s counts more next

    -- The completion of the last step of a running chain saves the chain as completed and enqueues
    -- nothing.
    pub chain_end :
        rec.total ≤ suc n
        → (on_job_completed R always_up new_id now rec.id job s).1
          ≡ stepped rec (record rec { current = suc n; state = "completed" }) s
    chain_end last =
        ap (λ (r : Result Done × Flow R). r.1) advanced
        ∙ advance_chain_ends rec new_id n now s counts last
