-- ===== src/Workflow/Interleaved/Early.antt =====
-- internal/workflow/chord.go, CreateChord: a header that completes before the next one is enqueued.
use winter.Base.{ℕ, String, ℤ, pos, ◌≡◌, refl, false, some, List, [], ◌∷◌, arith, ◌==◌, eq_refl}
use winter.Redis.{Redis}
use winter.Queue.Link.{up}
use winter.Queue.Scripts.{enqueue_script}
use winter.Queue.Api.{enqueue}
use winter.Workflow.{
  chord, TaskSpec, Record, Flow, and_then, job_of_spec, deps_key, save_record, enqueue_task,
  workflow_key,
}
use winter.Workflow.Create.{new_record, enqueue_headers, add_dep, with_queue, with_queues}
use winter.Workflow.Advance.{on_job_completed}
use winter.Workflow.Progress.{always_up, recorded}
use winter.Workflow.Races.{tracked, all_done, chord_fires}

module _ (R : Redis) (ids : ℕ → String) (now : ℤ) where
  -- CreateChord up to the end of the first pass of its loop, over the header `t`.
  abbrev pub first_header : Record → TaskSpec → Flow R → Flow R
  first_header rec t s =
      (and_then (save_record R up rec) (λ _. enqueue_headers R always_up ids now 0 rec.id (t ∷ []))
        s).1

  abbrev pub IsUntracked : String → Flow R → Type 0
  IsUntracked id s = (m : String) → R.sismember s.db.sets (deps_key id) m ≡ false

  first_header-recorded :
      (rec : Record) (t : TaskSpec) (s : Flow R)
      → recorded R (first_header rec t s) rec.id ≡ some rec
  unfolding save_record enqueue_headers add_dep enqueue_task enqueue enqueue_script
  first_header-recorded rec t s = rw (eq_refl (workflow_key rec.id)) refl

  first_header-tracked :
      (rec : Record) (t : TaskSpec) (s : Flow R)
      → IsUntracked rec.id s
      → (m : String) → (ids 1 == m) ≡ false
      → tracked R rec m (first_header rec t s) ≡ false
  unfolding save_record enqueue_headers add_dep enqueue_task enqueue enqueue_script
  first_header-tracked rec t s free m other = ground (
    arith,
    R.sismember-sadd (deps_key rec.id) (ids 1) s.db.sets (deps_key rec.id) m,
    free m,
    other,
  )

  -- When the first header of a new chord completes before CreateChord has enqueued the next one,
  -- however many headers are to come, the chord is saved as completed and its callback is enqueued,
  -- on working links and where the chord's set was empty.
  pub callback_too_early :
      (t : TaskSpec) (ts : List TaskSpec) (cb : TaskSpec) (queue new_id : String) (later : ℤ)
      (s : Flow R)
      → IsUntracked (ids 0) s
      → let rec =
          new_record chord
            (ids 0)
            (with_queues queue (t ∷ ts))
            (some (with_queue queue cb))
            queue in
        let first = first_header rec (with_queue queue t) s in
        (on_job_completed R always_up new_id later (ids 0) (ids 1) first).1
        ≡ (record (all_done R rec (ids 1) first) {
          db =
              (enqueue R up
                (job_of_spec new_id later (with_queue queue cb) (ids 0))
                ""
                (pos 0)
                (all_done R rec (ids 1) first).db).1;
        })
  unfolding new_record
  callback_too_early t ts cb queue new_id later s free =
      let rec =
        new_record chord (ids 0) (with_queues queue (t ∷ ts)) (some (with_queue queue cb)) queue in
      let header = with_queue queue t in
      chord_fires R rec new_id later (with_queue queue cb) (ids 1) (first_header rec header s) refl
        refl (first_header-recorded rec header s) refl (first_header-tracked rec header s free)
