-- ===== src/Workflow/Races.antt =====
-- internal/workflow/group.go and chord.go: two completions of one group at once, and the callback of
-- a chord.
use winter.Base.{
  ◌∷◌, ℕ, suc, String, ℤ, pos, ◌-ℤ◌, Bool, true, false, Option, some, ◌≡◌, refl, sym, ap, subst,
  ◌∙◌, inl, inr, arith, ◌==◌, eq_refl, nat_eq, Bool-cases,
}
use winter.Redis.{Redis, num}
use winter.Queue.Link.{up, ok, Result, Done}
use winter.Queue.Api.{enqueue}
use winter.Workflow.{
  chord, TaskSpec, Record, Flow, Action, and_then, on_db, job_of_spec, workflow_key, deps_key,
  counter_key, save_record, enqueue_task,
}
use winter.Workflow.Advance.{
  on_job_completed, advance_chord, remaining, group_counted, count_up, fire, in_context,
}
use winter.Workflow.Progress.{
  same_state, recorded, counter, Counts, incr-Counts, always_up, completion, loaded, dispatched,
  counted_short,
}

module _ (R : Redis) where
  -- Two servers advance a group whose record both have loaded: the first counts, the second counts
  -- and saves, and then the first saves.
  abbrev pub both_advance : Record → ℤ → Action (Flow R) Done
  both_advance rec now = and_then (count_up R always_up "" now up rec.id) (λ a.
      and_then (count_up R always_up "" now up rec.id) (λ b.
        and_then (save_record R up (group_counted rec b))
          (λ _. save_record R up (group_counted rec a))))

  -- A group that lacks two of its completions, both of which advance it at once: the counter reaches
  -- the number of tasks, but the record that is left lacks one, and a running group stays running.
  pub group_lost_update :
      (rec : Record) (n : ℕ) (now : ℤ) (s : Flow R)
      → rec.total ≡ suc (suc n)
      → Counts R n (counter R s rec.id)
      → (recorded R (both_advance rec now s).1 rec.id ≡ some (record rec { done = pos (suc n) }))
        × (counter R (both_advance rec now s).1 rec.id ≡ some (num (pos (suc (suc n)))))
  unfolding count_up save_record
  group_lost_update rec n now s total counts =
      let (first, after) = incr-Counts R n (counter_key rec.id) s.db.strings counts in
      let (second, last) =
        incr-Counts R (suc n) (counter_key rec.id) (R.incr s.db.strings (counter_key rec.id)).1
          (inl after) in
      (
        rw (first, counted_short rec (suc n) (omega (arith, total)), eq_refl (workflow_key rec.id))
            refl,
        last,
      )

  -- What a chord's advance does, as the number of the headers that are left says.
  abbrev pub left_after : Record → String → Flow R → ℕ
  left_after rec job s = R.scard (R.srem s.db.sets (deps_key rec.id) job).1 (deps_key rec.id)

  abbrev pub tracked : Record → String → Flow R → Bool
  tracked rec job s = R.sismember s.db.sets (deps_key rec.id) job

  some_left :
      (rec : Record) (job other : String) (s : Flow R)
      → tracked rec other s ≡ true
      → (job == other) ≡ false
      → nat_eq (left_after rec job s) 0 ≡ false
  some_left rec job other s member apart = elim (Bool-cases (nat_eq (left_after rec job s) 0)) [
    | inl e ↦
        let gone =
          R.scard_zero (R.srem s.db.sets (deps_key rec.id) job).1 (deps_key rec.id) other
            (ground (arith, e)) in
        absurd (kept gone)
    | inr e ↦ e
  ]
    where
      kept :
          R.sismember (R.srem s.db.sets (deps_key rec.id) job).1 (deps_key rec.id) other ≡ false → ⊥
      kept gone = ground (
        arith,
        gone,
        R.sismember-srem s.db.sets (deps_key rec.id) job (deps_key rec.id) other,
        member,
        apart,
      )

  advance_chord_waits :
      (rec : Record) (new_id : String) (now : ℤ) (job : String) (s : Flow R)
      → nat_eq (left_after rec job s) 0 ≡ false
      → advance_chord R always_up new_id now rec job s ≡ (
        ok tt,
        record {
          db = record (s.db) { sets = (R.srem s.db.sets (deps_key rec.id) job).1 };
          records =
              (
                workflow_key rec.id,
                record rec { done = pos rec.total -ℤ pos (left_after rec job s) },
              )
              ∷ s.records;
        },
      )
  unfolding advance_chord remaining save_record
  advance_chord_waits rec new_id now job s e = rw e refl

  -- What a completion leaves while another header is tracked.
  abbrev pub one_less : Record → String → Flow R → Flow R
  one_less rec job s = record {
    db = record (s.db) { sets = (R.srem s.db.sets (deps_key rec.id) job).1 };
    records =
        (workflow_key rec.id, record rec { done = pos rec.total -ℤ pos (left_after rec job s) })
        ∷ s.records;
  }

  pub completed_waits :
      (rec : Record) (new_id : String) (now : ℤ) (job other : String) (s : Flow R)
      → rec.type ≡ chord
      → rec.state ≡ "running"
      → recorded R s rec.id ≡ some rec
      → tracked rec other s ≡ true
      → (job == other) ≡ false
      → on_job_completed R always_up new_id now rec.id job s ≡ (ok tt, one_less rec job s)
  completed_waits rec new_id now job other s type running at member apart =
      loaded R now new_id rec.id job s
      ∙ dispatched R rec chord now new_id job (recorded R s rec.id) s at type running
      ∙ advance_chord_waits rec new_id now job s (some_left rec job other s member apart)

  -- While another header of a running chord is tracked, the completion of a header saves how many
  -- are done and enqueues nothing: the job hashes and the sorted sets stay as they are, and the
  -- chord is still running.
  pub chord_waits :
      (rec : Record) (now : ℤ) (job other : String) (s : Flow R)
      → rec.type ≡ chord
      → rec.state ≡ "running"
      → recorded R s rec.id ≡ some rec
      → tracked rec other s ≡ true
      → (job == other) ≡ false
      → (recorded R (completion R rec.id now job s) rec.id
          ≡ some (record rec { done = pos rec.total -ℤ pos (left_after rec job s) }))
        × ((completion R rec.id now job s).db.hashes ≡ s.db.hashes)
        × ((completion R rec.id now job s).db.zsets ≡ s.db.zsets)
  chord_waits rec now job other s type running at member apart =
      subst
        (λ (r : Result Done × Flow R).
          (recorded R r.1 rec.id
            ≡ some (record rec { done = pos rec.total -ℤ pos (left_after rec job s) }))
          × (r.1.db.hashes ≡ s.db.hashes)
          × (r.1.db.zsets ≡ s.db.zsets))
        (sym (completed_waits rec "" now job other s type running at member apart))
        (rw (eq_refl (workflow_key rec.id)) refl, refl, refl)

  fired :
      (new_id id : String) (now : ℤ) (cb : TaskSpec) (o : Option TaskSpec) (s : Flow R)
      → o ≡ some cb
      → (fire R always_up new_id now up id o s).1
        ≡ (record s { db = (enqueue R up (job_of_spec new_id now cb id) "" (pos 0) s.db).1 })
  unfolding enqueue_task
  fired new_id id now cb o s e = rw e (
      same_state R tt (
        in_context R always_up new_id now "winter: chord enqueue callback"
          (enqueue_task R up new_id now cb id) s)
      ∙ same_state R {A = Done} new_id
          (on_db R (enqueue R up (job_of_spec new_id now cb id) "" (pos 0)) s))

  pub none_left :
      (rec : Record) (job : String) (s : Flow R)
      → ((m : String) → (job == m) ≡ false → tracked rec m s ≡ false)
      → nat_eq (left_after rec job s) 0 ≡ true
  none_left rec job s alone =
      rw
        (R.scard_empty (R.srem s.db.sets (deps_key rec.id) job).1 (deps_key rec.id) (λ m. ground (
          arith,
          R.sismember-srem s.db.sets (deps_key rec.id) job (deps_key rec.id) m,
          eq_refl (deps_key rec.id),
          alone m,
        )))
        refl

  -- What is saved before the callback.
  abbrev pub all_done : Record → String → Flow R → Flow R
  all_done rec job s = record {
    db = record (s.db) { sets = (R.srem s.db.sets (deps_key rec.id) job).1 };
    records =
        (
          workflow_key rec.id,
          record rec { done = pos rec.total -ℤ pos (left_after rec job s); state = "completed" },
        )
        ∷ s.records;
  }

  pub advance_chord_fires :
      (rec : Record) (new_id : String) (now : ℤ) (cb : TaskSpec) (job : String) (s : Flow R)
      → rec.callback ≡ some cb
      → nat_eq (left_after rec job s) 0 ≡ true
      → (advance_chord R always_up new_id now rec job s).1 ≡ (record (all_done rec job s) {
        db = (enqueue R up (job_of_spec new_id now cb rec.id) "" (pos 0) (all_done rec job s).db).1;
      })
  unfolding advance_chord remaining save_record
  advance_chord_fires rec new_id now cb job s c e =
      rw e (fired new_id rec.id now cb rec.callback (all_done rec job s) c)

  -- When the last tracked header of a running chord completes, however many headers the chord has,
  -- the chord is saved as completed and its callback is enqueued, with the chord's id.
  pub chord_fires :
      (rec : Record) (new_id : String) (now : ℤ) (cb : TaskSpec) (job : String) (s : Flow R)
      → rec.type ≡ chord
      → rec.state ≡ "running"
      → recorded R s rec.id ≡ some rec
      → rec.callback ≡ some cb
      → ((m : String) → (job == m) ≡ false → tracked rec m s ≡ false)
      → (on_job_completed R always_up new_id now rec.id job s).1 ≡ (record (all_done rec job s) {
        db = (enqueue R up (job_of_spec new_id now cb rec.id) "" (pos 0) (all_done rec job s).db).1;
      })
  chord_fires rec new_id now cb job s type running at c alone =
      ap (λ (r : Result Done × Flow R). r.1)
        (loaded R now new_id rec.id job s
          ∙ dispatched R rec chord now new_id job (recorded R s rec.id) s at type running)
      ∙ advance_chord_fires rec new_id now cb job s c (none_left rec job s alone)
