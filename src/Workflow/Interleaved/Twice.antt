-- ===== src/Workflow/Interleaved/Twice.antt =====
-- internal/workflow/chord.go: a header that runs twice, as it does when its lease expires while it
-- runs, and whose two completions load the record before either of them saves it.
use winter.Base.{String, ℤ, pos, ◌≡◌, refl, ap, ◌∙◌, false, some, arith, ◌==◌}
use winter.Redis.{Redis}
use winter.Queue.Link.{up}
use winter.Queue.Api.{enqueue}
use winter.Workflow.{TaskSpec, Record, Flow, job_of_spec, deps_key}
use winter.Workflow.Advance.{advance_chord}
use winter.Workflow.Progress.{always_up}
use winter.Workflow.Races.{tracked, all_done, advance_chord_fires, none_left}
use winter.Queue.Scripts.{enqueue_script}

module _ (R : Redis) (rec : Record) (job : String) (now : ℤ) (cb : TaskSpec) where
  -- What a completion that finds no header left makes of the chord, with the callback's id.
  abbrev pub fired_as : String → Flow R → Flow R
  fired_as new_id s = record (all_done R rec job s) {
    db = (enqueue R up (job_of_spec new_id now cb rec.id) "" (pos 0) (all_done R rec job s).db).1;
  }

  -- An enqueue without a unique key leaves the sets alone.
  fired_as-sets :
      (new_id : String) (s : Flow R)
      → (fired_as new_id s).db.sets ≡ (R.srem s.db.sets (deps_key rec.id) job).1
  unfolding enqueue enqueue_script
  fired_as-sets new_id s = refl

  alone-fired_as :
      (new_id m : String) (s : Flow R)
      → tracked R rec m s ≡ false
      → tracked R rec m (fired_as new_id s) ≡ false
  alone-fired_as new_id m s gone = ground (
    arith,
    ap (λ x. R.sismember x (deps_key rec.id) m) (fired_as-sets new_id s),
    R.sismember-srem s.db.sets (deps_key rec.id) job (deps_key rec.id) m,
    gone,
  )

  -- When two servers have loaded the record of a chord whose only header left is one they both ran,
  -- and advance it one after the other, both enqueue the callback, each under its own id.
  pub chord_fires_twice :
      (a b : String) (s : Flow R)
      → rec.callback ≡ some cb
      → ((m : String) → (job == m) ≡ false → tracked R rec m s ≡ false)
      → (advance_chord R always_up b now rec job (advance_chord R always_up a now rec job s).1).1
        ≡ fired_as b (fired_as a s)
  chord_fires_twice a b s c alone =
      ap (λ w. (advance_chord R always_up b now rec job w).1)
        (advance_chord_fires R rec a now cb job s c (none_left R rec job s alone))
      ∙ advance_chord_fires R rec b now cb job (fired_as a s) c
          (none_left R rec job (fired_as a s) (λ m other. alone-fired_as a m s (alone m other)))
