-- ===== src/Tests/Workflows.antt =====
-- Groups, chords and chains at concrete runs.
use winter.Base.{
  ℕ, nat_eq, if◌then◌else◌, ◌==◌, List, String, pos, true, false, none, some, [], ◌∷◌, ◌≡◌, refl,
  arith, inr,
}
use winter.Redis.{num, elem}
use winter.Redis.Memory.{memory}
use winter.Queue.Link.{up}
use winter.Queue.Api.{enqueue}
use winter.Workflow.{
  load_record, Record, Flow, chain, group, chord, job_of_spec, workflow_key, deps_key,
}
use winter.Workflow.Advance.{on_job_completed, remaining, advance_chord}
use winter.Workflow.Progress.{always_up, completions, recorded, counter, group_progress}
use winter.Workflow.Races.{both_advance, group_lost_update, tracked, all_done}
use winter.Workflow.ChordRun.{headers, complete_all, Fired, chord_run}
use winter.Workflow.Chain.{stepped, chain_step}
use winter.Workflow.Interleaved.{
  idle, loaded, counted, set_stage, Chord, Reach, here, next, load, count,
}
use winter.Workflow.Interleaved.Invariant.{is_pending, is_last}
use winter.Workflow.Interleaved.Once.{callback_at_most_once, callback_exactly_once}
use winter.Workflow.Interleaved.Twice.{fired_as, chord_fires_twice}
use winter.Workflow.Interleaved.Early.{first_header, callback_too_early}
use winter.Workflow.Create.{new_record, with_queue, with_queues}
use winter.Tests.{empty, task}

abbrev team : Record
team = record {
  id = "w";
  type = group;
  state = "running";
  tasks = task ∷ task ∷ [];
  callback = none;
  current = 0;
  total = 2;
  done = pos 0;
  queue = "q";
}

abbrev team_flow : Flow memory
team_flow = record { db = empty; records = (workflow_key "w", team) ∷ [] }

team-recorded : recorded memory team_flow "w" ≡ some team
unfolding workflow_key
team-recorded = refl

group_progress_example :
    recorded memory (completions memory "w" (pos 9) ("a" ∷ "b" ∷ []) team_flow) "w"
    ≡ some (record team { done = pos 2; state = "completed" })
group_progress_example =
    group_progress memory team (pos 9) "a" ("b" ∷ []) team_flow refl refl (omega arith)
      team-recorded refl

group_lost_update_example :
    (recorded memory (both_advance memory team (pos 9) team_flow).1 "w"
      ≡ some (record team { done = pos 1 }))
    × (counter memory (both_advance memory team (pos 9) team_flow).1 "w" ≡ some (num (pos 2)))
group_lost_update_example =
    group_lost_update memory team 0 (pos 9) team_flow refl (inr (refl, refl))

-- A chord of two headers, a and b.
abbrev opera : Record
opera = record team { type = chord; callback = some task }

abbrev both_left : Flow memory
both_left = record {
  db = record empty { sets = memory.sadd (deps_key "w") "a" (memory.sadd (deps_key "w") "b" []) };
  records = (workflow_key "w", opera) ∷ [];
}

opera-recorded : recorded memory both_left "w" ≡ some opera
unfolding workflow_key
opera-recorded = refl

b_left : memory.sismember both_left.db.sets (deps_key "w") "b" ≡ true
unfolding deps_key
b_left = refl

abbrev line : Record
line = record team { type = chain }

abbrev line_flow : Flow memory
line_flow = record { db = empty; records = (workflow_key "w", line) ∷ [] }

line-recorded : recorded memory line_flow "w" ≡ some line
unfolding workflow_key
line-recorded = refl

chain_step_example :
    (on_job_completed memory always_up "c" (pos 9) "w" "a" line_flow).1
    ≡ (record (stepped memory line (record line { current = 1 }) line_flow) {
      db =
          (enqueue memory up
            (job_of_spec "c" (pos 9) task "w")
            ""
            (pos 0)
            (stepped memory line (record line { current = 1 }) line_flow).db).1;
    })
chain_step_example =
    chain_step memory line "c" 0 (pos 9) "a" line_flow refl refl line-recorded (inr (refl, refl))
      task (omega arith) refl

both_tracked :
    (m : String) → tracked memory opera m both_left ≡ elem m (headers (("a", "x") ∷ []) "b")
unfolding deps_key
both_tracked m = ground arith

chord_run_example :
    Fired memory opera "c"
      (pos 9)
      task
      both_left
      (on_job_completed memory always_up "c"
        (pos 9)
        "w"
        "b"
        (complete_all memory (pos 9) "w" (("a", "x") ∷ []) both_left)).1
chord_run_example =
    chord_run memory (("a", "x") ∷ []) opera "c" (pos 9) task "b" both_left refl refl refl
      opera-recorded refl both_tracked

-- Two servers complete a and b at once: both load the record before either of them counts.
abbrev pair : List String
pair = "a" ∷ "b" ∷ []

abbrev chord_start : Chord memory "w"
chord_start = record { flow = both_left; stage = λ _. idle }

abbrev both_loaded : Chord memory "w"
both_loaded = record {
  flow = both_left;
  stage = set_stage "b" (loaded opera) (set_stage "a" (loaded opera) (λ _. idle));
}

abbrev a_counted : Chord memory "w"
a_counted = record {
  flow = (remaining memory always_up "" (pos 0) up "w" "a" both_left).1;
  stage = set_stage "a" (counted opera 1) both_loaded.stage;
}

abbrev b_counted : Chord memory "w"
b_counted = record {
  flow = (remaining memory always_up "" (pos 0) up "w" "b" a_counted.flow).1;
  stage = set_stage "b" (counted opera 0) a_counted.stage;
}

chord_race : Reach memory "w" chord_start b_counted
unfolding remaining deps_key load_record workflow_key
chord_race =
    next
      (next (next (next here (load "a" opera refl refl refl)) (load "b" opera refl refl refl))
        (count "a" opera 1 refl refl refl))
      (count "b" opera 0 refl refl refl)

held_pair : (m : String) → memory.sismember both_left.db.sets (deps_key "w") m ≡ elem m pair
unfolding deps_key
held_pair m = ground arith

abbrev last_header : String
last_header = "b"

callback_at_most_once_example : last_header ≡ last_header
callback_at_most_once_example =
    callback_at_most_once memory "w" pair "a" last_header last_header refl (λ m. refl) held_pair
      chord_race refl refl refl refl

pair_counted : (m : String) → elem m pair ≡ true → is_pending (b_counted.stage m) ≡ false
pair_counted m h = ground (arith, h)

callback_exactly_once_example :
    (i : String) × (elem i pair ≡ true)
    × (is_last (b_counted.stage i) ≡ true)
    × ((k : String) → elem k pair ≡ true → is_last (b_counted.stage k) ≡ true → k ≡ i)
callback_exactly_once_example =
    callback_exactly_once memory "w" pair "a" refl (λ m. refl) held_pair chord_race pair_counted

-- Only a is left, and two servers have run it.
abbrev a_left : Flow memory
a_left = record {
  db = record empty { sets = memory.sadd (deps_key "w") "a" [] };
  records = (workflow_key "w", opera) ∷ [];
}

only_a : (m : String) → ("a" == m) ≡ false → tracked memory opera m a_left ≡ false
unfolding deps_key
only_a m h = ground (arith, h)

chord_fires_twice_example :
    (advance_chord memory always_up "d"
      (pos 9)
      opera
      "a"
      (advance_chord memory always_up "c" (pos 9) opera "a" a_left).1).1
    ≡ fired_as memory opera "a" (pos 9) task "d" (fired_as memory opera "a" (pos 9) task "c" a_left)
chord_fires_twice_example =
    chord_fires_twice memory opera "a" (pos 9) task "c" "d" a_left refl only_a

-- The ids of a chord and of its jobs.
abbrev new_ids : ℕ → String
new_ids n = if nat_eq n 0 then "w" else "h"

callback_too_early_example :
    let rec =
      new_record chord "w" (with_queues "q" (task ∷ task ∷ [])) (some (with_queue "q" task)) "q" in
    let first =
      first_header memory new_ids
        (pos 8)
        rec
        (with_queue "q" task)
        (record { db = empty; records = [] }) in
    (on_job_completed memory always_up "c" (pos 9) "w" "h" first).1
    ≡ (record (all_done memory rec "h" first) {
      db =
          (enqueue memory up
            (job_of_spec "c" (pos 9) (with_queue "q" task) "w")
            ""
            (pos 0)
            (all_done memory rec "h" first).db).1;
    })
callback_too_early_example =
    callback_too_early memory new_ids (pos 8) task (task ∷ []) task "q" "c" (pos 9)
      (record { db = empty; records = [] }) (λ m. refl)
