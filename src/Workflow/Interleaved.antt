-- ===== src/Workflow/Interleaved.antt =====
-- internal/workflow/workflow.go and chord.go: the completions of a chord's headers by several servers
-- at once, and of the other jobs that carry the chord's id, as its callback does. OnJobCompleted and
-- advanceChord are taken apart into their commands, and the commands of different completions follow
-- one another in any order.
pub mod Invariant
pub mod Once
pub mod Twice
pub mod Early
use winter.Base.{
  ℕ, String, ℤ, pos, ◌-ℤ◌, ◌≡◌, Bool, true, false, ◌||◌, Option, none, some, ◌==◌, if◌then◌else◌,
  nat_eq,
}
use winter.Redis.{Redis, Db}
use winter.Queue.Link.{up, ok}
use winter.Workflow.{TaskSpec, Record, Flow, load_record, save_record, deps_key}
use winter.Workflow.Advance.{remaining, fire}
use winter.Workflow.Progress.{always_up}

-- How far the completion of a job has come: it has not begun; it has loaded the record; it has
-- found the workflow finished; it has counted, with the headers that are left; it has saved the
-- record and is about to enqueue the callback; it has saved it and is done; it has enqueued it.
pub data Stage : Type 0 where
  idle : Stage
  loaded : Record → Stage
  skipped : Stage
  counted : Record → ℕ → Stage
  saved : Record → Stage
  finished : Stage
  fired : Stage

-- The record that advanceChord saves.
abbrev pub chord_counted : Record → ℕ → Record
chord_counted rec left =
    let counted = record rec { done = pos rec.total -ℤ pos left } in
    if nat_eq left 0 then (record counted { state = "completed" }) else counted

abbrev pub after_save : Record → ℕ → Stage
after_save rec left = if nat_eq left 0 then saved rec else finished

abbrev pub is_over : Record → Bool
is_over rec = (rec.state == "completed") || (rec.state == "failed")

-- The stages of the completions, by job.
abbrev pub set_stage : String → Stage → (String → Stage) → String → Stage
set_stage j stage f k = if j == k then stage else f k

module _ (R : Redis) (id : String) where
  pub record Chord : Type 0 where
    pub flow : Flow R
    pub stage : String → Stage

  -- The links work. A job completes once: a header, or another job that carries the chord's id, as
  -- the callback does. The record that is loaded is a chord's, with its id.
  pub data Step (s : Chord) : Chord → Type 0 where
    load :
        (j : String) (rec : Record)
        → s.stage j ≡ idle
        → (load_record R up id s.flow).0 ≡ ok (some rec)
        → is_over rec ≡ false
        → Step s (record s { stage = set_stage j (loaded rec) s.stage })
    skip :
        (j : String) (rec : Record)
        → s.stage j ≡ idle
        → (load_record R up id s.flow).0 ≡ ok (some rec)
        → is_over rec ≡ true
        → Step s (record s { stage = set_stage j skipped s.stage })
    count :
        (j : String) (rec : Record) (left : ℕ)
        → s.stage j ≡ loaded rec
        → rec.id ≡ id
        → (remaining R always_up "" (pos 0) up rec.id j s.flow).0 ≡ ok left
        → Step s (record {
          flow = (remaining R always_up "" (pos 0) up rec.id j s.flow).1;
          stage = set_stage j (counted rec left) s.stage;
        })
    save :
        (j : String) (rec : Record) (left : ℕ)
        → s.stage j ≡ counted rec left
        → Step s (record {
          flow = (save_record R up (chord_counted rec left) s.flow).1;
          stage = set_stage j (after_save rec left) s.stage;
        })
    -- With the new id and the clock of the callback.
    call_back :
        (j : String) (rec : Record) (new_id : String) (now : ℤ)
        → s.stage j ≡ saved rec
        → Step s (record {
          flow = (fire R always_up new_id now up rec.id rec.callback s.flow).1;
          stage = set_stage j fired s.stage;
        })
    -- Anything else that leaves the chord's set alone.
    elsewhere :
        (flow : Flow R)
        → ((m : String)
            → R.sismember flow.db.sets (deps_key id) m ≡ R.sismember s.flow.db.sets (deps_key id) m)
        → Step s (record s { flow = flow })

  pub data Reach (s : Chord) : Chord → Type 0 where
    here : Reach s s
    next : {t u : Chord} → Reach s t → Step t u → Reach s u
