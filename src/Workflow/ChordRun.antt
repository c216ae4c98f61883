-- ===== src/Workflow/ChordRun.antt =====
-- internal/workflow/chord.go: a chord over the completions of all its headers.
use winter.Base.{
  String, ℤ, pos, ◌-ℤ◌, Bool, true, false, not, ◌&&◌, some, List, [], ◌∷◌, ◌≡◌, refl, ap, ◌∙◌,
  subst, sym, arith, ◌==◌, eq_iff, eq_refl,
}
use winter.Redis.{Redis, elem}
use winter.Queue.Link.{up, Result, Done}
use winter.Queue.Api.{enqueue}
use winter.Workflow.{chord, TaskSpec, Record, Flow, job_of_spec, workflow_key, deps_key}
use winter.Workflow.Advance.{on_job_completed}
use winter.Workflow.Progress.{recorded, always_up}
use winter.Workflow.Races.{tracked, one_less, all_done, left_after, completed_waits, chord_fires}

-- The headers of a chord: those that complete before the last one, each with the id that uuid.New
-- would give, and the last one.
abbrev pub headers : List (String × String) → String → List String
headers [] job = job ∷ []
headers ((j, new_id) ∷ before) job = j ∷ headers before job

abbrev pub distinct : List String → Bool
distinct [] = true
distinct (x ∷ l) = not (elem x l) && distinct l

last_header :
    (before : List (String × String)) (job : String) → elem job (headers before job) ≡ true
last_header [] job = rw (eq_refl job) refl
last_header ((j, new_id) ∷ before) job = ground (arith, last_header before job)

apart_of :
    (j job : String) (l : List String) → elem job l ≡ true → elem j l ≡ false → (j == job) ≡ false
apart_of j job l m n = ground (arith, eq_iff j job, ap (λ x. elem x l), m, n)

module _ (R : Redis) where
  abbrev pub complete_all : ℤ → String → List (String × String) → Flow R → Flow R
  complete_all now id [] s = s
  complete_all now id ((job, new_id) ∷ l) s =
      complete_all now id l (on_job_completed R always_up new_id now id job s).1

  -- What is left when all headers of a chord have completed: one enqueue of the callback, on top of
  -- a database whose jobs are as they were, and a record that says completed.
  abbrev pub Fired : Record → String → ℤ → TaskSpec → Flow R → Flow R → Type 0
  Fired rec new_id now cb s final =
      (t : Flow R) × (r : Record) × (t.db.hashes ≡ s.db.hashes)
      × (t.db.zsets ≡ s.db.zsets)
      × (t.db.strings ≡ s.db.strings)
      × (t.db.lists ≡ s.db.lists)
      × (recorded R t rec.id ≡ some r)
      × (r.state ≡ "completed")
      × (final
          ≡ (record t { db = (enqueue R up (job_of_spec new_id now cb rec.id) "" (pos 0) t.db).1 }))

  left_tracked :
      (rec : Record) (j : String) (l : List String) (s : Flow R)
      → elem j l ≡ false
      → ((m : String) → tracked R rec m s ≡ elem m (j ∷ l))
      → (m : String) → tracked R rec m (one_less R rec j s) ≡ elem m l
  left_tracked rec j l s fresh all m =
      R.sismember-srem s.db.sets (deps_key rec.id) j (deps_key rec.id) m
      ∙ rw (eq_refl (deps_key rec.id), all m) (ground (arith, fresh, eq_iff j m))

  -- A chord fires once: when the headers of a running chord are distinct, all tracked and nothing
  -- else is, and they complete one after the other on working links, in any order, then nothing is
  -- enqueued before the last completion, which enqueues the callback, with the chord's id, once,
  -- and the chord is recorded as completed.
  pub chord_run :
      (before : List (String × String)) (rec : Record) (new_id : String) (now : ℤ) (cb : TaskSpec)
      (job : String) (s : Flow R)
      → rec.type ≡ chord
      → rec.state ≡ "running"
      → rec.callback ≡ some cb
      → recorded R s rec.id ≡ some rec
      → distinct (headers before job) ≡ true
      → ((m : String) → tracked R rec m s ≡ elem m (headers before job))
      → Fired rec new_id now cb s
          (on_job_completed R always_up new_id now rec.id job (complete_all now rec.id before s)).1
  chord_run [] rec new_id now cb job s type running back at apart all = (
    all_done R rec job s,
    record rec { done = pos rec.total -ℤ pos (left_after R rec job s); state = "completed" },
    refl,
    refl,
    refl,
    refl,
    rw (eq_refl (workflow_key rec.id)) refl,
    refl,
    chord_fires R rec new_id now cb job s type running at back (λ m other. rw (all m, other) refl),
  )
  chord_run ((j, other_id) ∷ before) rec new_id now cb job s type running back at apart all =
      let fresh : elem j (headers before job) ≡ false = ground (arith, apart) in
      let later : distinct (headers before job) ≡ true = ground (arith, apart) in
      let there : tracked R rec job s ≡ true =
        rw (all job, last_header before job) (ground arith) in
      let waits =
        completed_waits R rec other_id now j job s type running at there
          (apart_of j job (headers before job) (last_header before job) fresh) in
      subst
        (λ (t : Flow R).
          Fired rec new_id now cb s
            (on_job_completed R always_up new_id now rec.id job
              (complete_all now rec.id before t)).1)
        (sym (ap (λ (r : Result Done × Flow R). r.1) waits))
        (chord_run before (record rec { done = pos rec.total -ℤ pos (left_after R rec j s) }) new_id
          now cb job (one_less R rec j s) type running back
          (rw (eq_refl (workflow_key rec.id)) refl) later
          (left_tracked rec j (headers before job) s fresh all))
