-- ===== src/Workflow/Progress.antt =====
-- internal/workflow/group.go: how a group counts its jobs.
use winter.Base.{
  ℕ, suc, ◌+◌, ◌≤◌, ◌<◌, String, ℤ, pos, ◌+ℤ◌, leb, leb_ℤ, false, Option, none, some, ◌≡◌, refl,
  sym, ap, subst, ◌∙◌, ◌||◌, ◌⊎◌, inl, inr, arith, ◌==◌, eq_refl, List, [], ◌∷◌, length,
  if◌then◌else◌, Bool-cases,
}
use winter.Redis.{Redis, Value, num}
use winter.Queue.Link.{Link, up, ok, err, Result, Done}
use winter.Workflow.{
  WorkflowType, group, Record, Flow, record_at, continue, workflow_key, counter_key, load_record,
  save_record,
}
use winter.Workflow.Advance.{
  on_job_completed, completed_job, advance, advance_group, group_counted, count_up,
}

abbrev pub always_up : ℕ → Link
always_up n = up

not_final :
    (state : String) → state ≡ "running" → ((state == "completed") || (state == "failed")) ≡ false
not_final state e = rw e

pub group_counted_id : (rec : Record) (z : ℤ) → (group_counted rec z).id ≡ rec.id
unfolding group_counted
group_counted_id rec z = elim (Bool-cases (leb_ℤ (pos rec.total) z)) [ inl e ↦ rw e | inr e ↦ rw e ]

pub counted_short :
    (rec : Record) (n : ℕ)
    → n < rec.total
    → group_counted rec (pos n) ≡ (record rec { done = pos n })
unfolding group_counted
counted_short rec n h = ground (arith, h)

counted_again :
    (rec : Record) (d z : ℤ) → group_counted (record rec { done = d }) z ≡ group_counted rec z
unfolding group_counted
counted_again rec d z = elim (Bool-cases (leb_ℤ (pos rec.total) z)) [
  | inl e ↦ rw e refl
  | inr e ↦ rw e refl
]

counted_state :
    (rec : Record) (n : ℕ)
    → rec.state ≡ "running"
    → group_counted rec (pos n)
      ≡ (record rec { done = pos n; state = if leb rec.total n then "completed" else "running" })
unfolding group_counted
counted_state rec n running = elim (Bool-cases (leb rec.total n)) [
  | inl e ↦ ground (arith, e)
  | inr e ↦ ground (arith, e, running)
]

module _ (R : Redis) where
  -- A counter that shows `n`: a missing one shows 0.
  abbrev pub Counts : ℕ → Option Value → Type 0
  Counts n o = (o ≡ some (num (pos n))) ⊎ ((o ≡ none) × (n ≡ 0))

  abbrev pub counter : Flow R → String → Option Value
  counter s id = R.get s.db.strings (counter_key id)

  abbrev pub recorded : Flow R → String → Option Record
  recorded s id = record_at (workflow_key id) s.records

  -- The last step of an advance keeps the state of the step before.
  pub same_state :
      {A B : Type 0} (b : B) (r : Result A × Flow R) → (continue r (λ _ w. (ok b, w))).1 ≡ r.1
  same_state b (ok a, w) = refl
  same_state b (err e, w) = refl

  pub incr-Counts :
      (n : ℕ) (k : String) (t : R.Strings)
      → Counts n (R.get t k)
      → ((R.incr t k).0 ≡ pos (suc n)) × (R.get (R.incr t k).1 k ≡ some (num (pos (suc n))))
  unfolding ◌+ℤ◌
  incr-Counts n k t (inl e) = (
    R.incr-number t k (pos n) e ∙ ground arith,
    R.get-incr t k k ∙ ground (arith, R.incr-number t k (pos n) e, eq_refl k),
  )
  incr-Counts n k t (inr (e, z)) = (
    R.incr-missing t k e ∙ ground (arith, z),
    R.get-incr t k k ∙ ground (arith, R.incr-missing t k e, eq_refl k, z),
  )

  -- One completion of a job of a running group.
  abbrev pub completion : String → ℤ → String → Flow R → Flow R
  completion id now job s = (on_job_completed R always_up "" now id job s).1

  -- A running workflow is advanced as its type says.
  pub dispatched :
      (rec : Record) (type : WorkflowType) (now : ℤ) (new_id job : String) (o : Option Record)
      (s : Flow R)
      → o ≡ some rec
      → rec.type ≡ type
      → rec.state ≡ "running"
      → completed_job R always_up new_id now job o s ≡ advance R always_up new_id now type rec job s
  dispatched rec type now new_id job o s e t running =
      rw (e, not_final rec.state running) (ap (λ u. advance R (λ _. up) new_id now u rec job s) t)

  pub loaded :
      (now : ℤ) (new_id id job : String) (s : Flow R)
      → on_job_completed R always_up new_id now id job s
        ≡ completed_job R always_up new_id now job (recorded s id) s
  unfolding on_job_completed load_record
  loaded now new_id id job s = refl

  -- The record and the counter that a count leaves.
  advance_group_lem :
      (rec : Record) (n : ℕ) (now : ℤ) (s : Flow R)
      → Counts n (counter s rec.id)
      → (recorded (advance_group R always_up "" now rec s).1 rec.id
          ≡ some (group_counted rec (pos (suc n))))
        × (counter (advance_group R always_up "" now rec s).1 rec.id ≡ some (num (pos (suc n))))
  unfolding advance_group count_up save_record
  advance_group_lem rec n now s counts =
      let (reply, after) = incr-Counts n (counter_key rec.id) s.db.strings counts in
      (rw (reply, group_counted_id rec (pos (suc n)), eq_refl (workflow_key rec.id)) refl, after)

  -- One completion of a job of a running group that has counted `n` of them counts one more, saves
  -- the record with the count, and marks it completed when all are done.
  pub group_step :
      (rec : Record) (n : ℕ) (now : ℤ) (job : String) (s : Flow R)
      → rec.type ≡ group
      → rec.state ≡ "running"
      → recorded s rec.id ≡ some rec
      → Counts n (counter s rec.id)
      → (recorded (completion rec.id now job s) rec.id ≡ some (group_counted rec (pos (suc n))))
        × (counter (completion rec.id now job s) rec.id ≡ some (num (pos (suc n))))
  group_step rec n now job s type running at counts =
      subst
        (λ (r : Result Done × Flow R).
          (recorded r.1 rec.id ≡ some (group_counted rec (pos (suc n))))
          × (counter r.1 rec.id ≡ some (num (pos (suc n)))))
        (sym (
          loaded now "" rec.id job s
          ∙ dispatched rec group now "" job (recorded s rec.id) s at type running))
        (advance_group_lem rec n now s counts)

  -- Completions of some jobs, one after the other.
  abbrev pub completions : String → ℤ → List String → Flow R → Flow R
  completions id now [] s = s
  completions id now (job ∷ jobs) s = completions id now jobs (completion id now job s)

  counted_on :
      (rec : Record) (d : ℤ) (n : ℕ) (now : ℤ) (job : String) (jobs : List String) (s : Flow R)
      → rec.type ≡ group
      → rec.state ≡ "running"
      → n + suc (length jobs) ≤ rec.total
      → recorded s rec.id ≡ some (record rec { done = d })
      → Counts n (counter s rec.id)
      → recorded (completions rec.id now (job ∷ jobs) s) rec.id
        ≡ some (group_counted rec (pos (n + suc (length jobs))))
  counted_on rec d n now job [] s type running room at counts =
      (group_step (record rec { done = d }) n now job s type running at counts).0
      ∙ ap some
          (counted_again rec d (pos (suc n)) ∙ ap (λ m. group_counted rec (pos m)) (omega arith))
  counted_on rec d n now job (next ∷ jobs) s type running room at counts =
      let (saved, counted) =
        group_step (record rec { done = d }) n now job s type running at counts in
      counted_on rec (pos (suc n)) (suc n) now next jobs (completion rec.id now job s) type running
        (omega arith)
        (saved
          ∙ ap some (counted_again rec d (pos (suc n)) ∙ counted_short rec (suc n) (omega arith)))
        (inl counted)
      ∙ ap (λ m. some (group_counted rec (pos m))) (omega arith)

  -- A running group that has counted nothing: after completions of some jobs, no more than it has
  -- tasks, its record holds how many they were, and it is completed if and only if they are as many
  -- as its tasks.
  pub group_progress :
      (rec : Record) (now : ℤ) (job : String) (jobs : List String) (s : Flow R)
      → rec.type ≡ group
      → rec.state ≡ "running"
      → suc (length jobs) ≤ rec.total
      → recorded s rec.id ≡ some rec
      → counter s rec.id ≡ none
      → recorded (completions rec.id now (job ∷ jobs) s) rec.id
        ≡ some (record rec {
          done = pos (suc (length jobs));
          state = if leb rec.total (suc (length jobs)) then "completed" else "running";
        })
  group_progress rec now job jobs s type running room at fresh =
      counted_on rec rec.done 0 now job jobs s type running (omega arith) at (inr (fresh, refl))
      ∙ ap (λ m. some (group_counted rec (pos m))) (omega arith)
      ∙ ap some (counted_state rec (suc (length jobs)) running)
