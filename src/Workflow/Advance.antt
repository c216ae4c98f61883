-- ===== src/Workflow/Advance.antt =====
-- internal/workflow: what the completion or the failure of a job does to its workflow.
use winter.Base.{
  ℕ, String, ℤ, pos, negsuc, ◌-ℤ◌, leb, leb_ℤ, ◌||◌, Option, none, some, ◌==◌, if◌then◌else◌,
  get_elem?, nat_eq,
}
use winter.Redis.{Redis}
use winter.Queue.Link.{Link, ok, err, index_panic, Done, context, call}
use winter.Workflow.{
  WorkflowType, chain, group, chord, TaskSpec, Record, Flow, Action, and_then, save_record,
  load_record, enqueue_task, on_db, deps_key, counter_key,
}

-- int(current) of the counter that INCR made. It starts at 0 and never goes down.
abbrev pub count_of : ℤ → ℕ
count_of (pos n) = n
count_of (negsuc n) = 0

-- The record that advanceGroup saves for a count.
unfoldable pub group_counted : Record → ℤ → Record
group_counted rec n =
    if leb_ℤ (pos rec.total) n
    then (record rec { done = n; state = "completed" })
    else (record rec { done = n })

module _ (R : Redis) (links : ℕ → Link) (new_id : String) (now : ℤ) where
  -- redis.call("INCR", counterKey)
  unfoldable pub count_up : Link → String → Action (Flow R) ℤ
  unfolding call
  count_up link id = on_db R (
      call link (λ d.
        let (n, strings) = R.incr d.strings (counter_key id) in
        (n, record d { strings = strings })))

  abbrev pub in_context : {A : Type 0} → String → Action (Flow R) A → Action (Flow R) A
  in_context prefix m s = let (result, s') = m s in (context prefix result, s')

  -- rec.Tasks[rec.Current], which panics out of range, and an enqueue of it.
  abbrev pub enqueue_next : Link → String → Option TaskSpec → Action (Flow R) Done
  enqueue_next link id none s = (err index_panic, s)
  enqueue_next link id (some t) s =
      and_then (in_context "winter: chain enqueue step" (enqueue_task R link new_id now t id))
        (λ _ w. (ok tt, w)) s

  unfoldable pub advance_chain : Record → Action (Flow R) Done
  unfolding count_up
  advance_chain rec =
      and_then (in_context "winter: chain advance" (count_up (links 1) rec.id)) (λ n.
        let current = count_of n in
        if leb rec.total current
        then save_record R (links 2) (record rec { current = current; state = "completed" })
        else and_then (save_record R (links 2) (record rec { current = current }))
            (λ _. enqueue_next (links 3) rec.id (get_elem? rec.tasks current)))

  unfoldable pub advance_group : Record → Action (Flow R) Done
  unfolding count_up group_counted
  advance_group rec =
      and_then (in_context "winter: group advance" (count_up (links 1) rec.id))
        (λ n. save_record R (links 2) (group_counted rec n))

  -- The chord's script: SREM and then SCARD.
  unfoldable pub remaining : Link → String → String → Action (Flow R) ℕ
  unfolding call
  remaining link id job = on_db R (
      call link (λ d.
        let sets = (R.srem d.sets (deps_key id) job).1 in
        (R.scard sets (deps_key id), record d { sets = sets })))

  abbrev pub fire : Link → String → Option TaskSpec → Action (Flow R) Done
  fire link id none s = (ok tt, s)
  fire link id (some t) s =
      and_then (in_context "winter: chord enqueue callback" (enqueue_task R link new_id now t id))
        (λ _ w. (ok tt, w)) s

  unfoldable pub advance_chord : Record → String → Action (Flow R) Done
  unfolding remaining
  advance_chord rec job =
      and_then (in_context "winter: chord advance" (remaining (links 1) rec.id job)) (λ left.
        let counted = record rec { done = pos rec.total -ℤ pos left } in
        if nat_eq left 0
        then and_then (save_record R (links 2) (record counted { state = "completed" }))
            (λ _. fire (links 3) rec.id rec.callback)
        else save_record R (links 2) counted)

  abbrev pub advance : WorkflowType → Record → String → Action (Flow R) Done
  advance chain rec job = advance_chain rec
  advance group rec job = advance_group rec
  advance chord rec job = advance_chord rec job

  abbrev pub completed_job : String → Option Record → Action (Flow R) Done
  completed_job job none s = (ok tt, s)
  completed_job job (some rec) s =
      if (rec.state == "completed") || (rec.state == "failed")
      then (ok tt, s)
      else advance rec.type rec job s

  unfoldable pub on_job_completed : String → String → Action (Flow R) Done
  unfolding advance_chain advance_group advance_chord
  on_job_completed workflow_id job =
      and_then (load_record R (links 0) workflow_id) (completed_job job)

  abbrev pub failed_job : Option Record → Action (Flow R) Done
  failed_job none s = (ok tt, s)
  failed_job (some rec) s = save_record R (links 1) (record rec { state = "failed" }) s

  unfoldable pub on_job_failed : String → String → Action (Flow R) Done
  on_job_failed workflow_id job = and_then (load_record R (links 0) workflow_id) failed_job
