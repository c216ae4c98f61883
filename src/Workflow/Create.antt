-- ===== src/Workflow/Create.antt =====
-- internal/workflow/chain.go, group.go and chord.go: the creation of workflows. `ids` and `links`
-- give the new ids and the links of the round trips, in their order.
use winter.Base.{
  ℕ, suc, ◌+◌, String, ℤ, pos, Option, none, some, List, [], ◌∷◌, ◌==◌, if◌then◌else◌, length,
}
use winter.Redis.{Redis}
use winter.Queue.Link.{Link, ok, err, redis_error, Done, context, call}
use winter.Workflow.{
  WorkflowType, chain, group, chord, TaskSpec, Record, Flow, Action, and_then, save_record,
  enqueue_task, on_db, deps_key,
}

abbrev pub with_queue : String → TaskSpec → TaskSpec
with_queue queue spec = if spec.queue == "" then (record spec { queue = queue }) else spec

abbrev pub with_queues : String → List TaskSpec → List TaskSpec
with_queues queue [] = []
with_queues queue (t ∷ ts) = with_queue queue t ∷ with_queues queue ts

unfoldable pub new_record :
    WorkflowType → String → List TaskSpec → Option TaskSpec → String → Record
new_record type id tasks callback queue = record {
  id = id;
  type = type;
  state = "running";
  tasks = tasks;
  callback = callback;
  current = 0;
  total = length tasks;
  done = pos 0;
  queue = queue;
}

module _ (R : Redis) (links : ℕ → Link) (ids : ℕ → String) (now : ℤ) where
  unfoldable pub create_chain : List TaskSpec → String → Action (Flow R) String
  unfolding new_record
  create_chain [] queue s = (err (redis_error "winter: chain requires at least one task"), s)
  create_chain (t ∷ ts) queue s =
      let tasks = with_queues queue (t ∷ ts) in
      and_then (save_record R (links 0) (new_record chain (ids 0) tasks none queue))
        (λ _.
          and_then
            (λ w.
              let (result, w') =
                enqueue_task R (links 1) (ids 1) now (with_queue queue t) (ids 0) w in
              (context "winter: chain enqueue first task" result, w'))
            (λ _ w. (ok (ids 0), w)))
        s

  -- The loop of CreateGroup over the tasks.
  unfoldable pub enqueue_all : ℕ → String → List TaskSpec → Action (Flow R) Done
  enqueue_all i id [] s = (ok tt, s)
  enqueue_all i id (t ∷ ts) s =
      let rest = enqueue_all (suc i) id ts in
      and_then
        (λ w.
          let (result, w') = enqueue_task R (links (suc i)) (ids (suc i)) now t id w in
          (context "winter: group enqueue task" result, w'))
        (λ _. rest) s

  unfoldable pub create_group : List TaskSpec → String → Action (Flow R) String
  unfolding new_record enqueue_all
  create_group [] queue s = (err (redis_error "winter: group requires at least one task"), s)
  create_group (t ∷ ts) queue s =
      let tasks = with_queues queue (t ∷ ts) in
      and_then (save_record R (links 0) (new_record group (ids 0) tasks none queue))
        (λ _. and_then (enqueue_all 0 (ids 0) tasks) (λ _ w. (ok (ids 0), w))) s

  unfoldable pub add_dep : Link → String → String → Action (Flow R) Done
  unfolding call
  add_dep link id job s =
      let (result, s') =
        on_db R (call link (λ d. (tt, record d { sets = R.sadd (deps_key id) job d.sets }))) s in
      (context "winter: chord add dep" result, s')

  -- The loop of CreateChord: each header is enqueued, and then tracked.
  unfoldable pub enqueue_headers : ℕ → String → List TaskSpec → Action (Flow R) Done
  unfolding add_dep
  enqueue_headers i id [] s = (ok tt, s)
  enqueue_headers i id (t ∷ ts) s =
      let rest = enqueue_headers (suc i) id ts in
      and_then
        (λ w.
          let (result, w') = enqueue_task R (links (suc (i + i))) (ids (suc i)) now t id w in
          (context "winter: chord enqueue header" result, w'))
        (λ job. and_then (add_dep (links (suc (suc (i + i)))) id job) (λ _. rest)) s

  unfoldable pub create_chord : List TaskSpec → TaskSpec → String → Action (Flow R) String
  unfolding new_record enqueue_headers
  create_chord [] callback queue s =
      (err (redis_error "winter: chord requires at least one header task"), s)
  create_chord (t ∷ ts) callback queue s =
      let headers = with_queues queue (t ∷ ts) in
      and_then
        (save_record R (links 0)
          (new_record chord (ids 0) headers (some (with_queue queue callback)) queue))
        (λ _. and_then (enqueue_headers 0 (ids 0) headers) (λ _ w. (ok (ids 0), w))) s
