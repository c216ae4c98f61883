-- ===== src/Tests/Trips.antt =====
-- What is written and read back, and what is kept over many steps, at concrete runs.
use winter.Base.{
  ℕ, Bool, String, ◌<>◌, pos, ◌+ℤ◌, ◌≡◌, refl, arith, true, false, none, some, Option, List, [],
  ◌∷◌, ◌++◌, length, if◌then◌else◌, ◌==◌,
}
use winter.Redis.{Db}
use winter.Redis.Memory.{memory}
use winter.Queue.Keys.{ready_key, lease_key, job_key, stats_key}
use winter.Queue.Link.{up, cut, refused, ok}
use winter.Queue.Scripts.{enqueue_script, dequeue_script, hset_all}
use winter.Queue.Api.{enqueue, enqueue_keys, dequeue, set_result, lease_duration}
use winter.Queue.View.{view, Shows, JobView}
use winter.Queue.Refine.Enqueue.{is_duplicate}
use winter.Queue.Stats.Depths.{IsPlain, depths}
use winter.Workflow.{job_of_spec}
use winter.Client.Wait.{Poll, found, wait_for_result, wait_round_trip}
use winter.Server.Alive.{Event, Timely, beats, recovers, happen, kept_alive}
use winter.Grpc.{Response, EnqueueRequest, grpc_enqueue, grpc_get_job}
use winter.Grpc.RoundTrip.{message_of, enqueue_then_get}
use winter.Grpc.Interceptors.{panicked, failed, internal, chain, is_panic, chain_ends, Handler}
use winter.Queue.Job.{int_of}
use winter.Settings.{apply_defaults}
use winter.Commands.Standalone.{default_config, from_environment, default_config_agrees}
use winter.Inspector.{inspect_queue, inspect_queue_exact}
use winter.Tests.{empty, digest, ready_j}

-- A flag as JSON.
abbrev encode : Bool → String
encode true = "true"
encode false = "false"

abbrev decode : String → Option Bool
decode s = if s == "true" then some true else if s == "false" then some false else none

undo : (b : Bool) → decode (encode b) ≡ some b
undo true = refl
undo false = refl

abbrev early : Poll memory
early = record { link = up; db = empty; ends = false }

wait_round_trip_example :
    wait_for_result memory decode "j" (
      (early ∷ [])
      ++ (record {
        link = up;
        db = (set_result memory (cut "EOF") "j" (encode true) empty).1;
        ends = true;
      }
          ∷ []))
    ≡ some (found true)
wait_round_trip_example =
    wait_round_trip memory decode encode undo "j" true (early ∷ []) [] (cut "EOF") empty true
      ((refl, refl, refl), tt) refl

abbrev request : EnqueueRequest
request = record {
  kind = "mail";
  payload = "{}";
  queue = "";
  priority = pos 7;
  max_retries = pos 0;
  scheduled_at = pos 0;
  unique_period_ms = pos 0;
}

new_request : is_duplicate memory "" (pos 0) empty ≡ false
unfolding enqueue_keys
new_request = refl

enqueue_then_get_example :
    (grpc_get_job memory digest up "j"
      (grpc_enqueue memory digest up "j" (pos 9) request empty).1).0
    ≡ Response.found (message_of "j" (pos 9) request)
enqueue_then_get_example =
    enqueue_then_get memory digest "j" (pos 9) request empty refl refl (omega arith, omega arith)
      (omega arith, omega arith) (omega arith, omega arith) new_request

abbrev crashing : Handler ℕ String
crashing s = (panicked "nil map", record s { state = 1 })

chain_ends_example :
    let (r, t) = chain "/winter.v1.QueueService/Ack" crashing (record { state = 0; log = [] }) in
    (is_panic r ≡ false)
    × (t.state ≡ 1)
    × (length t.log ≡ 0)
    × (r ≡ failed internal ("panic: " <> "nil map"))
chain_ends_example =
    chain_ends "/winter.v1.QueueService/Ack" crashing (record { state = 0; log = [] })

ready_j-IsPlain : IsPlain memory "q" ready_j
unfolding enqueue enqueue_script job_of_spec job_key stats_key hset_all
ready_j-IsPlain = (refl, refl, refl, refl)

inspect_queue_exact_example : inspect_queue memory up "q" ready_j ≡ (
  ok (record {
    name = "q";
    ready = pos (depths memory "q" ready_j).ready;
    active = pos (depths memory "q" ready_j).active;
    delayed = pos (depths memory "q" ready_j).delayed;
    dead = pos (depths memory "q" ready_j).dead;
    completed = int_of (memory.hget ready_j.hashes (stats_key "q") "completed");
    enqueued = int_of (memory.hget ready_j.hashes (stats_key "q") "enqueued");
  }),
  ready_j,
)
inspect_queue_exact_example = inspect_queue_exact memory "q" ready_j ready_j-IsPlain

-- Job j runs from time 0 on, and its worker beats at 20,000.
abbrev busy_j : Db memory
busy_j = (dequeue memory up "q" "w" (pos 0) ready_j).1

abbrev seen_j : JobView
seen_j = view memory "q" busy_j "j"

leased_j : Shows memory "q" busy_j "j" (record seen_j { lease = some (pos 0 +ℤ lease_duration) })
unfolding enqueue enqueue_script dequeue dequeue_script job_of_spec ready_key lease_key
leased_j = record {
  ready = refl;
  delayed = refl;
  lease = refl;
  active = refl;
  dead = refl;
  hash = λ f. refl;
}

abbrev events : List Event
events = beats (pos 20_000) (("j", "q") ∷ []) ∷ recovers (refused "EOF") 10 (pos 45_000) ∷ []

events-Timely : Timely "q" "j" (pos 0) events
unfolding ◌+ℤ◌
events-Timely = (refl, (omega arith, tt))

kept_alive_example :
    Shows memory "q"
      (happen memory "w" "q" events busy_j)
      "j"
      (record seen_j { lease = some (pos 20_000 +ℤ lease_duration) })
kept_alive_example =
    kept_alive memory "w" "q" events (pos 0) busy_j "j" seen_j leased_j events-Timely

-- Only the port of the service is set.
abbrev environment : String → String
environment key = if key == "GRPC_PORT" then "6000" else ""

default_config_agrees_example :
    default_config environment ≡ apply_defaults (from_environment environment)
default_config_agrees_example = default_config_agrees environment
