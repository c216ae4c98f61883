-- ===== src/Tests/Servers.antt =====
-- The server at concrete runs.
use winter.Queue.Api.{dequeue, enqueue, lease_duration}
use winter.Queue.Scripts.{enqueue_script, dequeue_script}
use winter.Queue.Keys.{ready_key, lease_key}
use winter.Queue.View.{view}
use winter.Workflow.{job_of_spec}
use winter.Redis.{Db}
use winter.Base.{
  true, ◌+ℤ◌, ◌<ℤ◌, is_some, arith, pos, false, Option, some, List, [], ◌∷◌, ◌≡◌, refl,
}
use winter.Redis.Memory.{memory}
use winter.Queue.Link.{up}
use winter.Server.Failure.{Failure, wrapping, skip_retry}
use winter.Server.Process.{
  World, Server, returned, panicked, recover, report_run, process_job, HandlerFn, Middleware,
  wrapped_fn,
}
use winter.Server.Outcome.{IsReleased, report-IsReleased}
use winter.Server.Survival.{is_crash, recover_survives}
use winter.Server.Config.{QueueWeight, ServerConfig}
use winter.Tests.{empty, digits, converted, job, links, ready_j}

abbrev world : World memory
world = record {
  flow = record { db = (enqueue memory up job "" (pos 0) empty).1; records = [] };
  buckets = [];
  inflight = [];
}

abbrev broken : Option Failure
broken = some (wrapping "sending: " skip_retry)

report-IsReleased_example :
    IsReleased memory job.queue job.id
      (report_run memory converted digits links "w"
        (pos 9)
        job
        (returned broken "")
        world).1.flow.db
report-IsReleased_example =
    report-IsReleased memory converted digits links "w" (pos 9) job broken "" world refl

abbrev panics : HandlerFn memory
panics raw w = (panicked "nil map", w)

-- A middleware that leaves the handler as it is.
abbrev named : Middleware memory
named next = wrapped_fn next

abbrev server : Server memory
server = record {
  worker_id = "w";
  handlers = ("mail", panics) ∷ [];
  rate_limits = [];
  middleware = recover memory ∷ named ∷ [];
}

recover_survives_example :
    is_crash (process_job memory converted digits server links "c" (pos 8) (pos 9) job world).0
    ≡ false
recover_survives_example =
    recover_survives memory converted digits links (λ _. refl) server (named ∷ []) refl
      ((λ next. (next, refl)), tt) "c" (pos 8) (pos 9) job world

abbrev two_queues : List QueueWeight
two_queues = record { name = "low"; weight = pos 0 } ∷ record { name = "high"; weight = pos 3 } ∷ []

abbrev config : ServerConfig
config = record {
  concurrency = pos 0;
  queues = two_queues;
  strict_priority = false;
  poll_interval = pos 0;
  shutdown_timeout = pos 0;
}

abbrev busy_j : Db memory
busy_j = (dequeue memory up "q" "w" (pos 0) ready_j).1

leased_j : is_some (view memory "q" busy_j "j").lease ≡ true
unfolding dequeue enqueue enqueue_script dequeue_script job_of_spec ready_key lease_key
leased_j = refl

before_expiry : pos 40_000 <ℤ pos 20_000 +ℤ lease_duration
unfolding ◌+ℤ◌
before_expiry = omega arith
