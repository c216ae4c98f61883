-- ===== src/Tests/Loops.antt =====
-- The background loops at concrete runs.
use winter.Base.{String, ◌==◌, ◌≡◌, none, some, eq_comm, ◌≤◌, pos, refl, arith, false, [], ◌∷◌}
use winter.Redis.{Db}
use winter.Redis.Memory.{memory}
use winter.Queue.Keys.{
  ready_key, delayed_key, lease_key, eq-lease_key, active_key, job_key, stats_key,
}
use winter.Queue.Link.{up}
use winter.Queue.Scripts.{enqueue_script, hset_all}
use winter.Queue.Api.{enqueue, dequeue}
use winter.Queue.View.{Shows, view}
use winter.Queue.Transitions.{promoted}
use winter.Queue.Lifecycle.Views.{view-Shows}
use winter.Queue.Tests.{waiting, delayed_c, empty}
use winter.Commands.Standalone.{default_config}
use winter.Commands.Serving.{polls, here, next}
use winter.Commands.Serving.Waiting.{IsWaiting}
use winter.Commands.Serving.Stranded.{delayed_waits_forever}
use winter.Tests.{digits, digest}
use winter.Ticker.{Turn}
use winter.Server.Upkeep.{promote_loop, sweep}
use winter.Server.Sweep.{sweep_spares_live}
use winter.Server.Promotion.{promote_loop_complete}

-- A tick a second after the delay has passed.
abbrev late_turn : Turn memory
late_turn = record {
  done = false;
  meanwhile = λ db. db;
  links = λ _. up;
  now = λ _. pos 6_000;
  ended = λ _. false;
}

one_delayed : memory.zcard waiting.zsets (delayed_key "q") ≤ 1
unfolding enqueue enqueue_script ready_key delayed_key job_key stats_key hset_all
one_delayed = omega arith

promote_loop_complete_example :
    Shows memory "q"
      (promote_loop memory ("q" ∷ []) (late_turn ∷ []) waiting)
      "c"
      (promoted (view memory "q" waiting "c"))
promote_loop_complete_example =
    promote_loop_complete memory "q" (late_turn ∷ []) (pos 5_000) waiting "c"
      (view memory "q" waiting "c")
      (refl, refl, omega arith, (λ db v s. s), (λ db. omega arith), tt) one_delayed
      (view-Shows memory "q" waiting "c") delayed_c

-- Job b of queue q is active.
abbrev running_b : Db memory
running_b = record empty {
  zsets = memory.zadd (lease_key "q") (pos 31_000) "b" [];
  sets = memory.sadd (active_key "q") "b" [];
}

lease_b : memory.zscore running_b.zsets (lease_key "q") "b" ≡ some (pos 31_000)
unfolding lease_key
lease_b = refl

other_leases :
    (r : String) → (r == "q") ≡ false → memory.zscore running_b.zsets (lease_key r) "b" ≡ none
other_leases r other = ground (
  arith,
  memory.zscore-zadd (lease_key "q") (pos 31_000) "b" [] (lease_key r) "b",
  eq-lease_key "q" r,
  eq_comm "q" r,
  other,
)

sweep_spares_live_example :
    Shows memory "q"
      (sweep memory (λ _. up) (λ _. pos 30_999) (λ _. false) 0 (pos 100) ("p" ∷ "q" ∷ []) running_b)
      "b"
      (view memory "q" running_b "b")
sweep_spares_live_example =
    sweep_spares_live memory (λ _. up) (λ _. pos 30_999) (λ _. false) (pos 100) 0 ("p" ∷ "q" ∷ [])
      running_b "q" "b" (view memory "q" running_b "b") (view-Shows memory "q" running_b "b")
      other_leases (λ k t e. ground (arith, lease_b, e))

-- A job whose time passed long ago, and the poll of a client of the standalone server.
abbrev overdue_c : Db memory
overdue_c = record empty { zsets = memory.zadd (delayed_key "q") (pos 5_000) "c" [] }

overdue_c-IsWaiting : IsWaiting memory "q" "c" overdue_c
unfolding ready_key delayed_key active_key
overdue_c-IsWaiting = record { delayed = refl; ready = refl; active = refl }

delayed_waits_forever_example :
    IsWaiting memory "q" "c" (dequeue memory up "q" "w" (pos 90_000_000) overdue_c).1
delayed_waits_forever_example =
    delayed_waits_forever memory digest digits (λ _. none) (default_config (λ _. "")) "c" "q"
      overdue_c-IsWaiting (next here (polls up "q" "w" (pos 90_000_000)))
