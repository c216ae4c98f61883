-- ===== src/States.antt =====
-- winter.go: the table of the transitions of a job's state, and the transitions that the scripts
-- of internal/queue/scripts.go make.
use winter.Base.{
  String, ℤ, Bool, true, false, Option, none, some, List, [], ◌∷◌, ◌==◌, eq_refl, if◌then◌else◌,
  ◌≡◌, refl, ◌∙◌, arith,
}
use winter.Redis.{Redis, Db, text, num, to_map, elem}
use winter.Queue.Keys.{job_key}
use winter.Queue.Link.{up}
use winter.Queue.Transitions.{is_final}
use winter.Queue.Api.{nack, reschedule_job}
use winter.Queue.Lifecycle.Views.{view-Shows}
use winter.Queue.Refine.Release.{reschedule_job-Shows}
use winter.Queue.Refine.Nack.{nack-Shows}

abbrev pub valid_transitions : List (String × List String)
valid_transitions =
    ("pending", "active" ∷ [])
    ∷ ("active", "completed" ∷ "failed" ∷ "retry" ∷ "cancelled" ∷ [])
    ∷ ("retry", "pending" ∷ "active" ∷ [])
    ∷ ("failed", "dead" ∷ "pending" ∷ [])
    ∷ ("dead", "pending" ∷ [])
    ∷ ("cancelled", [])
    ∷ ("completed", [])
    ∷ []

abbrev pub targets_of : String → List (String × List String) → Option (List String)
targets_of s [] = none
targets_of s ((k, ts) ∷ l) = if k == s then some ts else targets_of s l

abbrev pub is_among : String → Option (List String) → Bool
is_among to none = false
is_among to (some targets) = elem to targets

unfoldable pub valid_transition : String → String → Bool
valid_transition from to = is_among to (targets_of from valid_transitions)

module _ (R : Redis) where
  -- A last failure of an active job, on a working link, leaves the job in the state dead, and a
  -- rescheduling leaves it in the state pending; the table has no edge from active to either.
  pub edges_missing :
      (q id worker message : String) (backoff now time a m : ℤ) (skip : Bool) (db : Db R)
      → R.hget db.hashes (job_key id) "attempt" ≡ some (num a)
      → R.hget db.hashes (job_key id) "max_retries" ≡ some (num m)
      → is_final skip a m ≡ true
      → (R.hget (nack R up q id worker message backoff skip now db).1.hashes (job_key id) "state"
          ≡ some (text "dead"))
        × (valid_transition "active" "dead" ≡ false)
        × (R.hget (reschedule_job R up q id worker time db).1.hashes (job_key id) "state"
            ≡ some (text "pending"))
        × (valid_transition "active" "pending" ≡ false)
  unfolding to_map valid_transition
  edges_missing q id worker message backoff now time a m skip db ha hm last =
      let n =
        nack-Shows R q id worker message backoff now skip a m db ha hm up id _
          (view-Shows R q db id) in
      let r = reschedule_job-Shows R up q id worker time db id _ (view-Shows R q db id) in
      (
        n.hash "state" ∙ ground (arith, eq_refl id, last),
        refl,
        r.hash "state" ∙ ground (arith, eq_refl id),
        refl,
      )
