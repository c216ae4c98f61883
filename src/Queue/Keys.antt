-- ===== src/Queue/Keys.antt =====
-- The names of the Redis keys (internal/queue/queue.go, the key functions), and which of them
-- can never be the same key.
use text.Mathlib.TextLemmas.{append-eq-nil_iff}
use winter.Base.{
  String, ◌<>◌, ◌≡◌, refl, ◌∙◌, Bool, true, false, ◌==◌, arith, eq_refl, eq_iff, eq_false, eq_comm,
  suffix_apart, prefix_apart, eq-append_left, eq-append_right,
}

unfoldable pub ready_key : String → String
ready_key queue = "winter:" <> queue <> ":ready"

unfoldable pub delayed_key : String → String
delayed_key queue = "winter:" <> queue <> ":delayed"

unfoldable pub active_key : String → String
active_key queue = "winter:" <> queue <> ":active"

unfoldable pub dead_key : String → String
dead_key queue = "winter:" <> queue <> ":dead"

unfoldable pub paused_key : String → String
paused_key queue = "winter:" <> queue <> ":paused"

unfoldable pub stats_key : String → String
stats_key queue = "winter:stats:" <> queue

unfoldable pub job_key : String → String
job_key id = "winter:job:" <> id

unfoldable pub lease_key : String → String
lease_key queue = "winter:" <> queue <> ":lease"

unfoldable pub worker_jobs_key : String → String
worker_jobs_key id = "winter:worker:" <> id <> ":jobs"

unfoldable pub unique_key : String → String
unique_key key = "winter:unique:" <> key

abbrev pub workers_key : String
workers_key = "winter:workers"

unfoldable pub result_key : String → String
result_key id = "winter:job:" <> id <> ":result"

pub ready-delayed : (q p : String) → (ready_key q == delayed_key p) ≡ false
unfolding ready_key delayed_key
ready-delayed q p = suffix_apart "winter:" q "winter:" p ":d" ":ready" "elayed" refl refl

pub ready-lease : (q p : String) → (ready_key q == lease_key p) ≡ false
unfolding ready_key lease_key
ready-lease q p = suffix_apart "winter:" q "winter:" p "" ":ready" ":lease" refl refl

pub delayed-ready : (q p : String) → (delayed_key q == ready_key p) ≡ false
unfolding delayed_key ready_key
delayed-ready q p =
    eq_comm (delayed_key q) (ready_key p)
    ∙ suffix_apart "winter:" p "winter:" q ":d" ":ready" "elayed" refl refl

pub delayed-lease : (q p : String) → (delayed_key q == lease_key p) ≡ false
unfolding delayed_key lease_key
delayed-lease q p =
    eq_comm (delayed_key q) (lease_key p)
    ∙ suffix_apart "winter:" p "winter:" q ":d" ":lease" "elayed" refl refl

pub lease-ready : (q p : String) → (lease_key q == ready_key p) ≡ false
unfolding lease_key ready_key
lease-ready q p = suffix_apart "winter:" q "winter:" p "" ":lease" ":ready" refl refl

pub lease-delayed : (q p : String) → (lease_key q == delayed_key p) ≡ false
unfolding lease_key delayed_key
lease-delayed q p = suffix_apart "winter:" q "winter:" p ":d" ":lease" "elayed" refl refl

pub active-worker_jobs : (q p : String) → (active_key q == worker_jobs_key p) ≡ false
unfolding active_key worker_jobs_key
active-worker_jobs q p =
    eq_comm (active_key q) (worker_jobs_key p)
    ∙ suffix_apart "winter:worker:" p "winter:" q ":a" ":jobs" "ctive" refl refl

pub worker_jobs-active : (q p : String) → (worker_jobs_key q == active_key p) ≡ false
unfolding worker_jobs_key active_key
worker_jobs-active q p = suffix_apart "winter:worker:" q "winter:" p ":a" ":jobs" "ctive" refl refl

pub job-stats : (q p : String) → (job_key q == stats_key p) ≡ false
unfolding job_key stats_key
job-stats q p = prefix_apart "winter:j" "winter:s" "ob:" "tats:" q p refl refl

pub stats-job : (q p : String) → (stats_key q == job_key p) ≡ false
unfolding stats_key job_key
stats-job q p = prefix_apart "winter:s" "winter:j" "tats:" "ob:" q p refl refl

pub eq-job_key : (q p : String) → (job_key q == job_key p) ≡ (q == p)
unfolding job_key
eq-job_key q p = eq-append_left "winter:job:" q p

pub eq-stats_key : (q p : String) → (stats_key q == stats_key p) ≡ (q == p)
unfolding stats_key
eq-stats_key q p = eq-append_left "winter:stats:" q p

pub eq-unique_key : (q p : String) → (unique_key q == unique_key p) ≡ (q == p)
unfolding unique_key
eq-unique_key q p = eq-append_left "winter:unique:" q p

pub eq-ready_key : (q p : String) → (ready_key q == ready_key p) ≡ (q == p)
unfolding ready_key
eq-ready_key q p =
    eq-append_left "winter:" (q <> ":ready") (p <> ":ready") ∙ eq-append_right q p ":ready"

pub eq-delayed_key : (q p : String) → (delayed_key q == delayed_key p) ≡ (q == p)
unfolding delayed_key
eq-delayed_key q p =
    eq-append_left "winter:" (q <> ":delayed") (p <> ":delayed") ∙ eq-append_right q p ":delayed"

pub eq-active_key : (q p : String) → (active_key q == active_key p) ≡ (q == p)
unfolding active_key
eq-active_key q p =
    eq-append_left "winter:" (q <> ":active") (p <> ":active") ∙ eq-append_right q p ":active"

pub eq-dead_key : (q p : String) → (dead_key q == dead_key p) ≡ (q == p)
unfolding dead_key
eq-dead_key q p =
    eq-append_left "winter:" (q <> ":dead") (p <> ":dead") ∙ eq-append_right q p ":dead"

pub eq-paused_key : (q p : String) → (paused_key q == paused_key p) ≡ (q == p)
unfolding paused_key
eq-paused_key q p =
    eq-append_left "winter:" (q <> ":paused") (p <> ":paused") ∙ eq-append_right q p ":paused"

pub eq-lease_key : (q p : String) → (lease_key q == lease_key p) ≡ (q == p)
unfolding lease_key
eq-lease_key q p =
    eq-append_left "winter:" (q <> ":lease") (p <> ":lease") ∙ eq-append_right q p ":lease"

pub eq-worker_jobs_key : (q p : String) → (worker_jobs_key q == worker_jobs_key p) ≡ (q == p)
unfolding worker_jobs_key
eq-worker_jobs_key q p =
    eq-append_left "winter:worker:" (q <> ":jobs") (p <> ":jobs") ∙ eq-append_right q p ":jobs"

pub unique_key-empty : (k : String) → (unique_key k == "") ≡ false
unfolding unique_key
unique_key-empty k = eq_false ("winter:unique:" <> k) "" (λ h.
    ground
      (arith, eq_iff "winter:unique:" "", (append-eq-nil_iff {p = "winter:unique:"} {q = k}).0 h))

-- What is known of two keys that are compared.
pub ruleset key_laws = (
  eq_refl, unique_key-empty, ready-delayed, ready-lease, delayed-ready, delayed-lease, lease-ready,
  lease-delayed, active-worker_jobs, worker_jobs-active, job-stats, stats-job, eq-job_key,
  eq-stats_key, eq-unique_key, eq-ready_key, eq-delayed_key, eq-active_key, eq-dead_key,
  eq-paused_key, eq-lease_key, eq-worker_jobs_key,
)
