-- ===== src/Server/Config.antt =====
-- server.go: the configuration of a server, its defaults, and the orders in which it polls.
use winter.Base.{
  ℕ, String, ℤ, pos, leb_ℤ, ltb_ℤ, Bool, List, [], ◌∷◌, ◌++◌, if◌then◌else◌, replicate, map,
}

pub record QueueWeight : Type 0 where
  pub name : String
  pub weight : ℤ

-- An argument of Queues: a text, an int, or a value of another type.
pub data Argument : Type 0 where
  text : String → Argument
  int : ℤ → Argument
  other : Argument

-- args[i].(string) and args[i+1].(int), with the zero value for another type.
abbrev pub name_of : Argument → String
name_of (text s) = s
name_of _ = ""

abbrev pub weight_of : Argument → ℤ
weight_of (int n) = n
weight_of _ = pos 0

-- The pairs of the arguments; a last one without a partner is dropped.
unfoldable pub queues : List Argument → List QueueWeight
queues [] = []
queues (name ∷ []) = []
queues (name ∷ weight ∷ args) =
    record { name = name_of name; weight = weight_of weight } ∷ queues args

-- Durations are in nanoseconds. The logger and the cron entries are not modelled.
pub record ServerConfig : Type 0 where
  pub concurrency : ℤ
  pub queues : List QueueWeight
  pub strict_priority : Bool
  pub poll_interval : ℤ
  pub shutdown_timeout : ℤ

-- A value that is not positive gives way to the default.
abbrev pub positive_or : ℤ → ℤ → ℤ
positive_or default z = if leb_ℤ z (pos 0) then default else z

abbrev pub queues_or_default : List QueueWeight → List QueueWeight
queues_or_default [] = record { name = "default"; weight = pos 1 } ∷ []
queues_or_default (q ∷ qs) = q ∷ qs

abbrev pub at_least_one : QueueWeight → QueueWeight
at_least_one q = if ltb_ℤ q.weight (pos 1) then (record q { weight = pos 1 }) else q

-- The configuration that newServer keeps.
unfoldable pub new_server : ServerConfig → ServerConfig
new_server cfg = record cfg {
  concurrency = positive_or (pos 10) cfg.concurrency;
  queues = map at_least_one (queues_or_default cfg.queues);
  poll_interval = positive_or (pos 200_000_000) cfg.poll_interval;
  shutdown_timeout = positive_or (pos 30_000_000_000) cfg.shutdown_timeout;
}

-- range over an int: none for a weight that is not positive.
abbrev pub rounds : ℤ → ℕ
rounds (pos n) = n
rounds _ = 0

unfoldable pub build_weighted_queues : List QueueWeight → List String
build_weighted_queues [] = []
build_weighted_queues (q ∷ qs) = replicate (rounds q.weight) q.name ++ build_weighted_queues qs

-- slices.SortFunc by descending weight, as an insertion sort that keeps the order of equals.
unfoldable pub insert_by_weight : QueueWeight → List QueueWeight → List QueueWeight
insert_by_weight q [] = q ∷ []
insert_by_weight q (p ∷ ps) =
    let rest = insert_by_weight q ps in if leb_ℤ p.weight q.weight then q ∷ p ∷ ps else p ∷ rest

unfoldable pub sort_by_weight : List QueueWeight → List QueueWeight
unfolding insert_by_weight
sort_by_weight [] = []
sort_by_weight (q ∷ qs) = insert_by_weight q (sort_by_weight qs)

unfoldable pub build_strict_queues : List QueueWeight → List String
unfolding sort_by_weight
build_strict_queues qs = map (λ (q : QueueWeight). q.name) (sort_by_weight qs)
