-- ===== src/Settings.antt =====
-- internal/config/config.go: the configuration file, its defaults and its checks. Reading the file,
-- its YAML and time.ParseDuration are parameters.
use winter.Base.{
  String, ℤ, pos, leb_ℤ, Bool, true, false, ◌&&◌, not, Option, none, some, List, [], ◌∷◌, ◌==◌,
  if◌then◌else◌, is_some, ◌≡◌, arith, refl, subst, ◌⊎◌, inl, inr,
}

pub record QueueConfig : Type 0 where
  pub max_retries : ℤ
  pub backoff : String
  pub backoff_base : String
  pub priority_default : ℤ

pub record CronConfig : Type 0 where
  pub name : String
  pub schedule : String
  pub queue : String
  pub kind : String
  pub payload : String

-- The file's sections, with their keys as names.
pub record Config : Type 0 where
  pub redis_addr : String
  pub redis_password : String
  pub redis_db : ℤ
  pub grpc_port : String
  pub log_level : String
  pub queues : List (String × QueueConfig)
  pub heartbeat_interval : String
  pub stale_threshold : String
  pub recovery_interval : String
  pub concurrency : ℤ
  pub poll_interval : String
  pub cron : List CronConfig

abbrev pub or_default : String → String → String
or_default default s = if s == "" then default else s

unfoldable pub apply_defaults : Config → Config
apply_defaults cfg = record cfg {
  redis_addr = or_default "localhost:6379" cfg.redis_addr;
  grpc_port = or_default "50051" cfg.grpc_port;
  log_level = or_default "info" cfg.log_level;
  concurrency = if leb_ℤ cfg.concurrency (pos 0) then pos 10 else cfg.concurrency;
  heartbeat_interval = or_default "15s" cfg.heartbeat_interval;
  stale_threshold = or_default "60s" cfg.stale_threshold;
  recovery_interval = or_default "30s" cfg.recovery_interval;
  poll_interval = or_default "500ms" cfg.poll_interval;
}

-- What validate rejects, with the name of what is wrong.
pub data Fault : Type 0 where
  bad_duration : String → String → Fault
  bad_backoff_base : String → Fault
  missing : String → String → Fault

-- An error of Load: of the file, of its YAML, or of the checks.
pub data LoadError : Type 0 where
  unread : String → LoadError
  unparsed : String → LoadError
  invalid : Fault → LoadError

module _ (parse : String → Option ℤ) where
  abbrev or_fault : Bool → Fault → Option Fault → Option Fault
  or_fault true f rest = some f
  or_fault false f rest = rest

  abbrev or_else_fault : Option Fault → Option Fault → Option Fault
  or_else_fault (some f) rest = some f
  or_else_fault none rest = rest

  abbrev pub check_queues : List (String × QueueConfig) → Option Fault
  check_queues [] = none
  check_queues ((name, q) ∷ qs) =
      or_fault (not (q.backoff_base == "") && not (is_some (parse q.backoff_base)))
        (bad_backoff_base name) (check_queues qs)

  abbrev pub check_cron : List CronConfig → Option Fault
  check_cron [] = none
  check_cron (c ∷ cs) = or_fault (c.name == "") (missing "" "name") (
      or_fault (c.schedule == "") (missing c.name "schedule")
        (or_fault (c.kind == "") (missing c.name "kind") (check_cron cs)))

  abbrev bad : String → Bool
  bad s = not (is_some (parse s))

  -- The first fault, or none.
  unfoldable pub validate : Config → Option Fault
  validate cfg =
      or_fault (bad cfg.heartbeat_interval)
        (bad_duration "heartbeat_interval" cfg.heartbeat_interval)
        (or_fault (bad cfg.stale_threshold) (bad_duration "stale_threshold" cfg.stale_threshold) (
          or_fault (bad cfg.recovery_interval)
            (bad_duration "recovery_interval" cfg.recovery_interval)
            (or_fault (bad cfg.poll_interval) (bad_duration "poll_interval" cfg.poll_interval)
              (or_else_fault (check_queues cfg.queues) (check_cron cfg.cron)))))

  -- ParseDuration: the fallback for a text that is empty or cannot be parsed.
  unfoldable pub parse_duration : String → ℤ → ℤ
  parse_duration s fallback =
      if s == "" then fallback else elim (parse s) [ none ↦ fallback | some d ↦ d ]

  abbrev checked : Option Fault → Config → LoadError ⊎ Config
  checked (some f) cfg = inl (invalid f)
  checked none cfg = inr cfg

  abbrev unmarshalled : String ⊎ Config → LoadError ⊎ Config
  unmarshalled (inl e) = inl (unparsed e)
  unmarshalled (inr cfg) = checked (validate (apply_defaults cfg)) (apply_defaults cfg)

  abbrev contents : (String → String ⊎ Config) → String ⊎ String → LoadError ⊎ Config
  contents unmarshal (inl e) = inl (unread e)
  contents unmarshal (inr text) = unmarshalled (unmarshal text)

  -- Load, over os.ReadFile and yaml.Unmarshal, whose errors are their texts.
  unfoldable pub load :
      (String → String ⊎ String) → (String → String ⊎ Config) → String → LoadError ⊎ Config
  unfolding apply_defaults validate
  load read_file unmarshal path = contents unmarshal (read_file path)

  -- A configuration that passes the checks has four durations that can be parsed.
  pub validated_durations :
      (cfg : Config)
      → validate (apply_defaults cfg) ≡ none
      → (is_some (parse (apply_defaults cfg).heartbeat_interval) ≡ true)
        × (is_some (parse (apply_defaults cfg).stale_threshold) ≡ true)
        × (is_some (parse (apply_defaults cfg).recovery_interval) ≡ true)
        × (is_some (parse (apply_defaults cfg).poll_interval) ≡ true)
  unfolding validate
  validated_durations cfg ok = ground (arith, ok)

  checked_valid :
      (o : Option Fault) (c cfg : Config) → checked o c ≡ inr cfg → (o ≡ none) × (c ≡ cfg)
  checked_valid (some f) c cfg h = absurd (cc h)
  checked_valid none c cfg h = (refl, cc h)

  unmarshalled_valid :
      (r : String ⊎ Config) (cfg : Config) → unmarshalled r ≡ inr cfg → validate cfg ≡ none
  unmarshalled_valid (inl e) cfg h = absurd (cc h)
  unmarshalled_valid (inr c) cfg h =
      let (passed, same) = checked_valid (validate (apply_defaults c)) (apply_defaults c) cfg h in
      subst (λ x. validate x ≡ none) same passed

  contents_valid :
      (unmarshal : String → String ⊎ Config) (r : String ⊎ String) (cfg : Config)
      → contents unmarshal r ≡ inr cfg
      → validate cfg ≡ none
  contents_valid unmarshal (inl e) cfg h = absurd (cc h)
  contents_valid unmarshal (inr text) cfg h = unmarshalled_valid (unmarshal text) cfg h

  -- A configuration that Load returns has passed the checks.
  pub loaded_valid :
      (read_file : String → String ⊎ String) (unmarshal : String → String ⊎ Config) (path : String)
      (cfg : Config)
      → load read_file unmarshal path ≡ inr cfg
      → validate cfg ≡ none
  unfolding load
  loaded_valid read_file unmarshal path cfg = contents_valid unmarshal (read_file path) cfg
