-- ===== src/Commands/Standalone.antt =====
-- cmd/server/main.go: the configuration of the standalone gRPC server and what it starts with it.
-- Flags, listening and the signal are not modelled; the environment is a parameter.
use winter.Base.{String, ℤ, pos, ◌≡◌, refl, Option, some, List, [], ◌∷◌, map, ◌==◌, if◌then◌else◌}
use winter.Settings.{Config, QueueConfig, CronConfig, apply_defaults, parse_duration}
use winter.Server.Upkeep.{RecoveryConfig, new_recovery}
use winter.Cron.{CronEntry}

-- slog.Level
pub data LogLevel : Type 0 where
  debug info warn error : LogLevel

unfoldable pub log_level_of : String → LogLevel
log_level_of s =
    if s == "debug"
    then debug
    else if s == "warn"
    then warn
    else if s == "error"
    then error
    else info

-- os.Getenv, which gives "" for what is not set.
abbrev pub Environment : Type 0
Environment = String → String

abbrev pub env_or : Environment → String → String → String
env_or env key fallback = if env key == "" then fallback else env key

unfoldable pub default_config : Environment → Config
default_config env = record {
  redis_addr = env_or env "REDIS_ADDR" "localhost:6379";
  redis_password = "";
  redis_db = pos 0;
  grpc_port = env_or env "GRPC_PORT" "50051";
  log_level = "info";
  queues = [];
  heartbeat_interval = "15s";
  stale_threshold = "60s";
  recovery_interval = "30s";
  concurrency = pos 10;
  poll_interval = "500ms";
  cron = [];
}

-- The configuration of main: that of the file if one is named, or none when it cannot be loaded and
-- the program ends.
abbrev pub main_config : Environment → String → Option Config → Option Config
main_config env path loaded = if path == "" then some (default_config env) else loaded

-- The map_names of a map, in the order in which it is ranged over.
abbrev pub map_names : List (String × QueueConfig) → List String
map_names [] = []
map_names ((name, q) ∷ qs) = name ∷ map_names qs

unfoldable pub queue_names_from_config : Config → List String
queue_names_from_config cfg = queue_names cfg.queues
  where
    queue_names : List (String × QueueConfig) → List String
    queue_names [] = "default" ∷ []
    queue_names (q ∷ qs) = map_names (q ∷ qs)

abbrev pub cron_entry : CronConfig → CronEntry
cron_entry c = record {
  name = c.name;
  schedule = c.schedule;
  queue = c.queue;
  kind = c.kind;
  payload = c.payload;
}

-- The entries that the program gives to NewCron.
abbrev pub cron_entries : Config → List CronEntry
cron_entries cfg = map cron_entry cfg.cron

-- What the program gives to NewRecovery, and what that makes of it.
unfoldable pub main_recovery : (String → Option ℤ) → Config → RecoveryConfig
main_recovery parse cfg = new_recovery (record {
  interval = parse_duration parse cfg.recovery_interval (pos 30_000_000_000);
  queues = queue_names_from_config cfg;
  limit = pos 0;
})

abbrev pub from_environment : Environment → Config
from_environment env = record {
  redis_addr = env "REDIS_ADDR";
  redis_password = "";
  redis_db = pos 0;
  grpc_port = env "GRPC_PORT";
  log_level = "";
  queues = [];
  heartbeat_interval = "";
  stale_threshold = "";
  recovery_interval = "";
  concurrency = pos 0;
  poll_interval = "";
  cron = [];
}

-- The defaults that the program writes out are those of the configuration package: without a file
-- the server runs on what applyDefaults makes of an empty file with the two addresses of the
-- environment.
pub default_config_agrees :
    (env : Environment) → default_config env ≡ apply_defaults (from_environment env)
unfolding default_config apply_defaults
default_config_agrees env = refl
