-- ===== src/Client/Connect.antt =====
-- client.go, and what opens and closes a connection in server.go, inspector.go and cmd/winter. The
-- go-redis client is a parameter: what becomes of the PING to an address, and of a Close.
use winter.Base.{String, ℤ, Option, none, some}
use winter.Queue.Link.{Link, Result, ok, Done, context, call, map_result}
use winter.Settings.{Config}
use winter.Server.Config.{ServerConfig, new_server}

pub record RedisConfig : Type 0 where
  pub addr : String
  pub password : String
  pub db : ℤ

-- The connection of a client: its own, or one that it was given, with what its Close returns if it
-- has one.
pub data Connection : Type 0 where
  dialled : RedisConfig → Connection
  given : Option (Result Done) → Connection

module _ (ping : RedisConfig → Link) (close_own : RedisConfig → Result Done) where
  unfoldable pub new_client : RedisConfig → Result Connection
  unfolding call
  new_client cfg =
      context "winter: redis ping" (call (ping cfg) (λ (u : Unit {0}). (dialled cfg, u)) tt).0

  unfoldable pub close : Connection → Result Done
  close (dialled cfg) = close_own cfg
  close (given none) = ok tt
  close (given (some result)) = result

  -- NewServer and NewServerFromRedis.
  unfoldable pub connect_server : RedisConfig → ServerConfig → Result (Connection × ServerConfig)
  unfolding new_client new_server
  connect_server redis cfg = map_result (λ c. (c, new_server cfg)) (new_client redis)

abbrev pub server_from_redis : Option (Result Done) → ServerConfig → Connection × ServerConfig
server_from_redis closer cfg = (given closer, new_server cfg)

abbrev pub redis_config : Config → RedisConfig
redis_config cfg = record {
  addr = cfg.redis_addr;
  password = cfg.redis_password;
  db = cfg.redis_db;
}
