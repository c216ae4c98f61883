-- ===== src/Grpc/Proto.antt =====
-- internal/server/grpc.go, recordToProto: a job record as a message of the protocol.
use winter.Base.{suc, ◌-◌, ◌%◌, ◌^◌, String, ℤ, pos, negsuc, ◌≤ℤ◌, ltb, if◌then◌else◌, ◌≡◌, arith}
use winter.Queue.Job.{JobRecord}

pub record ProtoJob : Type 0 where
  pub id : String
  pub kind : String
  pub payload : String
  pub queue : String
  pub priority : ℤ
  pub state : String
  pub attempt : ℤ
  pub max_retries : ℤ
  pub created_at : ℤ
  pub scheduled_at : ℤ
  pub started_at : ℤ
  pub completed_at : ℤ
  pub last_error : String

-- int32(n): the low 32 bits with their sign.
unfoldable pub wrap_32 : ℤ → ℤ
wrap_32 (pos n) = let r = n % 2 ^ 32 in if ltb r (2 ^ 31) then pos r else negsuc (2 ^ 32 - suc r)
wrap_32 (negsuc n) = let r = n % 2 ^ 32 in if ltb r (2 ^ 31) then negsuc r else pos (2 ^ 32 - suc r)

unfoldable pub record_to_proto : JobRecord → ProtoJob
unfolding wrap_32
record_to_proto rec = record {
  id = rec.id;
  kind = rec.kind;
  payload = rec.payload;
  queue = rec.queue;
  priority = wrap_32 rec.priority;
  state = rec.state;
  attempt = wrap_32 rec.attempt;
  max_retries = wrap_32 rec.max_retries;
  created_at = rec.created_at;
  scheduled_at = rec.scheduled_at;
  started_at = rec.started_at;
  completed_at = rec.completed_at;
  last_error = rec.last_error;
}

-- Within 32 bits nothing is lost.
pub wrap_32_fits : (z : ℤ) → negsuc (2 ^ 31 - 1) ≤ℤ z → z ≤ℤ pos (2 ^ 31 - 1) → wrap_32 z ≡ z
unfolding wrap_32
wrap_32_fits (pos n) low high = ground arith
wrap_32_fits (negsuc n) low high = ground arith
