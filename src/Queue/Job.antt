-- ===== src/Queue/Job.antt =====
-- internal/queue/job.go, and the parsing of a job hash (parseJobRecord in internal/queue/queue.go).
use winter.Base.{String, ℤ, pos, Option, some, List}
use winter.Redis.{Value, text, num, to_map}
use winter.Queue.Double.{written_double}

pub record JobRecord : Type 0 where
  pub id : String
  pub kind : String
  pub queue : String
  pub priority : ℤ
  pub state : String
  pub payload : String
  pub attempt : ℤ
  pub max_retries : ℤ
  pub created_at : ℤ
  pub scheduled_at : ℤ
  pub started_at : ℤ
  pub completed_at : ℤ
  pub last_error : String
  pub unique_key : String
  pub workflow_id : String

-- strconv.Atoi and strconv.ParseInt with the error dropped: 0 for what is no number.
abbrev pub int_of : Option Value → ℤ
int_of (some (num z)) = z
int_of _ = pos 0

-- A lookup in a Go map of texts: "" for a missing key.
abbrev pub text_of : Option Value → String
text_of (some (text s)) = s
text_of _ = ""

-- The enqueue script writes priority, max_retries and scheduled_at as doubles; the scripts that write
-- a scheduled_at later pass on its text, which for a time in milliseconds is far below 10 ^ 17.
unfoldable pub parse_job_record_from_map : (String → Option Value) → JobRecord
parse_job_record_from_map m = record {
  id = text_of (m "id");
  kind = text_of (m "kind");
  queue = text_of (m "queue");
  priority = written_double (int_of (m "priority"));
  state = text_of (m "state");
  payload = text_of (m "payload");
  attempt = int_of (m "attempt");
  max_retries = written_double (int_of (m "max_retries"));
  created_at = int_of (m "created_at");
  scheduled_at = written_double (int_of (m "scheduled_at"));
  started_at = int_of (m "started_at");
  completed_at = int_of (m "completed_at");
  last_error = text_of (m "last_error");
  unique_key = text_of (m "unique_key");
  workflow_id = text_of (m "workflow_id");
}

unfoldable pub parse_job_record : List (String × Value) → JobRecord
unfolding parse_job_record_from_map
parse_job_record vals = parse_job_record_from_map (to_map vals)
