-- ===== src/Server/Failure.antt =====
-- winter.go: the errors that a handler may return, and what errors.As and errors.Is find in them.
use winter.Base.{String, ◌<>◌, ℤ, Bool, true, false, Option, none, some}

-- An error of errors.New or of another package, the errors of Reschedule and Cancel, ErrSkipRetry,
-- and an error that fmt.Errorf wraps behind a text. Delays are in milliseconds.
pub data Failure : Type 0 where
  plain : String → Failure
  reschedule : ℤ → Failure
  cancel : String → Failure
  skip_retry : Failure
  wrapping : String → Failure → Failure

-- The text of an error. How a delay is written is the parameter.
unfoldable pub error_text : (ℤ → String) → Failure → String
error_text duration (plain s) = s
error_text duration (reschedule delay) = "winter: reschedule in " <> duration delay
error_text duration (cancel reason) = "winter: cancel: " <> reason
error_text duration skip_retry = "winter: skip retry"
error_text duration (wrapping prefix e) = prefix <> error_text duration e

unfoldable pub is_reschedule : Failure → Option ℤ
is_reschedule (reschedule delay) = some delay
is_reschedule (wrapping prefix e) = is_reschedule e
is_reschedule _ = none

unfoldable pub is_cancel : Failure → Option String
is_cancel (cancel reason) = some reason
is_cancel (wrapping prefix e) = is_cancel e
is_cancel _ = none

-- errors.Is(err, ErrSkipRetry)
unfoldable pub is_skip_retry : Failure → Bool
is_skip_retry skip_retry = true
is_skip_retry (wrapping prefix e) = is_skip_retry e
is_skip_retry _ = false
