-- ===== src/Queue/Link.antt =====
-- A round trip to Redis as the Go client sees it, and the errors that the queue package returns.
use text.Mathlib.Text.{find?}
use winter.Base.{String, Bool, true, false, is_some}
use winter.Queue.Scripts.{Reply, reply, error_reply}

-- What the network makes of one round trip: it succeeds; the request never arrives; or the
-- request is executed and its reply is lost. The text is that of the client's error.
pub data Link : Type 0 where
  up : Link
  refused : String → Link
  cut : String → Link

-- Whether the server executes the request.
abbrev pub reached : Link → Bool
reached up = true
reached (refused e) = false
reached (cut e) = true

pub data Error : Type 0 where
  duplicate : Error
  redis_error : String → Error
  wrapped : String → Error → Error
  not_in_dead : String → Error
  -- No error, but a panic of the Go runtime on an index that is out of range.
  index_panic : Error

pub data Result {ℓ} (A : Type ℓ) : Type ℓ where
  ok : A → Result A
  err : Error → Result A

-- The value of a method that returns an error alone.
abbrev pub Done : Type 0
Done = Unit

-- fmt.Errorf("prefix: %w", err)
abbrev pub context {ℓ} : {A : Type ℓ} → String → Result A → Result A
context prefix (ok a) = ok a
context prefix (err e) = err (wrapped prefix e)

abbrev pub map_result {ℓ κ} : {A : Type ℓ} {B : Type κ} → (A → B) → Result A → Result B
map_result f (ok a) = ok (f a)
map_result f (err e) = err e

abbrev pub is_ok {ℓ} : {A : Type ℓ} → Result A → Bool
is_ok (ok a) = true
is_ok (err e) = false

-- strings.Contains
abbrev pub contains : String → String → Bool
contains s t = is_some (find? s t)

abbrev pub of_reply {ℓ} : {A : Type ℓ} → Reply A → Result A
of_reply (reply a) = ok a
of_reply (error_reply e) = err (redis_error e)

module _ {S A : Type 0} where
  -- A command or a script over the link.
  unfoldable pub call : Link → (S → A × S) → S → Result A × S
  call up f s = let (a, s') = f s in (ok a, s')
  call (refused e) f s = (err (redis_error e), s)
  call (cut e) f s = (err (redis_error e), (f s).1)

  -- The same for a script that may reply with an error.
  unfoldable pub call_script : Link → (S → Reply A × S) → S → Result A × S
  call_script up f s = let (a, s') = f s in (of_reply a, s')
  call_script (refused e) f s = (err (redis_error e), s)
  call_script (cut e) f s = (err (redis_error e), (f s).1)
