-- ===== src/Grpc/Interceptors.antt =====
-- internal/server/interceptors.go, in the order of cmd/server/main.go: the logging of each call and
-- the recovery from panics. Times are left out of the log lines. What a handler does to its state
-- before it panics stays done.
use winter.Base.{
  ◌+◌, length, arith, if◌then◌else◌, String, ◌<>◌, ◌≡◌, refl, Bool, true, false, Option, none, some,
  List, ◌∷◌,
}

-- codes.Code: the code that the interceptors know, and the others by their names.
pub data Code : Type 0 where
  internal : Code
  other : String → Code

abbrev pub code_name : Code → String
code_name internal = "Internal"
code_name (other name) = name

-- How a handler ends: with a response, with the status of an error, or with a panic.
pub data Ended (A : Type 0) : Type 0 where
  answered : A → Ended A
  failed : Code → String → Ended A
  panicked : String → Ended A

pub data Level : Type 0 where
  info warn error : Level

pub record LogLine : Type 0 where
  pub level : Level
  pub full_method : String
  pub code : String
  pub message : Option String

-- The state of the service, with its log, the last line first.
pub record Service (S : Type 0) : Type 0 where
  pub state : S
  pub log : List LogLine

-- A handler with its request.
abbrev pub Handler : Type 0 → Type 0 → Type 0
Handler S A = Service S → Ended A × Service S

abbrev pub level_of : Code → Level
level_of internal = error
level_of (other name) = warn

abbrev pub is_panic : {A : Type 0} → Ended A → Bool
is_panic (panicked text) = true
is_panic _ = false

module _ {A : Type 0} where
  -- The code after the call of the handler, which a panic skips.
  unfoldable pub logged : String → Ended A → List LogLine → List LogLine
  logged full_method (answered a) log =
      record { level = info; full_method = full_method; code = "OK"; message = none } ∷ log
  logged full_method (failed code message) log =
      record {
        level = level_of code;
        full_method = full_method;
        code = code_name code;
        message = some message;
      }
      ∷ log
  logged full_method (panicked text) log = log

  abbrev pub recovered : Ended A → Ended A
  recovered (panicked text) = failed internal ("panic: " <> text)
  recovered (answered a) = answered a
  recovered (failed code message) = failed code message

module _ {S A : Type 0} where
  unfoldable pub logging_interceptor : String → Handler S A → Handler S A
  unfolding logged
  logging_interceptor full_method handler s =
      let (e, s') = handler s in (e, record s' { log = logged full_method e s'.log })

  unfoldable pub recovery_interceptor : Handler S A → Handler S A
  recovery_interceptor handler s = let (e, s') = handler s in (recovered e, s')

  -- The chain of cmd/server: recovery is the outermost.
  unfoldable pub chain : String → Handler S A → Handler S A
  unfolding logging_interceptor recovery_interceptor
  chain full_method handler = recovery_interceptor (logging_interceptor full_method handler)

  -- A call through the interceptors never panics and keeps what the handler has done to the state.
  -- A call that the handler ends gives the handler's answer and adds one line to the log; a call
  -- that panics gives an internal error and adds no line.
  pub chain_ends :
      (full_method : String) (handler : Handler S A) (s : Service S)
      → let (e, s') = handler s in
        let (r, t) = chain full_method handler s in
        (is_panic r ≡ false)
        × (t.state ≡ s'.state)
        × (length t.log ≡ length s'.log + (if is_panic e then 0 else 1))
        × (r ≡ (elim e [
          | answered a ↦ answered a
          | failed code message ↦ failed code message
          | panicked text ↦ failed internal ("panic: " <> text)
        ]))
  unfolding chain
  chain_ends full_method handler s = ended (handler s).0 (handler s).1
    where
      ended :
          (e : Ended A) (s' : Service S)
          → (is_panic (recovered e) ≡ false)
            × (s'.state ≡ s'.state)
            × (length (logged full_method e s'.log) ≡ length s'.log + (if is_panic e then 0 else 1))
            × (recovered e ≡ (elim e [
              | answered a ↦ answered a
              | failed code message ↦ failed code message
              | panicked text ↦ failed internal ("panic: " <> text)
            ]))
      ended (answered a) s' = (refl, refl, omega arith, refl)
      ended (failed code message) s' = (refl, refl, omega arith, refl)
      ended (panicked text) s' = (refl, refl, omega arith, refl)
