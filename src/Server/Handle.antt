-- ===== src/Server/Handle.antt =====
-- server.go: the registration of handlers, rate limits, hooks and middleware, and the typed job that
-- a handler gets. The decoding of JSON is a parameter. Times are in milliseconds, and a rate has no
-- negative numbers: Handle takes them as it takes 0.
use winter.Base.{
  ltb, String, ◌<>◌, ℤ, ◌≡◌, refl, ◌&&◌, ◌⊎◌, inl, inr, Option, none, some, List, [], ◌∷◌, ◌++◌,
  arith, ◌==◌, if◌then◌else◌,
}
use winter.Redis.{Redis}
use winter.Server.Failure.{Failure, plain}
use winter.Server.Process.{
  RawJob, Run, returned, Rate, Hook, on_start, on_complete, on_error, on_dead, World, HandlerFn,
  Middleware, lookup, Server,
}

-- Job[T], with its decoded arguments.
pub record Job (T : Type 0) : Type 0 where
  pub id : String
  pub args : T
  pub kind : String
  pub queue : String
  pub priority : ℤ
  pub state : String
  pub attempt : ℤ
  pub max_retries : ℤ
  pub created_at : ℤ
  pub scheduled_at : ℤ
  pub started_at : ℤ
  pub last_error : String

abbrev pub typed_job : {T : Type 0} → T → RawJob → Job T
typed_job args rj = record {
  id = rj.id;
  args = args;
  kind = rj.kind;
  queue = rj.queue;
  priority = rj.priority;
  state = rj.state;
  attempt = rj.attempt;
  max_retries = rj.max_retries;
  created_at = rj.created_at;
  scheduled_at = rj.scheduled_at;
  started_at = rj.started_at;
  last_error = rj.last_error;
}

pub record JobEvent : Type 0 where
  pub id : String
  pub kind : String
  pub queue : String
  pub attempt : ℤ
  pub error : Option Failure

module _ (R : Redis) where
  abbrev pub HookFunc : Type 0
  HookFunc = JobEvent → World R → World R

  pub record ServerHooks : Type 0 where
    pub starting : List HookFunc
    pub completing : List HookFunc
    pub failing : List HookFunc
    pub dying : List HookFunc

  -- OnStart, OnComplete, OnError and OnDead.
  unfoldable pub add_hook : Hook → HookFunc → ServerHooks → ServerHooks
  add_hook on_start fn h = record h { starting = h.starting ++ (fn ∷ []) }
  add_hook on_complete fn h = record h { completing = h.completing ++ (fn ∷ []) }
  add_hook on_error fn h = record h { failing = h.failing ++ (fn ∷ []) }
  add_hook on_dead fn h = record h { dying = h.dying ++ (fn ∷ []) }

  unfoldable pub fire_hooks : List HookFunc → JobEvent → World R → World R
  fire_hooks [] event w = w
  fire_hooks (fn ∷ fns) event w = fire_hooks fns event (fn event w)

  -- A hook that is added last is fired last.
  pub fire_hooks-append :
      (fns gns : List HookFunc) (event : JobEvent) (w : World R)
      → fire_hooks (fns ++ gns) event w ≡ fire_hooks gns event (fire_hooks fns event w)
  unfolding fire_hooks
  fire_hooks-append [] gns event w = refl
  fire_hooks-append (fn ∷ fns) gns event w = fire_hooks-append fns gns event (fn event w)

  unfoldable pub use_middleware : List (Middleware R) → Server R → Server R
  use_middleware ms s = record s { middleware = s.middleware ++ ms }

  unfoldable pub set_rate_limit : String → Rate → Server R → Server R
  set_rate_limit kind rate s = record s { rate_limits = (kind, rate) ∷ s.rate_limits }

  -- The rate of a task's options, if both of its numbers are positive.
  unfoldable pub add_rate : String → Option Rate → Server R → Server R
  unfolding set_rate_limit
  add_rate kind none s = s
  add_rate kind (some r) s = if ltb 0 r.max && ltb 0 r.per then set_rate_limit kind r s else s

  module _ {T : Type 0} (decode : String → String ⊎ T) where
    abbrev pub worked :
        String → (Job T → World R → Run × World R) → RawJob → World R → String ⊎ T → Run × World R
    worked kind work rj w (inl e) =
        (returned (some (plain ("winter: unmarshal " <> kind <> ": " <> e))) "", w)
    worked kind work rj w (inr args) = work (typed_job args rj) w

    -- The untyped handler of a kind.
    abbrev pub handler_of : String → (Job T → World R → Run × World R) → HandlerFn R
    handler_of kind work rj w = worked kind work rj w (decode rj.payload)

    unfoldable pub handle :
        String → Option Rate → (Job T → World R → Run × World R) → Server R → Server R
    unfolding add_rate
    handle kind rate work s =
        let limited = add_rate kind rate s in
        record limited { handlers = (kind, handler_of kind work) ∷ limited.handlers }

    -- The last registration of a kind counts, and leaves the handlers of other kinds.
    pub lookup-handle :
        (kind : String) (rate : Option Rate) (work : Job T → World R → Run × World R) (s : Server R)
        (k : String)
        → lookup k (handle kind rate work s).handlers
          ≡ (if kind == k then some (handler_of kind work) else lookup k s.handlers)
    unfolding handle add_rate set_rate_limit
    lookup-handle kind none work s k = refl
    lookup-handle kind (some r) work s k = ground arith
