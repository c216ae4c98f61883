-- ===== src/Client/Wait.antt =====
-- winter.go, WaitForResult, and the result that a completed job leaves (server.go, processJob). The
-- decoding of JSON is a parameter. Each poll finds the database that the others have made of it.
use winter.Base.{
  String, ◌≡◌, refl, ◌∙◌, Bool, true, false, Option, none, some, List, [], ◌∷◌, ◌++◌, All,
  if◌then◌else◌, ◌||◌,
}
use winter.Redis.{Redis, Db}
use winter.Queue.Keys.{result_key}
use winter.Queue.Link.{Link, Result, ok, err, Error, up, reached}
use winter.Queue.Api.{set_result, get_result}
use winter.Queue.Refine.Stored.{get_result-set_result}

-- A round of the loop: its request, and whether the context ends before the next tick.
pub record Poll (R : Redis) : Type 0 where
  pub link : Link
  pub db : Db R
  pub ends : Bool

pub data Waited (A : Type 0) : Type 0 where
  found : A → Waited A
  failed : Error → Waited A
  unmarshal_error : Waited A
  context_error : Waited A

module _ (R : Redis) {A : Type 0} (decode : String → Option A) where
  abbrev pub decoded : Option A → Waited A
  decoded (some a) = found a
  decoded none = unmarshal_error

  abbrev pub after_poll : Bool → Result (Option String) → Option (Waited A) → Option (Waited A)
  after_poll ends (err e) rest = some (failed e)
  after_poll ends (ok (some bytes)) rest = some (decoded (decode bytes))
  after_poll ends (ok none) rest = if ends then some context_error else rest

  -- The rounds in their order: none while the caller still waits.
  unfoldable pub wait_for_result : String → List (Poll R) → Option (Waited A)
  wait_for_result id [] = none
  wait_for_result id (p ∷ ps) =
      let rest = wait_for_result id ps in after_poll p.ends (get_result R p.link id p.db).0 rest

  -- A round that finds no result, and after which the caller waits on.
  abbrev pub Waits : String → Poll R → Type 0
  Waits id p = (p.link ≡ up) × (p.ends ≡ false) × (R.get p.db.strings (result_key id) ≡ none)

  wait_step :
      (id : String) (p : Poll R) (ps : List (Poll R))
      → Waits id p
      → wait_for_result id (p ∷ ps) ≡ wait_for_result id ps
  unfolding wait_for_result get_result
  wait_step id p ps (l, e, g) = rw (l, e, g) refl

  wait_steps :
      (id : String) (before rest : List (Poll R))
      → All (Waits id) before
      → wait_for_result id (before ++ rest) ≡ wait_for_result id rest
  wait_steps id [] rest w = refl
  wait_steps id (p ∷ ps) rest (w, ws) = wait_step id p (ps ++ rest) w ∙ wait_steps id ps rest ws

  -- The value that a job stores comes back to the caller that waits for it: whatever rounds found
  -- nothing before, if a round on a working link sees the database that a SetResult of an encoded
  -- value has reached, then WaitForResult returns that value, provided that decoding undoes encoding.
  pub wait_round_trip :
      (encode : A → String) (undo : (a : A) → decode (encode a) ≡ some a) (id : String) (a : A)
      (before after : List (Poll R)) (link : Link) (db : Db R) (ends : Bool)
      → All (Waits id) before
      → reached link ≡ true
      → wait_for_result id (
          before
          ++ (record { link = up; db = (set_result R link id (encode a) db).1; ends = ends }
              ∷ after))
        ≡ some (found a)
  wait_round_trip encode undo id a before after link db ends w r =
      wait_steps id before _ w
      ∙ unfold wait_for_result in rw (get_result-set_result R link id (encode a) db r, undo a) refl

  abbrev pub some_end : List (Poll R) → Bool
  some_end [] = false
  some_end (p ∷ ps) = p.ends || some_end ps

  round_answers :
      (ends : Bool) (result : Result (Option String)) (rest : Option (Waited A))
      → (ends ≡ false → (w : Waited A) × (rest ≡ some w))
      → (w : Waited A) × (after_poll ends result rest ≡ some w)
  round_answers ends (err e) rest k = (failed e, refl)
  round_answers ends (ok (some bytes)) rest k = (decoded (decode bytes), refl)
  round_answers true (ok none) rest k = (context_error, refl)
  round_answers false (ok none) rest k = k refl

  -- WaitForResult ends: if the context ends in some round, the caller has an answer, whatever the
  -- links and the databases of the rounds are.
  pub wait_ends :
      (id : String) (ps : List (Poll R))
      → some_end ps ≡ true
      → (w : Waited A) × (wait_for_result id ps ≡ some w)
  unfolding wait_for_result
  wait_ends id [] h = cc
  wait_ends id (p ∷ ps) h =
      round_answers p.ends (get_result R p.link id p.db).0 (wait_for_result id ps)
        (λ e. wait_ends id ps (rw e at h))
