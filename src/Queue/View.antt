-- ===== src/Queue/View.antt =====
-- One job of one queue as the scripts of internal/queue/scripts.go see it, and how the commands
-- change that view.
use winter.Base.{
  ℕ, suc, ◌-◌, String, ℤ, ◌≡◌, Bool, true, false, ◌&&◌, ◌||◌, Option, none, some, List, [], ◌∷◌,
  arith, ◌==◌, eq_iff, if◌then◌else◌,
}
use winter.Redis.{Redis, Db, Value, to_map, erase_first, elem}
use winter.Queue.Keys.{ready_key, delayed_key, lease_key, active_key, dead_key, job_key}
use winter.Queue.Scripts.{hset_all}

-- The scores of the job in the sorted sets of the queue, its place in the active set, how often it
-- stands in the dead letter queue, and its hash.
pub record JobView : Type 0 where
  pub ready : Option ℤ
  pub delayed : Option ℤ
  pub lease : Option ℤ
  pub active : Bool
  pub dead : ℕ
  pub hash : String → Option Value

abbrev pub occurrences : String → List String → ℕ
occurrences x [] = 0
occurrences x (y ∷ ys) = if y == x then suc (occurrences x ys) else occurrences x ys

-- The fields of a hash after an HSET of several fields.
abbrev pub override : List (String × Value) → (String → Option Value) → String → Option Value
override fvs m f = elim (to_map fvs f) [ some v ↦ some v | none ↦ m f ]

module _ (R : Redis) where
  open R use {hget, hset, zscore, sismember, lrange, hget-hset}

  -- The database shows job `id` of queue `q` as the view says.
  pub record Shows (q : String) (db : Db R) (id : String) (v : JobView) : Type 0 where
    pub ready : zscore db.zsets (ready_key q) id ≡ v.ready
    pub delayed : zscore db.zsets (delayed_key q) id ≡ v.delayed
    pub lease : zscore db.zsets (lease_key q) id ≡ v.lease
    pub active : sismember db.sets (active_key q) id ≡ v.active
    pub dead : occurrences id (lrange db.lists (dead_key q)) ≡ v.dead
    pub hash : (f : String) → hget db.hashes (job_key id) f ≡ v.hash f

  abbrev pub view : String → Db R → String → JobView
  view q db id = record {
    ready = zscore db.zsets (ready_key q) id;
    delayed = zscore db.zsets (delayed_key q) id;
    lease = zscore db.zsets (lease_key q) id;
    active = sismember db.sets (active_key q) id;
    dead = occurrences id (lrange db.lists (dead_key q));
    hash = λ f. hget db.hashes (job_key id) f;
  }

  -- A loop over ids that repeats a transition of one job, where twice is as good as once.
  pub once :
      (f : JobView → JobView) (q : String) (db : Db R) (id : String) (v : JobView)
      → (Shows q db id (f (f v)) → Shows q db id (f v))
      → (b c : Bool) → Shows q db id (if c then f (if b then f v else v) else if b then f v else v)
      → Shows q db id (if b || c then f v else v)
  once f q db id v idem true true s = idem s
  once f q db id v idem true false s = s
  once f q db id v idem false true s = s
  once f q db id v idem false false s = s

  pub hget-hset_all :
      (k : String) (fvs : List (String × Value)) (h : R.Hashes) (j g : String)
      → hget (hset_all R k fvs h) j g
        ≡ (if k == j then override fvs (λ f. hget h j f) g else hget h j g)
  unfolding hset_all to_map
  hget-hset_all k [] h j g = ground arith
  hget-hset_all k ((f, v) ∷ r) h j g =
      ground (arith, hget-hset_all k r (hset k f v h) j g, hget-hset k f v h j g)

pub occurrences-erase_first :
    (x y : String) (l : List String)
    → occurrences y (erase_first x l)
      ≡ (if (x == y) && elem x l then occurrences y l - 1 else occurrences y l)
unfolding erase_first
occurrences-erase_first x y [] = ground arith
occurrences-erase_first x y (z ∷ l) =
    ground (arith, occurrences-erase_first x y l, eq_iff x y, eq_iff z x, eq_iff z y)
