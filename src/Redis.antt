-- ===== src/Redis.antt =====
-- The Redis server, which the program calls and does not implement: a parameter of the model.
-- One carrier for each type of value that a key can hold, the commands that the program sends, and
-- the documented effect of each command as a law. A key that is used as a hash is never used as a
-- set, so that no command fails with WRONGTYPE; a field that HINCRBY names holds a number.
pub mod Memory
use winter.Base.{
  ℕ, ◌+◌, String, ℤ, pos, ◌+ℤ◌, ◌≤ℤ◌, ◌≡◌, Bool, true, false, ◌&&◌, ◌||◌, not, Option, none, some,
  List, [], ◌∷◌, ◌==◌, if◌then◌else◌, is_some, or_else, length, ◌<◌, ◌≤◌,
}

-- A field or a string value. Redis keeps numbers in decimal: a field of the program always holds
-- the one or always the other.
pub data Value : Type 0 where
  text : String → Value
  num : ℤ → Value

-- The reply of HGETALL as a dictionary: a later pair wins.
unfoldable pub to_map : List (String × Value) → String → Option Value
to_map [] f = none
to_map ((k, v) ∷ r) f = elim (to_map r f) [
  | some w ↦ some w
  | none ↦ if k == f then some v else none
]

-- LREM key 1 x: the first occurrence goes.
unfoldable pub erase_first : String → List String → List String
erase_first x [] = []
erase_first x (y ∷ ys) = if y == x then ys else y ∷ erase_first x ys

abbrev pub elem : String → List String → Bool
elem x [] = false
elem x (y ∷ ys) = (y == x) || elem x ys

-- What an integer reply says of a membership.
abbrev pub flag : Bool → ℕ
flag true = 1
flag false = 0

pub record Redis : Type 1 where
  pub Hashes : Type 0
  pub hget : Hashes → String → String → Option Value
  pub hgetall : Hashes → String → List (String × Value)
  pub hset : String → String → Value → Hashes → Hashes
  pub hdel : String → String → Hashes → Hashes
  pub hincrby : Hashes → String → String → ℕ → ℤ × Hashes
  pub hash_del : String → Hashes → Hashes
  pub hgetall-map : (h : Hashes) (k f : String) → to_map (hgetall h k) f ≡ hget h k f
  pub hget-hset :
      (k f : String) (v : Value) (h : Hashes) (j g : String)
      → hget (hset k f v h) j g ≡ (if (k == j) && (f == g) then some v else hget h j g)
  pub hget-hdel :
      (k f : String) (h : Hashes) (j g : String)
      → hget (hdel k f h) j g ≡ (if (k == j) && (f == g) then none else hget h j g)
  pub hget-hincrby :
      (h : Hashes) (k f : String) (n : ℕ) (j g : String)
      → hget (hincrby h k f n).1 j g
        ≡ (if (k == j) && (f == g) then some (num (hincrby h k f n).0) else hget h j g)
  pub hincrby-missing :
      (h : Hashes) (k f : String) (n : ℕ) → hget h k f ≡ none → (hincrby h k f n).0 ≡ pos n
  pub hincrby-number :
      (h : Hashes) (k f : String) (n : ℕ) (z : ℤ)
      → hget h k f ≡ some (num z)
      → (hincrby h k f n).0 ≡ z +ℤ pos n
  pub hget-hash_del :
      (k : String) (h : Hashes) (j g : String)
      → hget (hash_del k h) j g ≡ (if k == j then none else hget h j g)
  pub SortedSets : Type 0
  pub zscore : SortedSets → String → String → Option ℤ
  pub zadd : String → ℤ → String → SortedSets → SortedSets
  pub zadd_xx : String → ℤ → String → SortedSets → SortedSets
  pub zrem : String → String → SortedSets → SortedSets
  pub zpopmin : SortedSets → String → Option (String × ℤ) × SortedSets
  pub zrangebyscore : SortedSets → String → ℤ → ℕ → List String
  pub zscore-zadd :
      (k : String) (s : ℤ) (m : String) (z : SortedSets) (j n : String)
      → zscore (zadd k s m z) j n ≡ (if (k == j) && (m == n) then some s else zscore z j n)
  pub zscore-zadd_xx :
      (k : String) (s : ℤ) (m : String) (z : SortedSets) (j n : String)
      → zscore (zadd_xx k s m z) j n
        ≡ (if (k == j) && (m == n) && is_some (zscore z j n) then some s else zscore z j n)
  pub zscore-zrem :
      (k m : String) (z : SortedSets) (j n : String)
      → zscore (zrem k m z) j n ≡ (if (k == j) && (m == n) then none else zscore z j n)
  pub zpopmin-none :
      (z : SortedSets) (k : String)
      → (zpopmin z k).0 ≡ none
      → ((zpopmin z k).1 ≡ z) × ((m : String) → zscore z k m ≡ none)
  pub zpopmin-some :
      (z : SortedSets) (k m : String) (s : ℤ)
      → (zpopmin z k).0 ≡ some (m, s)
      → ((zpopmin z k).1 ≡ zrem k m z)
        × (zscore z k m ≡ some s)
        × ((n : String) (t : ℤ) → zscore z k n ≡ some t → s ≤ℤ t)
  pub range_sound :
      (z : SortedSets) (k : String) (top : ℤ) (limit : ℕ) (m : String)
      → elem m (zrangebyscore z k top limit) ≡ true
      → (s : ℤ) × (zscore z k m ≡ some s) × (s ≤ℤ top)
  pub range_complete :
      (z : SortedSets) (k : String) (top : ℤ) (limit : ℕ) (m : String) (s : ℤ)
      → length (zrangebyscore z k top limit) < limit
      → zscore z k m ≡ some s
      → s ≤ℤ top
      → elem m (zrangebyscore z k top limit) ≡ true
  pub range_limit :
      (z : SortedSets) (k : String) (top : ℤ) (limit : ℕ)
      → length (zrangebyscore z k top limit) ≤ limit
  pub zcard : SortedSets → String → ℕ
  pub zcard-zadd :
      (k : String) (s : ℤ) (m : String) (z : SortedSets) (j : String)
      → zcard (zadd k s m z) j + flag ((k == j) && is_some (zscore z j m))
        ≡ zcard z j + flag (k == j)
  pub zcard-zadd_xx :
      (k : String) (s : ℤ) (m : String) (z : SortedSets) (j : String)
      → zcard (zadd_xx k s m z) j ≡ zcard z j
  pub zcard-zrem :
      (k m : String) (z : SortedSets) (j : String)
      → zcard (zrem k m z) j + flag ((k == j) && is_some (zscore z j m)) ≡ zcard z j
  pub Sets : Type 0
  pub sismember : Sets → String → String → Bool
  pub sadd : String → String → Sets → Sets
  pub srem : Sets → String → String → ℕ × Sets
  pub scard : Sets → String → ℕ
  pub set_del : String → Sets → Sets
  pub sismember-sadd :
      (k m : String) (s : Sets) (j n : String)
      → sismember (sadd k m s) j n ≡ (if (k == j) && (m == n) then true else sismember s j n)
  pub srem_reply : (s : Sets) (k m : String) → (srem s k m).0 ≡ flag (sismember s k m)
  pub sismember-srem :
      (s : Sets) (k m j n : String)
      → sismember (srem s k m).1 j n ≡ (if (k == j) && (m == n) then false else sismember s j n)
  pub sismember-set_del :
      (k : String) (s : Sets) (j n : String)
      → sismember (set_del k s) j n ≡ (if k == j then false else sismember s j n)
  pub scard_empty :
      (s : Sets) (k : String) → ((m : String) → sismember s k m ≡ false) → scard s k ≡ 0
  pub scard_zero : (s : Sets) (k m : String) → scard s k ≡ 0 → sismember s k m ≡ false
  pub scard-sadd :
      (k m : String) (s : Sets) (j : String)
      → scard (sadd k m s) j + flag ((k == j) && sismember s j m) ≡ scard s j + flag (k == j)
  pub scard-srem :
      (s : Sets) (k m j : String)
      → scard (srem s k m).1 j + flag ((k == j) && sismember s j m) ≡ scard s j
  pub Lists : Type 0
  pub lrange : Lists → String → List String
  pub lpush : String → String → Lists → Lists
  pub lrem : Lists → String → String → ℕ × Lists
  pub list_del : String → Lists → Lists
  pub lrange-lpush :
      (k x : String) (l : Lists) (j : String)
      → lrange (lpush k x l) j ≡ (if k == j then x ∷ lrange l j else lrange l j)
  pub lrem_reply : (l : Lists) (k x : String) → (lrem l k x).0 ≡ flag (elem x (lrange l k))
  pub lrange-lrem :
      (l : Lists) (k x j : String)
      → lrange (lrem l k x).1 j ≡ (if k == j then erase_first x (lrange l j) else lrange l j)
  pub lrange-list_del :
      (k : String) (l : Lists) (j : String)
      → lrange (list_del k l) j ≡ (if k == j then [] else lrange l j)
  pub Strings : Type 0
  pub get : Strings → String → Option Value
  pub set : String → Value → Strings → Strings
  pub set_nx : Strings → String → Value → Bool × Strings
  pub incr : Strings → String → ℤ × Strings
  pub del : String → Strings → Strings
  pub get-set :
      (k : String) (v : Value) (s : Strings) (j : String)
      → get (set k v s) j ≡ (if k == j then some v else get s j)
  pub set_nx_reply :
      (s : Strings) (k : String) (v : Value) → (set_nx s k v).0 ≡ not (is_some (get s k))
  pub get-set_nx :
      (s : Strings) (k : String) (v : Value) (j : String)
      → get (set_nx s k v).1 j ≡ (if k == j then some (or_else (get s j) v) else get s j)
  pub incr-missing : (s : Strings) (k : String) → get s k ≡ none → (incr s k).0 ≡ pos 1
  pub incr-number :
      (s : Strings) (k : String) (z : ℤ) → get s k ≡ some (num z) → (incr s k).0 ≡ z +ℤ pos 1
  pub get-incr :
      (s : Strings) (k j : String)
      → get (incr s k).1 j ≡ (if k == j then some (num (incr s k).0) else get s j)
  pub get-del :
      (k : String) (s : Strings) (j : String) → get (del k s) j ≡ (if k == j then none else get s j)

-- The database: the five key spaces.
pub record Db (R : Redis) : Type 0 where
  pub hashes : R.Hashes
  pub zsets : R.SortedSets
  pub sets : R.Sets
  pub lists : R.Lists
  pub strings : R.Strings
