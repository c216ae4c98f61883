-- ===== src/Queue/Stats/Cards.antt =====
-- ZCARD and SCARD after the commands that internal/queue/scripts.go uses, case by case.
use winter.Base.{suc, String, ℤ, ◌≡◌, true, false, none, some, arith, ◌==◌, eq_refl}
use winter.Redis.{Redis}

module _ (R : Redis) where
  open R use {
    hget, hgetall-map, zcard, scard, lrange, sismember, zscore, zscore-zadd, zscore-zrem, zpopmin,
    zpopmin-some, zcard-zadd, zcard-zrem, scard-sadd, scard-srem,
  }

  pub zcard-zadd_other :
      (k : String) (t : ℤ) (m : String) (z : R.SortedSets) (j : String)
      → (k == j) ≡ false
      → zcard (R.zadd k t m z) j ≡ zcard z j
  zcard-zadd_other k t m z j d = ground (arith, d, zcard-zadd k t m z j)

  pub zcard-zadd_new :
      (k : String) (t : ℤ) (m : String) (z : R.SortedSets)
      → zscore z k m ≡ none
      → zcard (R.zadd k t m z) k ≡ suc (zcard z k)
  zcard-zadd_new k t m z e = ground (arith, e, eq_refl k, zcard-zadd k t m z k)

  pub zcard-zrem_other :
      (k m : String) (z : R.SortedSets) (j : String)
      → (k == j) ≡ false
      → zcard (R.zrem k m z) j ≡ zcard z j
  zcard-zrem_other k m z j d = ground (arith, d, zcard-zrem k m z j)

  pub zcard-zrem_member :
      (k m : String) (t : ℤ) (z : R.SortedSets)
      → zscore z k m ≡ some t
      → suc (zcard (R.zrem k m z) k) ≡ zcard z k
  zcard-zrem_member k m t z e = ground (arith, e, eq_refl k, zcard-zrem k m z k)

  pub scard-sadd_other :
      (k m : String) (s : R.Sets) (j : String)
      → (k == j) ≡ false
      → scard (R.sadd k m s) j ≡ scard s j
  scard-sadd_other k m s j d = ground (arith, d, scard-sadd k m s j)

  pub scard-sadd_new :
      (k m : String) (s : R.Sets)
      → sismember s k m ≡ false
      → scard (R.sadd k m s) k ≡ suc (scard s k)
  scard-sadd_new k m s e = ground (arith, e, eq_refl k, scard-sadd k m s k)

  pub scard-srem_other :
      (s : R.Sets) (k m j : String) → (k == j) ≡ false → scard (R.srem s k m).1 j ≡ scard s j
  scard-srem_other s k m j d = ground (arith, d, scard-srem s k m j)

  pub scard-srem_member :
      (s : R.Sets) (k m : String)
      → sismember s k m ≡ true
      → suc (scard (R.srem s k m).1 k) ≡ scard s k
  scard-srem_member s k m e = ground (arith, e, eq_refl k, scard-srem s k m k)
