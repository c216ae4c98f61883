-- ===== src/Redis/Memory.antt =====
-- A small Redis in memory, which shows that the laws can be met and runs the examples. Each key
-- space is a list of writes, the last one first.
mod Spaces
mod Scores
mod Cards
use winter.Base.{
  ℕ, zero, suc, ◌+◌, ◌≤◌, ◌<◌, String, ℤ, pos, ◌+ℤ◌, zero-+ℤ, ◌≤ℤ◌, leb_ℤ, ◌≡◌, refl, sym, ap, ◌∙◌,
  Bool, true, false, ◌&&◌, ◌||◌, not, Option, none, some, List, [], ◌∷◌, ◌++◌, arith, ◌==◌, eq_refl,
  eq_iff, if◌then◌else◌, is_some, or_else, length, take, length-take-le, Bool-cases, Option-cases,
  inl, inr,
}
use winter.Redis.{Redis, Value, text, num, to_map, erase_first, elem, flag}
use winter.Redis.Memory.Spaces.{
  Writes, fetch, names, present, to_map-hgetall, members_of, members_of_empty, inner, put_inner,
  inner-put, inner-del, unmarked, fetch-update, int_or_zero,
}
use winter.Redis.Memory.Cards.{
  card, card_none, card_zero, marked, flag-and_true, flag-and_false, set_card-put, scores_card-put,
  scores_card-move,
}
use winter.Redis.Memory.Scores.{
  up_to, up_to_sound, elem-take, pop, after_pop, pop-none, pop-some, moved, inner-moved,
  range_whole,
}

abbrev pub memory : Redis
memory = record {
  Hashes = Writes (Writes (Option Value));
  hget = λ h k f. fetch none f (inner h k);
  hgetall = λ h k. present (inner h k) (names (inner h k));
  hset = λ k f v h. put_inner k f (some v) h;
  hdel = λ k f h. put_inner k f none h;
  hincrby = λ h k f n.
      let z = int_or_zero (fetch none f (inner h k)) +ℤ pos n in
      (z, put_inner k f (some (num z)) h);
  hash_del = λ k h. (k, []) ∷ h;
  hgetall-map = λ h k f. to_map-hgetall (inner h k) f;
  hget-hset = λ k f v h j g. inner-put k f (some v) none h j g;
  hget-hdel = λ k f h j g. inner-put k f none none h j g;
  hget-hincrby = λ h k f n j g. inner-put k f _ none h j g;
  hincrby-missing = λ h k f n e. rw e (zero-+ℤ _);
  hincrby-number = λ h k f n z e. rw e;
  hget-hash_del = λ k h j g. inner-del k none h j g;
  SortedSets = Writes (Writes (Option ℤ));
  zscore = λ z k m. fetch none m (inner z k);
  zadd = λ k s m z. put_inner k m (some s) z;
  zadd_xx = λ k s m z. put_inner k m (moved (fetch none m (inner z k)) s) z;
  zrem = λ k m z. put_inner k m none z;
  zpopmin = λ z k. (pop z k, after_pop k z (pop z k));
  zrangebyscore = λ z k top limit. take limit (up_to (inner z k) top (names (inner z k)));
  zscore-zadd = λ k s m z j n. inner-put k m (some s) none z j n;
  zscore-zadd_xx = λ k s m z j n. inner-moved k s m z j n;
  zscore-zrem = λ k m z j n. inner-put k m none none z j n;
  zpopmin-none = pop-none;
  zpopmin-some = pop-some;
  range_sound = λ z k top limit m h.
      up_to_sound (inner z k) top (names (inner z k)) m (elem-take m limit _ h);
  range_complete = λ z k top limit m s. range_whole (inner z k) top limit m s;
  range_limit = λ z k top limit. length-take-le limit _;
  zcard = λ z k. card none is_some (inner z k);
  zcard-zadd = λ k s m z j. scores_card-put k m (some s) z j ∙ flag-and_true _ (k == j);
  zcard-zadd_xx = λ k s m z j. scores_card-move k s m z j;
  zcard-zrem = λ k m z j. scores_card-put k m none z j ∙ flag-and_false _ (k == j);
  Sets = Writes (Writes Bool);
  sismember = λ s k m. fetch false m (inner s k);
  sadd = λ k m s. put_inner k m true s;
  srem = λ s k m. (flag (fetch false m (inner s k)), put_inner k m false s);
  scard = λ s k. card false marked (inner s k);
  set_del = λ k s. (k, []) ∷ s;
  sismember-sadd = λ k m s j n. inner-put k m true false s j n;
  srem_reply = λ s k m. refl;
  sismember-srem = λ s k m j n. inner-put k m false false s j n;
  sismember-set_del = λ k s j n. inner-del k false s j n;
  scard_empty = λ s k. card_none false marked refl (inner s k);
  scard_zero = λ s k m h. card_zero false marked refl (inner s k) m h;
  scard-sadd = λ k m s j. set_card-put k m true s j ∙ flag-and_true _ (k == j);
  scard-srem = λ s k m j. set_card-put k m false s j ∙ flag-and_false _ (k == j);
  Lists = Writes (List String);
  lrange = λ l k. fetch [] k l;
  lpush = λ k x l. (k, x ∷ fetch [] k l) ∷ l;
  lrem = λ l k x. (flag (elem x (fetch [] k l)), (k, erase_first x (fetch [] k l)) ∷ l);
  list_del = λ k l. (k, []) ∷ l;
  lrange-lpush = λ k x l j. fetch-update k (λ r. x ∷ r) [] l j;
  lrem_reply = λ l k x. refl;
  lrange-lrem = λ l k x j. fetch-update k (λ r. erase_first x r) [] l j;
  lrange-list_del = λ k l j. refl;
  Strings = Writes (Option Value);
  get = λ s k. fetch none k s;
  set = λ k v s. (k, some v) ∷ s;
  set_nx = λ s k v. (not (is_some (fetch none k s)), (k, some (or_else (fetch none k s) v)) ∷ s);
  incr = λ s k. let z = int_or_zero (fetch none k s) +ℤ pos 1 in (z, (k, some (num z)) ∷ s);
  del = λ k s. (k, none) ∷ s;
  get-set = λ k v s j. refl;
  set_nx_reply = λ s k v. refl;
  get-set_nx = λ s k v j. fetch-update k (λ o. some (or_else o v)) none s j;
  incr-missing = λ s k e. rw e (zero-+ℤ _);
  incr-number = λ s k z e. rw e;
  get-incr = λ s k j. refl;
  get-del = λ k s j. refl;
}
