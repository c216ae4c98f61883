-- ===== src/Redis/Memory/Cards.antt =====
-- The number of members of a set or a sorted set in memory: names that are written twice count once.
use winter.Base.{
  ℕ, suc, ◌+◌, String, ◌≡◌, refl, Bool, true, false, ◌&&◌, not, List, [], ◌∷◌, arith, ℤ, Option,
  none, some, is_some, ◌==◌, eq_iff, eq_refl, if◌then◌else◌, Bool-cases, inl, inr,
}
use winter.Redis.{elem, flag}
use winter.Redis.Memory.Scores.{moved}
use winter.Redis.Memory.Spaces.{Writes, fetch, names, inner, put_inner}

-- `is` says which of the stored values stand for a member.
module _ {V : Type 0} (absent : V) (is : V → Bool) where
  abbrev pub distinct : Writes V → List String → ℕ
  distinct s [] = 0
  distinct s (n ∷ ns) =
      if is (fetch absent n s) && not (elem n ns) then suc (distinct s ns) else distinct s ns

  abbrev pub card : Writes V → ℕ
  card s = distinct s (names s)

  distinct-write :
      (m : String) (v : V) (s : Writes V) (ns : List String)
      → distinct ((m, v) ∷ s) ns + flag (elem m ns && is (fetch absent m s))
        ≡ distinct s ns + flag (elem m ns && is v)
  distinct-write m v s [] = refl
  distinct-write m v s (n ∷ ns) = ground (arith, distinct-write m v s ns, eq_iff n m, eq_iff m n)

  unnamed : (m : String) (s : Writes V) → elem m (names s) ≡ false → fetch absent m s ≡ absent
  unnamed m [] h = refl
  unnamed m ((k, v) ∷ s) h = ground (arith, unnamed m s)

  module _ (nothing : is absent ≡ false) where
    -- A write makes the member present or absent, and changes the number accordingly.
    pub card-write :
        (m : String) (v : V) (s : Writes V)
        → card ((m, v) ∷ s) + flag (is (fetch absent m s)) ≡ card s + flag (is v)
    card-write m v s = elim (Bool-cases (elem m (names s))) [
      | inl old ↦ ground (arith, old, eq_refl m, distinct-write m v s (names s))
      | inr new ↦
          ground (arith, new, eq_refl m, distinct-write m v s (names s), unnamed m s new, nothing)
    ]

    distinct_none :
        (s : Writes V) (ns : List String)
        → ((m : String) → is (fetch absent m s) ≡ false)
        → distinct s ns ≡ 0
    distinct_none s [] h = refl
    distinct_none s (n ∷ ns) h = rw (h n) (distinct_none s ns h)

    pub card_none : (s : Writes V) → ((m : String) → is (fetch absent m s) ≡ false) → card s ≡ 0
    card_none s h = distinct_none s (names s) h

    distinct_zero :
        (s : Writes V) (ns : List String) (m : String)
        → distinct s ns ≡ 0
        → elem m ns ≡ true
        → is (fetch absent m s) ≡ false
    distinct_zero s [] m z h = cc
    distinct_zero s (k ∷ ns) m z h = elim (Bool-cases (elem k ns)) [
      | inl again ↦ ground (arith, z, h, again, eq_iff k m, distinct_zero s ns m)
      | inr last ↦ ground (arith, z, h, last, eq_iff k m, distinct_zero s ns m)
    ]

    pub card_zero : (s : Writes V) (m : String) → card s ≡ 0 → is (fetch absent m s) ≡ false
    card_zero s m z = elim (Bool-cases (elem m (names s))) [
      | inl old ↦ distinct_zero s (names s) m z old
      | inr new ↦ rw (unnamed m s new) nothing
    ]

    -- The same for one key of many.
    pub card-put_inner :
        (k m : String) (v : V) (s : Writes (Writes V)) (j : String)
        → card (inner (put_inner k m v s) j) + flag ((k == j) && is (fetch absent m (inner s j)))
          ≡ card (inner s j) + flag ((k == j) && is v)
    card-put_inner k m v s j = elim (Bool-cases (k == j)) [
      | inl same ↦ ground (arith, same, eq_iff k j, card-write m v (inner s k))
      | inr other ↦ rw other refl
    ]

abbrev pub marked : Bool → Bool
marked b = b

pub flag-and_true : (n : ℕ) (b : Bool) → n + flag (b && true) ≡ n + flag b
flag-and_true n true = refl
flag-and_true n false = refl

pub flag-and_false : (n : ℕ) (b : Bool) → n + flag (b && false) ≡ n
flag-and_false n true = omega arith
flag-and_false n false = omega arith

pub set_card-put :
    (k m : String) (v : Bool) (s : Writes (Writes Bool)) (j : String)
    → card false marked (inner (put_inner k m v s) j) + flag ((k == j) && fetch false m (inner s j))
      ≡ card false marked (inner s j) + flag ((k == j) && v)
set_card-put k m v s j = card-put_inner false marked refl k m v s j

pub scores_card-put :
    (k m : String) (v : Option ℤ) (z : Writes (Writes (Option ℤ))) (j : String)
    → card none is_some (inner (put_inner k m v z) j)
        + flag ((k == j) && is_some (fetch none m (inner z j)))
      ≡ card none is_some (inner z j) + flag ((k == j) && is_some v)
scores_card-put k m v z j = card-put_inner none is_some refl k m v z j

pub is_some-moved : (o : Option ℤ) (s : ℤ) → is_some (moved o s) ≡ is_some o
is_some-moved none s = refl
is_some-moved (some t) s = refl

same_flag :
    (k : String) (s : ℤ) (m : String) (z : Writes (Writes (Option ℤ))) (j : String)
    → flag ((k == j) && is_some (moved (fetch none m (inner z k)) s))
      ≡ flag ((k == j) && is_some (fetch none m (inner z j)))
same_flag k s m z j = rw (is_some-moved (fetch none m (inner z k)) s) (ground (arith, eq_iff k j))

pub scores_card-move :
    (k : String) (s : ℤ) (m : String) (z : Writes (Writes (Option ℤ))) (j : String)
    → card none is_some (inner (put_inner k m (moved (fetch none m (inner z k)) s) z) j)
      ≡ card none is_some (inner z j)
scores_card-move k s m z j =
    omega (arith, same_flag k s m z j, scores_card-put k m (moved (fetch none m (inner z k)) s) z j)
