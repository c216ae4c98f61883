-- ===== src/Redis/Memory/Scores.antt =====
-- Sorted sets in memory: the least member, and the members up to a score.
use winter.Base.{
  ℕ, zero, suc, ◌<◌, String, ℤ, ◌≤ℤ◌, leb_ℤ, ◌≡◌, refl, ap, ◌∙◌, true, ◌&&◌, Option, none, some,
  List, [], ◌∷◌, arith, ◌==◌, eq_iff, if◌then◌else◌, is_some, length, take, Bool-cases,
  Option-cases, inl, inr,
}
use winter.Redis.{elem}
use winter.Redis.Memory.Spaces.{Writes, fetch, names, named, inner, put_inner, inner-put}

-- The least score among some members.
abbrev pub better : Option (String × ℤ) → Option (String × ℤ) → Option (String × ℤ)
better none b = b
better (some a) none = some a
better (some (m, s)) (some (n, t)) = if leb_ℤ s t then some (m, s) else some (n, t)

abbrev pub scored : String → Option ℤ → Option (String × ℤ)
scored m none = none
scored m (some s) = some (m, s)

abbrev pub least : Writes (Option ℤ) → List String → Option (String × ℤ)
least z [] = none
least z (m ∷ ms) = better (scored m (fetch none m z)) (least z ms)

least-none :
    (z : Writes (Option ℤ)) (ms : List String) (n : String)
    → least z ms ≡ none
    → elem n ms ≡ true
    → fetch none n z ≡ none
least-none z [] n h e = cc
least-none z (m ∷ ms) n h e = ground (arith, least-none z ms n, eq_iff m n)

least-score :
    (z : Writes (Option ℤ)) (ms : List String) (m : String) (s : ℤ)
    → least z ms ≡ some (m, s)
    → fetch none m z ≡ some s
least-score z [] m s h = cc
least-score z (n ∷ ms) m s h = ground (arith, least-score z ms m s)

least-le :
    (z : Writes (Option ℤ)) (ms : List String) (m : String) (s : ℤ) (n : String) (t : ℤ)
    → least z ms ≡ some (m, s)
    → elem n ms ≡ true
    → fetch none n z ≡ some t
    → s ≤ℤ t
least-le z [] m s n t h e f = cc
least-le z (k ∷ ms) m s n t h e f = elim (Option-cases (least z ms)) [
  | inl empty ↦ ground (arith, h, e, f, empty, eq_iff k n, least-none z ms n)
  | inr ((m', s'), found) ↦
      ground (arith, h, e, f, found, eq_iff k n, least-le z ms m' s' n t found)
]

-- The members whose score is not above a bound.
abbrev pub up_to : Writes (Option ℤ) → ℤ → List String → List String
up_to z top [] = []
up_to z top (m ∷ ms) = elim (fetch none m z) [
  | none ↦ up_to z top ms
  | some s ↦ if leb_ℤ s top then m ∷ up_to z top ms else up_to z top ms
]

pub elem-take : (x : String) (n : ℕ) (l : List String) → elem x (take n l) ≡ true → elem x l ≡ true
elem-take x zero l h = cc
elem-take x (suc n) [] h = cc
elem-take x (suc n) (y ∷ l) h = ground (arith, elem-take x n l)

take_all : (n : ℕ) (l : List String) → length (take n l) < n → take n l ≡ l
take_all zero l h = elim h [ ]
take_all (suc n) [] h = refl
take_all (suc n) (y ∷ l) h = ap (λ r. y ∷ r) (take_all n l (omega arith))

pub up_to_sound :
    (z : Writes (Option ℤ)) (top : ℤ) (ms : List String) (m : String)
    → elem m (up_to z top ms) ≡ true
    → (s : ℤ) × (fetch none m z ≡ some s) × (s ≤ℤ top)
up_to_sound z top [] m h = cc
up_to_sound z top (k ∷ ms) m h = elim (Option-cases (fetch none k z)) [
  | inl e ↦ up_to_sound z top ms m (ground (arith, e, h))
  | inr (s, e) ↦ elim (Bool-cases (leb_ℤ s top && (k == m))) [
    | inl hit ↦ (s, ground (arith, e, hit, eq_iff k m), ground (arith, hit))
    | inr miss ↦ up_to_sound z top ms m (ground (arith, e, h, miss))
  ]
]

up_to_complete :
    (z : Writes (Option ℤ)) (top : ℤ) (ms : List String) (m : String) (s : ℤ)
    → elem m ms ≡ true
    → fetch none m z ≡ some s
    → s ≤ℤ top
    → elem m (up_to z top ms) ≡ true
up_to_complete z top [] m s h e b = cc
up_to_complete z top (k ∷ ms) m s h e b =
    ground (arith, h, e, b, eq_iff k m, up_to_complete z top ms m s)

abbrev pub pop : Writes (Writes (Option ℤ)) → String → Option (String × ℤ)
pop z k = least (inner z k) (names (inner z k))

abbrev pub after_pop :
    String → Writes (Writes (Option ℤ)) → Option (String × ℤ) → Writes (Writes (Option ℤ))
after_pop k z none = z
after_pop k z (some (m, s)) = put_inner k m none z

pub pop-none :
    (z : Writes (Writes (Option ℤ))) (k : String)
    → pop z k ≡ none
    → (after_pop k z (pop z k) ≡ z) × ((m : String) → fetch none m (inner z k) ≡ none)
pop-none z k h = (
  rw h,
  λ m. elim (Bool-cases (elem m (names (inner z k)))) [
    | inl e ↦ least-none (inner z k) (names (inner z k)) m h e
    | inr e ↦ ground (arith, e, named m (inner z k))
  ],
)

pub pop-some :
    (z : Writes (Writes (Option ℤ))) (k m : String) (s : ℤ)
    → pop z k ≡ some (m, s)
    → (after_pop k z (pop z k) ≡ put_inner k m none z)
      × (fetch none m (inner z k) ≡ some s)
      × ((n : String) (t : ℤ) → fetch none n (inner z k) ≡ some t → s ≤ℤ t)
pop-some z k m s h = (
  rw h,
  least-score (inner z k) (names (inner z k)) m s h,
  λ n t e. least-le (inner z k) (names (inner z k)) m s n t h (named n (inner z k) (rw e)) e,
)

-- A score moves only if there is one.
abbrev pub moved : Option ℤ → ℤ → Option ℤ
moved none s = none
moved (some t) s = some s

pub range_whole :
    (z : Writes (Option ℤ)) (top : ℤ) (limit : ℕ) (m : String) (s : ℤ)
    → length (take limit (up_to z top (names z))) < limit
    → fetch none m z ≡ some s
    → s ≤ℤ top
    → elem m (take limit (up_to z top (names z))) ≡ true
range_whole z top limit m s room e b =
    rw (take_all limit (up_to z top (names z)) room)
      (up_to_complete z top (names z) m s (named m z (rw e)) e b)

pub inner-moved :
    (k : String) (s : ℤ) (m : String) (z : Writes (Writes (Option ℤ))) (j n : String)
    → fetch none n (inner (put_inner k m (moved (fetch none m (inner z k)) s) z) j) ≡ (
        if (k == j) && (m == n) && is_some (fetch none n (inner z j))
        then some s
        else fetch none n (inner z j))
inner-moved k s m z j n = inner-put k m _ none z j n ∙ ground (arith, eq_iff k j, eq_iff m n)
