-- ===== src/Redis/Memory/Spaces.antt =====
-- Key spaces as lists of writes, the last one first: hashes and sets in memory.
use winter.Base.{
  ℕ, suc, String, ℤ, pos, ◌≡◌, refl, Bool, true, false, ◌&&◌, Option, none, some, List, [], ◌∷◌,
  arith, ◌==◌, eq_iff, if◌then◌else◌, is_some, Bool-cases, inl, inr,
}
use winter.Redis.{Value, num, to_map, elem}

abbrev pub Writes {ℓ} : Type ℓ → Type ℓ
Writes V = List (String × V)

abbrev pub fetch {ℓ} : {V : Type ℓ} → V → String → Writes V → V
fetch d j [] = d
fetch d j ((k, v) ∷ s) = if k == j then v else fetch d j s

abbrev pub names {ℓ} : {V : Type ℓ} → Writes V → List String
names [] = []
names ((k, v) ∷ s) = k ∷ names s

-- What was ever written has a name.
pub named {ℓ} :
    {V : Type ℓ} (j : String) (s : Writes (Option V))
    → is_some (fetch none j s) ≡ true
    → elem j (names s) ≡ true
named j [] h = cc
named j ((k, v) ∷ s) h = ground (arith, named j s)

-- Fields with their present values, tombstones left out.
abbrev pub present : Writes (Option Value) → List String → List (String × Value)
present s [] = []
present s (f ∷ fs) = elim (fetch none f s) [ none ↦ present s fs | some v ↦ (f, v) ∷ present s fs ]

to_map-present :
    (s : Writes (Option Value)) (fs : List String) (g : String)
    → to_map (present s fs) g ≡ (if elem g fs then fetch none g s else none)
unfolding to_map
to_map-present s [] g = refl
to_map-present s (f ∷ fs) g = ground (arith, to_map-present s fs g, eq_iff f g)

pub to_map-hgetall :
    (s : Writes (Option Value)) (g : String) → to_map (present s (names s)) g ≡ fetch none g s
to_map-hgetall s g = ground (arith, to_map-present s (names s) g, named g s)

abbrev pub members_of : Writes Bool → List String → ℕ
members_of s [] = 0
members_of s (m ∷ ms) = if fetch false m s then suc (members_of s ms) else members_of s ms

pub members_of_empty :
    (s : Writes Bool) (ms : List String)
    → ((m : String) → fetch false m s ≡ false)
    → members_of s ms ≡ 0
members_of_empty s [] h = refl
members_of_empty s (m ∷ ms) h = rw (h m) (members_of_empty s ms h)

pub members_of_zero :
    (s : Writes Bool) (ms : List String) (m : String)
    → members_of s ms ≡ 0
    → elem m ms ≡ true
    → fetch false m s ≡ false
members_of_zero s [] m z h = cc
members_of_zero s (k ∷ ms) m z h = ground (arith, z, h, eq_iff k m, members_of_zero s ms m)

pub named_true : (j : String) (s : Writes Bool) → fetch false j s ≡ true → elem j (names s) ≡ true
named_true j [] h = cc
named_true j ((k, v) ∷ s) h = ground (arith, named_true j s)

abbrev pub inner {ℓ} : {V : Type ℓ} → Writes (Writes V) → String → Writes V
inner s k = fetch [] k s

abbrev pub put_inner {ℓ} :
    {V : Type ℓ} → String → String → V → Writes (Writes V) → Writes (Writes V)
put_inner k f v s = (k, (f, v) ∷ inner s k) ∷ s

abbrev pub int_or_zero : Option Value → ℤ
int_or_zero (some (num z)) = z
int_or_zero _ = pos 0

pub inner-put {ℓ} :
    {V : Type ℓ} (k f : String) (v d : V) (s : Writes (Writes V)) (j g : String)
    → fetch d g (inner (put_inner k f v s) j)
      ≡ (if (k == j) && (f == g) then v else fetch d g (inner s j))
inner-put k f v d s j g = ground (arith, eq_iff k j)

pub inner-del {ℓ} :
    {V : Type ℓ} (k : String) (d : V) (s : Writes (Writes V)) (j g : String)
    → fetch d g (inner ((k, []) ∷ s) j) ≡ (if k == j then d else fetch d g (inner s j))
inner-del k d s j g = ground arith

pub unmarked : (s : Writes Bool) (m : String) → members_of s (names s) ≡ 0 → fetch false m s ≡ false
unmarked s m h = elim (Bool-cases (elem m (names s))) [
  | inl e ↦ members_of_zero s (names s) m h e
  | inr e ↦ ground (arith, e, named_true m s)
]

pub fetch-update {ℓ} :
    {V : Type ℓ} (k : String) (f : V → V) (d : V) (s : Writes V) (j : String)
    → fetch d j ((k, f (fetch d k s)) ∷ s) ≡ (if k == j then f (fetch d j s) else fetch d j s)
fetch-update k f d s j = ground (arith, eq_iff k j)
