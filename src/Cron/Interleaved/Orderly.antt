-- ===== src/Cron/Interleaved/Orderly.antt =====
-- internal/scheduler/cron.go: the invariant of an entry's ticks in any order, and what keeps it.
use winter.Base.{
  String, ℤ, leb_ℤ, ◌<ℤ◌, ◌≤ℤ◌, Bool, true, false, ◌&&◌, ◌||◌, Option, none, some, List, [], ◌∷◌,
  ◌≡◌, refl, sym, ap, ◌∙◌, ◌==◌, arith, Bool-cases, subst, inl, inr, eq_of_parts, ◌⊎◌, eq_iff,
  eq_refl,
}
use winter.Redis.{Redis, Db, num}
use winter.Queue.Link.{Link, up, refused, cut}
use winter.Cron.{Entry, compare_and_swap, compare_and_swap_script, same_value}
use winter.Cron.Interleaved.{
  Stage, waiting, won, after_swap, after_read, set_stage, entry_state, Ticks,
}

-- Equality of two times.
abbrev pub same_time : ℤ → ℤ → Bool
same_time a b = leb_ℤ a b && leb_ℤ b a

abbrev pub has_window : ℤ → List ℤ → Bool
has_window z [] = false
has_window z (w ∷ l) = same_time z w || has_window z l

pub data IsDistinct : List ℤ → Type 0 where
  distinct_none : IsDistinct []
  distinct_one : (z : ℤ) (l : List ℤ) → has_window z l ≡ false → IsDistinct l → IsDistinct (z ∷ l)

abbrev pub held : Stage → Option ℤ
held (won z) = some z
held _ = none

pub held-after_read : (o : Option ℤ) → held (after_read o) ≡ none
held-after_read none = refl
held-after_read (some z) = refl

time_eq : (a b : ℤ) → same_time a b ≡ true → a ≡ b
time_eq a b h = eq_of_parts a b (ground (arith, h))

module _ (R : Redis) (decimal : ℤ → String) (e : Entry) where
  -- The window that is next, and what is known of it.
  pub record IsOrderly (s : Ticks R decimal e) : Type 0 where
    pub window : ℤ
    pub stored : entry_state R decimal e s.db ≡ some (num window)
    pub held_before : (k : String) (z : ℤ) → held (s.stage k) ≡ some z → z <ℤ window
    pub held_once :
        (i k : String) (z : ℤ) → held (s.stage i) ≡ some z → held (s.stage k) ≡ some z → i ≡ k
    pub held_new :
        (k : String) (z : ℤ) → held (s.stage k) ≡ some z → has_window z s.enqueued ≡ false
    pub enqueued_before : (z : ℤ) → has_window z s.enqueued ≡ true → z <ℤ window
    pub distinct : IsDistinct s.enqueued

  -- The stages after one is set to a stage that holds no window, and to one that holds one.
  kept_held :
      (server k : String) (stage : Stage) (f : String → Stage) (z : ℤ)
      → held stage ≡ none
      → held (set_stage server stage f k) ≡ some z
      → ((server == k) ≡ false) × (held (f k) ≡ some z)
  kept_held server k stage f z free h = elim (Bool-cases (server == k)) [
    | inl same ↦ absurd (ground (arith, same, h, free))
    | inr apart ↦ (apart, ground (arith, apart, h))
  ]

  new_held :
      (server k : String) (w : ℤ) (f : String → Stage) (z : ℤ)
      → held (set_stage server (won w) f k) ≡ some z
      → ((server ≡ k) × (w ≡ z)) ⊎ (held (f k) ≡ some z)
  new_held server k w f z h = elim (Bool-cases (server == k)) [
    | inl same ↦ inl ((eq_iff server k).0 same, ground (arith, same, h))
    | inr apart ↦ inr ground (arith, apart, h)
  ]

  script_cases :
      (z w old : ℤ) (db : Db R)
      → entry_state R decimal e db ≡ some (num old)
      → ((entry_state R decimal e (compare_and_swap_script R decimal e.name z w db).1
            ≡ some (num old))
          × ((compare_and_swap_script R decimal e.name z w db).0 ≡ false))
        ⊎ ((old ≡ z)
            × (entry_state R decimal e (compare_and_swap_script R decimal e.name z w db).1
                ≡ some (num w)))
  unfolding compare_and_swap_script
  script_cases z w old db at =
      elim (Bool-cases (same_value R decimal (entry_state R decimal e db) z)) [
        | inl same ↦ inr (
          time_eq old z (sym (ap (λ o. same_value R decimal o z) at) ∙ same),
          rw same (simp (R.hget-hset, eq_refl) refl),
        )
        | inr apart ↦ inl (rw apart (at, refl))
      ]

  -- A swap leaves the state, and the server holds no window; or it finds the window that it expects,
  -- and the state is the window after.
  pub swap_cases :
      (link : Link) (z w old : ℤ) (db : Db R)
      → entry_state R decimal e db ≡ some (num old)
      → ((entry_state R decimal e (compare_and_swap R decimal link e.name z w db).1
            ≡ some (num old))
          × (held (after_swap z (compare_and_swap R decimal link e.name z w db).0) ≡ none))
        ⊎ ((old ≡ z)
            × (entry_state R decimal e (compare_and_swap R decimal link e.name z w db).1
                ≡ some (num w)))
  unfolding compare_and_swap
  swap_cases (refused x) z w old db at = inl (at, refl)
  swap_cases up z w old db at = elim (script_cases z w old db at) [
    | inl (kept, lost) ↦ inl (kept, rw lost refl)
    | inr moved ↦ inr moved
  ]
  swap_cases (cut x) z w old db at = elim (script_cases z w old db at) [
    | inl (kept, lost) ↦ inl (kept, refl)
    | inr moved ↦ inr moved
  ]

  -- A step after which the server holds no window, and that does not move the state back.
  pub free-IsOrderly :
      (s : Ticks R decimal e) (db : Db R) (server : String) (stage : Stage) (b : ℤ)
      → (o : IsOrderly s) → entry_state R decimal e db ≡ some (num b)
      → o.window ≤ℤ b
      → held stage ≡ none
      → IsOrderly (record s { db = db; stage = set_stage server stage s.stage })
  free-IsOrderly s db server stage b o at up_to free =
      let was : (k : String) (z : ℤ)
          → held (set_stage server stage s.stage k) ≡ some z
          → held (s.stage k) ≡ some z =
        λ k z h. (kept_held server k stage s.stage z free h).1 in
      record {
        window = b;
        stored = at;
        held_before = λ k z h. omega (arith, up_to, o.held_before k z (was k z h));
        held_once = λ i k z h g. o.held_once i k z (was i z h) (was k z g);
        held_new = λ k z h. o.held_new k z (was k z h);
        enqueued_before = λ z h. omega (arith, up_to, o.enqueued_before z h);
        distinct = o.distinct;
      }

  not_before : (w z : ℤ) → w ≡ z → z <ℤ w → ⊥
  not_before w z same h = omega (arith, subst (λ x. z <ℤ x) same h)

  -- A swap that its server knows of.
  pub win-IsOrderly :
      (s : Ticks R decimal e) (db : Db R) (server : String) (b : ℤ)
      → (o : IsOrderly s) → entry_state R decimal e db ≡ some (num b)
      → o.window <ℤ b
      → IsOrderly (record s { db = db; stage = set_stage server (won o.window) s.stage })
  win-IsOrderly s db server b o at later = record {
    window = b;
    stored = at;
    held_before = λ k z h. elim (new_held server k o.window s.stage z h) [
      | inl (_, same) ↦ subst (λ x. x <ℤ b) same later
      | inr was ↦ omega (arith, later, o.held_before k z was)
    ];
    held_once = λ i k z h g. elim (new_held server i o.window s.stage z h) [
      | inl (first, same) ↦ elim (new_held server k o.window s.stage z g) [
        | inl (second, _) ↦ sym first ∙ second
        | inr was ↦ absurd (not_before o.window z same (o.held_before k z was))
      ]
      | inr was ↦ elim (new_held server k o.window s.stage z g) [
        | inl (_, same) ↦ absurd (not_before o.window z same (o.held_before i z was))
        | inr been ↦ o.held_once i k z was been
      ]
    ];
    held_new = λ k z h. elim (new_held server k o.window s.stage z h) [
      | inl (_, same) ↦ ground (arith, new_window z same)
      | inr was ↦ o.held_new k z was
    ];
    enqueued_before = λ z h. omega (arith, later, o.enqueued_before z h);
    distinct = o.distinct;
  }
    where
      new_window : (z : ℤ) → o.window ≡ z → has_window z s.enqueued ≡ true → ⊥
      new_window z same h = not_before o.window z same (o.enqueued_before z h)

  pub put-IsOrderly :
      (s : Ticks R decimal e) (db : Db R) (server : String) (z : ℤ)
      → IsOrderly s
      → entry_state R decimal e db ≡ entry_state R decimal e s.db
      → s.stage server ≡ won z
      → IsOrderly
          (record { db = db; stage = set_stage server waiting s.stage; enqueued = z ∷ s.enqueued })
  put-IsOrderly s db server z o same at = record {
    window = o.window;
    stored = same ∙ o.stored;
    held_before = λ k w h. o.held_before k w (kept_held server k waiting s.stage w refl h).1;
    held_once = λ i k w h g.
        o.held_once i k w (kept_held server i waiting s.stage w refl h).1
          (kept_held server k waiting s.stage w refl g).1;
    held_new = λ k w h. other_held k w (kept_held server k waiting s.stage w refl h);
    enqueued_before = λ w h. elim (Bool-cases (same_time w z)) [
      | inl same ↦
          subst (λ x. x <ℤ o.window) (sym (time_eq w z same)) (o.held_before server z (ap held at))
      | inr apart ↦ o.enqueued_before w (ground (arith, apart, h))
    ];
    distinct = distinct_one z s.enqueued (o.held_new server z (ap held at)) o.distinct;
  }
    where
      eq_false_apart : {k : String} → (server == k) ≡ false → server ≡ k → ⊥
      eq_false_apart {k} other same = ground (arith, other, (eq_iff server k).1 same)

      other_held :
          (k : String) (w : ℤ)
          → ((server == k) ≡ false) × (held (s.stage k) ≡ some w)
          → (same_time w z || has_window w s.enqueued) ≡ false
      other_held k w (other, was) = elim (Bool-cases (same_time w z)) [
        | inl same ↦ absurd (
            eq_false_apart other
              (o.held_once server k w (ap held at ∙ ap some (sym (time_eq w z same))) was))
        | inr apart ↦ ground (arith, apart, o.held_new k w was)
      ]
