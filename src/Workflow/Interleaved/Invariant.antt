-- ===== src/Workflow/Interleaved/Invariant.antt =====
-- internal/workflow/chord.go: the invariant of the completions of a chord's headers, in any order.
use winter.Base.{
  ℕ, String, ◌≡◌, refl, sym, ap, ◌∙◌, Bool, true, false, ◌&&◌, List, arith, ◌==◌, eq_iff, eq_refl,
  if◌then◌else◌, nat_eq, Bool-cases, inl, inr,
}
use winter.Redis.{Redis, elem}
use winter.Workflow.{Record, Flow, deps_key}
use winter.Workflow.Interleaved.{
  Stage, idle, loaded, skipped, counted, saved, fired, after_save, set_stage, Chord,
}

-- A completion that has not counted, and one that enqueues or has enqueued the callback.
abbrev pub is_pending : Stage → Bool
is_pending idle = true
is_pending (loaded rec) = true
is_pending skipped = true
is_pending _ = false

abbrev pub is_last : Stage → Bool
is_last (counted rec left) = nat_eq left 0
is_last (saved rec) = true
is_last fired = true
is_last _ = false

pub after_save-pending : (rec : Record) (left : ℕ) → is_pending (after_save rec left) ≡ false
after_save-pending rec left = ground arith

pub after_save-last : (rec : Record) (left : ℕ) → is_last (after_save rec left) ≡ nat_eq left 0
after_save-last rec left = ground arith

module _ (R : Redis) (id : String) (jobs : List String) where
  abbrev pub member : Chord R id → String → Bool
  member s m = R.sismember s.flow.db.sets (deps_key id) m

  pub record IsOnce (s : Chord R id) : Type 0 where
    pub left : (m : String) → member s m ≡ (elem m jobs && is_pending (s.stage m))
    pub none_pending :
        (i m : String)
        → elem i jobs ≡ true
        → is_last (s.stage i) ≡ true
        → elem m jobs ≡ true
        → is_pending (s.stage m) ≡ false
    pub one_last :
        (i k : String)
        → elem i jobs ≡ true
        → elem k jobs ≡ true
        → is_last (s.stage i) ≡ true
        → is_last (s.stage k) ≡ true
        → i ≡ k
    pub some_last :
        ((m : String) → member s m ≡ false)
        → (i : String) × (elem i jobs ≡ true) × (is_last (s.stage i) ≡ true)

  -- The value of a flag of the stages after one stage is set.
  flag_set :
      (flag : Stage → Bool) (j m : String) (stage : Stage) (f : String → Stage)
      → flag stage ≡ flag (f j)
      → flag (set_stage j stage f m) ≡ flag (f m)
  flag_set flag j m stage f e = elim (Bool-cases (j == m)) [
    | inl h ↦ rw h (e ∙ ap (λ x. flag (f x)) ((eq_iff j m).0 h))
    | inr h ↦ rw h refl
  ]

  -- A step that changes a stage without making it pending or last, or the contrary.
  pub quiet-IsOnce :
      (s : Chord R id) (flow : Flow R) (j : String) (stage : Stage)
      → ((m : String) → R.sismember flow.db.sets (deps_key id) m ≡ member s m)
      → is_pending stage ≡ is_pending (s.stage j)
      → is_last stage ≡ is_last (s.stage j)
      → IsOnce s
      → IsOnce (record { flow = flow; stage = set_stage j stage s.stage })
  quiet-IsOnce s flow j stage same p l o =
      let pending : (m : String)
          → is_pending (set_stage j stage s.stage m) ≡ is_pending (s.stage m) =
        λ m. flag_set is_pending j m stage s.stage p in
      let last : (m : String) → is_last (set_stage j stage s.stage m) ≡ is_last (s.stage m) =
        λ m. flag_set is_last j m stage s.stage l in
      record {
        left = λ m. same m ∙ o.left m ∙ ap (λ b. elem m jobs && b) (sym (pending m));
        none_pending = λ i m ei h e. pending m ∙ o.none_pending i m ei (sym (last i) ∙ h) e;
        one_last = λ i k ei ek h g. o.one_last i k ei ek (sym (last i) ∙ h) (sym (last k) ∙ g);
        some_last = λ none_left.
            let (i, ei, h) = o.some_last (λ m. sym (same m) ∙ none_left m) in (i, ei, last i ∙ h);
      }

  -- The state after a job has counted.
  abbrev pub counted_by : Chord R id → String → Record → ℕ → Chord R id
  counted_by s j rec left = record {
    flow = record (s.flow) {
      db = record (s.flow.db) { sets = (R.srem s.flow.db.sets (deps_key id) j).1 };
    };
    stage = set_stage j (counted rec left) s.stage;
  }

  abbrev pub left_by : Chord R id → String → ℕ
  left_by s j = R.scard (R.srem s.flow.db.sets (deps_key id) j).1 (deps_key id)

  counted_last :
      (s : Chord R id) (j : String) (rec : Record) (left : ℕ)
      → elem j jobs ≡ true
      → s.stage j ≡ loaded rec
      → IsOnce s
      → (i : String) → elem i jobs ≡ true
      → is_last ((counted_by s j rec left).stage i) ≡ true
      → (j ≡ i) × (left ≡ 0)
  counted_last s j rec left e at o i ei h = elim (Bool-cases (j == i)) [
    | inl same ↦ ((eq_iff j i).0 same, ground (arith, same, h))
    | inr apart ↦ absurd (pending_header (ground (arith, apart, h)))
  ]
    where
      pending_header : is_last (s.stage i) ≡ true → ⊥
      pending_header g = ground (arith, ap is_pending at, o.none_pending i j ei g e)

  counted-member :
      (s : Chord R id) (j : String) (rec : Record) (left : ℕ) (m : String)
      → member (counted_by s j rec left) m ≡ (if j == m then false else member s m)
  counted-member s j rec left m = ground (
    arith,
    R.sismember-srem s.flow.db.sets (deps_key id) j (deps_key id) m,
    eq_refl (deps_key id),
  )

  counted-left :
      (s : Chord R id) (j : String) (rec : Record) (left : ℕ)
      → IsOnce s
      → (m : String)
      → member (counted_by s j rec left) m
        ≡ (elem m jobs && is_pending ((counted_by s j rec left).stage m))
  counted-left s j rec left o m = ground (arith, counted-member s j rec left m, o.left m)

  header-IsOnce :
      (s : Chord R id) (j : String) (rec : Record)
      → elem j jobs ≡ true
      → s.stage j ≡ loaded rec
      → IsOnce s
      → IsOnce (counted_by s j rec (left_by s j))
  header-IsOnce s j rec e at o =
      let sets = (R.srem s.flow.db.sets (deps_key id) j).1 in
      let last = counted_last s j rec (left_by s j) e at o in
      record {
        left = counted-left s j rec (left_by s j) o;
        none_pending = λ i m ei h g. ground (
          arith,
          g,
          counted-left s j rec (left_by s j) o m,
          R.scard_zero sets (deps_key id) m (last i ei h).1,
        );
        one_last = λ i k ei ek h g. sym (last i ei h).0 ∙ (last k ek g).0;
        some_last = λ none_left.
            (j, e, ground (arith, eq_refl j, R.scard_empty sets (deps_key id) none_left));
      }

  -- A job that is no header and has counted changes neither the stage of a header nor its membership.
  header_stage :
      (j m : String) (stage : Stage) (f : String → Stage)
      → elem j jobs ≡ false
      → elem m jobs ≡ true
      → set_stage j stage f m ≡ f m
  header_stage j m stage f out e = elim (Bool-cases (j == m)) [
    | inl same ↦ absurd (cc (out, e, ap (λ x. elem x jobs) ((eq_iff j m).0 same)))
    | inr apart ↦ rw apart refl
  ]

  header_member :
      (s : Chord R id) (j : String) (rec : Record) (left : ℕ)
      → elem j jobs ≡ false
      → IsOnce s
      → ((m : String) → member (counted_by s j rec left) m ≡ false)
      → (m : String) → member s m ≡ false
  header_member s j rec left out o none_left m = elim (Bool-cases (j == m)) [
    | inl same ↦
        o.left m
        ∙ ap (λ b. b && is_pending (s.stage m))
            (sym (ap (λ x. elem x jobs) ((eq_iff j m).0 same)) ∙ out)
    | inr apart ↦ ground (arith, apart, none_left m, counted-member s j rec left m)
  ]

  other-IsOnce :
      (s : Chord R id) (j : String) (rec : Record) (left : ℕ)
      → elem j jobs ≡ false
      → IsOnce s
      → IsOnce (counted_by s j rec left)
  other-IsOnce s j rec left out o =
      let stays : (m : String)
          → elem m jobs ≡ true
          → set_stage j (counted rec left) s.stage m ≡ s.stage m =
        λ m. header_stage j m (counted rec left) s.stage out in
      record {
        left = counted-left s j rec left o;
        none_pending = λ i m ei h e.
            ap is_pending (stays m e) ∙ o.none_pending i m ei (sym (ap is_last (stays i ei)) ∙ h) e;
        one_last = λ i k ei ek h g.
            o.one_last i k ei ek (sym (ap is_last (stays i ei)) ∙ h)
              (sym (ap is_last (stays k ek)) ∙ g);
        some_last = λ none_left.
            let (i, ei, h) = o.some_last (header_member s j rec left out o none_left) in
            (i, ei, ap is_last (stays i ei) ∙ h);
      }

  pub count-IsOnce :
      (s : Chord R id) (j : String) (rec : Record)
      → s.stage j ≡ loaded rec
      → IsOnce s
      → IsOnce (counted_by s j rec (left_by s j))
  count-IsOnce s j rec at o = elim (Bool-cases (elem j jobs)) [
    | inl e ↦ header-IsOnce s j rec e at o
    | inr out ↦ other-IsOnce s j rec (left_by s j) out o
  ]
