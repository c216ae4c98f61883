-- ===== src/Workflow/Interleaved/Once.antt =====
-- internal/workflow/chord.go: the callback of a chord, whatever the order of the commands.
use winter.Base.{
  ℕ, String, ℤ, pos, ◌≡◌, refl, sym, ap, ◌∙◌, true, false, Option, none, some, List, arith, subst,
}
use winter.Redis.{Redis, elem}
use winter.Queue.Link.{up, ok, Result}
use winter.Queue.Api.{enqueue}
use winter.Queue.Scripts.{enqueue_script}
use winter.Workflow.{TaskSpec, Record, Flow, save_record, deps_key, enqueue_task}
use winter.Workflow.Advance.{remaining, fire}
use winter.Workflow.Progress.{always_up}
use winter.Workflow.Interleaved.{
  idle, loaded, skipped, counted, fired, after_save, set_stage, Chord, Step, load, skip, count,
  save, call_back, elsewhere, Reach, here, next,
}
use winter.Workflow.Interleaved.Invariant.{
  is_pending, is_last, after_save-pending, after_save-last, IsOnce, member, quiet-IsOnce,
  counted_by, count-IsOnce,
}

module _ (R : Redis) (id : String) (jobs : List String) where
  fire_sets :
      (new_id i : String) (now : ℤ) (cb : Option TaskSpec) (f : Flow R)
      → (fire R always_up new_id now up i cb f).1.db.sets ≡ f.db.sets
  unfolding enqueue_task enqueue enqueue_script
  fire_sets new_id i now none f = refl
  fire_sets new_id i now (some t) f = refl

  reply_inj : {n m : ℕ} (a b : Result ℕ) → a ≡ ok n → b ≡ ok m → a ≡ b → n ≡ m
  reply_inj a b p q h = cc (p, q, h)

  own-IsOnce :
      (s : Chord R id) (j : String) (rec : Record) (left : ℕ) (own : String)
      → id ≡ own
      → s.stage j ≡ loaded rec
      → (remaining R always_up "" (pos 0) up own j s.flow).0 ≡ ok left
      → IsOnce R id jobs s
      → IsOnce R id jobs (record {
        flow = (remaining R always_up "" (pos 0) up own j s.flow).1;
        stage = set_stage j (counted rec left) s.stage;
      })
  unfolding remaining
  own-IsOnce s j rec left own same at =
      subst
        (λ k.
          (remaining R always_up "" (pos 0) up k j s.flow).0 ≡ ok left
          → IsOnce R id jobs s
          → IsOnce R id jobs (record {
            flow = (remaining R always_up "" (pos 0) up k j s.flow).1;
            stage = set_stage j (counted rec left) s.stage;
          }))
        same
        (λ reply o.
          subst (λ n. IsOnce R id jobs (counted_by R id jobs s j rec n))
            (reply_inj _ _ refl refl reply) (count-IsOnce R id jobs s j rec at o))

  step-IsOnce : (s t : Chord R id) → Step R id s t → IsOnce R id jobs s → IsOnce R id jobs t
  unfolding remaining save_record
  step-IsOnce s _ (load j rec at _ _) o =
      quiet-IsOnce R id jobs s s.flow j (loaded rec) (λ m. refl) (sym (ap is_pending at))
        (sym (ap is_last at)) o
  step-IsOnce s _ (skip j rec at _ _) o =
      quiet-IsOnce R id jobs s s.flow j skipped (λ m. refl) (sym (ap is_pending at))
        (sym (ap is_last at)) o
  step-IsOnce s _ (count j rec left at own done) o =
      own-IsOnce s j rec left rec.id (sym own) at done o
  step-IsOnce s _ (save j rec left at) o =
      quiet-IsOnce R id jobs s _ j (after_save rec left) (λ m. refl)
        (after_save-pending rec left ∙ sym (ap is_pending at))
        (after_save-last rec left ∙ sym (ap is_last at)) o
  step-IsOnce s _ (call_back j rec new_id now at) o =
      quiet-IsOnce R id jobs s _ j fired
        (λ m.
          ap (λ x. R.sismember x (deps_key id) m) (fire_sets new_id rec.id now rec.callback s.flow))
        (sym (ap is_pending at)) (sym (ap is_last at)) o
  step-IsOnce s _ (elsewhere flow same) o = record {
    left = λ m. same m ∙ o.left m;
    none_pending = o.none_pending;
    one_last = o.one_last;
    some_last = λ none_left. o.some_last (λ m. sym (same m) ∙ none_left m);
  }

  reach-IsOnce : {s t : Chord R id} → Reach R id s t → IsOnce R id jobs s → IsOnce R id jobs t
  reach-IsOnce here o = o
  reach-IsOnce (next {t} {u} r p) o = step-IsOnce t u p (reach-IsOnce r o)

  -- A chord that starts: no header has begun, and the chord's set holds the headers.
  pub starts-IsOnce :
      (s : Chord R id) (first : String)
      → elem first jobs ≡ true
      → ((m : String) → s.stage m ≡ idle)
      → ((m : String) → member R id jobs s m ≡ elem m jobs)
      → IsOnce R id jobs s
  starts-IsOnce s first e at held = record {
    left = λ m. ground (arith, held m, ap is_pending (at m));
    none_pending = λ i m ei h _. ground (arith, h, ap is_last (at i));
    one_last = λ i k ei ek h _. absurd (ground (arith, h, ap is_last (at i)));
    some_last = λ none_left. absurd (ground (arith, none_left first, held first, e));
  }

  -- At the start the chord's set holds exactly its headers, at least one, and no completion has
  -- begun. The links work, and each job completes at most once: the headers, and any other job
  -- that carries the chord's id, as its callback does. Then, in whatever order the commands of these
  -- completions follow one another, and whatever else happens that leaves the chord's set alone: two
  -- headers whose completions have counted no header left, and so go on to enqueue the callback, are
  -- the same header.
  pub callback_at_most_once :
      {s t : Chord R id} (first i k : String)
      → elem first jobs ≡ true
      → ((m : String) → s.stage m ≡ idle)
      → ((m : String) → member R id jobs s m ≡ elem m jobs)
      → Reach R id s t
      → elem i jobs ≡ true
      → elem k jobs ≡ true
      → is_last (t.stage i) ≡ true
      → is_last (t.stage k) ≡ true
      → i ≡ k
  callback_at_most_once {s} first i k e at held r =
      (reach-IsOnce r (starts-IsOnce s first e at held)).one_last i k

  -- At the start the chord's set holds exactly its headers, at least one, and no completion has
  -- begun. The links work, and each job completes at most once: the headers, and any other job
  -- that carries the chord's id, as its callback does. Then, in whatever order the commands of these
  -- completions follow one another, and whatever else happens that leaves the chord's set alone: once
  -- every header has counted, one header's completion has counted no header left, and no other
  -- header's has.
  pub callback_exactly_once :
      {s t : Chord R id} (first : String)
      → elem first jobs ≡ true
      → ((m : String) → s.stage m ≡ idle)
      → ((m : String) → member R id jobs s m ≡ elem m jobs)
      → Reach R id s t
      → ((m : String) → elem m jobs ≡ true → is_pending (t.stage m) ≡ false)
      → (i : String) × (elem i jobs ≡ true)
        × (is_last (t.stage i) ≡ true)
        × ((k : String) → elem k jobs ≡ true → is_last (t.stage k) ≡ true → k ≡ i)
  callback_exactly_once {s} {t} first e at held r all =
      let o = reach-IsOnce r (starts-IsOnce s first e at held) in
      let (i, ei, last) = o.some_last (λ m. ground (arith, o.left m, all m)) in
      (i, ei, last, λ k ek h. o.one_last k i ek ei h last)
