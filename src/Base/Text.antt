-- ===== src/Base/Text.antt =====
-- Texts: equality tests, and how equations between concatenations are taken apart.
use Prim.Native.String.{String, count, ◌++◌}
use mathlib.Core.Path.{◌≡◌, sym, ap, ◌∙◌}
use mathlib.Core.Bool.{false}
use native.Mathlib.Omega.{arith}
use text.Mathlib.TextLemmas.{
  append_assoc, append_inj, append_cancel_left, append_cancel_right, length-append,
}
pub use text.Mathlib.Text.{◌==◌}
pub use text.Mathlib.TextEquality.{eq_iff}
pub use text.Mathlib.TextPositions.{eq_refl}

-- Two texts that end alike in length and are equal have the same ending.
pub suffix_eq : (s t u v : String) → count u ≡ count v → s ++ u ≡ t ++ v → u ≡ v
suffix_eq s t u v n h =
    (append_inj h (omega (arith, ap count h, length-append s u, length-append t v))).1

pub prefix_eq : (s t u v : String) → count s ≡ count t → s ++ u ≡ t ++ v → s ≡ t
prefix_eq s t u v n h = (append_inj h n).0

pub eq_false : (s t : String) → (s ≡ t → ⊥) → (s == t) ≡ false
eq_false s t h = ground (arith, eq_iff s t)

pub eq_comm : (s t : String) → (s == t) ≡ (t == s)
eq_comm s t = ground (arith, eq_iff s t, eq_iff t s)

-- Texts with different endings of one length differ.
pub suffix_apart :
    (a s b t w u v : String)
    → count u ≡ count v
    → (u == v) ≡ false
    → (a ++ (s ++ u) == b ++ (t ++ (w ++ v))) ≡ false
suffix_apart a s b t w u v n d =
    eq_false (a ++ (s ++ u)) (b ++ (t ++ (w ++ v)))
      (λ h. ground (arith, d, eq_iff u v, suffix_eq (a ++ s) (b ++ (t ++ w)) u v n (regroup h)))
  where
    regroup : a ++ (s ++ u) ≡ b ++ (t ++ (w ++ v)) → (a ++ s) ++ u ≡ (b ++ (t ++ w)) ++ v
    regroup h =
        append_assoc a s u
        ∙ h
        ∙ ap (λ x. b ++ x) (sym (append_assoc t w v))
        ∙ sym (append_assoc b (t ++ w) v)

-- Texts with different beginnings of one length differ.
pub prefix_apart :
    (s t u v a b : String)
    → count s ≡ count t
    → (s == t) ≡ false
    → ((s ++ u) ++ a == (t ++ v) ++ b) ≡ false
prefix_apart s t u v a b n d = eq_false ((s ++ u) ++ a) ((t ++ v) ++ b) (λ h. ground (
  arith,
  d,
  eq_iff s t,
  prefix_eq s t (u ++ a) (v ++ b) n (sym (append_assoc s u a) ∙ h ∙ append_assoc t v b),
))

-- A common beginning and a common ending cancel.
pub eq-append_left : (s t u : String) → (s ++ t == s ++ u) ≡ (t == u)
eq-append_left s t u = ground (
  arith,
  eq_iff (s ++ t) (s ++ u),
  eq_iff t u,
  append_cancel_left s t u,
  λ (e : t ≡ u). ap (λ x. s ++ x) e,
)

pub eq-append_right : (s t u : String) → (s ++ u == t ++ u) ≡ (s == t)
eq-append_right s t u = ground (
  arith,
  eq_iff (s ++ u) (t ++ u),
  eq_iff s t,
  append_cancel_right s t u,
  λ (e : s ≡ t). ap (λ x. x ++ u) e,
)
