-- ===== src/Server/Order.antt =====
-- The orders in which a server polls its queues: server.go, buildWeightedQueues and
-- buildStrictQueues.
use winter.Base.{
  ℕ, zero, suc, ◌+◌, ◌≤◌, String, ℤ, ◌≤ℤ◌, leb_ℤ, List, [], ◌∷◌, ◌++◌, map, if◌then◌else◌, ◌≡◌,
  refl, ◌∙◌, arith, ◌==◌, Bool-cases, inl, inr, replicate,
}
use winter.Queue.View.{occurrences}
use winter.Server.Config.{
  QueueWeight, ServerConfig, new_server, build_weighted_queues, build_strict_queues, sort_by_weight,
  insert_by_weight, rounds, at_least_one, queues_or_default,
}

-- The rounds that the entries of one name add up to.
abbrev pub rounds_of : String → List QueueWeight → ℕ
rounds_of x [] = 0
rounds_of x (q ∷ qs) = if q.name == x then rounds q.weight + rounds_of x qs else rounds_of x qs

occurrences-append :
    (x : String) (a b : List String) → occurrences x (a ++ b) ≡ occurrences x a + occurrences x b
occurrences-append x [] b = omega arith
occurrences-append x (y ∷ a) b = ground (arith, occurrences-append x a b)

occurrences-replicate :
    (x y : String) (n : ℕ) → occurrences x (replicate n y) ≡ (if y == x then n else 0)
occurrences-replicate x y zero = ground arith
occurrences-replicate x y (suc n) = ground (arith, occurrences-replicate x y n)

-- In a weighted rotation a queue comes as often as the weights of its entries add up to.
pub weighted_rotation :
    (x : String) (qs : List QueueWeight) → occurrences x (build_weighted_queues qs) ≡ rounds_of x qs
unfolding build_weighted_queues
weighted_rotation x [] = refl
weighted_rotation x (q ∷ qs) =
    occurrences-append x (replicate (rounds q.weight) q.name) (build_weighted_queues qs)
    ∙ ground (arith, weighted_rotation x qs, occurrences-replicate x q.name (rounds q.weight))

rounds_of_defaults :
    (x : String) (qs : List QueueWeight)
    → occurrences x (map (λ (q : QueueWeight). q.name) qs) ≤ rounds_of x (map at_least_one qs)
rounds_of_defaults x [] = omega arith
rounds_of_defaults x (q ∷ qs) = ground (arith, rounds_of_defaults x qs)

-- A server polls in each weighted rotation every queue that it is configured with, whatever its
-- weight, at least as often as it is named, and the default queue if none is named.
pub every_queue_polled :
    (x : String) (cfg : ServerConfig)
    → occurrences x (map (λ (q : QueueWeight). q.name) (queues_or_default cfg.queues))
      ≤ occurrences x (build_weighted_queues (new_server cfg).queues)
unfolding new_server
every_queue_polled x cfg = ground (
  arith,
  weighted_rotation x (map at_least_one (queues_or_default cfg.queues)),
  rounds_of_defaults x (queues_or_default cfg.queues),
)

-- No entry has more weight than the one before it.
abbrev pub AtMost : ℤ → List QueueWeight → Type 0
AtMost w [] = Unit {0}
AtMost w (q ∷ qs) = q.weight ≤ℤ w

abbrev pub Descending : List QueueWeight → Type 0
Descending [] = Unit {0}
Descending (q ∷ qs) = AtMost q.weight qs × Descending qs

insert-AtMost :
    (w : ℤ) (q : QueueWeight) (qs : List QueueWeight)
    → q.weight ≤ℤ w
    → AtMost w qs
    → AtMost w (insert_by_weight q qs)
unfolding insert_by_weight
insert-AtMost w q [] h k = h
insert-AtMost w q (p ∷ ps) h k = elim (Bool-cases (leb_ℤ p.weight q.weight)) [
  | inl e ↦ rw e h
  | inr e ↦ rw e k
]

insert-Descending :
    (q : QueueWeight) (qs : List QueueWeight) → Descending qs → Descending (insert_by_weight q qs)
unfolding insert_by_weight
insert-Descending q [] d = (tt, tt)
insert-Descending q (p ∷ ps) (top, d) = elim (Bool-cases (leb_ℤ p.weight q.weight)) [
  | inl e ↦ rw e (ground (arith, e), (top, d))
  | inr e ↦ rw e (insert-AtMost p.weight q ps (ground (arith, e)) top, insert-Descending q ps d)
]

sort-Descending : (qs : List QueueWeight) → Descending (sort_by_weight qs)
unfolding sort_by_weight
sort-Descending [] = tt
sort-Descending (q ∷ qs) = insert-Descending q (sort_by_weight qs) (sort-Descending qs)

occurrences-insert :
    (x : String) (q : QueueWeight) (qs : List QueueWeight)
    → occurrences x (map (λ (p : QueueWeight). p.name) (insert_by_weight q qs))
      ≡ occurrences x (q.name ∷ map (λ (p : QueueWeight). p.name) qs)
unfolding insert_by_weight
occurrences-insert x q [] = refl
occurrences-insert x q (p ∷ ps) = elim (Bool-cases (leb_ℤ p.weight q.weight)) [
  | inl e ↦ rw e refl
  | inr e ↦ rw e (ground (arith, occurrences-insert x q ps))
]

-- The strict order polls each queue as often as it is configured, and sorts the configured queues so
-- that no queue has more weight than the one before it.
pub strict_order :
    (x : String) (qs : List QueueWeight)
    → (occurrences x (build_strict_queues qs)
        ≡ occurrences x (map (λ (q : QueueWeight). q.name) qs))
      × Descending (sort_by_weight qs)
unfolding build_strict_queues
strict_order x [] = (refl, tt)
strict_order x (q ∷ qs) = (
  occurrences-insert x q (sort_by_weight qs) ∙ ground (arith, (strict_order x qs).0),
  sort-Descending (q ∷ qs),
)
