-- ===== src/Gate/Scheduler/Order.antt =====
-- `next_runnable` of nawa/gate/src/lib.rs.
use i3ml_os.Prelude.{
  ℕ, zero, suc, ◌≤◌, ◌≡◌, refl, sym, ap, ◌⊎◌, inl, inr, true, false, none, some, List, [], ◌∷◌,
  arith, ltb, filter, get_elem?, Option-cases, Bool-cases, ltb→lt, subst,
}
use mathlib.Core.Option.{some-injective}
use mathlib.Core.Option
use i3ml_os.Gate.Acb.{Agent}
use i3ml_os.Gate.Kernel.{Kernel}
use i3ml_os.Gate.Scheduler.{is_ready, min_from, min_by_deadline, next_runnable}

-- The chosen agent, and where it stands.
pub record Chosen (agents : List Agent) (a : Agent) : Type 0 where
  pub index : ℕ
  pub stands : get_elem? agents index ≡ some a
  pub ready : is_ready a ≡ true
  pub first :
      (i : ℕ) (b : Agent)
      → get_elem? agents i ≡ some b
      → is_ready b ≡ true
      → a.deadline ≤ b.deadline

-- `a` is `best` or stands in the list, and no deadline of either is earlier.
record Least (agents : List Agent) (best a : Agent) : Type 0 where
  from : (best ≡ a) ⊎ ((i : ℕ) × (get_elem? agents i ≡ some a))
  below : a.deadline ≤ best.deadline
  least : (i : ℕ) (b : Agent) → get_elem? agents i ≡ some b → a.deadline ≤ b.deadline

least-cons :
    (x : Agent) (agents : List Agent) (a : Agent)
    → a.deadline ≤ x.deadline
    → ((i : ℕ) (b : Agent) → get_elem? agents i ≡ some b → a.deadline ≤ b.deadline)
    → (i : ℕ) (b : Agent) → get_elem? (x ∷ agents) i ≡ some b
    → a.deadline ≤ b.deadline
least-cons x agents a below least zero b e =
    omega (arith, ap (λ (y : Agent). y.deadline) (some-injective x b e))
least-cons x agents a below least (suc i) b e = least i b e

from-cons :
    (x : Agent) (agents : List Agent) (a : Agent)
    → (x ≡ a) ⊎ ((i : ℕ) × (get_elem? agents i ≡ some a))
    → (i : ℕ) × (get_elem? (x ∷ agents) i ≡ some a)
from-cons x agents a (inl e) = (0, ap some e)
from-cons x agents a (inr (i, e)) = (suc i, e)

skip-cons :
    (best x : Agent) (agents : List Agent) (a : Agent)
    → (best ≡ a) ⊎ ((i : ℕ) × (get_elem? agents i ≡ some a))
    → (best ≡ a) ⊎ ((i : ℕ) × (get_elem? (x ∷ agents) i ≡ some a))
skip-cons best x agents a (inl e) = inl e
skip-cons best x agents a (inr (i, e)) = inr (suc i, e)

min_from-Least : (best : Agent) (agents : List Agent) → Least agents best (min_from best agents)
unfolding min_from
min_from-Least best [] = record { from = inl refl; below = omega arith; least = λ i b e. cc }
min_from-Least best (x ∷ agents) =
    let through = min_from-Least x agents in
    let past = min_from-Least best agents in
    elim (Bool-cases (ltb x.deadline best.deadline)) [
      | inl sooner ↦
          rw (sooner, min_from)
            (record {
              from = inr (from-cons x agents (min_from x agents) through.from);
              below = omega (arith, through.below, ltb→lt _ _ sooner);
              least = least-cons x agents (min_from x agents) through.below through.least;
            })
      | inr later ↦
          rw (later, min_from)
            (record {
              from = skip-cons best x agents (min_from best agents) past.from;
              below = past.below;
              least = least-cons x agents (min_from best agents) (ground arith) past.least;
            })
    ]

filter-origin :
    (agents : List Agent) (i : ℕ) (a : Agent)
    → get_elem? (filter is_ready agents) i ≡ some a
    → (j : ℕ) × (get_elem? agents j ≡ some a) × (is_ready a ≡ true)
filter-origin [] i a e = cc
filter-origin (x ∷ agents) i a e = elim (Bool-cases (is_ready x)) [
  | inl r ↦ from_ready i (filter-origin agents) (rw r at e) r
  | inr u ↦ let (j, f, g) = filter-origin agents i a (rw u at e) in (suc j, f, g)
]
  where
    from_ready :
        (n : ℕ)
        → ((m : ℕ) (b : Agent)
            → get_elem? (filter is_ready agents) m ≡ some b
            → (j : ℕ) × (get_elem? agents j ≡ some b) × (is_ready b ≡ true))
        → get_elem? (x ∷ filter is_ready agents) n ≡ some a
        → is_ready x ≡ true
        → (j : ℕ) × (get_elem? (x ∷ agents) j ≡ some a) × (is_ready a ≡ true)
    from_ready zero ih e r =
        (0, e, subst (λ (y : Agent). is_ready y ≡ true) (some-injective x a e) r)
    from_ready (suc n) ih e r = let (j, f, g) = ih n a e in (suc j, f, g)

filter-image :
    (agents : List Agent) (j : ℕ) (a : Agent)
    → get_elem? agents j ≡ some a
    → is_ready a ≡ true
    → (i : ℕ) × (get_elem? (filter is_ready agents) i ≡ some a)
filter-image [] j a e r = cc
filter-image (x ∷ agents) zero a e r =
    let h : is_ready x ≡ true =
      subst (λ (y : Agent). is_ready y ≡ true) (sym (some-injective x a e)) r in
    (0, rw h e)
filter-image (x ∷ agents) (suc j) a e r =
    let (i, f) = filter-image agents j a e r in
    elim (Bool-cases (is_ready x)) [ inl h ↦ (suc i, rw h f) | inr h ↦ (i, rw h f) ]

min_from-Chosen :
    (agents : List Agent) (a : Agent)
    → min_by_deadline (filter is_ready agents) ≡ some a
    → Chosen agents a
unfolding min_by_deadline
min_from-Chosen agents a h = by_list (filter is_ready agents) refl h
  where
    by_list :
        (l : List Agent) → filter is_ready agents ≡ l → min_by_deadline l ≡ some a → Chosen agents a
    by_list [] e h = cc
    by_list (x ∷ l) e h =
        let best = min_from-Least x l in
        let same : min_from x l ≡ a = some-injective (min_from x l) a h in
        let (i, at) = from-cons x l (min_from x l) best.from in
        let (j, stands, ready) = filter-origin agents i a (rw (e, ← same) at) in
        record {
          index = j;
          stands = stands;
          ready = ready;
          first = λ n b there able.
              let (m, here) = filter-image agents n b there able in
              subst (λ (y : Agent). y.deadline ≤ b.deadline) same
                (least-cons x l (min_from x l) best.below best.least m b (rw e at here));
        }

-- The scheduler runs an agent that is runnable and not out of budget, and no such agent has an earlier
-- deadline.
pub next_runnable-Chosen :
    (k : Kernel) (id : ℕ)
    → next_runnable k ≡ some id
    → (a : Agent) × (a.id ≡ id) × Chosen k.supervisor.agents a
unfolding next_runnable
next_runnable-Chosen k id h =
    elim (Option-cases (min_by_deadline (filter is_ready k.supervisor.agents))) [
      | inl e ↦ ground arith
      | inr (a, e) ↦ (a, ground arith, min_from-Chosen k.supervisor.agents a e)
    ]

-- The scheduler finds nothing to run only when no agent is runnable within its budget.
pub next_runnable-none :
    (k : Kernel) (i : ℕ) (a : Agent)
    → next_runnable k ≡ none
    → get_elem? k.supervisor.agents i ≡ some a
    → is_ready a ≡ false
unfolding next_runnable min_by_deadline
next_runnable-none k i a h e = elim (Bool-cases (is_ready a)) [
  | inl ready ↦
      let (j, f) = filter-image k.supervisor.agents i a e ready in
      nothing_left (filter is_ready k.supervisor.agents) j h f
  | inr idle ↦ idle
]
  where
    nothing_left :
        (l : List Agent) (j : ℕ)
        → Option.map (λ (x : Agent). x.id) (min_by_deadline l) ≡ none
        → get_elem? l j ≡ some a
        → is_ready a ≡ false
    nothing_left [] j h f = cc
    nothing_left (x ∷ l) j h f = cc
