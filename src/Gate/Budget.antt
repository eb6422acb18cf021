-- ===== src/Gate/Budget.antt =====
-- `carve` of nawa/gate/src/acb.rs, the budget of a child out of its parent's.
use i3ml_os.Prelude.{ℕ, ◌+◌, ◌-◌, ◌≤◌, ◌<◌, ◌≡◌, ◌≢◌, ◌↔◌, ◌⊎◌, none, some, arith}
use i3ml_os.Gate.Acb.{Budget, carve, remaining_micro_dollars}

-- Carving moves money and bounded wall time from the parent's remainder to the child: the two
-- remainders add up to the old one, the parent counts what it gave as spent, and the child starts with
-- just that, nothing spent of it and no time used. A bounded parent gives the child a bounded, non-zero
-- share of its time and pays for it in full.
pub carve_conserves :
    (b child rest : Budget) (m w : ℕ)
    → carve b m w ≡ some (child, rest)
    → (remaining_micro_dollars rest + remaining_micro_dollars child ≡ remaining_micro_dollars b)
      × (remaining_micro_dollars child ≡ m)
      × (child.micro_dollars ≡ m)
      × (child.spent_micro_dollars ≡ 0)
      × (child.used_microseconds ≡ 0)
      × (rest.spent_micro_dollars ≡ b.spent_micro_dollars + m)
      × (rest.micro_dollars ≡ b.micro_dollars)
      × (rest.wall_microseconds ≡ b.wall_microseconds)
      × (child.wall_microseconds ≡ w)
      × (b.wall_microseconds ≢ 0
          → (0 < w)
            × (rest.used_microseconds ≡ b.used_microseconds + w)
            × (rest.used_microseconds ≤ b.wall_microseconds))
unfolding carve
carve_conserves b child rest m w h = (
  ground arith,
  ground arith,
  ground arith,
  ground arith,
  ground arith,
  ground arith,
  ground arith,
  ground arith,
  ground arith,
  λ bounded. (ground arith, ground arith, ground arith),
)

-- A child is funded exactly when the parent can cover it, in money and, where the parent's wall time
-- is bounded, in time that is not zero.
pub carve-none_iff :
    (b : Budget) (m w : ℕ)
    → (carve b m w ≡ none) ↔ (
        (remaining_micro_dollars b < m)
        ⊎ ((b.wall_microseconds ≢ 0) × ((w ≡ 0) ⊎ (b.wall_microseconds - b.used_microseconds < w))))
unfolding carve
carve-none_iff b m w = (λ h. ground arith, λ h. ground arith)
