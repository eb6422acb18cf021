-- ===== src/Gate/Acb.antt =====
-- nawa/gate/src/acb.rs: the agent control block and its budget.
use i3ml_os.Prelude.{
  ℕ, ◌+◌, ◌-◌, Bool, not, ◌&&◌, ◌||◌, Option, none, some, ltb, leb, ◌==◌, if◌then◌else◌,
}
use i3ml_os.VecLite.{SmallVec}
use i3ml_os.Sijil.Label.{Label}

pub data State : Type 0 where
  runnable awaiting_consent suspended finished killed : State

pub record Budget : Type 0 where
  pub micro_dollars : ℕ
  pub spent_micro_dollars : ℕ
  pub wall_microseconds : ℕ
  pub used_microseconds : ℕ

-- `Budget::new`.
abbrev pub budget_new : ℕ → ℕ → Budget
budget_new micro_dollars wall_microseconds = record {
  micro_dollars = micro_dollars;
  spent_micro_dollars = 0;
  wall_microseconds = wall_microseconds;
  used_microseconds = 0;
}

-- Subtraction saturates, as on ℕ.
abbrev pub remaining_micro_dollars : Budget → ℕ
remaining_micro_dollars b = b.micro_dollars - b.spent_micro_dollars

abbrev pub exhausted : Budget → Bool
exhausted b =
    remaining_micro_dollars b == 0
    || (not (b.wall_microseconds == 0) && leb b.wall_microseconds b.used_microseconds)

-- The child's budget and what is left of the parent's. The sums cannot wrap: each is bounded by the
-- allowance it is checked against.
unfoldable pub carve : Budget → ℕ → ℕ → Option (Budget × Budget)
carve b micro_dollars wall_microseconds =
    let paid = record b { spent_micro_dollars = b.spent_micro_dollars + micro_dollars } in
    let child = budget_new micro_dollars wall_microseconds in
    if ltb (remaining_micro_dollars b) micro_dollars
    then none
    else if b.wall_microseconds == 0
    then some (child, paid)
    else if wall_microseconds == 0
        || ltb (b.wall_microseconds - b.used_microseconds) wall_microseconds
    then none
    else some (child, record paid { used_microseconds = b.used_microseconds + wall_microseconds })

abbrev pub max_capabilities : ℕ
max_capabilities = 8

-- `step` names the agent's step function.
pub record Agent : Type 0 where
  pub id : ℕ
  pub goal : Label
  pub parent : ℕ
  pub state : State
  pub budget : Budget
  pub deadline : ℕ
  pub capabilities : SmallVec ℕ
  pub crossings : ℕ
  pub awaiting : Option ℕ
  pub step : ℕ
  pub cursor : ℕ

pub data Progress : Type 0 where
  continue await_consent done failed : Progress

-- What a running agent sees of itself.
pub record Context : Type 0 where
  pub id : ℕ
  pub goal : Label
  pub capabilities : SmallVec ℕ
  pub budget : Budget
  pub cursor : ℕ
