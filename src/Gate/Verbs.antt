-- ===== src/Gate/Verbs.antt =====
-- The verbs of nawa/gate/src/lib.rs that create agents and move authority.
pub mod Delegation
use i3ml_os.Prelude.{
  ℕ, ◌+◌, Bool, true, false, Option, none, some, List, [], ◌∷◌, ◌++◌, max, Result, ok, err,
  if◌then◌else◌, wrap32, wrap64,
}
use mathlib.Core.Option
use i3ml_os.VecLite
use i3ml_os.Text.{Text, literal}
use i3ml_os.Sijil.{Event}
use i3ml_os.Sijil.Label
use i3ml_os.Aman
use i3ml_os.Aman.{Broker, Capability, Denied, not_held, budget_exhausted}
use i3ml_os.Aman.Authority.{Authority}
use i3ml_os.Gate.Acb.{State, Agent, Budget, carve, max_capabilities}
use i3ml_os.Gate.Kernel.{Kernel, journal, now, find_agent, update_agent, set_agents}

abbrev pub with_broker : Broker → Kernel → Kernel
with_broker b k = record k { broker = b }

-- The new agent of `spawn`.
abbrev pub newborn : ℕ → Text → ℕ → Budget → ℕ → ℕ → Agent
newborn id goal parent budget deadline step = record {
  id = id;
  goal = Label.new goal;
  parent = parent;
  state = State.runnable;
  budget = budget;
  deadline = deadline;
  capabilities = VecLite.new max_capabilities;
  crossings = 0;
  awaiting = none;
  step = step;
  cursor = 0;
}

unfoldable pub spawn : Text → ℕ → Budget → ℕ → ℕ → Kernel → ℕ × Kernel
spawn goal parent budget deadline_microseconds step k =
    let id = k.supervisor.next_agent_id in
    let (at, k₁) = now k in
    let agent = newborn id goal parent budget (wrap64 (at + deadline_microseconds)) step in
    let k₂ = record k₁ {
      supervisor = record (k₁.supervisor) {
        agents = k₁.supervisor.agents ++ (agent ∷ []);
        next_agent_id = wrap32 (id + 1);
      };
    } in
    (id, journal id Event.spawned parent goal k₂)

-- `found.capabilities.push(capability)`, for its effect and for its answer.
abbrev pub hold : Capability → Agent → Agent
hold capability a = record a { capabilities = (VecLite.push capability a.capabilities).0 }

unfoldable pub grant : ℕ → Authority → Kernel → Option Capability × Kernel
grant agent authority k =
    let (capability, b) = Aman.mint agent authority k.broker in
    let k₁ = with_broker b k in
    elim (find_agent agent k₁) [
      | none ↦ (none, k₁)
      | some found ↦ (
        if (VecLite.push capability found.capabilities).1 then some capability else none,
        update_agent agent (hold capability) k₁,
      )
    ]

-- Step 2 of `delegate`: the carved budget, and the kernel whose parent has paid for it.
unfoldable pub fund : ℕ → ℕ → ℕ → Kernel → Option (Budget × Kernel)
fund parent micro_dollars wall_microseconds k = elim (find_agent parent k) [
  | none ↦ none
  | some found ↦ elim (carve found.budget micro_dollars wall_microseconds) [
    | none ↦ none
    | some (child, rest) ↦ some (child, update_agent parent (λ a. record a { budget = rest }) k)
  ]
]

-- Step 3 of `delegate`, from the carved budget on.
unfoldable pub commit :
    ℕ → Text → Capability → Authority → ℕ → ℕ → Budget → Kernel → Result Denied ℕ × Kernel
commit parent goal capability narrower wall_microseconds step child_budget k =
    let (child, k₁) = spawn goal parent child_budget (max wall_microseconds 1_000) step k in
    let (r, b) = Aman.delegate parent child capability narrower k₁.broker in
    let k₂ = with_broker b k₁ in
    elim r [ ok derived ↦ (ok child, update_agent child (hold derived) k₂) | err e ↦ (err e, k₂) ]

unfoldable pub delegate :
    ℕ → Text → Capability → Authority → ℕ → ℕ → ℕ → Kernel → Result Denied ℕ × Kernel
delegate parent goal capability narrower micro_dollars wall_microseconds step k =
    let (r, b) = Aman.can_delegate parent capability narrower k.broker in
    let k₁ = with_broker b k in
    elim r [
      | err e ↦ (err e, k₁)
      | ok u ↦ elim (fund parent micro_dollars wall_microseconds k₁) [
        | none ↦ (err budget_exhausted, journal parent Event.denied 0 (literal "denied:budget") k₁)
        | some (child_budget, k₂) ↦
            commit parent goal capability narrower wall_microseconds step child_budget k₂
      ]
    ]

unfoldable pub attenuate : ℕ → Capability → Authority → Kernel → Result Denied Capability × Kernel
attenuate agent capability narrower k =
    let (r, b) = Aman.attenuate agent capability narrower k.broker in
    let k₁ = with_broker b k in
    elim r [ ok derived ↦ (ok derived, update_agent agent (hold derived) k₁) | err e ↦ (err e, k₁) ]

pub capability_of : ℕ → ℕ → Kernel → Option Capability
capability_of agent slot k = elim (find_agent agent k) [
  | none ↦ none
  | some found ↦ VecLite.get found.capabilities slot
]
