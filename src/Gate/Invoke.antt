-- ===== src/Gate/Invoke.antt =====
-- `invoke`, `spend`, `remember` and `charge` of nawa/gate/src/lib.rs: the crossings that cost money.
pub mod Consent
pub mod Charges
use i3ml_os.Prelude.{
  ℕ, ◌+◌, Bool, true, false, not, ◌&&◌, Option, none, some, List, ltb, ◌==◌, any, beq, Result, ok,
  err, ◌>>=◌, if◌then◌else◌, wrap64, saturating_add,
}
use i3ml_os.Text.{Text, literal}
use i3ml_os.Sijil.{Event}
use i3ml_os.Aman
use i3ml_os.Aman.{Broker, Capability, Denied, not_a_subset, budget_exhausted}
use i3ml_os.Aman.Authority.{
  Authority, fs, model, memory, send, spend as spend_authority, fast, private, frontier, arabic,
  risk, is_irreversible, describe,
}
use i3ml_os.Gate.Acb.{State, Agent, Budget, remaining_micro_dollars, exhausted}
use i3ml_os.Gate.Kernel.{
  Kernel, ApprovalRequest, journal, find_agent, update_agent, update_approval,
}

abbrev pub is_yes : Option Bool → Bool
is_yes none = false
is_yes (some b) = b

-- The test on one approval: a yes to this request, by this agent, for this capability, unused.
abbrev pub authorizes : ℕ → ℕ → Capability → ApprovalRequest → Bool
authorizes agent request capability a =
    a.id == request
    && a.agent == agent
    && a.capability == capability
    && is_yes a.answered
    && not a.consumed

-- The first block of `invoke` and of `spend`.
unfoldable pub has_approval : ℕ → Capability → Kernel → Bool
has_approval agent capability k = elim (find_agent agent k) [
  | none ↦ false
  | some found ↦ elim (found.awaiting) [
    | none ↦ false
    | some request ↦ any (authorizes agent request capability) k.supervisor.approvals
  ]
]

unfoldable pub price_of : Authority → ℕ
price_of (fs prefix false) = 10
price_of (fs prefix true) = 40
price_of (memory namespace false) = 10
price_of (memory namespace true) = 40
price_of (model fast) = 50
price_of (model private) = 80
price_of (model arabic) = 150
price_of (model frontier) = 300
price_of (send true) = 20
price_of (send false) = 200
price_of (spend_authority micro_dollars) = 0

abbrev pub consume : ApprovalRequest → ApprovalRequest
consume a = record a { consumed = true }

-- The found agent after the crossing was counted, when it cannot pay and when it has paid.
abbrev pub broke : Agent → Agent
broke a = record a { crossings = wrap64 (a.crossings + 1); state = State.suspended }

abbrev pub pays : ℕ → Agent → Agent
pays cost a = record a {
  crossings = wrap64 (a.crossings + 1);
  budget = record (a.budget) { spent_micro_dollars = a.budget.spent_micro_dollars + cost };
}

-- `found.awaiting.take()` and the burning of the request that it named.
abbrev pub burn : ℕ → Option ℕ → Kernel → Kernel
burn agent none k = k
burn agent (some request) k =
    update_approval request consume (update_agent agent (λ a. record a { awaiting = none }) k)

-- The second block of `invoke` and of `spend`: count the crossing, charge it, and burn the approval.
unfoldable pub settle : ℕ → ℕ → Bool → Kernel → Bool × Kernel
settle agent cost burns k = elim (find_agent agent k) [
  | none ↦ (false, k)
  | some found ↦
      if ltb (remaining_micro_dollars found.budget) cost
      then (false, update_agent agent broke k)
      else (
        true,
        if burns
            then burn agent found.awaiting (update_agent agent (pays cost) k)
            else update_agent agent (pays cost) k,
      )
]

unfoldable pub invoke : ℕ → Capability → Kernel → Result Denied Authority × Kernel
invoke agent capability k =
    let (r, b) = Aman.authorize agent capability (has_approval agent capability k) k.broker in
    let k₁ = record k { broker = b } in
    elim r [
      | err e ↦ (err e, k₁)
      | ok authority ↦
          let cost = price_of authority in
          let (charged, k₂) = settle agent cost (is_irreversible (risk authority)) k₁ in
          if charged
          then (ok authority, journal agent Event.invoked capability (describe authority) k₂)
          else (
            err budget_exhausted,
            journal agent Event.budget_exhausted cost (literal "suspended") k₂,
          )
    ]

-- The end of `spend`, once the authority is known to be a ceiling.
unfoldable pub spend_within : ℕ → Capability → ℕ → ℕ → Kernel → Result Denied (Unit {0}) × Kernel
spend_within agent capability micro_dollars ceiling k =
    let (charged, k₁) = settle agent micro_dollars true k in
    if ltb ceiling micro_dollars
    then (
      err not_a_subset,
      journal agent Event.denied micro_dollars (literal "denied:over-ceiling") k,
    )
    else if charged
    then (ok tt, journal agent Event.invoked capability (literal "spend") k₁)
    else (
      err budget_exhausted,
      journal agent Event.budget_exhausted micro_dollars (literal "suspended") k₁,
    )

abbrev pub ceiling_of : Authority → Option ℕ
ceiling_of (spend_authority micro_dollars) = some micro_dollars
ceiling_of (fs prefix write) = none
ceiling_of (model class) = none
ceiling_of (memory namespace write) = none
ceiling_of (send draft_only) = none

unfoldable pub spend : ℕ → Capability → ℕ → Kernel → Result Denied (Unit {0}) × Kernel
spend agent capability micro_dollars k =
    let (r, b) = Aman.authorize agent capability (has_approval agent capability k) k.broker in
    let k₁ = record k { broker = b } in
    elim r [
      | err e ↦ (err e, k₁)
      | ok authority ↦ elim (ceiling_of authority) [
        | none ↦ (err not_a_subset, k₁)
        | some ceiling ↦ spend_within agent capability micro_dollars ceiling k₁
      ]
    ]

unfoldable pub remember : ℕ → Capability → Text → Kernel → Result Denied Authority × Kernel
remember agent capability namespace k =
    let (r, k₁) = invoke agent capability k in
    elim r [
      | err e ↦ (err e, k₁)
      | ok authority ↦ (ok authority, journal agent Event.remembered 0 namespace k₁)
    ]

abbrev pub charged : ℕ → Agent → Agent
charged micro_dollars a = record a {
  budget = record (a.budget) {
    spent_micro_dollars = saturating_add a.budget.spent_micro_dollars micro_dollars;
  };
}

unfoldable pub charge : ℕ → ℕ → Kernel → Kernel
charge agent micro_dollars k = elim (find_agent agent k) [
  | none ↦ k
  | some found ↦
      let k₁ = update_agent agent (charged micro_dollars) k in
      if exhausted (charged micro_dollars found).budget
      then journal agent Event.budget_exhausted micro_dollars (literal "suspended after charge")
          (update_agent agent (λ a. record a { state = State.suspended }) k₁)
      else k₁
]
