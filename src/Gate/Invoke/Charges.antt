-- ===== src/Gate/Invoke/Charges.antt =====
-- `settle`, the part of `invoke` of nawa/gate/src/lib.rs that charges a budget.
use i3ml_os.Prelude.{
  ℕ, ◌≤◌, ◌≡◌, refl, ◌∙◌, ap, inl, inr, Bool, true, false, Option, none, some, List, arith, ltb,
  map, if◌then◌else◌, Option-cases, Bool-cases, find-modify_first, map-modify_first,
}
use i3ml_os.Gate.Acb.{Agent, Budget, remaining_micro_dollars}
use i3ml_os.Gate.Kernel.{Kernel, find_agent, has_id, update_agent}
use i3ml_os.Gate.Invoke.{settle, pays, broke, burn}

abbrev pub forget : Agent → Agent
forget a = record a { awaiting = none }

-- The agent after it has paid.
abbrev pub paid : ℕ → Bool → Agent → Agent
paid cost burns a = if burns then forget (pays cost a) else pays cost a

find_agent-burn :
    (agent : ℕ) (awaiting : Option ℕ) (k : Kernel) (a : Agent)
    → find_agent agent k ≡ some a
    → a.awaiting ≡ awaiting
    → find_agent agent (burn agent awaiting k) ≡ some (forget a)
find_agent-burn agent none k a e w = ground arith
find_agent-burn agent (some r) k a e w =
    find-modify_first (has_id agent) forget k.supervisor.agents a (λ x h. h) e

abbrev burnt : ℕ → Option ℕ → Bool → Kernel → Kernel
burnt agent awaiting burns k = if burns then burn agent awaiting k else k

settled :
    (agent : ℕ) (awaiting : Option ℕ) (burns : Bool) (k : Kernel) (a : Agent)
    → find_agent agent k ≡ some a
    → a.awaiting ≡ awaiting
    → find_agent agent (burnt agent awaiting burns k) ≡ some (if burns then forget a else a)
settled agent awaiting true k a e w = find_agent-burn agent awaiting k a e w
settled agent awaiting false k a e w = e

burn-broker :
    (agent : ℕ) (awaiting : Option ℕ) (burns : Bool) (k : Kernel)
    → (burnt agent awaiting burns k).broker ≡ k.broker
burn-broker agent none true k = refl
burn-broker agent (some r) true k = refl
burn-broker agent none false k = refl
burn-broker agent (some r) false k = refl

abbrev pub budgets : Kernel → List Budget
budgets k = map (λ (a : Agent). a.budget) k.supervisor.agents

settle_rich :
    (agent cost : ℕ) (burns : Bool) (k : Kernel) (payer : Agent)
    → find_agent agent k ≡ some payer
    → ltb (remaining_micro_dollars payer.budget) cost ≡ false
    → settle agent cost burns k
      ≡ (true, burnt agent payer.awaiting burns (update_agent agent (pays cost) k))
unfolding settle
settle_rich agent cost burns k payer e rich = rw (e, settle) (rw rich)

-- Where a crossing is charged, the agent existed and could pay; it has then paid the price, and a
-- burnt approval is no longer awaited.
pub settle_charged :
    (agent cost : ℕ) (burns : Bool) (k : Kernel)
    → (settle agent cost burns k).0 ≡ true
    → (payer : Agent) × (find_agent agent k ≡ some payer)
      × (cost ≤ remaining_micro_dollars payer.budget)
      × (find_agent agent (settle agent cost burns k).1 ≡ some (paid cost burns payer))
      × ((settle agent cost burns k).1.broker ≡ k.broker)
unfolding settle
settle_charged agent cost burns k h = elim (Option-cases (find_agent agent k)) [
  | inl e ↦ ground arith
  | inr (payer, e) ↦ elim (Bool-cases (ltb (remaining_micro_dollars payer.budget) cost)) [
    | inl poor ↦ ground arith
    | inr rich ↦
        let paying =
          find-modify_first (has_id agent) (pays cost) k.supervisor.agents payer (λ x h. h) e in
        let after = update_agent agent (pays cost) k in
        let done = settle_rich agent cost burns k payer e rich in
        (
          payer,
          e,
          ground arith,
          ap (λ (r : Bool × Kernel). find_agent agent r.1) done
              ∙ settled agent payer.awaiting burns after (pays cost payer) paying refl,
          ap (λ (r : Bool × Kernel). r.1.broker) done
              ∙ burn-broker agent payer.awaiting burns after,
        )
  ]
]

-- A crossing that is not charged spends nothing and burns nothing: the budgets and the approvals of
-- every agent are what they were.
pub settle_uncharged :
    (agent cost : ℕ) (burns : Bool) (k : Kernel)
    → (settle agent cost burns k).0 ≡ false
    → (budgets (settle agent cost burns k).1 ≡ budgets k)
      × ((settle agent cost burns k).1.supervisor.approvals ≡ k.supervisor.approvals)
      × ((settle agent cost burns k).1.broker ≡ k.broker)
unfolding settle
settle_uncharged agent cost burns k h = elim (Option-cases (find_agent agent k)) [
  | inl e ↦ (ground arith, ground arith, ground arith)
  | inr (payer, e) ↦ elim (Bool-cases (ltb (remaining_micro_dollars payer.budget) cost)) [
    | inl poor ↦
        rw (e, settle)
          (rw poor (
            map-modify_first (has_id agent) broke (λ a. a.budget) k.supervisor.agents (λ x. refl),
            refl,
            refl,
          ))
    | inr rich ↦ ground arith
  ]
]
