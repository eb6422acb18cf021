-- ===== src/Gate/Invoke/Consent.antt =====
-- `invoke` of nawa/gate/src/lib.rs, with the approvals that it looks up and uses.
use i3ml_os.Prelude.{
  ℕ, ◌≤◌, ◌≡◌, refl, ◌∙◌, ap, inl, inr, true, false, some, arith, any-found, get_elem?,
  Option-cases, Bool-cases, Result, ok-injective, ok, err, subst,
}
use i3ml_os.Aman
use i3ml_os.Aman.{Slot, Broker, Capability, Denied, needs_approval, budget_exhausted}
use i3ml_os.Aman.Authority.{Authority, risk, is_irreversible}
use i3ml_os.Aman.Attenuation.{Held, authorize_unapproved, authorize_iff, authorize-slots}
use i3ml_os.Gate.Acb.{Agent, remaining_micro_dollars}
use i3ml_os.Gate.Kernel.{Kernel, ApprovalRequest, find_agent, journal}
use i3ml_os.Gate.Invoke.{has_approval, authorizes, is_yes, price_of, settle, invoke}
use i3ml_os.Gate.Invoke.Charges.{paid, budgets, settle_charged, settle_uncharged}

-- A yes that covers this act: the request that the agent waits for, made by it, for this capability,
-- answered yes and not used before.
pub record Approved (k : Kernel) (agent c : ℕ) : Type 0 where
  pub waiting : Agent
  pub found : find_agent agent k ≡ some waiting
  pub request : ApprovalRequest
  pub index : ℕ
  pub stands : get_elem? k.supervisor.approvals index ≡ some request
  pub awaited : waiting.awaiting ≡ some request.id
  pub asked : request.agent ≡ agent
  pub names : request.capability ≡ c
  pub yes_said : is_yes request.answered ≡ true
  pub unused : request.consumed ≡ false

pub has_approval-Approved :
    (agent c : ℕ) (k : Kernel) → has_approval agent c k ≡ true → Approved k agent c
unfolding has_approval
has_approval-Approved agent c k h = elim (Option-cases (find_agent agent k)) [
  | inl e ↦ ground arith
  | inr (waiting, e) ↦ elim (Option-cases (waiting.awaiting)) [
    | inl w ↦ ground arith
    | inr (r, w) ↦
        let (i, a, at, t) =
          any-found (authorizes agent r c) k.supervisor.approvals (ground arith) in
        record {
          waiting = waiting;
          found = e;
          request = a;
          index = i;
          stands = at;
          awaited = ground arith;
          asked = ground arith;
          names = ground arith;
          yes_said = ground arith;
          unused = ground arith;
        }
  ]
]

-- What a crossing that was let through did.
pub record Crossed (k : Kernel) (agent c : ℕ) (a : Authority) (k' : Kernel) : Type 0 where
  pub slot : Slot
  pub held : Held k.broker.slots agent c slot
  pub is_its : slot.authority ≡ a
  pub consent : is_irreversible (risk a) ≡ true → Approved k agent c
  pub payer : Agent
  pub found : find_agent agent k ≡ some payer
  pub covered : price_of a ≤ remaining_micro_dollars payer.budget
  pub charged : find_agent agent k' ≡ some (paid (price_of a) (is_irreversible (risk a)) payer)
  pub slots : k'.broker.slots ≡ k.broker.slots

-- A crossing that was refused spends no money, burns no approval and changes no capability.
abbrev pub Crossing : Kernel → ℕ → ℕ → Result Denied Authority × Kernel → Type 0
Crossing k agent c (ok a, k') = Crossed k agent c a k'
Crossing k agent c (err e, k') =
    (budgets k' ≡ budgets k)
    × (k'.supervisor.approvals ≡ k.supervisor.approvals)
    × (k'.broker.slots ≡ k.broker.slots)

module _ (agent c : ℕ) (k : Kernel) where
  abbrev asked_kernel : Kernel
  asked_kernel = record k { broker = (Aman.authorize agent c (has_approval agent c k) k.broker).1 }

  -- An invocation that is let through was authorized by a live capability, consented to where it is
  -- irreversible, covered and charged at the kernel's price; one that is refused spends no money,
  -- burns no approval and changes no capability.
  pub invoke-Crossing : Crossing k agent c (invoke agent c k)
  unfolding invoke journal
  invoke-Crossing = by_authority (Aman.authorize agent c (has_approval agent c k) k.broker).0 refl
    where
      by_authority :
          (r : Result Denied Authority)
          → (Aman.authorize agent c (has_approval agent c k) k.broker).0 ≡ r
          → Crossing k agent c (invoke agent c k)
      by_authority (err e) h =
          rw (h, invoke) (refl, refl, authorize-slots agent c (has_approval agent c k) k.broker)
      by_authority (ok a) h =
          elim (Bool-cases (settle agent (price_of a) (is_irreversible (risk a)) asked_kernel).0) [
            | inl done ↦
                let (slot, held, same, consent) =
                  (authorize_iff agent c (has_approval agent c k) a k.broker).0 h in
                let (payer, found, covered, charged, broker) =
                  settle_charged agent (price_of a) (is_irreversible (risk a)) asked_kernel done in
                rw (h, done, invoke)
                  (record {
                    slot = slot;
                    held = held;
                    is_its = same;
                    consent = λ bad. has_approval-Approved agent c k (consent bad);
                    payer = payer;
                    found = found;
                    covered = covered;
                    charged = charged;
                    slots =
                        ap (λ (b : Broker). b.slots) broker
                        ∙ authorize-slots agent c (has_approval agent c k) k.broker;
                  })
            | inr poor ↦
                let (money, approvals, broker) =
                  settle_uncharged agent (price_of a) (is_irreversible (risk a)) asked_kernel
                    poor in
                rw (h, poor, invoke)
                  (
                    money,
                    approvals,
                    ap (λ (b : Broker). b.slots) broker
                        ∙ authorize-slots agent c (has_approval agent c k) k.broker,
                  )
          ]

Crossing-ok :
    (k : Kernel) (agent c : ℕ) (a : Authority) (r : Result Denied Authority × Kernel)
    → Crossing k agent c r
    → r.0 ≡ ok a
    → Crossed k agent c a r.1
Crossing-ok k agent c a (ok b, k') x e = subst (λ t. Crossed k agent c t k') (ok-injective e) x
Crossing-ok k agent c a (err d, k') x e = cc

no_longer_approved :
    (agent c cost : ℕ) (k : Kernel) (payer : Agent)
    → find_agent agent k ≡ some (paid cost true payer)
    → has_approval agent c k ≡ false
unfolding has_approval
no_longer_approved agent c cost k payer e = rw (e, has_approval)

invoke_unapproved :
    (agent c : ℕ) (k : Kernel)
    → (Aman.authorize agent c (has_approval agent c k) k.broker).0 ≡ err needs_approval
    → (invoke agent c k).0 ≡ err needs_approval
unfolding invoke
invoke_unapproved agent c k h = rw (h, invoke)

Crossed-refused :
    (agent c : ℕ) (k k' : Kernel) (a : Authority)
    → Crossed k agent c a k'
    → is_irreversible (risk a) ≡ true
    → (invoke agent c k').0 ≡ err needs_approval
Crossed-refused agent c k k' a x bad =
    let charged : find_agent agent k' ≡ some (paid (price_of a) true x.payer) =
      x.charged ∙ ap (λ b. some (paid (price_of a) b x.payer)) bad in
    let spent = no_longer_approved agent c (price_of a) k' x.payer charged in
    let held : Held k'.broker.slots agent c x.slot = rw x.slots x.held in
    let refused = authorize_unapproved agent c k'.broker x.slot held (rw x.is_its bad) in
    invoke_unapproved agent c k' (rw spent refused)

-- One human yes authorizes one irreversible act: once an irreversible invocation was let through, the
-- same invocation in the state that it left is refused for want of approval.
pub invoke_once :
    (agent c : ℕ) (k : Kernel) (a : Authority)
    → (invoke agent c k).0 ≡ ok a
    → is_irreversible (risk a) ≡ true
    → (invoke agent c (invoke agent c k).1).0 ≡ err needs_approval
invoke_once agent c k a h bad =
    Crossed-refused agent c k (invoke agent c k).1 a
      (Crossing-ok k agent c a (invoke agent c k) (invoke-Crossing agent c k) h) bad
