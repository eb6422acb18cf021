-- ===== src/Gate/Verbs/Delegation.antt =====
-- `delegate` of nawa/gate/src/lib.rs: what it validates first and commits second.
use i3ml_os.Prelude.{
  ℕ, ◌+◌, ◌≡◌, refl, sym, ◌∙◌, ap, inl, inr, Option, none, some, List, [], ◌∷◌, ◌++◌, arith, Result,
  ok-injective, ok, err, length, modify_first, subst, find, find-modify_first, find-append,
  find-modify_other, ==_iff, max, wrap64, Option-cases,
}
use i3ml_os.Text.{Text}
use i3ml_os.Aman
use i3ml_os.Aman.{Slot, Capability, Denied, slot_of}
use i3ml_os.Aman.Authority.{Authority, Narrower}
use i3ml_os.Aman.Attenuation.{
  Held, derive-Derives, can_delegate-slots, can_delegate-delegable, delegate_after_can_delegate,
}
use i3ml_os.Gate.Acb.{State, Agent, Budget, carve, max_capabilities}
use i3ml_os.VecLite
use i3ml_os.Gate.Kernel.{Kernel, find_agent, has_id, journal, now}
use i3ml_os.Gate.Verbs.{spawn, delegate, fund, commit, hold, newborn, with_broker}

spawn-slots :
    (goal : Text) (parent : ℕ) (b : Budget) (w step : ℕ) (k : Kernel)
    → (spawn goal parent b w step k).1.broker.slots ≡ k.broker.slots
unfolding spawn now journal
spawn-slots goal parent b w step k = refl

spawn-agents :
    (goal : Text) (parent : ℕ) (b : Budget) (w step : ℕ) (k : Kernel)
    → (spawn goal parent b w step k).1.supervisor.agents
      ≡ k.supervisor.agents
        ++ (newborn k.supervisor.next_agent_id goal parent b (wrap64 ((now k).0 + w)) step ∷ [])
unfolding spawn now journal
spawn-agents goal parent b w step k = refl

spawn-id :
    (goal : Text) (parent : ℕ) (b : Budget) (w step : ℕ) (k : Kernel)
    → (spawn goal parent b w step k).0 ≡ k.supervisor.next_agent_id
unfolding spawn
spawn-id goal parent b w step k = refl

-- The agents with a new one at the end, and a capability given to the first that has the child's id.
abbrev pub with_child : ℕ → Agent → Capability → List Agent → List Agent
with_child child born derived agents =
    modify_first (has_id child) (hold derived) (agents ++ (born ∷ []))

module _ (parent : ℕ) (goal : Text) (c : Capability) (narrower : Authority) (w step : ℕ) where
  abbrev child_of : Budget → Kernel → Agent
  child_of b k =
      newborn k.supervisor.next_agent_id goal parent b (wrap64 ((now k).0 + max w 1_000)) step

  commit_succeeds :
      (b : Budget) (k : Kernel) (s : Aman.Broker)
      → (Aman.can_delegate parent c narrower s).0 ≡ ok tt
      → k.broker.slots ≡ s.slots
      → let r = commit parent goal c narrower w step b k in
        (r.0 ≡ ok k.supervisor.next_agent_id)
        × (r.1.broker.slots
            ≡ s.slots ++ (slot_of narrower k.supervisor.next_agent_id (some c) ∷ []))
        × (r.1.supervisor.agents
            ≡ with_child k.supervisor.next_agent_id
                (child_of b k)
                (length s.slots)
                k.supervisor.agents)
  unfolding commit spawn
  commit_succeeds b k s h same =
      let (child, k₁) = spawn goal parent b (max w 1_000) step k in
      let id = spawn-id goal parent b (max w 1_000) step k in
      let granted =
        delegate_after_can_delegate parent child c narrower s k₁.broker h
          (spawn-slots goal parent b (max w 1_000) step k ∙ same) in
      (
        rw (granted.0, commit) (ap ok id),
        rw (granted.0, commit) granted.1,
        rw (granted.0, commit, id)
            (ap (λ l. modify_first (has_id k.supervisor.next_agent_id) (hold (length s.slots)) l)
              (spawn-agents goal parent b (max w 1_000) step k)),
      )

  fund-cases :
      (m : ℕ) (k : Kernel) (b : Budget) (k' : Kernel)
      → fund parent m w k ≡ some (b, k')
      → (payer : Agent) × (rest : Budget) × (find_agent parent k ≡ some payer)
        × (carve payer.budget m w ≡ some (b, rest))
        × (k'.broker ≡ k.broker)
        × (k'.supervisor.agents
            ≡ modify_first (has_id parent) (λ a. record a { budget = rest }) k.supervisor.agents)
        × (k'.supervisor.next_agent_id ≡ k.supervisor.next_agent_id)
  unfolding fund
  fund-cases m k b k' h = elim (Option-cases (find_agent parent k)) [
    | inl e ↦ ground arith
    | inr (payer, e) ↦ elim (Option-cases (carve payer.budget m w)) [
      | inl f ↦ ground arith
      | inr ((child, rest), f) ↦
          (payer, rest, e, ground arith, ground arith, ground arith, ground arith)
    ]
  ]

  -- What `hold` adds to an agent without capabilities.
  one_capability :
      (a : Agent) (derived : Capability)
      → a.capabilities ≡ VecLite.new max_capabilities
      → VecLite.iter (hold derived a).capabilities ≡ derived ∷ []
  unfolding VecLite.push VecLite.iter VecLite.iter_from
  one_capability a derived e = rw e refl

  -- Where no agent had the child's id, the search for it finds the child.
  with_child-found :
      (child derived : ℕ) (born : Agent) (rest : Budget) (agents : List Agent)
      → born.id ≡ child
      → find (has_id child) agents ≡ none
      → find (has_id child) (
          with_child child born derived
            (modify_first (has_id parent) (λ a. record a { budget = rest }) agents))
        ≡ some (hold derived born)
  with_child-found child derived born rest agents named absent =
      let paid = modify_first (has_id parent) (λ a. record a { budget = rest }) agents in
      find-modify_first (has_id child) (hold derived) (paid ++ (born ∷ [])) born (λ a h. h)
        (find-append (has_id child) paid born
          (find-modify_other (has_id child) (has_id parent) (λ a. record a { budget = rest }) agents
            (λ a. refl) absent)
          ((==_iff born.id child).1 named))

  -- What a delegation that succeeded did.
  pub record Delegated (m : ℕ) (k : Kernel) (child : ℕ) (k' : Kernel) : Type 0 where
    pub origin : Slot
    pub held : Held k.broker.slots parent c origin
    pub within : Narrower narrower origin.authority
    pub payer : Agent
    pub carved : Budget
    pub rest : Budget
    pub found : find_agent parent k ≡ some payer
    pub funded : carve payer.budget m w ≡ some (carved, rest)
    pub fresh : child ≡ k.supervisor.next_agent_id
    pub slots : k'.broker.slots ≡ k.broker.slots ++ (slot_of narrower child (some c) ∷ [])
    pub born : Agent
    pub endowed :
        (born.budget ≡ carved)
        × (born.parent ≡ parent)
        × (born.id ≡ child)
        × (born.state ≡ State.runnable)
    pub holds_one :
        VecLite.iter (hold (length k.broker.slots) born).capabilities ≡ length k.broker.slots ∷ []
    pub enters :
        find_agent child k ≡ none → find_agent child k' ≡ some (hold (length k.broker.slots) born)
    pub agents :
        k'.supervisor.agents
        ≡ with_child child born
            (length k.broker.slots)
            (modify_first (has_id parent) (λ a. record a { budget = rest }) k.supervisor.agents)

  -- A refused delegation leaves no agent, no slot and no spent money behind; one that succeeds was
  -- allowed by the attenuation law and paid for by the parent.
  abbrev pub Delegation : ℕ → Kernel → Result Denied ℕ × Kernel → Type 0
  Delegation m k (ok child, k') = Delegated m k child k'
  Delegation m k (err e, k') = (k'.supervisor ≡ k.supervisor) × (k'.broker.slots ≡ k.broker.slots)

  abbrev checked : Kernel → Kernel
  checked k = with_broker (Aman.can_delegate parent c narrower k.broker).1 k

  commit_meets :
      (m : ℕ) (k : Kernel) (child : ℕ) (r : Result Denied ℕ × Kernel)
      → r.0 ≡ ok child
      → Delegated m k child r.1
      → Delegation m k r
  commit_meets m k child (ok d, k') e done =
      subst (λ x. Delegated m k x k') (sym (ok-injective e)) done
  commit_meets m k child (err d, k') e done = cc

  committed :
      (m : ℕ) (k : Kernel) (b : Budget) (k₂ : Kernel)
      → (Aman.can_delegate parent c narrower k.broker).0 ≡ ok tt
      → fund parent m w (checked k) ≡ some (b, k₂)
      → Delegation m k (commit parent goal c narrower w step b k₂)
  committed m k b k₂ h f =
      let same = can_delegate-slots parent c narrower k.broker in
      let (payer, rest, found, funded, broker, agents, next) = fund-cases m (checked k) b k₂ f in
      let law = derive-Derives parent k.supervisor.next_agent_id c narrower k.broker.slots _ _ (
        rw same at
          (can_delegate-delegable parent k.supervisor.next_agent_id c narrower k.broker h)) in
      let done =
        commit_succeeds b k₂ k.broker h (ap (λ (x : Aman.Broker). x.slots) broker ∙ same) in
      let after =
        done.2
        ∙ ap (λ (n : ℕ). with_child n (child_of b k₂) (length k.broker.slots) k₂.supervisor.agents)
            next
        ∙ ap (with_child k.supervisor.next_agent_id (child_of b k₂) (length k.broker.slots))
            agents in
      commit_meets m k k.supervisor.next_agent_id _ (done.0 ∙ ap ok next) (record {
        origin = law.origin;
        held = law.held;
        within = law.within;
        payer = payer;
        carved = b;
        rest = rest;
        found = found;
        funded = funded;
        fresh = refl;
        slots = done.1 ∙ ap (λ (n : ℕ). k.broker.slots ++ (slot_of narrower n (some c) ∷ [])) next;
        born = child_of b k₂;
        endowed = (refl, refl, next, refl);
        holds_one = one_capability (child_of b k₂) (length k.broker.slots) refl;
        enters = λ absent.
            ap (find (has_id k.supervisor.next_agent_id)) after
            ∙ with_child-found k.supervisor.next_agent_id (length k.broker.slots) (child_of b k₂)
                rest k.supervisor.agents next absent;
        agents = after;
      })

  -- `delegate` is atomic: refused, it leaves no agent, no slot and no spent money behind; done, it was
  -- allowed by the attenuation law, and the one capability that the child holds is the new slot, with the
  -- narrowed authority. The child's budget is what was carved out of the parent's. It is found under its
  -- id, where no agent had that id before.
  pub delegate-Delegation :
      (m : ℕ) (k : Kernel) → Delegation m k (delegate parent goal c narrower m w step k)
  unfolding delegate journal
  delegate-Delegation m k =
      by_check (Aman.can_delegate parent c narrower k.broker).0 refl (fund parent m w (checked k))
        refl
    where
      by_check :
          (r : Result Denied (Unit {0}))
          → (Aman.can_delegate parent c narrower k.broker).0 ≡ r
          → (o : Option (Budget × Kernel)) → fund parent m w (checked k) ≡ o
          → Delegation m k (delegate parent goal c narrower m w step k)
      by_check (err e) h o f =
          rw (h, delegate) (refl, can_delegate-slots parent c narrower k.broker)
      by_check (ok u) h none f =
          rw (h, f, delegate) (refl, can_delegate-slots parent c narrower k.broker)
      by_check (ok u) h (some (b, k₂)) f = rw (h, f, delegate) (committed m k b k₂ h f)
