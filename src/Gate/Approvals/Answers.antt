-- ===== src/Gate/Approvals/Answers.antt =====
-- `answer_approval` of nawa/gate/src/lib.rs.
use i3ml_os.Prelude.{
  ℕ, ◌≡◌, refl, ap, inl, inr, Bool, true, false, none, some, find, is_some, if◌then◌else◌,
  Option-cases, Bool-cases, find-modify_first,
}
use i3ml_os.Gate.Acb.{Agent}
use i3ml_os.Gate.Kernel.{
  Kernel, ApprovalRequest, find_agent, has_id, journal, now, names, update_approval,
}
use i3ml_os.Gate.Approvals.{answer_approval, resume, awaits, wake, kill, answer_event, answer_label}

-- The request with its answer.
abbrev pub answer : Bool → ApprovalRequest → ApprovalRequest
answer approved a = record a { answered = some approved }

answer_approval-new :
    (r : ℕ) (approved : Bool) (k : Kernel) (found : ApprovalRequest)
    → find (names r) k.supervisor.approvals ≡ some found
    → found.answered ≡ none
    → answer_approval r approved k
      ≡ journal found.agent
          (answer_event approved)
          found.capability
          (answer_label approved)
          (resume found.agent r approved (update_approval r (answer approved) k))
unfolding answer_approval
answer_approval-new r approved k found e open_still =
    rw (e, answer_approval) (rw (ap is_some open_still))

resume-approvals :
    (agent r : ℕ) (approved : Bool) (k : Kernel)
    → (resume agent r approved k).supervisor.approvals ≡ k.supervisor.approvals
unfolding resume now
resume-approvals agent r approved k = elim (Option-cases (find_agent agent k)) [
  | inl e ↦ rw (e, resume)
  | inr (w, e) ↦ elim (Bool-cases (awaits r w)) [
    | inl mine ↦ by_answer w e mine approved refl
    | inr other ↦ rw (e, resume) (rw other)
  ]
]
  where
    by_answer :
        (w : Agent)
        → find_agent agent k ≡ some w
        → awaits r w ≡ true
        → (b : Bool) → approved ≡ b
        → (resume agent r approved k).supervisor.approvals ≡ k.supervisor.approvals
    by_answer w e mine true h = rw (e, resume) (rw (mine, h))
    by_answer w e mine false h = rw (e, resume) (rw (mine, h))

-- The agent of the request after the answer: woken at the clock's reading by a yes, killed by a no, if it
-- waits for this very request; and exactly as it was if it waits for another.
abbrev pub resumed : ℕ → Bool → ℕ → Agent → Agent
resumed r approved at w = if awaits r w then (if approved then wake at w else kill w) else w

resume-find_agent :
    (agent r : ℕ) (approved : Bool) (k : Kernel) (w : Agent)
    → find_agent agent k ≡ some w
    → find_agent agent (resume agent r approved k) ≡ some (resumed r approved (now k).0 w)
unfolding resume now
resume-find_agent agent r true k w e = elim (Bool-cases (awaits r w)) [
  | inl mine ↦
      rw (e, resume)
        (rw mine
          (find-modify_first (has_id agent) (wake (now k).0) k.supervisor.agents w (λ x h. h) e))
  | inr other ↦ rw (e, resume) (rw other e)
]
resume-find_agent agent r false k w e = elim (Bool-cases (awaits r w)) [
  | inl mine ↦
      rw (e, resume)
        (rw mine (find-modify_first (has_id agent) kill k.supervisor.agents w (λ x h. h) e))
  | inr other ↦ rw (e, resume) (rw other e)
]

-- The human's answer to an open request is recorded, and it wakes or kills the agent that made the
-- request exactly if that agent is parked on it; otherwise the agent is left as it was.
pub answer_approval-resumed :
    (r : ℕ) (approved : Bool) (k : Kernel) (found : ApprovalRequest) (w : Agent)
    → find (names r) k.supervisor.approvals ≡ some found
    → found.answered ≡ none
    → find_agent found.agent k ≡ some w
    → (find (names r) (answer_approval r approved k).supervisor.approvals
        ≡ some (answer approved found))
      × (find_agent found.agent (answer_approval r approved k)
          ≡ some (resumed r approved (now k).0 w))
unfolding journal now
answer_approval-resumed r approved k found w e open_still here =
    let k₁ = update_approval r (answer approved) k in
    let done = answer_approval-new r approved k found e open_still in
    (
      rw (done, resume-approvals found.agent r approved k₁)
          (find-modify_first (names r) (answer approved) k.supervisor.approvals found (λ x h. h) e),
      rw done (resume-find_agent found.agent r approved k₁ w here),
    )

answer_approval-old :
    (r : ℕ) (approved : Bool) (k : Kernel) (found : ApprovalRequest) (b : Bool)
    → find (names r) k.supervisor.approvals ≡ some found
    → found.answered ≡ some b
    → answer_approval r approved k ≡ k
unfolding answer_approval
answer_approval-old r approved k found b e done = rw (e, answer_approval) (rw (ap is_some done))

answer_approval-absent :
    (r : ℕ) (approved : Bool) (k : Kernel)
    → find (names r) k.supervisor.approvals ≡ none
    → answer_approval r approved k ≡ k
unfolding answer_approval
answer_approval-absent r approved k e = rw (e, answer_approval)

answered_first :
    (r : ℕ) (approved : Bool) (k : Kernel) (found : ApprovalRequest)
    → find (names r) k.supervisor.approvals ≡ some found
    → found.answered ≡ none
    → find (names r) (answer_approval r approved k).supervisor.approvals
      ≡ some (answer approved found)
unfolding journal
answered_first r approved k found e open_still =
    rw
      (
        answer_approval-new r approved k found e open_still,
        resume-approvals found.agent r approved (update_approval r (answer approved) k),
      )
      (find-modify_first (names r) (answer approved) k.supervisor.approvals found (λ x h. h) e)

-- An answer is not revisited: a second answer to the same request changes nothing at all.
pub answer_approval_twice :
    (r : ℕ) (first second : Bool) (k : Kernel)
    → answer_approval r second (answer_approval r first k) ≡ answer_approval r first k
answer_approval_twice r first second k =
    elim (Option-cases (find (names r) k.supervisor.approvals)) [
      | inl absent ↦
          rw (answer_approval-absent r first k absent) (answer_approval-absent r second k absent)
      | inr (found, e) ↦ elim (Option-cases (found.answered)) [
        | inl open_still ↦
            answer_approval-old r second (answer_approval r first k) (answer first found) first
              (answered_first r first k found e open_still) refl
        | inr (b, done) ↦
            rw (answer_approval-old r first k found b e done)
              (answer_approval-old r second k found b e done)
      ]
    ]
