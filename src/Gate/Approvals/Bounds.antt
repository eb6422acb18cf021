-- ===== src/Gate/Approvals/Bounds.antt =====
-- `request_approval` of nawa/gate/src/lib.rs and its limit on the requests that wait.
use i3ml_os.Prelude.{
  ℕ, ◌+◌, ◌≤◌, ◌≡◌, refl, inl, inr, false, List, [], ◌∷◌, ◌++◌, arith, find, leb, ◌==◌, Result, ok,
  err, if◌then◌else◌, Option-cases, Bool-cases,
}
use i3ml_os.Text.{Text}
use i3ml_os.Aman
use i3ml_os.Aman.{Capability, Denied}
use i3ml_os.Aman.Authority.{Authority, describe}
use i3ml_os.Gate.Kernel.{Kernel, ApprovalRequest, journal, max_pending_approvals}
use i3ml_os.Gate.Approvals.{
  pending, asked_by, same_question, request_of, raise_request, request_approval,
}

-- No agent has more than four unanswered requests.
abbrev pub IsBounded : List ApprovalRequest → Type 0
IsBounded approvals = (agent : ℕ) → pending agent approvals ≤ max_pending_approvals

pending-append :
    (agent : ℕ) (xs : List ApprovalRequest) (a : ApprovalRequest)
    → pending agent (xs ++ (a ∷ [])) ≡ pending agent xs + (if asked_by agent a then 1 else 0)
pending-append agent [] a = ground arith
pending-append agent (x ∷ xs) a = ground (arith, pending-append agent xs a)

-- Only an agent below the limit gets another request.
append-IsBounded :
    (agent id : ℕ) (c : Capability) (what note : Text) (xs : List ApprovalRequest)
    → IsBounded xs
    → leb max_pending_approvals (pending agent xs) ≡ false
    → IsBounded (xs ++ (request_of id agent c what note ∷ []))
append-IsBounded agent id c what note xs h room other = elim (Bool-cases (agent == other)) [
  | inl same ↦ ground (arith, pending-append other xs (request_of id agent c what note), h other)
  | inr else_ ↦ ground (arith, pending-append other xs (request_of id agent c what note), h other)
]

raise_request-IsBounded :
    (agent : ℕ) (c : Capability) (what note : Text) (k : Kernel)
    → IsBounded k.supervisor.approvals
    → IsBounded (raise_request agent c what note k).1.supervisor.approvals
unfolding raise_request
raise_request-IsBounded agent c what note k h =
    elim (Option-cases (find (same_question agent c) k.supervisor.approvals)) [
      | inl new ↦
          elim (Bool-cases (leb max_pending_approvals (pending agent k.supervisor.approvals))) [
            | inl full ↦ rw (new, raise_request) (rw full h)
            | inr room ↦
                rw (new, raise_request)
                  (rw room (
                    append-IsBounded agent k.supervisor.next_approval_id c what note
                      k.supervisor.approvals h room))
          ]
      | inr (old, e) ↦ rw (e, raise_request) h
    ]

-- If no agent has more than four open requests, then none has after a request for approval.
pub request_approval-IsBounded :
    (agent : ℕ) (c : Capability) (note : Text) (k : Kernel)
    → IsBounded k.supervisor.approvals
    → IsBounded (request_approval agent c note k).1.supervisor.approvals
unfolding request_approval journal
request_approval-IsBounded agent c note k h = by_authority (Aman.authority_of agent c k.broker) refl
  where
    by_authority :
        (r : Result Denied Authority)
        → Aman.authority_of agent c k.broker ≡ r
        → IsBounded (request_approval agent c note k).1.supervisor.approvals
    by_authority (err e) l = rw (l, request_approval) h
    by_authority (ok a) l =
        let raised = raise_request-IsBounded agent c (describe a) note k h in
        elim (Option-cases (raise_request agent c (describe a) note k).0) [
          | inl full ↦ rw (l, full, request_approval) raised
          | inr (id, e) ↦ rw (l, e, request_approval) raised
        ]
