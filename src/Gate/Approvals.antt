-- ===== src/Gate/Approvals.antt =====
-- The consent surface of nawa/gate/src/lib.rs: requests, answers and what is pending.
pub mod Bounds
pub mod Answers
use i3ml_os.Prelude.{
  ℕ, ◌+◌, Bool, true, false, not, ◌&&◌, Option, none, some, List, [], ◌∷◌, ◌++◌, ltb, leb, ◌==◌,
  find, filter, length, is_some, Result, ok, err, if◌then◌else◌, wrap64,
}
use i3ml_os.Text.{Text, literal}
use i3ml_os.Sijil.{Event}
use i3ml_os.Sijil.Label
use i3ml_os.Aman
use i3ml_os.Aman.{Capability, Denied, not_a_subset}
use i3ml_os.Aman.Authority.{describe}
use i3ml_os.Gate.Acb.{State, Agent}
use i3ml_os.Gate.Kernel.{
  Kernel, ApprovalRequest, journal, now, find_agent, update_agent, update_approval, names,
  max_pending_approvals,
}

abbrev pub is_pending : ApprovalRequest → Bool
is_pending a = not (is_some a.answered)

-- An unanswered request of this agent for this capability, and any unanswered request of it.
abbrev pub same_question : ℕ → Capability → ApprovalRequest → Bool
same_question agent capability a = a.agent == agent && a.capability == capability && is_pending a

abbrev pub asked_by : ℕ → ApprovalRequest → Bool
asked_by agent a = a.agent == agent && is_pending a

abbrev pub pending : ℕ → List ApprovalRequest → ℕ
pending agent approvals = length (filter (asked_by agent) approvals)

abbrev pub request_of : ℕ → ℕ → Capability → Text → Text → ApprovalRequest
request_of id agent capability what note = record {
  id = id;
  agent = agent;
  capability = capability;
  what = Label.new what;
  note = Label.new note;
  answered = none;
  consumed = false;
}

-- The block of `request_approval` under the lock.
unfoldable pub raise_request : ℕ → Capability → Text → Text → Kernel → Option ℕ × Kernel
raise_request agent capability what note k =
    elim (find (same_question agent capability) k.supervisor.approvals) [
      | some existing ↦ (some existing.id, k)
      | none ↦
          let id = k.supervisor.next_approval_id in
          let k₁ = record k {
            supervisor = record (k.supervisor) {
              approvals = k.supervisor.approvals ++ (request_of id agent capability what note ∷ []);
              next_approval_id = wrap64 (id + 1);
            };
          } in
          if leb max_pending_approvals (pending agent k.supervisor.approvals)
          then (none, k)
          else (some id, update_agent agent (λ a. record a { awaiting = some id }) k₁)
    ]

unfoldable pub request_approval : ℕ → Capability → Text → Kernel → Result Denied ℕ × Kernel
request_approval agent capability note k = elim (Aman.authority_of agent capability k.broker) [
  | err e ↦ (err e, k)
  | ok authority ↦
      let what = describe authority in
      let (id, k₁) = raise_request agent capability what note k in
      elim id [
        | none ↦ (
          err not_a_subset,
          journal agent Event.denied capability (literal "denied:approval-flood") k₁,
        )
        | some n ↦ (ok n, journal agent Event.approval_requested capability what k₁)
      ]
]

abbrev pub awaits : ℕ → Agent → Bool
awaits request a = elim (a.awaiting) [ none ↦ false | some r ↦ r == request ]

-- What an answer does to the agent that waits for it: a yes wakes it, at the reading of the clock, and
-- a no kills it.
abbrev pub wake : ℕ → Agent → Agent
wake at a = record a { state = State.runnable; deadline = at }

abbrev pub kill : Agent → Agent
kill a = record a { awaiting = none; state = State.killed }

-- The part of `answer_approval` that touches the agent of the request.
unfoldable pub resume : ℕ → ℕ → Bool → Kernel → Kernel
resume agent request approved k = elim (find_agent agent k) [
  | none ↦ k
  | some waiting ↦
      let (at, k₁) = now k in
      let woken = update_agent agent (wake at) k₁ in
      let killed = update_agent agent kill k in
      if awaits request waiting then (if approved then woken else killed) else k
]

abbrev pub answer_event : Bool → Event
answer_event true = Event.approved
answer_event false = Event.rejected

abbrev pub answer_label : Bool → Text
answer_label true = literal "human approved"
answer_label false = literal "human rejected"

unfoldable pub answer_approval : ℕ → Bool → Kernel → Kernel
answer_approval request approved k = elim (find (names request) k.supervisor.approvals) [
  | none ↦ k
  | some found ↦
      let k₁ = update_approval request (λ a. record a { answered = some approved }) k in
      let k₂ = resume found.agent request approved k₁ in
      if is_some found.answered
      then k
      else journal found.agent (answer_event approved) found.capability (answer_label approved) k₂
]

pub pending_approvals : Kernel → List ApprovalRequest
pending_approvals k = filter is_pending k.supervisor.approvals
