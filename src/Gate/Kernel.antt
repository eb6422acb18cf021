-- ===== src/Gate/Kernel.antt =====
-- The state behind the gate: the broker with its journal, and the supervisor.
use i3ml_os.Prelude.{ℕ, ◌+◌, Bool, Option, List, [], ◌==◌, find, modify_first, wrap64}
use i3ml_os.Text.{Text}
use i3ml_os.Sijil.Label.{Label}
use i3ml_os.Sijil.{Event, Entry, record_event, now_microseconds, for_agent}
use i3ml_os.Aman.{Broker, Capability, init_table}
use i3ml_os.Gate.Acb.{Agent}

pub record ApprovalRequest : Type 0 where
  pub id : ℕ
  pub agent : ℕ
  pub capability : Capability
  pub what : Label
  pub note : Label
  pub answered : Option Bool
  pub consumed : Bool

pub record Supervisor : Type 0 where
  pub agents : List Agent
  pub approvals : List ApprovalRequest
  pub next_agent_id : ℕ
  pub next_approval_id : ℕ

-- The statics of the gate, the broker and the journal, after `init`.
pub record Kernel : Type 0 where
  pub broker : Broker
  pub supervisor : Supervisor
  pub ticks : ℕ

abbrev pub max_pending_approvals : ℕ
max_pending_approvals = 4

unfoldable pub init : Kernel → Kernel
init k = record k {
  broker = init_table k.broker;
  supervisor = record { agents = []; approvals = []; next_agent_id = 1; next_approval_id = 1 };
}

unfoldable pub on_tick : Kernel → Kernel
on_tick k = record k { ticks = wrap64 (k.ticks + 1) }

pub ticks_observed : Kernel → ℕ
ticks_observed k = k.ticks

-- `sijil::record(...)` for its effect.
unfoldable pub journal : ℕ → Event → ℕ → Text → Kernel → Kernel
journal agent event detail label k = record k {
  broker = record (k.broker) { log = (record_event agent event detail label k.broker.log).1 };
}

-- What `journal_for` shows its visitor.
pub journal_for : ℕ → Kernel → List Entry
journal_for agent k = for_agent agent k.broker.log.ring

-- `apic::now_microseconds()`.
unfoldable pub now : Kernel → ℕ × Kernel
now k =
    let (at, g) = now_microseconds k.broker.log in
    (at, record k { broker = record (k.broker) { log = g } })

-- `agents.iter().find(|candidate| candidate.id == agent)`, and the write through `iter_mut().find`.
abbrev pub has_id : ℕ → Agent → Bool
has_id agent a = a.id == agent

abbrev pub find_agent : ℕ → Kernel → Option Agent
find_agent agent k = find (has_id agent) k.supervisor.agents

abbrev pub set_agents : List Agent → Kernel → Kernel
set_agents agents k = record k { supervisor = record (k.supervisor) { agents = agents } }

abbrev pub update_agent : ℕ → (Agent → Agent) → Kernel → Kernel
update_agent agent f k = set_agents (modify_first (has_id agent) f k.supervisor.agents) k

abbrev pub names : ℕ → ApprovalRequest → Bool
names request a = a.id == request

abbrev pub update_approval : ℕ → (ApprovalRequest → ApprovalRequest) → Kernel → Kernel
update_approval request f k = record k {
  supervisor = record (k.supervisor) {
    approvals = modify_first (names request) f k.supervisor.approvals;
  };
}
