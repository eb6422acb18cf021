-- ===== src/Sijil.antt =====
-- nawa/sijil/src/lib.rs: the journal in memory. The clock (`apic::now_microseconds`, a hardware
-- counter) is a sequence of readings, of which each call takes the next.
pub mod Label
pub mod History
mod Tests
use i3ml_os.Prelude.{
  ℕ, zero, suc, ◌+◌, ◌-◌, ◌%◌, Option, none, some, List, [], ◌∷◌, ◌==◌, if◌then◌else◌, set,
  replicate, filter, wrap64,
}
use i3ml_os.VecLite.{item}
use i3ml_os.Text.{Text}

pub data Event : Type 0 where
  spawned delegated attenuated granted invoked denied approval_requested approved rejected : Event
  remembered noted finished budget_exhausted : Event

pub record Entry : Type 0 where
  pub sequence : ℕ
  pub at : ℕ
  pub agent : ℕ
  pub event : Event
  pub detail : ℕ
  pub label : Label.Label

abbrev pub capacity : ℕ
capacity = 512

pub record Ring : Type 0 where
  pub entries : List (Option Entry)
  pub next_sequence : ℕ
  pub written : ℕ

pub record Clock : Type 0 where
  pub reading : ℕ → ℕ
  pub reads : ℕ

-- The journal and the clock that stamps it.
pub record Log : Type 0 where
  pub ring : Ring
  pub clock : Clock

-- `apic::now_microseconds()`.
unfoldable pub now_microseconds : Log → ℕ × Log
now_microseconds g = (
  g.clock.reading g.clock.reads,
  record g { clock = record (g.clock) { reads = g.clock.reads + 1 } },
)

abbrev pub ring_new : Ring
ring_new = record { entries = replicate capacity none; next_sequence = 1; written = 0 }

-- The part of `record` under the lock.
pub write_entry : Entry → Ring → ℕ × Ring
write_entry entry ring =
    let sequence = ring.next_sequence in
    let slot = (sequence - 1) % capacity in
    (
      sequence,
      record {
        entries = set ring.entries slot (some (record entry { sequence = sequence }));
        next_sequence = wrap64 (ring.next_sequence + 1);
        written = wrap64 (ring.written + 1);
      },
    )

-- `record` is a keyword, hence the name.
unfoldable pub record_event : ℕ → Event → ℕ → Text → Log → ℕ × Log
unfolding now_microseconds write_entry
record_event agent event detail label g =
    let (at, g') = now_microseconds g in
    let entry : Entry = record {
      sequence = 0;
      at = at;
      agent = agent;
      event = event;
      detail = detail;
      label = Label.new label;
    } in
    let (sequence, ring') = write_entry entry (g'.ring) in (sequence, record g' { ring = ring' })

pub written : Log → ℕ
written g = g.ring.written

-- The loop of `for_each` over `count` sequence numbers from `sequence` on: what is visited.
visit_from : List (Option Entry) → ℕ → ℕ → List Entry
visit_from entries sequence zero = []
visit_from entries sequence (suc count) =
    let rest = visit_from entries (sequence + 1) count in
    elim (item entries ((sequence - 1) % capacity)) [
      | none ↦ rest
      | some entry ↦ if entry.sequence == sequence then entry ∷ rest else rest
    ]

-- The entries that `for_each` hands to its visitor, in order.
pub for_each : Ring → List Entry
unfolding visit_from
for_each ring =
    let total = ring.next_sequence - 1 in
    let first = total - capacity in visit_from ring.entries (first + 1) (total - first)

pub for_agent : ℕ → Ring → List Entry
unfolding for_each
for_agent agent ring = filter (λ entry. entry.agent == agent) (for_each ring)
