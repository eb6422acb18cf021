-- ===== src/Aman.antt =====
-- nawa/aman/src/lib.rs: the capability broker. The table is the list of its slots, and a capability
-- is an index into it. Each operation takes the table and the journal and returns them.
pub mod Scope
pub mod Authority
pub mod Lineage
pub mod Attenuation
pub mod Revocation
pub mod Histories
mod Tests
use i3ml_os.Prelude.{
  ℕ, zero, suc, ◌+◌, ◌-◌, Bool, true, false, not, ◌&&◌, ◌||◌, Option, none, some, List, [], ◌∷◌,
  ◌++◌, ◌==◌, if◌then◌else◌, length, get_elem?, set, Result, ok, err, ◌>>=◌, ◌>>◌, fail_if, ok_or,
}
use i3ml_os.Text.{Text, literal}
use i3ml_os.Sijil.{Event, Log, record_event}
use Authority.{risk, is_irreversible, is_subset_of, describe}

pub record Slot : Type 0 where
  pub authority : Authority.Authority
  pub holder : ℕ
  pub parent : Option ℕ
  pub revoked : Bool

abbrev pub Table : Type 0
Table = List Slot

-- `TABLE` with the journal and the clock, which every operation writes through.
pub record Broker : Type 0 where
  pub slots : Table
  pub log : Log

pub data Denied : Type 0 where
  not_held revoked not_a_subset needs_approval budget_exhausted : Denied

abbrev pub Capability : Type 0
Capability = ℕ

unfoldable pub denied_label : Denied → Text
denied_label not_held = literal "denied:not-held"
denied_label revoked = literal "denied:revoked"
denied_label not_a_subset = literal "denied:would-widen"
denied_label needs_approval = literal "awaiting-consent"
denied_label budget_exhausted = literal "denied:budget"

-- `sijil::record(...)` for its effect.
abbrev pub journal : ℕ → Event → ℕ → Text → Broker → Broker
journal agent event detail label s = record s {
  log = (record_event agent event detail label s.log).1;
}

abbrev pub slot_of : Authority.Authority → ℕ → Option ℕ → Slot
slot_of a h p = record { authority = a; holder = h; parent = p; revoked = false }

unfoldable pub init_table : Broker → Broker
init_table s = record s { slots = [] }

unfoldable pub mint : ℕ → Authority.Authority → Broker → Capability × Broker
mint holder authority s =
    let capability = length s.slots in
    let s' = record s { slots = s.slots ++ (slot_of authority holder none ∷ []) } in
    (capability, journal holder Event.granted capability (describe authority) s')

unfoldable pub lookup : Table → Capability → ℕ → Result Denied Slot
lookup table capability agent = do
  slot ← ok_or (get_elem? table capability) not_held
  fail_if (not (slot.holder == agent)) not_held
  fail_if slot.revoked revoked
  ok slot

-- The part of `attenuate` and `delegate` under the lock, for the holder of the derived slot.
unfoldable pub derive :
    ℕ → ℕ → Capability → Authority.Authority → Table → Result Denied (Capability × Table)
derive agent holder capability narrower table = do
  slot ← lookup table capability agent
  fail_if (not (is_subset_of narrower slot.authority)) not_a_subset
  ok (length table, table ++ (slot_of narrower holder (some capability) ∷ []))

unfoldable pub attenuate :
    ℕ → Capability → Authority.Authority → Broker → Result Denied Capability × Broker
attenuate agent capability narrower s = elim (derive agent agent capability narrower s.slots) [
  | ok (derived, table) ↦ (
    ok derived,
    journal agent Event.attenuated derived (describe narrower) (record s { slots = table }),
  )
  | err e ↦ (err e, journal agent Event.denied capability (describe narrower) s)
]

-- The check of `can_delegate` under the lock.
unfoldable pub delegable : ℕ → Capability → Authority.Authority → Table → Result Denied (Unit {0})
delegable agent capability narrower table = do
  slot ← lookup table capability agent
  fail_if (not (is_subset_of narrower slot.authority)) not_a_subset
  ok tt

unfoldable pub can_delegate :
    ℕ → Capability → Authority.Authority → Broker → Result Denied (Unit {0}) × Broker
can_delegate agent capability narrower s = elim (delegable agent capability narrower s.slots) [
  | ok u ↦ (ok u, s)
  | err e ↦ (err e, journal agent Event.denied capability (describe narrower) s)
]

unfoldable pub delegate :
    ℕ → ℕ → Capability → Authority.Authority → Broker → Result Denied Capability × Broker
delegate parent_agent child_agent capability narrower s =
    elim (derive parent_agent child_agent capability narrower s.slots) [
      | ok (derived, table) ↦ (
        ok derived,
        journal parent_agent Event.delegated child_agent (describe narrower)
            (record s { slots = table }),
      )
      | err e ↦ (err e, journal parent_agent Event.denied capability (describe narrower) s)
    ]

-- The check of `authorize` under the lock.
unfoldable pub permitted : ℕ → Capability → Bool → Table → Result Denied Authority.Authority
permitted agent capability approved table = do
  slot ← lookup table capability agent
  fail_if (is_irreversible (risk slot.authority) && not approved) needs_approval
  ok slot.authority

abbrev pub denial_event : Denied → Event
denial_event needs_approval = Event.approval_requested
denial_event not_held = Event.denied
denial_event revoked = Event.denied
denial_event not_a_subset = Event.denied
denial_event budget_exhausted = Event.denied

unfoldable pub authorize :
    ℕ → Capability → Bool → Broker → Result Denied Authority.Authority × Broker
authorize agent capability approved s = elim (permitted agent capability approved s.slots) [
  | ok authority ↦ (ok authority, s)
  | err e ↦ (err e, journal agent (denial_event e) capability (denied_label e) s)
]

unfoldable pub authority_of : ℕ → Capability → Broker → Result Denied Authority.Authority
authority_of agent capability s = do slot ← lookup s.slots capability agent; ok slot.authority

-- `table.slots[parent].revoked`, for the parent of a slot.
abbrev pub revoked_at : Table → ℕ → Bool
revoked_at table i = elim (get_elem? table i) [ none ↦ false | some slot ↦ slot.revoked ]

abbrev pub parent_revoked : Table → Slot → Bool
parent_revoked table slot = elim (slot.parent) [ none ↦ false | some p ↦ revoked_at table p ]

-- One round of the loop of `revoke_tree`, at `index`: the table and how many were revoked.
unfoldable pub revoke_step : Capability → ℕ → Table × ℕ → Table × ℕ
revoke_step capability index (table, count) = elim (get_elem? table index) [
  | none ↦ (table, count)
  | some slot ↦
      if (index == capability || parent_revoked table slot) && not slot.revoked
      then (set table index (record slot { revoked = true }), count + 1)
      else (table, count)
]

-- The loop over `index..len`, with `rounds` still to go.
unfoldable pub revoke_loop : Capability → ℕ → ℕ → Table × ℕ → Table × ℕ
revoke_loop capability zero index r = r
revoke_loop capability (suc rounds) index r =
    revoke_loop capability rounds (index + 1) (revoke_step capability index r)

unfoldable pub revoke_tree : Capability → Broker → ℕ × Broker
revoke_tree capability s =
    let (table, count) =
      revoke_loop capability (length s.slots - capability) capability (s.slots, 0) in
    (count, record s { slots = table })
