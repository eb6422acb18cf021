-- ===== src/Aman/Tests.antt =====
-- Runs of the broker, and the broker's theorems at concrete tables.
use i3ml_os.Prelude.{◌≡◌, ◌≢◌, ◌↔◌, refl, true, none, some, List, [], ◌∷◌, ok, err}
use i3ml_os.Sijil.{ring_new}
use i3ml_os.Aman.{
  Broker, Slot, not_a_subset, slot_of, init_table, mint, attenuate, delegate, authorize, derive,
  lookup, revoke_tree, revoke_loop, revoke_step,
}
use i3ml_os.Aman.Authority.{spend, is_subset_of, Narrower, risk, is_irreversible}
use i3ml_os.Aman.Lineage.{IsValid, Descends, self, via}
use i3ml_os.Aman.Attenuation.{Held, Derivation, authorize_decides}
use i3ml_os.Aman.Revocation.{Settled, revoke_tree-Settled, revoke_tree-refuses}
use i3ml_os.Aman.Histories.{
  Call, mints, attenuates, delegates, run, apply, run-IsValid, run_no_amplification,
}
use i3ml_os.Aman.Attenuation.{attenuate-Derivation}

abbrev start : Broker
start = record {
  slots = [];
  log = record { ring = ring_new; clock = record { reading = λ n. n; reads = 0 } };
}

-- Agent 1 gets a ceiling of 100, keeps 40 of it and hands 10 on to agent 2.
abbrev calls : List Call
calls = mints 1 (spend 100) ∷ attenuates 1 0 (spend 40) ∷ delegates 1 2 1 (spend 10) ∷ []

abbrev table : Broker
table = run calls (init_table start)

abbrev root : Slot
root = slot_of (spend 100) 1 none

abbrev middle : Slot
middle = slot_of (spend 40) 1 (some 0)

abbrev leaf : Slot
leaf = slot_of (spend 10) 2 (some 1)

table-slots : table.slots ≡ root ∷ middle ∷ leaf ∷ []
unfolding run apply init_table mint attenuate delegate derive lookup is_subset_of
table-slots = refl

leaf-Descends : Descends table.slots 0 2
unfolding run apply init_table mint attenuate delegate derive lookup is_subset_of
leaf-Descends = via leaf refl refl (via middle refl refl self)

widening_is_refused : (attenuate 2 2 (spend 11) table).0 ≡ err not_a_subset
unfolding run apply init_table mint attenuate delegate derive lookup is_subset_of
widening_is_refused = refl

revoking_the_root : (revoke_tree 0 table).0 ≡ 3
unfolding run apply init_table mint attenuate delegate derive lookup is_subset_of revoke_tree
    revoke_loop revoke_step
revoking_the_root = refl

run_no_amplification_example : Narrower (spend 10) (spend 100)
unfolding run apply init_table mint attenuate delegate derive lookup is_subset_of
run_no_amplification_example =
    run_no_amplification calls start 0 2 leaf root leaf-Descends refl refl

run-IsValid_example : IsValid table.slots
run-IsValid_example = run-IsValid calls start

revoke_tree-Settled_example : Settled table.slots (revoke_tree 1 table).1.slots 1 2 leaf
unfolding run apply init_table mint attenuate delegate derive lookup is_subset_of
revoke_tree-Settled_example = revoke_tree-Settled 1 table 2 leaf (run-IsValid calls start) refl

revoke_tree-refuses_example : (authorize 2 2 true (revoke_tree 0 table).1).0 ≢ ok (spend 10)
revoke_tree-refuses_example =
    revoke_tree-refuses 0 table 2 2 true (spend 10) (run-IsValid calls start) leaf-Descends

authorize_decides_example :
    (((authorize 2 2 true table).0 ≡ ok (spend 10)) ↔ (
      (slot : Slot) × Held table.slots 2 2 slot
      × (slot.authority ≡ spend 10)
      × (is_irreversible (risk (spend 10)) ≡ true → true ≡ true)))
    × ((authorize 2 2 true table).1.slots ≡ table.slots)
authorize_decides_example = authorize_decides 2 2 true (spend 10) table

attenuate-Derivation_example : Derivation 1 1 1 (spend 20) table (attenuate 1 1 (spend 20) table)
attenuate-Derivation_example = attenuate-Derivation 1 1 (spend 20) table
