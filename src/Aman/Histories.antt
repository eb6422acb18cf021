-- ===== src/Aman/Histories.antt =====
-- Any sequence of calls of nawa/aman/src/lib.rs on the empty table.
use i3ml_os.Prelude.{ℕ, ◌≡◌, Bool, some, List, [], ◌∷◌, get_elem?}
use i3ml_os.Aman.{
  Broker, Slot, init_table, mint, attenuate, can_delegate, delegate, authorize, revoke_tree,
}
use i3ml_os.Aman.Authority.{Authority, Narrower}
use i3ml_os.Aman.Lineage.{IsValid, Descends, Descends-Narrower}
use i3ml_os.Aman.Attenuation.{
  mint-IsValid, attenuate-IsValid, delegate-IsValid, can_delegate-slots, authorize-slots,
}
use i3ml_os.Aman.Revocation.{revoke_tree-IsValid}

-- The public operations that write through the table or the journal.
pub data Call : Type 0 where
  mints : ℕ → Authority → Call
  attenuates : ℕ → ℕ → Authority → Call
  asks : ℕ → ℕ → Authority → Call
  delegates : ℕ → ℕ → ℕ → Authority → Call
  authorizes : ℕ → ℕ → Bool → Call
  revokes : ℕ → Call

unfoldable pub apply : Call → Broker → Broker
apply (mints holder a) s = (mint holder a s).1
apply (attenuates agent c a) s = (attenuate agent c a s).1
apply (asks agent c a) s = (can_delegate agent c a s).1
apply (delegates parent child c a) s = (delegate parent child c a s).1
apply (authorizes agent c approved) s = (authorize agent c approved s).1
apply (revokes c) s = (revoke_tree c s).1

unfoldable pub run : List Call → Broker → Broker
unfolding apply
run [] s = s
run (call ∷ calls) s = run calls (apply call s)

apply-IsValid : (call : Call) (s : Broker) → IsValid s.slots → IsValid (apply call s).slots
unfolding apply
apply-IsValid (mints holder a) s v = mint-IsValid holder a s v
apply-IsValid (attenuates agent c a) s v = attenuate-IsValid agent c a s v
apply-IsValid (asks agent c a) s v = rw (can_delegate-slots agent c a s) v
apply-IsValid (delegates parent child c a) s v = delegate-IsValid parent child c a s v
apply-IsValid (authorizes agent c approved) s v = rw (authorize-slots agent c approved s) v
apply-IsValid (revokes c) s v = revoke_tree-IsValid c s v

run_from-IsValid : (calls : List Call) (s : Broker) → IsValid s.slots → IsValid (run calls s).slots
unfolding run
run_from-IsValid [] s v = v
run_from-IsValid (call ∷ calls) s v = run_from-IsValid calls (apply call s) (apply-IsValid call s v)

-- From the empty table, every history of calls leaves a well-formed lineage.
pub run-IsValid : (calls : List Call) (s : Broker) → IsValid (run calls (init_table s)).slots
unfolding init_table
run-IsValid calls s = run_from-IsValid calls _ (λ i p slot e k. cc)

-- No amplification: after any history of broker calls from the empty table, a capability that
-- descends from another, in any number of steps, is at most as wide as it.
pub run_no_amplification :
    (calls : List Call) (s : Broker) (c i : ℕ) (a b : Slot)
    → Descends (run calls (init_table s)).slots c i
    → get_elem? (run calls (init_table s)).slots i ≡ some a
    → get_elem? (run calls (init_table s)).slots c ≡ some b
    → Narrower a.authority b.authority
run_no_amplification calls s c i a b d ea eb =
    Descends-Narrower (run calls (init_table s)).slots c a b (run-IsValid calls s) d ea eb
