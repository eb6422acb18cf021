-- ===== src/Aman/Attenuation.antt =====
-- The operations of nawa/aman/src/lib.rs that look up, narrow and hand on capabilities.
use i3ml_os.Prelude.{
  ℕ, ◌<◌, ◌≡◌, ◌↔◌, refl, inl, inr, Bool, true, false, none, some, [], ◌∷◌, ◌++◌, arith, length,
  get_elem?, get_elem?-lt, subst, Result, ok, err, Option-cases, Bool-cases,
}
use mathlib.Core.Option.{some-injective}
use i3ml_os.Aman.{
  Table, Slot, Broker, Denied, needs_approval, Capability, slot_of, lookup, derive, mint, attenuate,
  can_delegate, delegable, delegate, permitted, authorize,
}
use i3ml_os.Aman.Authority.{Authority, Narrower, is_subset_of, risk, is_irreversible}
use i3ml_os.Aman.Lineage.{IsValid, Derived, append-IsValid}

-- The agent holds a live capability: the slot exists, is its own and is not revoked.
pub record Held (t : Table) (agent : ℕ) (capability : ℕ) (slot : Slot) : Type 0 where
  pub stands : get_elem? t capability ≡ some slot
  pub holder : slot.holder ≡ agent
  pub live : slot.revoked ≡ false

pub lookup-Held :
    (t : Table) (c agent : ℕ) (slot : Slot) → lookup t c agent ≡ ok slot → Held t agent c slot
unfolding lookup
lookup-Held t c agent slot h = elim (Option-cases (get_elem? t c)) [
  | inl e ↦ ground arith
  | inr (found, e) ↦ record { stands = ground arith; holder = ground arith; live = ground arith }
]

pub Held-lookup :
    (t : Table) (c agent : ℕ) (slot : Slot) → Held t agent c slot → lookup t c agent ≡ ok slot
unfolding lookup
Held-lookup t c agent slot h = ground arith

-- What a successful derivation did.
pub record Derives (agent holder capability : ℕ) (narrower : Authority) (t : Table) (derived : ℕ)
    (t' : Table) : Type 0 where
  pub origin : Slot
  pub held : Held t agent capability origin
  pub within : Narrower narrower origin.authority
  pub fresh : derived ≡ length t
  pub grown : t' ≡ t ++ (slot_of narrower holder (some capability) ∷ [])

pub derive-Derives :
    (agent holder c : ℕ) (narrower : Authority) (t : Table) (derived : ℕ) (t' : Table)
    → derive agent holder c narrower t ≡ ok (derived, t')
    → Derives agent holder c narrower t derived t'
unfolding derive
derive-Derives agent holder c narrower t derived t' h = derived_of (lookup t c agent) refl
  where
    derived_of :
        (r : Result Denied Slot)
        → lookup t c agent ≡ r
        → Derives agent holder c narrower t derived t'
    derived_of (err e) l = ground arith
    derived_of (ok slot) l = elim (Bool-cases (is_subset_of narrower slot.authority)) [
      | inl inside ↦ record {
        origin = slot;
        held = lookup-Held t c agent slot l;
        within = inside;
        fresh = ground arith;
        grown = ground arith;
      }
      | inr outside ↦ ground arith
    ]

pub Derives-IsValid :
    {agent holder c : ℕ} {narrower : Authority} {t : Table} {derived : ℕ} {t' : Table}
    → IsValid t
    → Derives agent holder c narrower t derived t'
    → IsValid t'
Derives-IsValid {holder = holder} {c = c} {narrower = narrower} {t = t} v d =
    rw (d.grown) (append-IsValid t (slot_of narrower holder (some c)) v linked)
  where
    linked :
        (p : ℕ)
        → (slot_of narrower holder (some c)).parent ≡ some p
        → Derived t (length t) (slot_of narrower holder (some c)) p
    linked p h =
        let e : c ≡ p = some-injective c p h in
        record {
          from = d.origin;
          stands = rw e at d.held.stands;
          older = subst (λ x. x < length t) e (get_elem?-lt t c d.held.stands);
          narrower = d.within;
          closed = λ dead. cc (d.held.live);
        }

-- What a derivation tells its caller and leaves in the table: on success a new slot, held by the
-- recipient, under a live slot of the agent that is at least as wide; on refusal nothing changed.
abbrev pub Derivation : ℕ → ℕ → ℕ → Authority → Broker → Result Denied Capability × Broker → Type 0
Derivation agent holder c narrower s (ok derived, s') =
    Derives agent holder c narrower s.slots derived s'.slots
Derivation agent holder c narrower s (err e, s') =
    (s'.slots ≡ s.slots)
    × ((slot : Slot) → Held s.slots agent c slot → is_subset_of narrower slot.authority ≡ false)

refused_why :
    (agent holder c : ℕ) (narrower : Authority) (t : Table) (e : Denied) (slot : Slot)
    → derive agent holder c narrower t ≡ err e
    → Held t agent c slot
    → is_subset_of narrower slot.authority ≡ false
unfolding derive
refused_why agent holder c narrower t e slot h held =
    ground (arith, Held-lookup t c agent slot held)

-- `attenuate` obeys the attenuation law: done, it added one slot for the agent itself under a live
-- capability of its own that is at least as wide; refused, it left the table alone, and no live
-- capability of the agent at that index covers the request.
pub attenuate-Derivation :
    (agent c : ℕ) (narrower : Authority) (s : Broker)
    → Derivation agent agent c narrower s (attenuate agent c narrower s)
unfolding attenuate
attenuate-Derivation agent c narrower s = outcome (derive agent agent c narrower s.slots) refl
  where
    outcome :
        (r : Result Denied (Capability × Table))
        → derive agent agent c narrower s.slots ≡ r
        → Derivation agent agent c narrower s (attenuate agent c narrower s)
    outcome (ok (derived, t')) e =
        rw (e, attenuate) (derive-Derives agent agent c narrower s.slots derived t' e)
    outcome (err d) e =
        rw (e, attenuate)
          (refl, λ slot held. refused_why agent agent c narrower s.slots d slot e held)

-- `delegate` obeys the same law, with the new slot held by the child.
pub delegate-Derivation :
    (parent child c : ℕ) (narrower : Authority) (s : Broker)
    → Derivation parent child c narrower s (delegate parent child c narrower s)
unfolding delegate
delegate-Derivation parent child c narrower s =
    outcome (derive parent child c narrower s.slots) refl
  where
    outcome :
        (r : Result Denied (Capability × Table))
        → derive parent child c narrower s.slots ≡ r
        → Derivation parent child c narrower s (delegate parent child c narrower s)
    outcome (ok (derived, t')) e =
        rw (e, delegate) (derive-Derives parent child c narrower s.slots derived t' e)
    outcome (err d) e =
        rw (e, delegate)
          (refl, λ slot held. refused_why parent child c narrower s.slots d slot e held)

-- Where `can_delegate` says yes, the derivation for any holder succeeds on the table that it leaves.
pub can_delegate-delegable :
    (agent holder c : ℕ) (narrower : Authority) (s : Broker)
    → (can_delegate agent c narrower s).0 ≡ ok tt
    → derive agent holder c narrower (can_delegate agent c narrower s).1.slots
      ≡ ok (length s.slots, s.slots ++ (slot_of narrower holder (some c) ∷ []))
unfolding can_delegate delegable derive
can_delegate-delegable agent holder c narrower s h = ground arith

pub can_delegate-slots :
    (agent c : ℕ) (narrower : Authority) (s : Broker)
    → (can_delegate agent c narrower s).1.slots ≡ s.slots
unfolding can_delegate
can_delegate-slots agent c narrower s = ground arith

-- `authorize` returns an authority exactly when the agent holds a live capability for it and, where
-- it is irreversible, a human has approved.
pub authorize_iff :
    (agent c : ℕ) (approved : Bool) (a : Authority) (s : Broker)
    → ((authorize agent c approved s).0 ≡ ok a) ↔ (
        (slot : Slot) × Held s.slots agent c slot
        × (slot.authority ≡ a)
        × (is_irreversible (risk a) ≡ true → approved ≡ true))
unfolding authorize permitted
authorize_iff agent c approved a s = (forward (lookup s.slots c agent) refl, backward)
  where
    forward :
        (r : Result Denied Slot)
        → lookup s.slots c agent ≡ r
        → (authorize agent c approved s).0 ≡ ok a
        → (slot : Slot) × Held s.slots agent c slot
          × (slot.authority ≡ a)
          × (is_irreversible (risk a) ≡ true → approved ≡ true)
    forward (err e) l h = ground arith
    forward (ok slot) l h =
        (slot, lookup-Held s.slots c agent slot l, ground arith, λ bad. ground arith)

    backward :
        ((slot : Slot) × Held s.slots agent c slot
          × (slot.authority ≡ a)
          × (is_irreversible (risk a) ≡ true → approved ≡ true))
        → (authorize agent c approved s).0 ≡ ok a
    backward (slot, held, same, consent) = ground (arith, Held-lookup s.slots c agent slot held)

pub authorize-slots :
    (agent c : ℕ) (approved : Bool) (s : Broker) → (authorize agent c approved s).1.slots ≡ s.slots
unfolding authorize
authorize-slots agent c approved s = ground arith

-- `authorize` returns an authority exactly when the agent holds a live capability for it and, where
-- it is irreversible, a human has approved; whatever it answers, the table is unchanged.
pub authorize_decides :
    (agent c : ℕ) (approved : Bool) (a : Authority) (s : Broker)
    → (((authorize agent c approved s).0 ≡ ok a) ↔ (
        (slot : Slot) × Held s.slots agent c slot
        × (slot.authority ≡ a)
        × (is_irreversible (risk a) ≡ true → approved ≡ true)))
      × ((authorize agent c approved s).1.slots ≡ s.slots)
authorize_decides agent c approved a s =
    (authorize_iff agent c approved a s, authorize-slots agent c approved s)

pub mint-IsValid :
    (holder : ℕ) (a : Authority) (s : Broker) → IsValid s.slots → IsValid (mint holder a s).1.slots
unfolding mint
mint-IsValid holder a s v = append-IsValid s.slots (slot_of a holder none) v (λ p h. cc)

Derivation-IsValid :
    (agent holder c : ℕ) (narrower : Authority) (s : Broker) (r : Result Denied Capability × Broker)
    → IsValid s.slots
    → Derivation agent holder c narrower s r
    → IsValid r.1.slots
Derivation-IsValid agent holder c narrower s (ok derived, s') v d = Derives-IsValid v d
Derivation-IsValid agent holder c narrower s (err e, s') v (same, why) = rw same v

pub attenuate-IsValid :
    (agent c : ℕ) (a : Authority) (s : Broker)
    → IsValid s.slots
    → IsValid (attenuate agent c a s).1.slots
attenuate-IsValid agent c a s v =
    Derivation-IsValid agent agent c a s _ v (attenuate-Derivation agent c a s)

pub delegate-IsValid :
    (parent child c : ℕ) (a : Authority) (s : Broker)
    → IsValid s.slots
    → IsValid (delegate parent child c a s).1.slots
delegate-IsValid parent child c a s v =
    Derivation-IsValid parent child c a s _ v (delegate-Derivation parent child c a s)

-- A delegation that `can_delegate` allowed succeeds while the slots stay the same.
pub delegate_after_can_delegate :
    (parent child c : ℕ) (narrower : Authority) (s later : Broker)
    → (can_delegate parent c narrower s).0 ≡ ok tt
    → later.slots ≡ s.slots
    → ((delegate parent child c narrower later).0 ≡ ok (length s.slots))
      × ((delegate parent child c narrower later).1.slots
          ≡ s.slots ++ (slot_of narrower child (some c) ∷ []))
unfolding delegate
delegate_after_can_delegate parent child c narrower s later h same =
    let e : derive parent child c narrower s.slots
        ≡ ok (length s.slots, s.slots ++ (slot_of narrower child (some c) ∷ [])) =
      rw (can_delegate-slots parent c narrower s) at
        (can_delegate-delegable parent child c narrower s h) in
    let e' : derive parent child c narrower later.slots
        ≡ ok (length s.slots, s.slots ++ (slot_of narrower child (some c) ∷ [])) =
      rw same e in
    (rw (e', delegate), rw (e', delegate))

-- Without an approval, a live capability for irreversible authority is answered with the need for one.
pub authorize_unapproved :
    (agent c : ℕ) (s : Broker) (slot : Slot)
    → Held s.slots agent c slot
    → is_irreversible (risk slot.authority) ≡ true
    → (authorize agent c false s).0 ≡ err needs_approval
unfolding authorize permitted
authorize_unapproved agent c s slot held bad = ground (arith, Held-lookup s.slots c agent slot held)
