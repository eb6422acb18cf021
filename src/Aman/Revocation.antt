-- ===== src/Aman/Revocation.antt =====
-- `revoke_tree` of nawa/aman/src/lib.rs: one forward pass over the table.
use i3ml_os.Prelude.{
  ℕ, zero, suc, ◌+◌, ◌-◌, ◌≤◌, ◌<◌, ◌≡◌, ◌≢◌, refl, sym, ◌∙◌, ap, ◌⊎◌, inl, inr, Bool, true, false,
  not, true_and, ◌&&◌, ◌||◌, Option, none, some, arith, length, set, length-set, get_elem?,
  get_elem?-set_self, get_elem?-set_ne, get_elem?-lt, get_elem?-some, subst, ◌==◌, ==_iff, ==_self,
  Bool-cases, dec_le, ℕ_discrete, ok,
}
use mathlib.Core.Bool.{false≢true}
use mathlib.Core.Option.{some-injective}
use i3ml_os.Aman.{
  Table, Slot, Broker, parent_revoked, revoke_step, revoke_loop, revoke_tree, authorize,
}
use i3ml_os.Aman.Authority.{Authority, is_subset_of}
use i3ml_os.Aman.Attenuation.{authorize_iff}
use i3ml_os.Aman.Lineage.{IsValid, Descends, self, via, Descends-le}

or_true : (a b : Bool) → b ≡ true → (a || b) ≡ true
or_true true b h = refl
or_true false b h = h

and_false_right : (a b : Bool) → b ≡ false → (a && b) ≡ false
and_false_right a b h = ground arith

and_false_left : (a b : Bool) → a ≡ false → (a && b) ≡ false
and_false_left a b h = ground arith

abbrev pub revoke : Slot → Slot
revoke slot = record slot { revoked = true }

-- Slot `j` of `t` against the slot `old` it was before a pass for `c`: only the mark may differ, and it
-- is set exactly where it was set before or the slot descends from `c`.
pub record Settled (t₀ t : Table) (c j : ℕ) (old : Slot) : Type 0 where
  pub now : Slot
  pub stands : get_elem? t j ≡ some now
  pub kept : record now { revoked = old.revoked } ≡ old
  pub marked : (old.revoked ≡ true) ⊎ Descends t₀ c j → now.revoked ≡ true
  pub only : now.revoked ≡ true → (old.revoked ≡ true) ⊎ Descends t₀ c j

-- The pass has come to index `i`: the slots before it are settled and the others untouched.
pub record Passed (t₀ t : Table) (c i : ℕ) : Type 0 where
  pub size : length t ≡ length t₀
  pub done : (j : ℕ) (old : Slot) → j < i → get_elem? t₀ j ≡ some old → Settled t₀ t c j old
  pub ahead : (j : ℕ) → i ≤ j → get_elem? t j ≡ get_elem? t₀ j

parent_revoked-some :
    (t : Table) (slot q : Slot) (p : ℕ)
    → slot.parent ≡ some p
    → get_elem? t p ≡ some q
    → parent_revoked t slot ≡ q.revoked
parent_revoked-some t slot q p k e = ground arith

parent_revoked-none : (t : Table) (slot : Slot) → slot.parent ≡ none → parent_revoked t slot ≡ false
parent_revoked-none t slot k = ground arith

-- What the test at index `i` finds out.
pub parent_revoked-Descends :
    (t₀ t : Table) (c i : ℕ) (slot : Slot)
    → IsValid t₀
    → Passed t₀ t c i
    → get_elem? t₀ i ≡ some slot
    → parent_revoked t slot ≡ true
    → (slot.revoked ≡ true) ⊎ Descends t₀ c i
parent_revoked-Descends t₀ t c i slot v pass e h = by_parent slot.parent refl
  where
    by_parent : (p : Option ℕ) → slot.parent ≡ p → (slot.revoked ≡ true) ⊎ Descends t₀ c i
    by_parent none k = cc (parent_revoked-none t slot k)
    by_parent (some p) k =
        let link = v i p slot e k in
        let settled = pass.done p link.from link.older link.stands in
        elim (settled.only (sym (parent_revoked-some t slot settled.now p k settled.stands) ∙ h)) [
          | inl before ↦ inl (link.closed before)
          | inr d ↦ inr (via slot e k d)
        ]

pub Descends-parent_revoked :
    (t₀ t : Table) (c i : ℕ) (slot : Slot)
    → IsValid t₀
    → Passed t₀ t c i
    → get_elem? t₀ i ≡ some slot
    → Descends t₀ c i
    → ((i == c) || parent_revoked t slot) ≡ true
Descends-parent_revoked t₀ t c i slot v pass e self = rw (==_self c)
Descends-parent_revoked t₀ t c i slot v pass e (via {p = p} slot' e' k d) =
    let link = v i p slot' e' k in
    let settled = pass.done p link.from link.older link.stands in
    let marked : settled.now.revoked ≡ true = settled.marked (inr d) in
    let same : slot' ≡ slot = some-injective slot' slot (sym e' ∙ e) in
    let k' : slot.parent ≡ some p = rw same at k in
    or_true (i == c) _ (parent_revoked-some t slot settled.now p k' settled.stands ∙ marked)

revoke_step-hit :
    (t : Table) (c i n : ℕ) (slot : Slot)
    → get_elem? t i ≡ some slot
    → (((i == c) || parent_revoked t slot) && not slot.revoked) ≡ true
    → revoke_step c i (t, n) ≡ (set t i (revoke slot), n + 1)
unfolding revoke_step
revoke_step-hit t c i n slot e h = rw (e, revoke_step) (rw h)

revoke_step-skip :
    (t : Table) (c i n : ℕ) (slot : Slot)
    → get_elem? t i ≡ some slot
    → (((i == c) || parent_revoked t slot) && not slot.revoked) ≡ false
    → revoke_step c i (t, n) ≡ (t, n)
unfolding revoke_step
revoke_step-skip t c i n slot e h = rw (e, revoke_step) (rw h)

-- One round settles the slot at its index and leaves the others.
settle :
    (t₀ t : Table) (c i : ℕ) (old : Slot)
    → Passed t₀ t c i
    → get_elem? t₀ i ≡ some old
    → (t' : Table) → length t' ≡ length t
    → ((j : ℕ) → i ≢ j → get_elem? t' j ≡ get_elem? t j)
    → Settled t₀ t' c i old
    → Passed t₀ t' c (i + 1)
settle t₀ t c i old pass e t' size others here = record {
  size = size ∙ pass.size;
  done = λ j o h eo. elim (ℕ_discrete i j) [
    | yes at ↦
        let eo' : get_elem? t₀ i ≡ some o = rw at eo in
        let here' : Settled t₀ t' c i o =
          subst (λ (x : Slot). Settled t₀ t' c i x) (some-injective old o (sym e ∙ eo')) here in
        subst (λ (x : ℕ). Settled t₀ t' c x o) at here'
    | no off ↦
        let s = pass.done j o (omega arith) eo in
        record {
          now = s.now;
          stands = others j off ∙ s.stands;
          kept = s.kept;
          marked = s.marked;
          only = s.only;
        }
  ];
  ahead = λ j h. others j (omega arith) ∙ pass.ahead j (omega arith);
}

-- A round that leaves the table as it is settles its slot if the mark is right already.
settle_as_is :
    (t₀ t : Table) (c i : ℕ) (old : Slot)
    → Passed t₀ t c i
    → get_elem? t₀ i ≡ some old
    → (Descends t₀ c i → old.revoked ≡ true)
    → Passed t₀ t c (i + 1)
settle_as_is t₀ t c i old pass e right =
    settle t₀ t c i old pass e t refl (λ j h. refl)
      (record {
        now = old;
        stands = pass.ahead i (omega arith) ∙ e;
        kept = refl;
        marked = λ m. elim m [ inl before ↦ before | inr d ↦ right d ];
        only = λ m. inl m;
      })

settle_revoked :
    (t₀ t : Table) (c i : ℕ) (old : Slot)
    → Passed t₀ t c i
    → get_elem? t₀ i ≡ some old
    → (old.revoked ≡ true) ⊎ Descends t₀ c i
    → Passed t₀ (set t i (revoke old)) c (i + 1)
settle_revoked t₀ t c i old pass e why =
    let inside : i < length t = omega (arith, get_elem?-lt t₀ i e, pass.size) in
    settle t₀ t c i old pass e (set t i (revoke old)) (length-set t i (revoke old))
      (λ j h. get_elem?-set_ne t i j (revoke old) h)
      (record {
        now = revoke old;
        stands = get_elem?-set_self t i (revoke old) inside;
        kept = refl;
        marked = λ m. refl;
        only = λ m. why;
      })

test-Descends :
    (t₀ t : Table) (c i : ℕ) (slot : Slot)
    → IsValid t₀
    → Passed t₀ t c i
    → get_elem? t₀ i ≡ some slot
    → ((i == c) || parent_revoked t slot) ≡ true
    → (slot.revoked ≡ true) ⊎ Descends t₀ c i
test-Descends t₀ t c i slot v pass e h = elim (Bool-cases (i == c)) [
  | inl at ↦ inr (subst (λ x. Descends t₀ c x) (sym ((==_iff i c).0 at)) self)
  | inr off ↦ parent_revoked-Descends t₀ t c i slot v pass e (rw off at h)
]

step-Passed :
    (t₀ t : Table) (c i n : ℕ)
    → IsValid t₀
    → Passed t₀ t c i
    → i < length t₀
    → Passed t₀ (revoke_step c i (t, n)).0 c (i + 1)
step-Passed t₀ t c i n v pass h =
    let (old, e) = get_elem?-some t₀ i h in
    let et : get_elem? t i ≡ some old = pass.ahead i (omega arith) ∙ e in
    elim (Bool-cases old.revoked) [
      | inl dead ↦
          rw (revoke_step-skip t c i n old et (and_false_right _ _ (ap not dead)))
            (settle_as_is t₀ t c i old pass e (λ d. dead))
      | inr live ↦ elim (Bool-cases ((i == c) || parent_revoked t old)) [
        | inl hit ↦
            rw (revoke_step-hit t c i n old et (true_and _ _ hit (ap not live)))
              (settle_revoked t₀ t c i old pass e (test-Descends t₀ t c i old v pass e hit))
        | inr miss ↦ rw (revoke_step-skip t c i n old et (and_false_left _ _ miss)) (
            settle_as_is t₀ t c i old pass e (λ d.
              absurd (false≢true (sym miss ∙ Descends-parent_revoked t₀ t c i old v pass e d))))
      ]
    ]

loop-Passed :
    (t₀ t : Table) (c rounds i n : ℕ)
    → IsValid t₀
    → Passed t₀ t c i
    → i + rounds ≡ length t₀
    → Passed t₀ (revoke_loop c rounds i (t, n)).0 c (length t₀)
unfolding revoke_loop
loop-Passed t₀ t c zero i n v pass h =
    let e : i ≡ length t₀ = omega arith in subst (λ x. Passed t₀ t c x) e pass
loop-Passed t₀ t c (suc rounds) i n v pass h =
    let (t', n') = revoke_step c i (t, n) in
    loop-Passed t₀ t' c rounds (i + 1) n' v (step-Passed t₀ t c i n v pass (omega arith))
      (omega arith)

-- Before the pass nothing below `c` can descend from it.
start-Passed : (t : Table) (c : ℕ) → IsValid t → Passed t t c c
start-Passed t c v = record {
  size = refl;
  done = λ j old h e. record {
    now = old;
    stands = e;
    kept = refl;
    marked = λ m. elim m [
      | inl before ↦ before
      | inr d ↦ let above : c ≤ j = Descends-le t c v d in absurd (omega arith)
    ];
    only = λ m. inl m;
  };
  ahead = λ j h. refl;
}

-- In a well-formed table, revoking a capability marks exactly the slots that descend from it or
-- were marked before, and changes nothing else of any slot.
pub revoke_tree-Settled :
    (c : ℕ) (s : Broker) (j : ℕ) (old : Slot)
    → IsValid s.slots
    → get_elem? s.slots j ≡ some old
    → Settled s.slots (revoke_tree c s).1.slots c j old
unfolding revoke_tree revoke_loop
revoke_tree-Settled c s j old v e = elim (dec_le c (length s.slots)) [
  | yes h ↦
      let pass =
        loop-Passed s.slots s.slots c (length s.slots - c) c 0 v (start-Passed s.slots c v)
          (omega arith) in
      pass.done j old (get_elem?-lt s.slots j e) e
  | no beyond ↦
      let none_left : length s.slots - c ≡ 0 = omega arith in
      let inside = get_elem?-lt s.slots j e in
      rw (none_left, revoke_loop) ((start-Passed s.slots c v).done j old (omega arith) e)
]

revoke_tree-length :
    (c : ℕ) (s : Broker) → IsValid s.slots → length (revoke_tree c s).1.slots ≡ length s.slots
unfolding revoke_tree revoke_loop
revoke_tree-length c s v = elim (dec_le c (length s.slots)) [
  | yes h ↦
      (loop-Passed s.slots s.slots c (length s.slots - c) c 0 v (start-Passed s.slots c v)
        (omega arith)).size
  | no beyond ↦ let none_left : length s.slots - c ≡ 0 = omega arith in rw (none_left, revoke_loop)
]

-- A slot of the revoked table comes from the slot that stood there.
revoke_tree-origin :
    (c : ℕ) (s : Broker) (j : ℕ) (now : Slot)
    → IsValid s.slots
    → get_elem? (revoke_tree c s).1.slots j ≡ some now
    → (old : Slot) × (get_elem? s.slots j ≡ some old)
      × (record now { revoked = old.revoked } ≡ old)
      × ((old.revoked ≡ true) ⊎ Descends s.slots c j → now.revoked ≡ true)
      × (now.revoked ≡ true → (old.revoked ≡ true) ⊎ Descends s.slots c j)
revoke_tree-origin c s j now v e =
    let (old, eo) =
      get_elem?-some s.slots j
        (omega (arith, get_elem?-lt (revoke_tree c s).1.slots j e, revoke_tree-length c s v)) in
    let settled = revoke_tree-Settled c s j old v eo in
    let same : settled.now ≡ now = some-injective settled.now now (sym settled.stands ∙ e) in
    (
      old,
      eo,
      subst (λ (x : Slot). record x { revoked = old.revoked } ≡ old) same settled.kept,
      subst (λ (x : Slot). (old.revoked ≡ true) ⊎ Descends s.slots c j → x.revoked ≡ true) same
          settled.marked,
      subst (λ (x : Slot). x.revoked ≡ true → (old.revoked ≡ true) ⊎ Descends s.slots c j) same
          settled.only,
    )

-- Revoking keeps the lineage well formed: in particular a slot under a revoked one is itself revoked.
pub revoke_tree-IsValid : (c : ℕ) (s : Broker) → IsValid s.slots → IsValid (revoke_tree c s).1.slots
revoke_tree-IsValid c s v i p now e k =
    let (old, eo, kept, marked, only) = revoke_tree-origin c s i now v e in
    let k' : old.parent ≡ some p = ap (λ (x : Slot). x.parent) (sym kept) ∙ k in
    let link = v i p old eo k' in
    let up = revoke_tree-Settled c s p link.from v link.stands in
    record {
      from = up.now;
      stands = up.stands;
      older = link.older;
      narrower =
          subst (λ (x : Slot). is_subset_of x.authority up.now.authority ≡ true) (sym kept)
            (subst (λ (x : Slot). is_subset_of old.authority x.authority ≡ true) (sym up.kept)
              link.narrower);
      closed = λ dead. elim (up.only dead) [
        | inl before ↦ marked (inl (link.closed before))
        | inr d ↦ marked (inr (via old eo k' d))
      ];
    }

-- In a well-formed table, after a revocation the broker lets nobody use anything that descends from
-- the revoked capability, approved or not.
pub revoke_tree-refuses :
    (c : ℕ) (s : Broker) (agent j : ℕ) (approved : Bool) (a : Authority)
    → IsValid s.slots
    → Descends s.slots c j
    → (authorize agent j approved (revoke_tree c s).1).0 ≢ ok a
revoke_tree-refuses c s agent j approved a v d h =
    let (slot, held, same, consent) = (authorize_iff agent j approved a (revoke_tree c s).1).0 h in
    let (old, eo, kept, marked, only) = revoke_tree-origin c s j slot v held.stands in
    false≢true (sym held.live ∙ marked (inr d))
