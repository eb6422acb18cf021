-- ===== src/Aman/Lineage.antt =====
-- The table of nawa/aman/src/lib.rs, and which slot was derived from which.
use i3ml_os.Prelude.{
  ℕ, ◌≤◌, ◌<◌, ◌≡◌, sym, ◌∙◌, inl, inr, true, some, [], ◌∷◌, ◌++◌, arith, length, get_elem?,
  get_elem?-append_left, get_elem?-append_cases, get_elem?-lt, subst,
}
use mathlib.Core.Option.{some-injective}
use i3ml_os.Aman.{Table, Slot}
use i3ml_os.Aman.Authority.{Narrower, is_subset_of-trans, is_subset_of-refl}

-- Slot `i` of the table was derived from `p`: `p` is older, at least as wide, and if it is revoked
-- then so is `i`.
pub record Derived (t : Table) (i : ℕ) (slot : Slot) (p : ℕ) : Type 0 where
  pub from : Slot
  pub stands : get_elem? t p ≡ some from
  pub older : p < i
  pub narrower : Narrower slot.authority from.authority
  pub closed : from.revoked ≡ true → slot.revoked ≡ true

abbrev pub IsValid : Table → Type 0
IsValid t =
    (i p : ℕ) (slot : Slot) → get_elem? t i ≡ some slot → slot.parent ≡ some p → Derived t i slot p

-- `Descends t i c`: slot `i` was derived from slot `c`, in any number of steps.
pub data Descends (t : Table) (c : ℕ) : ℕ → Type 0 where
  self : Descends t c c
  via :
      {i p : ℕ} (slot : Slot)
      → get_elem? t i ≡ some slot
      → slot.parent ≡ some p
      → Descends t c p
      → Descends t c i

pub Descends-le : (t : Table) (c : ℕ) {i : ℕ} → IsValid t → Descends t c i → c ≤ i
Descends-le t c v self = omega arith
Descends-le t c {i = i} v (via {p = p} slot e h d) =
    omega (arith, (v i p slot e h).older, Descends-le t c v d)

-- No amplification: whatever descends from a slot is at most as wide as it, at any distance.
pub Descends-Narrower :
    (t : Table) (c : ℕ) {i : ℕ} (a b : Slot)
    → IsValid t
    → Descends t c i
    → get_elem? t i ≡ some a
    → get_elem? t c ≡ some b
    → Narrower a.authority b.authority
Descends-Narrower t c a b v self ea eb =
    subst (λ (s : Slot). Narrower a.authority s.authority) (some-injective a b (sym ea ∙ eb))
      (is_subset_of-refl a.authority)
Descends-Narrower t c {i = i} a b v (via {p = p} slot e h d) ea eb =
    let link = v i p slot e h in
    let up = Descends-Narrower t c link.from b v d link.stands eb in
    subst (λ (s : Slot). Narrower s.authority b.authority) (some-injective slot a (sym e ∙ ea))
      (is_subset_of-trans slot.authority link.from.authority b.authority link.narrower up)

pub Derived-append :
    (t : Table) (new : Slot) (i p : ℕ) (slot : Slot)
    → Derived t i slot p
    → Derived (t ++ (new ∷ [])) i slot p
Derived-append t new i p slot d = record {
  from = d.from;
  stands = get_elem?-append_left t (new ∷ []) p (get_elem?-lt t p d.stands) ∙ d.stands;
  older = d.older;
  narrower = d.narrower;
  closed = d.closed;
}

-- A slot may be added if its own parent, where it has one, is live and at least as wide.
pub append-IsValid :
    (t : Table) (new : Slot)
    → IsValid t
    → ((p : ℕ) → new.parent ≡ some p → Derived t (length t) new p)
    → IsValid (t ++ (new ∷ []))
append-IsValid t new v fits i p slot e h = elim (get_elem?-append_cases t new i e) [
  | inl old ↦ Derived-append t new i p slot (v i p slot old h)
  | inr (at, same) ↦
      subst (λ (s : Slot). Derived (t ++ (new ∷ [])) i s p) same
        (rw at (Derived-append t new (length t) p new (fits p (rw same h))))
]
