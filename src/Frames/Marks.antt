-- ===== src/Frames/Marks.antt =====
-- The loops of nawa/core/src/mem.rs that mark and free a range of the bitmap.
use i3ml_os.Prelude.{
  ℕ, zero, suc, ◌+◌, ◌≤◌, ◌<◌, ◌≡◌, ◌≢◌, ◌⊎◌, refl, ◌∙◌, subst, Bool, true, false, ◌==◌, ==_iff,
  some, List, arith, Bool-cases, inl, inr, length, length-set, set, get_elem?-set_self,
  get_elem?-set_ne,
}
use i3ml_os.Frames.{bit_at, mark_used, free_range}
use i3ml_os.Frames.Search.{AllFree}

abbrev pub AllUsed : List Bool → ℕ → ℕ → Type 0
AllUsed bits from to = (i : ℕ) → from ≤ i → i < to → bit_at bits i ≡ true

-- Two bitmaps agree outside of a range.
abbrev pub SameBeside : List Bool → List Bool → ℕ → ℕ → Type 0
SameBeside bits bits' from to = (i : ℕ) → (i < from) ⊎ (to ≤ i) → bit_at bits' i ≡ bit_at bits i

bit_at-set_self :
    (bits : List Bool) (i : ℕ) (v : Bool) → i < length bits → bit_at (set bits i v) i ≡ v
bit_at-set_self bits i v h = rw (get_elem?-set_self bits i v h, bit_at) refl

bit_at-set_ne :
    (bits : List Bool) (i j : ℕ) (v : Bool) → i ≢ j → bit_at (set bits i v) j ≡ bit_at bits j
bit_at-set_ne bits i j v h = rw (get_elem?-set_ne bits i j v h, bit_at) refl

pub length-mark_used :
    (start count : ℕ) (bits : List Bool) → length (mark_used start count bits) ≡ length bits
length-mark_used start zero bits = refl
length-mark_used start (suc count) bits =
    length-mark_used (suc start) count (set bits start true) ∙ length-set bits start true

ne_of_lt : (i j : ℕ) → i < j → i ≢ j
ne_of_lt i j h e = omega (arith, h, e)

ne_of_gt : (i j : ℕ) → i < j → j ≢ i
ne_of_gt i j h e = omega (arith, h, e)

pub mark_used-SameBeside :
    (start count : ℕ) (bits : List Bool)
    → SameBeside bits (mark_used start count bits) start (start + count)
mark_used-SameBeside start zero bits i out = refl
mark_used-SameBeside start (suc count) bits i (inl before) =
    mark_used-SameBeside (suc start) count (set bits start true) i (inl (omega (arith, before)))
    ∙ bit_at-set_ne bits start i true (ne_of_gt i start before)
mark_used-SameBeside start (suc count) bits i (inr behind) =
    mark_used-SameBeside (suc start) count (set bits start true) i (inr (omega (arith, behind)))
    ∙ bit_at-set_ne bits start i true (ne_of_lt start i (omega (arith, behind)))

next : (s i : ℕ) → s ≤ i → (s == i) ≡ false → suc s ≤ i
next s i h e = ground arith

pub mark_used-AllUsed :
    (start count : ℕ) (bits : List Bool)
    → start + count ≤ length bits
    → AllUsed (mark_used start count bits) start (start + count)
mark_used-AllUsed start zero bits room i h k = absurd (omega (arith, h, k))
mark_used-AllUsed start (suc count) bits room i h k = elim (Bool-cases (start == i)) [
  | inl first ↦
      let is = (==_iff start i).0 first in
      mark_used-SameBeside (suc start) count (set bits start true) i (inl (omega (arith, is)))
      ∙ subst (λ (n : ℕ). bit_at (set bits start true) n ≡ true) is
          (bit_at-set_self bits start true (omega (arith, room)))
  | inr other ↦
      mark_used-AllUsed (suc start) count (set bits start true)
        (omega (arith, room, length-set bits start true)) i (next start i h other)
        (omega (arith, k))
]

-- Freeing a range whose frames are all used.
pub record Freed (bits : List Bool) (first count : ℕ) : Type 0 where
  pub after : List Bool
  pub is : free_range first count bits ≡ some after
  pub size : length after ≡ length bits
  pub free : AllFree after first (first + count)
  pub beside : SameBeside bits after first (first + count)

pub free_range-Freed :
    (first count : ℕ) (bits : List Bool)
    → first + count ≤ length bits
    → AllUsed bits first (first + count)
    → Freed bits first count
unfolding free_range
free_range-Freed first zero bits room used = record {
  after = bits;
  is = refl;
  size = refl;
  free = λ i h k. absurd (omega (arith, h, k));
  beside = λ i out. refl;
}
free_range-Freed first (suc count) bits room used =
    let head = used first (omega arith) (omega arith) in
    let cleared = set bits first false in
    let rest =
      free_range-Freed (suc first) count cleared (omega (arith, room, length-set bits first false))
        (later used) in
    record {
      after = rest.after;
      is = rw (head, free_range) rest.is;
      size = rest.size ∙ length-set bits first false;
      free = λ i h k. all_free rest i h k;
      beside = λ i out. kept rest i out;
    }
  where
    later :
        AllUsed bits first (first + suc count)
        → AllUsed (set bits first false) (suc first) (suc first + count)
    later used i h k =
        bit_at-set_ne bits first i false (ne_of_lt first i h)
        ∙ used i (omega (arith, h)) (omega (arith, k))

    all_free :
        (rest : Freed (set bits first false) (suc first) count)
        → (i : ℕ) → first ≤ i
        → i < first + suc count
        → bit_at rest.after i ≡ false
    all_free rest i h k = elim (Bool-cases (first == i)) [
      | inl here ↦
          let is = (==_iff first i).0 here in
          rest.beside i (inl (omega (arith, is)))
          ∙ subst (λ (n : ℕ). bit_at (set bits first false) n ≡ false) is
              (bit_at-set_self bits first false (omega (arith, room)))
      | inr other ↦ rest.free i (next first i h other) (omega (arith, k))
    ]

    kept :
        (rest : Freed (set bits first false) (suc first) count)
        → (i : ℕ) → (i < first) ⊎ (first + suc count ≤ i)
        → bit_at rest.after i ≡ bit_at bits i
    kept rest i (inl before) =
        rest.beside i (inl (omega (arith, before)))
        ∙ bit_at-set_ne bits first i false (ne_of_gt i first before)
    kept rest i (inr behind) =
        rest.beside i (inr (omega (arith, behind)))
        ∙ bit_at-set_ne bits first i false (ne_of_lt first i (omega (arith, behind)))
