-- ===== src/Frames/Returns.antt =====
-- `free_frames` of nawa/core/src/mem.rs.
use i3ml_os.Prelude.{
  ℕ, ◌+◌, ◌-◌, ◌*◌, ◌/◌, ◌%◌, ◌≤◌, ◌<◌, ◌≡◌, ◌⊎◌, refl, sym, ◌∙◌, ap, subst, false, not, ◌||◌, ◌==◌,
  ltb, ltb→lt, ltb_false→le, some, arith, Bool-cases, inl, inr,
}
use i3ml_os.Frames.{Allocator, allocate_contiguous, free_frames, free_range, bit_at, page_size}
use i3ml_os.Frames.Search.{AllFree}
use i3ml_os.Frames.Marks.{AllUsed, SameBeside, free_range-Freed}
use i3ml_os.Frames.Ownership.{IsValid, allocate-Allocated}

-- Returning frames that are used frees them and no others.
pub record Returned (a : Allocator) (start count : ℕ) : Type 0 where
  pub after : Allocator
  pub is : free_frames (a.base + start * page_size) count (some a) ≡ some after
  pub free : AllFree after.bitmap start (start + count)
  pub others : SameBeside a.bitmap after.bitmap start (start + count)
  pub same_base : after.base ≡ a.base
  pub same_frames : after.frames ≡ a.frames
  pub still_valid : IsValid after

pub free_frames-Returned :
    (a : Allocator) (start count : ℕ)
    → IsValid a
    → 0 < count
    → start + count ≤ a.frames
    → AllUsed a.bitmap start (start + count)
    → Returned a start count
unfolding free_frames
free_frames-Returned a start count valid asked inside used =
    let f = free_range-Freed start count a.bitmap (omega (arith, inside, valid.sized)) used in
    let address = a.base + start * page_size in
    let first : (address - a.base) / page_size ≡ start = omega arith in
    let guards : (count == 0 || not (address % page_size == 0)) ≡ false =
      accepted count (address % page_size) asked (omega (arith, valid.aligned)) in
    let bounds : (ltb address a.base || ltb a.frames ((address - a.base) / page_size + count))
        ≡ false =
      within address a.base a.frames ((address - a.base) / page_size + count) (omega arith)
        (omega (arith, first, inside)) in
    let ranged : free_range ((address - a.base) / page_size) count a.bitmap ≡ some f.after =
      ap (λ (n : ℕ). free_range n count a.bitmap) first ∙ f.is in
    record {
      after = record a { bitmap = f.after };
      is = rw (guards, bounds, ranged, free_frames) refl;
      free = f.free;
      others = f.beside;
      same_base = refl;
      same_frames = refl;
      still_valid = record {
        sized = omega (arith, valid.sized, f.size);
        hinted = valid.hinted;
        aligned = valid.aligned;
      };
    }
  where
    accepted : (count rest : ℕ) → 0 < count → rest ≡ 0 → (count == 0 || not (rest == 0)) ≡ false
    accepted count rest h e = ground arith

    within :
        (address base frames end : ℕ)
        → base ≤ address
        → end ≤ frames
        → (ltb address base || ltb frames end) ≡ false
    within address base frames end h k = ground arith

-- A frame is beside a range or in it.
pub side : (i from to : ℕ) → ((i < from) ⊎ (to ≤ i)) ⊎ ((from ≤ i) × (i < to))
side i from to = elim (Bool-cases (ltb i from)) [
  | inl below ↦ inl (inl (ltb→lt i from below))
  | inr reached ↦ elim (Bool-cases (ltb i to)) [
    | inl inside ↦ inr (ltb_false→le i from reached, ltb→lt i to inside)
    | inr behind ↦ inl (inr (ltb_false→le i to behind))
  ]
]

-- Returning what was just allocated does not panic, and gives back the bitmap: each frame is used exactly
-- if it was before. The allocator's bitmap covers its frames, and its region begins at a page.
pub free_frames-allocate :
    (a : Allocator) (count address : ℕ)
    → IsValid a
    → (allocate_contiguous count a).0 ≡ some address
    → (a' : Allocator) × (free_frames address count (some (allocate_contiguous count a).1)
        ≡ some a')
      × ((frame : ℕ) → bit_at a'.bitmap frame ≡ bit_at a.bitmap frame)
free_frames-allocate a count address valid e =
    let done = allocate-Allocated count a valid address e in
    let a₁ = (allocate_contiguous count a).1 in
    let r =
      free_frames-Returned a₁ done.start count done.still_valid done.some_asked
        (omega (arith, done.inside, done.same_frames)) done.are_used in
    let place : a₁.base + done.start * page_size ≡ address =
      ap (λ (n : ℕ). n + done.start * page_size) done.same_base ∙ sym done.address_is in
    (
      r.after,
      subst (λ (n : ℕ). free_frames n count (some a₁) ≡ some r.after) place r.is,
      λ frame. elim (side frame done.start (done.start + count)) [
        | inl out ↦ r.others frame out ∙ done.others frame out
        | inr (low, high) ↦ r.free frame low high ∙ sym (done.were_free frame low high)
      ],
    )
