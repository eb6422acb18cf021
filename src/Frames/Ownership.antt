-- ===== src/Frames/Ownership.antt =====
-- `allocate_frames` of nawa/core/src/mem.rs.
use i3ml_os.Prelude.{
  ℕ, ◌+◌, ◌-◌, ◌*◌, ◌%◌, ◌≤◌, ◌<◌, ◌≡◌, refl, sym, ◌∙◌, ap, subst, true, ◌==◌, ==_iff, Option, none,
  some, arith, Bool-cases, Option-cases, inl, inr, length,
}
use mathlib.Core.Option.{some-injective}
use i3ml_os.Frames.{
  Allocator, allocate_contiguous, search_from, mark_used, bit_at, page_size, taken,
}
use i3ml_os.Frames.Search.{AllFree, NoRun, Run, none_ne_some, search-Run, search-NoRun}
use i3ml_os.Frames.Marks.{
  AllUsed, SameBeside, length-mark_used, mark_used-SameBeside, mark_used-AllUsed,
}

-- The bitmap has a bit for each frame, and the frames begin at a page.
pub record IsValid (a : Allocator) : Type 0 where
  pub sized : a.frames ≤ length a.bitmap
  pub hinted : a.next_hint ≤ a.frames
  pub aligned : a.base % page_size ≡ 0

-- What an allocation of so many frames did.
pub record Allocated (a : Allocator) (count address : ℕ) (a' : Allocator) : Type 0 where
  pub start : ℕ
  pub address_is : address ≡ a.base + start * page_size
  pub some_asked : 0 < count
  pub inside : start + count ≤ a.frames
  pub were_free : AllFree a.bitmap start (start + count)
  pub are_used : AllUsed a'.bitmap start (start + count)
  pub others : SameBeside a.bitmap a'.bitmap start (start + count)
  pub same_base : a'.base ≡ a.base
  pub same_frames : a'.frames ≡ a.frames
  pub still_valid : IsValid a'

module _ (count : ℕ) (a : Allocator) (valid : IsValid a) where
  searched :
      (hint run_start frame : ℕ)
      → hint ≤ a.frames
      → search_from hint count a ≡ some (run_start, frame)
      → Run a.bitmap hint (hint + (a.frames - hint)) count (run_start, frame)
  searched hint run_start frame h e =
      search-Run (a.frames - hint) hint hint 0 count a.bitmap (run_start, frame) (omega arith)
        (λ i l k. absurd (omega (arith, l, k))) e

  taken-Allocated :
      (hint run_start frame : ℕ)
      → hint ≤ a.frames
      → search_from hint count a ≡ some (run_start, frame)
      → Allocated a count (a.base + run_start * page_size) (taken run_start frame a).1
  taken-Allocated hint run_start frame h e =
      let r = searched hint run_start frame h e in
      let n : frame + 1 - run_start ≡ count = omega (arith, r.sized) in
      let inside : run_start + count ≤ a.frames = omega (arith, r.sized, r.before, h) in
      record {
        start = run_start;
        address_is = refl;
        some_asked = r.some_asked;
        inside = inside;
        were_free = λ i l k. r.free i l (omega (arith, k, r.sized));
        are_used = λ i l k.
            subst (λ (m : ℕ). bit_at (mark_used run_start m a.bitmap) i ≡ true) (sym n)
              (mark_used-AllUsed run_start count a.bitmap (omega (arith, inside, valid.sized)) i l
                k);
        others = λ i out.
            subst (λ (m : ℕ). bit_at (mark_used run_start m a.bitmap) i ≡ bit_at a.bitmap i) (sym n)
              (mark_used-SameBeside run_start count a.bitmap i out);
        same_base = refl;
        same_frames = refl;
        still_valid = record {
          sized =
              omega
                (arith, valid.sized, length-mark_used run_start (frame + 1 - run_start) a.bitmap);
          hinted = omega (arith, inside, r.sized);
          aligned = valid.aligned;
        };
      }

  -- The two searches of an allocation.
  pub allocate-Allocated :
      (address : ℕ)
      → (allocate_contiguous count a).0 ≡ some address
      → Allocated a count address (allocate_contiguous count a).1
  unfolding allocate_contiguous
  allocate-Allocated address e = elim (Option-cases (search_from a.next_hint count a)) [
    | inr ((run_start, frame), got) ↦
        let out : allocate_contiguous count a ≡ taken run_start frame a =
          rw (got, allocate_contiguous) refl in
        handed run_start frame out (taken-Allocated a.next_hint run_start frame valid.hinted got)
    | inl missed ↦ elim (Bool-cases (a.next_hint == 0)) [
      | inl whole ↦
          let out : (allocate_contiguous count a).0 ≡ none =
            rw (missed, whole, allocate_contiguous) refl in
          absurd (none_ne_some (sym out ∙ e))
      | inr part ↦ elim (Option-cases (search_from 0 count a)) [
        | inr ((run_start, frame), got) ↦
            let out : allocate_contiguous count a ≡ taken run_start frame a =
              rw (missed, part, got, allocate_contiguous) refl in
            handed run_start frame out (taken-Allocated 0 run_start frame (omega arith) got)
        | inl none_at_all ↦
            let out : (allocate_contiguous count a).0 ≡ none =
              rw (missed, part, none_at_all, allocate_contiguous) refl in
            absurd (none_ne_some (sym out ∙ e))
      ]
    ]
  ]
    where
      handed :
          (run_start frame : ℕ)
          → allocate_contiguous count a ≡ taken run_start frame a
          → Allocated a count (a.base + run_start * page_size) (taken run_start frame a).1
          → Allocated a count address (allocate_contiguous count a).1
      handed run_start frame out done =
          let is : a.base + run_start * page_size ≡ address =
            some-injective (a.base + run_start * page_size) address
              (sym (ap (λ (x : Option ℕ × Allocator). x.0) out) ∙ e) in
          subst (λ (x : Allocator). Allocated a count address x)
            (sym (ap (λ (x : Option ℕ × Allocator). x.1) out))
            (subst (λ (n : ℕ). Allocated a count n (taken run_start frame a).1) is done)

  -- An allocation of some frames that fails, from an allocator whose bitmap covers its frames and whose hint
  -- is no further than its frames, has looked at every run of the region.
  pub allocate-NoRun :
      0 < count → (allocate_contiguous count a).0 ≡ none → NoRun a.bitmap 0 a.frames count
  unfolding allocate_contiguous
  allocate-NoRun some_asked e = elim (Option-cases (search_from a.next_hint count a)) [
    | inr ((run_start, frame), got) ↦
        let out : (allocate_contiguous count a).0 ≡ some (a.base + run_start * page_size) =
          rw (got, allocate_contiguous) refl in
        absurd (none_ne_some (sym e ∙ out))
    | inl missed ↦ elim (Bool-cases (a.next_hint == 0)) [
      | inl whole ↦
          let is = (==_iff a.next_hint 0).0 whole in
          looked (ap (λ (n : ℕ). search_from n count a) (sym is) ∙ missed)
      | inr part ↦ elim (Option-cases (search_from 0 count a)) [
        | inr ((run_start, frame), got) ↦
            let out : (allocate_contiguous count a).0 ≡ some (a.base + run_start * page_size) =
              rw (missed, part, got, allocate_contiguous) refl in
            absurd (none_ne_some (sym e ∙ out))
        | inl none_at_all ↦ looked none_at_all
      ]
    ]
  ]
    where
      looked : search_from 0 count a ≡ none → NoRun a.bitmap 0 a.frames count
      looked missed s h k =
          search-NoRun (a.frames - 0) 0 0 0 count a.bitmap refl some_asked missed s h
            (omega (arith, k))
