-- ===== src/Heap/Tiling.antt =====
-- The free list of nawa/core/src/heap.rs and the blocks that are handed out.
use i3ml_os.Prelude.{
  inl, inr, ℕ, ◌+◌, ◌*◌, ◌%◌, ◌≡◌, ◌≢◌, refl, sym, ◌∙◌, subst, true, false, some, List, [], ◌∷◌,
  ◌++◌, arith, All, Option-cases,
}
use i3ml_os.Frames.{Allocator, allocate_contiguous}
use i3ml_os.Frames.Ownership.{IsValid, Allocated, allocate-Allocated}
use i3ml_os.Heap.{FreeBlock, Layout, alloc, dealloc, init, effective_size, effective_align}
use i3ml_os.Heap.Cover.{holds, cover}
use i3ml_os.Heap.Fit.{
  IsQuantum, IsLayout, alloc_in-Taken, effective_size-quantum, effective_align-quantum,
  effective_align-positive,
}

-- A pointer that was handed out, with the layout that it was asked for.
abbrev pub Claim : Type 0
Claim = ℕ × Layout

abbrev pub claimed : List Claim → List FreeBlock
claimed [] = []
claimed ((pointer, layout) ∷ live) = (pointer, effective_size layout) ∷ claimed live

-- From the heap of one block at `base`, by allocations and by returns of what was handed out, to a free
-- list with these claims out.
pub data Reached (base : ℕ) : List FreeBlock → List Claim → Type 0 where
  start : Reached base ((base, 1024 * 4096) ∷ []) []
  allocated :
      {free : List FreeBlock} {live : List Claim} (layout : Layout) (pointer : ℕ)
      (left : List FreeBlock)
      → Reached base free live
      → IsLayout layout
      → alloc layout free ≡ some (pointer, left)
      → Reached base left ((pointer, layout) ∷ live)
  returned :
      {free : List FreeBlock} (before : List Claim) (pointer : ℕ) (layout : Layout)
      (after : List Claim)
      → Reached base free (before ++ ((pointer, layout) ∷ after))
      → Reached base (dealloc pointer layout free) (before ++ after)

-- Each byte of the heap is in one block exactly, free or handed out, and any other byte in none; each
-- pointer is aligned as it was asked for, and every block lies on multiples of 16.
pub record Tiles (base : ℕ) (free : List FreeBlock) (live : List Claim) : Type 0 where
  pub tiles :
      (byte : ℕ) → cover byte free + cover byte (claimed live) ≡ holds byte base (1024 * 4096)
  pub aligned : All (λ (c : Claim). c.0 % effective_align c.1 ≡ 0) live
  pub free_quantum : All IsQuantum free
  pub live_quantum : All (λ (c : Claim). c.0 % 16 ≡ 0) live

cover-claimed :
    (byte : ℕ) (before : List Claim) (pointer : ℕ) (layout : Layout) (after : List Claim)
    → cover byte (claimed (before ++ ((pointer, layout) ∷ after)))
      ≡ holds byte pointer (effective_size layout) + cover byte (claimed (before ++ after))
cover-claimed byte [] pointer layout after = refl
cover-claimed byte ((p, l) ∷ before) pointer layout after =
    omega (arith, cover-claimed byte before pointer layout after)

All-remove {κ} :
    (P : Claim → Type κ) (before : List Claim) (x : Claim) (after : List Claim)
    → All P (before ++ (x ∷ after))
    → P x × All P (before ++ after)
All-remove P [] x after h = h
All-remove P (y ∷ before) x after h =
    let (here, rest) = All-remove P before x after h.1 in (here, (h.0, rest))

Tiles-allocated :
    (base : ℕ) (free : List FreeBlock) (live : List Claim) (layout : Layout) (pointer : ℕ)
    (left : List FreeBlock)
    → Tiles base free live
    → IsLayout layout
    → alloc layout free ≡ some (pointer, left)
    → Tiles base left ((pointer, layout) ∷ live)
Tiles-allocated base free live layout pointer left t is e =
    let taken =
      alloc_in-Taken (effective_size layout) (effective_align layout) free (pointer, left)
        (effective_align-positive layout) (effective_align-quantum layout is)
        (effective_size-quantum layout) t.free_quantum e in
    record {
      tiles = λ byte. omega (arith, t.tiles byte, taken.covers byte);
      aligned = (taken.aligned, t.aligned);
      free_quantum = taken.left;
      live_quantum = (taken.quantum, t.live_quantum);
    }

-- The heap is never lost and never handed out twice: after any history of allocations and of returns with
-- the layout of the allocation, each byte of the heap is in exactly one block, free or handed out, and no
-- block holds any other byte. Each pointer that is out is aligned as its layout asks. Layouts have powers
-- of two as alignments, and the heap begins at a multiple of 16.
pub Reached-Tiles :
    (base : ℕ) (free : List FreeBlock) (live : List Claim)
    → base % 16 ≡ 0
    → Reached base free live
    → Tiles base free live
Reached-Tiles base _ _ h start = record {
  tiles = λ byte. omega arith;
  aligned = tt;
  free_quantum = ((h, refl), tt);
  live_quantum = tt;
}
Reached-Tiles base _ _ h (allocated {free} {live} layout pointer left r is e) =
    Tiles-allocated base free live layout pointer left (Reached-Tiles base free live h r) is e
Reached-Tiles base _ _ h (returned {free} before pointer layout after r) =
    let t = Reached-Tiles base free (before ++ ((pointer, layout) ∷ after)) h r in
    let (aligned, others) =
      All-remove (λ (c : Claim). c.0 % effective_align c.1 ≡ 0) before (pointer, layout) after
        t.aligned in
    let (quantum, rest) =
      All-remove (λ (c : Claim). c.0 % 16 ≡ 0) before (pointer, layout) after t.live_quantum in
    record {
      tiles = λ byte. omega (arith, t.tiles byte, cover-claimed byte before pointer layout after);
      aligned = others;
      free_quantum = ((quantum, effective_size-quantum layout), t.free_quantum);
      live_quantum = rest;
    }

-- The heap that `init` takes from the frame allocator begins at a page.
pub init-Reached :
    (list : List FreeBlock) (a : Allocator)
    → IsValid a
    → (init list (some a)).0 ≡ true
    → (base : ℕ) × (base % 16 ≡ 0)
      × Allocated a 1024 base (allocate_contiguous 1024 a).1
      × Reached base (init list (some a)).1 []
init-Reached list a valid e = elim (Option-cases (allocate_contiguous 1024 a).0) [
  | inl refused ↦
      let out : (init list (some a)).0 ≡ false = rw (refused, init) refl in
      absurd (false_ne_true (sym out ∙ e))
  | inr (base, got) ↦
      let done = allocate-Allocated 1024 a valid base got in
      let out : (init list (some a)).1 ≡ (base, 1024 * 4096) ∷ [] = rw (got, init) refl in
      (
        base,
        omega (arith, done.address_is, valid.aligned),
        done,
        subst (λ (free : List FreeBlock). Reached base free []) (sym out) start,
      )
]
  where
    false_ne_true : false ≢ true
    false_ne_true e = cc
