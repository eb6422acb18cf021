-- ===== src/Frames/Tests.antt =====
-- A machine with two regions of memory: allocations and returns, and the theorems applied there.
use i3ml_os.Prelude.{ℕ, ◌≡◌, refl, true, false, none, some, List, [], ◌∷◌, arith, replicate}
use i3ml_os.Frames.{
  Allocator, MemoryRegion, init, allocate_contiguous, search, free_frames, free_range, bit_at,
}
use i3ml_os.Frames.Search.{NoRun}
use i3ml_os.Frames.Ownership.{IsValid, allocate-NoRun}
use i3ml_os.Frames.Returns.{free_frames-allocate}
use i3ml_os.Frames.Histories.{Reached, start, allocated, returned, IsOwned, Reached-IsOwned}
use i3ml_os.Frames.Init.{Initial, init-Initial}

abbrev regions : List MemoryRegion
regions =
    record { kind = 7; physical_start = 0x1000; pages = 3 }
    ∷ record { kind = 7; physical_start = 0x100000; pages = 8 }
    ∷ record { kind = 4; physical_start = 0x200000; pages = 99 }
    ∷ []

init-Initial_example : (a : Allocator) × ((init regions).1 ≡ some a) × Initial regions a
init-Initial_example = init-Initial regions (refl, (refl, (refl, tt)))

-- The allocator there: its first frame holds the bitmap.
abbrev fresh : Allocator
fresh = record { base = 0x100000; frames = 8; bitmap = true ∷ replicate 7 false; next_hint = 0 }

fresh-init : (init regions).1 ≡ some fresh
unfolding init
fresh-init = refl

fresh-IsValid : IsValid fresh
fresh-IsValid = record { sized = omega arith; hinted = omega arith; aligned = refl }

two : (allocate_contiguous 2 fresh).0 ≡ some 0x101000
unfolding allocate_contiguous search
two = refl

too_many : (allocate_contiguous 8 fresh).0 ≡ none
unfolding allocate_contiguous search
too_many = refl

allocate-NoRun_example : NoRun fresh.bitmap 0 8 8
allocate-NoRun_example = allocate-NoRun 8 fresh fresh-IsValid (omega arith) too_many

free_frames-allocate_example :
    (a' : Allocator) × (free_frames 0x101000 2 (some (allocate_contiguous 2 fresh).1) ≡ some a')
    × ((frame : ℕ) → bit_at a'.bitmap frame ≡ bit_at fresh.bitmap frame)
free_frames-allocate_example = free_frames-allocate fresh 2 0x101000 fresh-IsValid two

-- Two frames, then three, then the two come back.
abbrev after_two : Allocator
after_two = record {
  base = 0x100000;
  frames = 8;
  bitmap = true ∷ true ∷ true ∷ replicate 5 false;
  next_hint = 3;
}

abbrev after_three : Allocator
after_three = record {
  base = 0x100000;
  frames = 8;
  bitmap = true ∷ true ∷ true ∷ true ∷ true ∷ true ∷ false ∷ false ∷ [];
  next_hint = 6;
}

abbrev after_return : Allocator
after_return = record {
  base = 0x100000;
  frames = 8;
  bitmap = true ∷ false ∷ false ∷ true ∷ true ∷ true ∷ false ∷ false ∷ [];
  next_hint = 6;
}

history : Reached fresh after_return ((3, 3) ∷ [])
unfolding allocate_contiguous search free_frames free_range
history =
    returned {a = after_three} {a' = after_return} ((3, 3) ∷ []) (1, 2) []
      (allocated {a = after_two} {live = (1, 2) ∷ []} 3 3
        (allocated {a = fresh} {live = []} 2 1 start refl) refl)
      refl

Reached-IsOwned_example : IsOwned after_return ((3, 3) ∷ [])
Reached-IsOwned_example = Reached-IsOwned fresh after_return ((3, 3) ∷ []) fresh-IsValid history
