-- ===== src/Heap/Tests.antt =====
-- Allocations from a fresh heap, one of them aligned to 64, and a return.
use i3ml_os.Prelude.{◌≡◌, refl, some, List, [], ◌∷◌}
use i3ml_os.Heap.{FreeBlock, Layout, alloc, alloc_in}
use i3ml_os.Heap.Fit.{IsLayout}
use i3ml_os.Heap.Tiling.{Reached, start, allocated, returned, Tiles, Reached-Tiles}

abbrev small : Layout
small = record { size = 20; align = 8 }

abbrev wide : Layout
wide = record { size = 64; align = 64 }

small-IsLayout : IsLayout small
small-IsLayout = record { exponent = 3; power = refl }

wide-IsLayout : IsLayout wide
wide-IsLayout = record { exponent = 6; power = refl }

-- The block that the alignment skips stays free.
abbrev after_both : List FreeBlock
after_both = (0x100080, 4194176) ∷ (0x100020, 32) ∷ []

first : alloc small ((0x100000, 4194304) ∷ []) ≡ some (0x100000, (0x100020, 4194272) ∷ [])
unfolding alloc_in
first = refl

second : alloc wide ((0x100020, 4194272) ∷ []) ≡ some (0x100040, after_both)
unfolding alloc_in
second = refl

history : Reached 0x100000 ((0x100000, 32) ∷ after_both) ((0x100040, wide) ∷ [])
history = returned ((0x100040, wide) ∷ []) 0x100000 small [] (
    allocated wide 0x100040 after_both
      (allocated small 0x100000 ((0x100020, 4194272) ∷ []) start small-IsLayout first) wide-IsLayout
      second)

Reached-Tiles_example : Tiles 0x100000 ((0x100000, 32) ∷ after_both) ((0x100040, wide) ∷ [])
Reached-Tiles_example =
    Reached-Tiles 0x100000 ((0x100000, 32) ∷ after_both) ((0x100040, wide) ∷ []) refl history
