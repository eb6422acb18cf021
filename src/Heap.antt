-- ===== src/Heap.antt =====
-- nawa/core/src/heap.rs: the kernel's heap, a first-fit list of free blocks. A block is its address and
-- its size; the headers inside the free memory are the list, in its order.
pub mod Cover
pub mod Fit
pub mod Tiling
mod Tests
use i3ml_os.Prelude.{
  ℕ, zero, suc, ◌+◌, ◌-◌, ◌*◌, ◌/◌, ◌%◌, Bool, true, false, not, ◌&&◌, ◌||◌, ltb, leb, ◌==◌,
  if◌then◌else◌, max, Option, none, some, List, [], ◌∷◌, ◌++◌,
}
use i3ml_os.Frames.{Allocator, allocate_frames, page_size}

abbrev pub heap_pages : ℕ
heap_pages = 1024

-- `FreeBlock`: address and size.
abbrev pub FreeBlock : Type 0
FreeBlock = ℕ × ℕ

-- The size of a header, a length and an optional reference.
abbrev pub min_block : ℕ
min_block = 16

pub record Layout : Type 0 where
  pub size : ℕ
  pub align : ℕ

-- `init`: whether it succeeded, the free list, and the frames.
abbrev pub init : List FreeBlock → Option Allocator → Bool × List FreeBlock × Option Allocator
init list frames =
    let (base, frames') = allocate_frames heap_pages frames in
    elim base [
      | none ↦ (false, list, frames')
      | some address ↦ (true, (address, heap_pages * page_size) ∷ [], frames')
    ]

-- `next_multiple_of`.
abbrev pub next_multiple : ℕ → ℕ → ℕ
next_multiple n align = (n + (align - 1)) / align * align

-- `effective_layout`.
abbrev pub effective_size : Layout → ℕ
effective_size layout = next_multiple (max layout.size min_block) min_block

abbrev pub effective_align : Layout → ℕ
effective_align layout = max layout.align min_block

-- What is left of a block behind its padding and what was taken from it, and the padding.
abbrev pub tail_of : ℕ → ℕ → ℕ → List FreeBlock
tail_of address block_size used =
    if leb min_block (block_size - used) then (address + used, block_size - used) ∷ [] else []

abbrev pub padding_of : ℕ → ℕ → List FreeBlock
padding_of address padding = if leb min_block padding then (address, padding) ∷ [] else []

-- The walk of `alloc`: the first block that fits is replaced by what is left of it.
unfoldable pub alloc_in : ℕ → ℕ → List FreeBlock → Option (ℕ × List FreeBlock)
alloc_in size align [] = none
alloc_in size align ((address, block_size) ∷ rest) =
    let payload = next_multiple address align in
    let padding = payload - address in
    let later = alloc_in size align rest in
    if (not (padding == 0) && ltb padding min_block) || ltb block_size (padding + size)
    then elim later [
      | none ↦ none
      | some (found, list) ↦ some (found, (address, block_size) ∷ list)
    ]
    else some (
      payload,
      tail_of address block_size (padding + size) ++ (padding_of address padding ++ rest),
    )

abbrev pub alloc : Layout → List FreeBlock → Option (ℕ × List FreeBlock)
alloc layout list = alloc_in (effective_size layout) (effective_align layout) list

abbrev pub dealloc : ℕ → Layout → List FreeBlock → List FreeBlock
dealloc pointer layout list = (pointer, effective_size layout) ∷ list
