-- ===== src/Frames.antt =====
-- nawa/core/src/mem.rs: the allocator of physical frames. The bitmap is a list of bits, of which bit
-- `frame` is bit `frame % 8` of byte `frame / 8`; the static behind the spin lock is an option.
pub mod Search
pub mod Marks
pub mod Ownership
pub mod Init
pub mod Returns
pub mod Histories
mod Tests
use i3ml_os.Prelude.{
  ℕ, zero, suc, ◌+◌, ◌-◌, ◌*◌, ◌/◌, ◌%◌, Bool, true, false, not, ◌||◌, ltb, ◌==◌, if◌then◌else◌,
  Option, none, some, List, [], ◌∷◌, ◌++◌, length, get_elem?, set, replicate, wrap64,
}

abbrev pub page_size : ℕ
page_size = 4096

-- EFI_CONVENTIONAL_MEMORY.
abbrev pub conventional : ℕ
conventional = 7

pub record MemoryRegion : Type 0 where
  pub kind : ℕ
  pub physical_start : ℕ
  pub pages : ℕ

pub record MemoryStats : Type 0 where
  pub usable_bytes : ℕ
  pub managed_bytes : ℕ

pub record Allocator : Type 0 where
  pub base : ℕ
  pub frames : ℕ
  pub bitmap : List Bool
  pub next_hint : ℕ

abbrev pub bit_at : List Bool → ℕ → Bool
bit_at bits frame = elim (get_elem? bits frame) [ none ↦ false | some bit ↦ bit ]

abbrev pub is_used : ℕ → Allocator → Bool
is_used frame a = bit_at a.bitmap frame

-- `for f in start..start + count { mark_used(f) }`.
abbrev pub mark_used : ℕ → ℕ → List Bool → List Bool
mark_used start zero bits = bits
mark_used start (suc count) bits = mark_used (suc start) count (set bits start true)

-- The loop of `init` over the regions: the usable bytes, and the largest region.
pub record Survey : Type 0 where
  pub usable : ℕ
  pub largest_base : ℕ
  pub largest_pages : ℕ

abbrev pub survey_region : MemoryRegion → Survey → Survey
survey_region region s =
    let usable = wrap64 (s.usable + wrap64 (region.pages * page_size)) in
    if region.kind == conventional
    then if ltb s.largest_pages region.pages
      then record {
        usable = usable;
        largest_base = region.physical_start;
        largest_pages = region.pages;
      }
      else record s { usable = usable }
    else s

abbrev pub survey : List MemoryRegion → Survey → Survey
survey [] s = s
survey (region ∷ regions) s = survey regions (survey_region region s)

abbrev pub bitmap_frames : ℕ → ℕ
bitmap_frames frames = ((frames + 7) / 8 + (page_size - 1)) / page_size

unfoldable pub init : List MemoryRegion → MemoryStats × Option Allocator
init regions =
    let s = survey regions (record { usable = 0; largest_base = 0; largest_pages = 0 }) in
    let frames = s.largest_pages in
    (
      record {
        usable_bytes = s.usable;
        managed_bytes = (frames - bitmap_frames frames) * page_size;
      },
      some (record {
        base = s.largest_base;
        frames = frames;
        bitmap = mark_used 0 (bitmap_frames frames) (replicate ((frames + 7) / 8 * 8) false);
        next_hint = 0;
      }),
    )

-- The loop of `allocate_contiguous` over the frames that are left: where the run of free frames begins
-- and where it ends, once it is long enough.
unfoldable pub search : ℕ → ℕ → ℕ → ℕ → ℕ → List Bool → Option (ℕ × ℕ)
search zero frame run_start run_length count bits = none
search (suc left) frame run_start run_length count bits = elim (bit_at bits frame) [
  | true ↦ search left (frame + 1) (frame + 1) 0 count bits
  | false ↦ elim (run_length + 1 == count) [
    | true ↦ some (run_start, frame)
    | false ↦ search left (frame + 1) run_start (run_length + 1) count bits
  ]
]

abbrev pub search_from : ℕ → ℕ → Allocator → Option (ℕ × ℕ)
search_from hint count a = search (a.frames - hint) hint hint 0 count a.bitmap

-- What a run that was found changes.
abbrev pub taken : ℕ → ℕ → Allocator → Option ℕ × Allocator
taken run_start frame a = (
  some (a.base + run_start * page_size),
  record a { bitmap = mark_used run_start (frame + 1 - run_start) a.bitmap; next_hint = frame + 1 },
)

unfoldable pub allocate_contiguous : ℕ → Allocator → Option ℕ × Allocator
allocate_contiguous count a = elim (search_from a.next_hint count a) [
  | some (run_start, frame) ↦ taken run_start frame a
  | none ↦ if a.next_hint == 0 then (none, a) else elim (search_from 0 count a) [
    | some (run_start, frame) ↦ taken run_start frame (record a { next_hint = 0 })
    | none ↦ (none, record a { next_hint = 0 })
  ]
]

abbrev pub allocate_frames : ℕ → Option Allocator → Option ℕ × Option Allocator
allocate_frames count none = (none, none)
allocate_frames count (some a) =
    let (address, a') = allocate_contiguous count a in (address, some a')

-- The loop of `free_frames`; `none` is its panic on a frame that is free.
unfoldable pub free_range : ℕ → ℕ → List Bool → Option (List Bool)
free_range first zero bits = some bits
free_range first (suc count) bits = elim (bit_at bits first) [
  | true ↦ free_range (suc first) count (set bits first false)
  | false ↦ none
]

-- `none` is a panic: no allocator, an empty range, an unaligned address, one below the managed region,
-- a range past its end, or a frame that is free. A sum that overflows is past the end too.
unfoldable pub free_frames : ℕ → ℕ → Option Allocator → Option Allocator
free_frames physical_address count none = none
free_frames physical_address count (some a) =
    let first = (physical_address - a.base) / page_size in
    if count == 0 || not (physical_address % page_size == 0)
    then none
    else if ltb physical_address a.base || ltb a.frames (first + count)
    then none
    else elim (free_range first count a.bitmap) [
      | none ↦ none
      | some bits ↦ some (record a { bitmap = bits })
    ]
