-- ===== src/Gpt.antt =====
-- libs/gpt/src/lib.rs: finding a partition in a GUID partition table. The disk is the interface of
-- sectors of libs/journal. `none` in place of a result of `find` is a panic.
pub mod Checksum
pub mod Window
pub mod Confined
pub mod Entries
pub mod Array
pub mod Choice
pub mod Located
pub mod Untouched
pub mod Partitions
mod Tests
use i3ml_os.Prelude.{
  ℕ, zero, suc, ◌+◌, ◌-◌, ◌*◌, ◌/◌, ◌%◌, Bool, true, false, not, ◌&&◌, ◌||◌, ltb, leb, ◌==◌,
  if◌then◌else◌, min, Option, none, some, List, [], ◌∷◌, ◌++◌, length, take, drop, replicate,
  Result, ok, err, wrap64,
}
use i3ml_os.Journal.{Sectors}
use i3ml_os.Journal.Bytes.{from_le_bytes, slice, bytes_eq}
pub use Window.{Partition}
use Checksum.{crc32, Crc32, crc_new, crc_update, crc_finish}

abbrev pub sector_bytes : ℕ
sector_bytes = 512

-- "EFI PART".
abbrev pub signature : List ℕ
signature = 69 ∷ 70 ∷ 73 ∷ 32 ∷ 80 ∷ 65 ∷ 82 ∷ 84 ∷ []

abbrev pub header_bytes : ℕ
header_bytes = 92

pub data Fault : Type 0 where
  no_table corrupt device : Fault

abbrev pub read_u32 : List ℕ → ℕ → ℕ
read_u32 bytes at = from_le_bytes (slice at (at + 4) bytes)

abbrev pub read_u64 : List ℕ → ℕ → ℕ
read_u64 bytes at = from_le_bytes (slice at (at + 8) bytes)

pub record Header : Type 0 where
  pub entries_lba : ℕ
  pub entry_count : ℕ
  pub entry_size : ℕ
  pub entries_crc : ℕ

-- The header as its checksum sees it: its own field is zero.
abbrev pub unsigned_header : ℕ → List ℕ → List ℕ
unsigned_header size sector = take size (take 16 sector ++ (replicate 4 0 ++ drop 20 sector))

abbrev pub header_of : List ℕ → Header
header_of sector = record {
  entries_lba = read_u64 sector 72;
  entry_count = read_u32 sector 80;
  entry_size = read_u32 sector 84;
  entries_crc = read_u32 sector 88;
}

unfoldable pub parse_header : List ℕ → Option Header
parse_header sector =
    let declared = read_u32 sector 16 in
    let size = read_u32 sector 12 in
    let h = header_of sector in
    if ltb (length sector) header_bytes || not (bytes_eq (slice 0 8 sector) signature)
    then none
    else if ltb size header_bytes || ltb (length sector) size
    then none
    else if not (crc32 (unsigned_header size sector) == declared)
    then none
    else if ltb h.entry_size 128 || (ltb 4096 h.entry_size || ltb 512 h.entry_count)
    then none
    else some h

-- The header in a sector that was read.
abbrev pub header_in : Option (List ℕ) → Option Header
header_in none = none
header_in (some sector) = parse_header sector

-- The partition in an entry of 128 bytes, if it has the type that is looked for.
unfoldable pub partition_in : List ℕ → ℕ → List ℕ → Option (Result Fault Partition)
partition_in type_guid total entry =
    let first_lba = read_u64 entry 32 in
    let last_lba = read_u64 entry 40 in
    let found : Partition = record {
      type_guid = slice 0 16 entry;
      first_lba = first_lba;
      last_lba = last_lba;
    } in
    if bytes_eq (slice 0 16 entry) type_guid
    then some (if ltb last_lba first_lba || leb total last_lba then err corrupt else ok found)
    else none

module _ {D : Type 0} (storage : Sectors D) where
  -- The primary header, or else the backup in the last sector.
  unfoldable pub find_header : ℕ → D → Option Header × D
  find_header total d =
      let (first, d₁) = storage.read_sector 1 d in
      let (last, d₂) = storage.read_sector (total - 1) d₁ in
      elim (header_in first) [
        | some h ↦ (some h, d₁)
        | none ↦ if ltb 1 total then (header_in last, d₂) else (none, d₁)
      ]

  -- The loop over the sectors of the entry array, from `index` on.
  unfoldable pub sum_entries : ℕ → ℕ → ℕ → Header → Crc32 → D → Result Fault Crc32 × D
  sum_entries zero index entries_bytes h checksum d = (ok checksum, d)
  sum_entries (suc sectors) index entries_bytes h checksum d =
      let (read, d₁) = storage.read_sector (wrap64 (h.entries_lba + index)) d in
      elim read [
        | none ↦ (err device, d₁)
        | some sector ↦
            let part = take (min (entries_bytes - index * sector_bytes) sector_bytes) sector in
            sum_entries sectors (index + 1) entries_bytes h (crc_update part checksum) d₁
      ]

  -- The loop over the entries, from `index` on.
  unfoldable pub scan : ℕ → ℕ → Header → List ℕ → ℕ → D → Option (Result Fault Partition) × D
  scan zero index h type_guid total d = (some (err no_table), d)
  scan (suc entries) index h type_guid total d =
      let byte = index * h.entry_size in
      let within = byte % sector_bytes in
      let (read, d₁) = storage.read_sector (wrap64 (h.entries_lba + byte / sector_bytes)) d in
      elim read [
        | none ↦ (some (err device), d₁)
        | some sector ↦ elim (ltb (length sector) (within + 128)) [
          | true ↦ (none, d₁)
          | false ↦ elim (partition_in type_guid total (slice within (within + 128) sector)) [
            | some found ↦ (some found, d₁)
            | none ↦ scan entries (index + 1) h type_guid total d₁
          ]
        ]
      ]

  abbrev pub entries_bytes : Header → ℕ
  entries_bytes h = h.entry_count * h.entry_size

  -- `div_ceil` by the size of a sector.
  abbrev pub entry_sectors : Header → ℕ
  entry_sectors h = (entries_bytes h + (sector_bytes - 1)) / sector_bytes

  -- What `find` does with a header: the whole entry array is verified first.
  unfoldable pub find_in : Header → List ℕ → ℕ → D → Option (Result Fault Partition) × D
  find_in h type_guid total d =
      let (summed, d₁) = sum_entries (entry_sectors h) 0 (entries_bytes h) h crc_new d in
      elim summed [
        | err fault ↦ (some (err fault), d₁)
        | ok checksum ↦
            if crc_finish checksum == h.entries_crc
            then scan h.entry_count 0 h type_guid total d₁
            else (some (err corrupt), d₁)
      ]

  unfoldable pub find : List ℕ → D → Option (Result Fault Partition) × D
  find type_guid d =
      let total = storage.sector_count d in
      let (header, d₁) = find_header total d in
      elim header [ none ↦ (some (err no_table), d₁) | some h ↦ find_in h type_guid total d₁ ]
