-- ===== src/Gpt/Partitions.antt =====
-- The journal in a partition: libs/journal over a window of libs/gpt.
use i3ml_os.Prelude.{ℕ, ◌^◌, ◌≤◌, ◌<◌, ◌≡◌, ◌⊎◌, inl, inr, refl, ◌∙◌, some, ok, List, arith}
use i3ml_os.Journal.{Sectors, Journal, Record, create, append}
use i3ml_os.Journal.Chain.{peek, IsReadable}
use i3ml_os.Journal.Append.{IsSized, IsWritable}
use i3ml_os.Journal.Reach.{create-keeps, append-keeps}
use i3ml_os.Gpt.{find}
use i3ml_os.Gpt.Entries.{OnDisk}
use i3ml_os.Gpt.Window.{Partition, window, window_new}
use i3ml_os.Gpt.Confined.{IsPlaced, Outside, read_keeps, write_window-confined}
use i3ml_os.Gpt.Located.{find-Located}

module _ {D : Type 0} (storage : Sectors D) where
  -- The window of a partition that lies on the disk.
  placed :
      (total : ℕ) (type_guid : List ℕ) (p : Partition)
      → OnDisk total type_guid p
      → total ≤ 2 ^ 64
      → IsPlaced (window_new p) storage
  placed total type_guid p on_disk fits = omega (arith, on_disk.ordered, on_disk.inside, fits)

  -- A sector before the partition or behind it.
  abbrev pub Beside : Partition → ℕ → Type 0
  Beside p sector = (sector < p.first_lba) ⊎ (p.last_lba < sector)

  beside :
      (total : ℕ) (type_guid : List ℕ) (p : Partition) (sector : ℕ)
      → OnDisk total type_guid p
      → Beside p sector
      → Outside (window_new p) storage sector
  beside total type_guid p sector on_disk (inl before) = inl before
  beside total type_guid p sector on_disk (inr behind) =
      inr (omega (arith, behind, on_disk.ordered))

  module _ (readable : IsReadable storage) (writable : IsWritable storage) (type_guid : List ℕ)
      (d : D) (sized : IsSized storage d) (fits : storage.sector_count d ≤ 2 ^ 64) where
    -- Formatting a journal in a partition that `find` returned, and appending to it, whether they succeed
    -- or not, leave every sector of the disk before the partition and behind it as it was. The disk has at
    -- most 2 ^ 64 sectors of 512 bytes, a read changes none of them, and a write no other than its own.
    pub journal_in_partition-confined :
        (p : Partition)
        → (find storage type_guid d).0 ≡ some (ok p)
        → (digest : List ℕ → List ℕ) (j : Journal) (r : Record) (e : D) (sector : ℕ)
        → Beside p sector
        → (peek storage sector (create (window (window_new p) storage) e).1 ≡ peek storage sector e)
          × (peek storage sector (append (window (window_new p) storage) digest j r e).2
              ≡ peek storage sector e)
    journal_in_partition-confined p found digest j r e sector out =
        let on_disk = (find-Located storage readable type_guid d sized p found).on_disk in
        let total = storage.sector_count d in
        let outside = beside total type_guid p sector on_disk out in
        let in_place = placed total type_guid p on_disk fits in
        let reads = λ (s : ℕ) (x : D) (kept : Kept e sector x).
          read_keeps (window_new p) storage readable s x sector ∙ kept in
        let writes = λ (s : ℕ) (bytes : List ℕ) (x : D) (kept : Kept e sector x).
          write_window-confined (window_new p) storage writable in_place s bytes x sector outside
          ∙ kept in
        (
          create-keeps (window (window_new p) storage) (Kept e sector) reads writes e refl,
          append-keeps (window (window_new p) storage) (Kept e sector) reads writes digest j r e
              refl,
        )
      where
        Kept : D → ℕ → D → Type 0
        Kept e sector x = peek storage sector x ≡ peek storage sector e
