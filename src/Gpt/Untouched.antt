-- ===== src/Gpt/Untouched.antt =====
-- `find` of libs/gpt/src/lib.rs and the sectors that it reads.
use i3ml_os.Prelude.{
  ℕ, zero, suc, ◌+◌, ◌≡◌, refl, ◌∙◌, Option, none, some, List, ltb, ◌==◌, length, Bool-cases,
  Option-cases, inl, inr, Result, ok, err,
}
use i3ml_os.Journal.{Sectors}
use i3ml_os.Journal.Bytes.{slice}
use i3ml_os.Journal.Chain.{peek, Same, IsReadable}
use i3ml_os.Gpt.{
  Header, Fault, find_header, find_in, find, sum_entries, scan, partition_in, entries_bytes,
  entry_sectors,
}
use i3ml_os.Gpt.Checksum.{Crc32, crc_new, crc_finish}
use i3ml_os.Gpt.Entries.{entry_lba, entry_offset}
use i3ml_os.Gpt.Array.{sum_entries-Same}
use i3ml_os.Gpt.Choice.{find_header-Same}

module _ {D : Type 0} (storage : Sectors D) (readable : IsReadable storage) where
  scan-Same :
      (h : Header) (type_guid : List ℕ) (total count index : ℕ) (d : D)
      → Same storage (scan storage count index h type_guid total d).1 d
  unfolding scan
  scan-Same h type_guid total zero index d other = refl
  scan-Same h type_guid total (suc count) index d other =
      from (peek storage (entry_lba storage h index) d) refl
        (scan-Same h type_guid total count (index + 1) d₁ other)
    where
      d₁ : D
      d₁ = (storage.read_sector (entry_lba storage h index) d).1

      kept :
          peek storage other (storage.read_sector (entry_lba storage h index) d).1
          ≡ peek storage other d
      kept = readable.keeps (entry_lba storage h index) d other

      from :
          (read : Option (List ℕ))
          → peek storage (entry_lba storage h index) d ≡ read
          → (peek storage other
                (scan storage count
                  (index + 1)
                  h
                  type_guid
                  total
                  (storage.read_sector (entry_lba storage h index) d).1).1
              ≡ peek storage other (storage.read_sector (entry_lba storage h index) d).1)
          → peek storage other (scan storage (suc count) index h type_guid total d).1
            ≡ peek storage other d
      from none got ih = rw (got, scan) kept
      from (some sector) got ih =
          elim (Bool-cases (ltb (length sector) (entry_offset storage h index + 128))) [
            | inl short ↦ rw (got, short, scan) kept
            | inr room ↦
                elim (Option-cases (
                  partition_in type_guid total (
                    slice (entry_offset storage h index) (entry_offset storage h index + 128)
                      sector))) [
                        | inl passes ↦ rw (got, room, passes, scan) (ih ∙ kept)
                        | inr (r, says) ↦ rw (got, room, says, scan) kept
                      ]
          ]

  find_in-Same :
      (h : Header) (type_guid : List ℕ) (total : ℕ) (d : D)
      → Same storage (find_in storage h type_guid total d).1 d
  unfolding find_in
  find_in-Same h type_guid total d other = from summing.0 refl
    where
      summing : Result Fault Crc32 × D
      summing =
          sum_entries storage (entry_sectors storage h) 0 (entries_bytes storage h) h crc_new d

      summed :
          peek storage other
            (sum_entries storage
              (entry_sectors storage h)
              0
              (entries_bytes storage h)
              h
              crc_new
              d).1
          ≡ peek storage other d
      summed =
          sum_entries-Same storage h readable (entry_sectors storage h) 0 (entries_bytes storage h)
            crc_new d other

      from :
          (r : Result Fault Crc32)
          → (sum_entries storage
              (entry_sectors storage h)
              0
              (entries_bytes storage h)
              h
              crc_new
              d).0
            ≡ r
          → peek storage other (find_in storage h type_guid total d).1 ≡ peek storage other d
      from (err fault) is = rw (is, find_in) summed
      from (ok checksum) is = elim (Bool-cases (crc_finish checksum == h.entries_crc)) [
        | inl good ↦
            rw (is, good, find_in)
              (scan-Same h type_guid total h.entry_count 0
                  (sum_entries storage (entry_sectors storage h) 0 (entries_bytes storage h) h
                    crc_new d).1
                  other
                ∙ summed)
        | inr bad ↦ rw (is, bad, find_in) summed
      ]

  -- Looking for a partition leaves every sector as it was.
  pub find-Same : (type_guid : List ℕ) (d : D) → Same storage (find storage type_guid d).1 d
  unfolding find
  find-Same type_guid d other =
      let total = storage.sector_count d in
      let kept = find_header-Same storage readable total d other in
      elim (Option-cases (find_header storage total d).0) [
        | inl none_found ↦ rw (none_found, find) kept
        | inr (h, is) ↦
            rw (is, find)
              (find_in-Same h type_guid total (find_header storage total d).1 other ∙ kept)
      ]
