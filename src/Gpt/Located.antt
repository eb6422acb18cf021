-- ===== src/Gpt/Located.antt =====
-- `find` of libs/gpt/src/lib.rs as a whole.
use i3ml_os.Prelude.{
  ℕ, ◌-◌, ◌*◌, ◌%◌, ◌≡◌, ◌≢◌, refl, sym, ◌∙◌, ap, true, none, some, List, arith, ◌==◌, ==_iff, take,
  Bool-cases, Option-cases, inl, inr, ok, err, Result,
}
use i3ml_os.Journal.{Sectors}
use i3ml_os.Journal.Chain.{Same, IsReadable}
use i3ml_os.Journal.Append.{IsSized}
use i3ml_os.Gpt.{
  Header, Partition, Fault, corrupt, no_table, find_header, find_in, find, sum_entries, scan,
  entries_bytes, entry_sectors,
}
use i3ml_os.Gpt.Checksum.{Crc32, crc32, crc_new, crc_finish}
use i3ml_os.Gpt.Entries.{
  OnDisk, FirstMatch, FirstMatch-Same, scan-FirstMatch, partition_in-OnDisk, none_ne_some,
  err_ne_ok,
}
use i3ml_os.Gpt.Array.{ArrayIs, ArrayIs-Same, sum_entries-Summed, sum_entries-Same, scan_returns}
use i3ml_os.Gpt.Choice.{Trusted, Chosen, parse_header-Trusted, find_header-Same, find_header-Chosen}

module _ {D : Type 0} (storage : Sectors D) where
  -- A partition that was found: by a header that the disk holds, in an array whose bytes have the
  -- checksum that the header gives, as the first entry of the type.
  pub record Located (type_guid : List ℕ) (d : D) (p : Partition) : Type 0 where
    pub header : Header
    pub chosen : Chosen storage (storage.sector_count d) d header
    pub trusted : Trusted chosen.sector header
    pub array : List ℕ
    pub stored : ArrayIs storage header d (entry_sectors storage header) 0 array
    pub checksum : crc32 (take (entries_bytes storage header) array) ≡ header.entries_crc
    pub first_match :
        FirstMatch storage header d 0 header.entry_count type_guid (storage.sector_count d) (ok p)
    pub on_disk : OnDisk (storage.sector_count d) type_guid p

  module _ (readable : IsReadable storage) (type_guid : List ℕ) (total : ℕ) (h : Header) (d : D)
      (sized : IsSized storage d) where
    abbrev summing : Result Fault Crc32 × D
    summing = sum_entries storage (entry_sectors storage h) 0 (entries_bytes storage h) h crc_new d

    summing-Same : Same storage summing.1 d
    summing-Same =
        sum_entries-Same storage h readable (entry_sectors storage h) 0 (entries_bytes storage h)
          crc_new d

    -- What `find` has verified by the time that it returns a partition.
    pub record Verified (p : Partition) : Type 0 where
      pub array : List ℕ
      pub stored : ArrayIs storage h d (entry_sectors storage h) 0 array
      pub checksum : crc32 (take (entries_bytes storage h) array) ≡ h.entries_crc
      pub first_match : FirstMatch storage h d 0 h.entry_count type_guid total (ok p)

    all_bytes : entries_bytes storage h - 0 * 512 ≡ entries_bytes storage h
    all_bytes = omega arith

    pub find_in-Verified :
        (p : Partition) → (find_in storage h type_guid total d).0 ≡ some (ok p) → Verified p
    unfolding find_in
    find_in-Verified p e = summed summing.0 refl
      where
        checked :
            (checksum : Crc32)
            → summing.0 ≡ ok checksum
            → (crc_finish checksum == h.entries_crc) ≡ true
            → Verified p
        checked checksum is good =
            let out : (find_in storage h type_guid total d).0
                ≡ (scan storage h.entry_count 0 h type_guid total summing.1).0 =
              rw (is, good, find_in) refl in
            let s =
              sum_entries-Summed storage h readable (entry_sectors storage h) 0
                (entries_bytes storage h) crc_new checksum d sized is in
            record {
              array = s.bytes;
              stored = s.array;
              checksum =
                  ap (λ (k : ℕ). crc32 (take k s.bytes)) (sym all_bytes)
                  ∙ (ap crc_finish (sym s.sum)
                      ∙ (==_iff (crc_finish checksum) h.entries_crc).0 good);
              first_match =
                  FirstMatch-Same storage h type_guid total summing.1 d 0 h.entry_count (ok p)
                    summing-Same
                    (scan-FirstMatch storage h type_guid total readable h.entry_count 0 summing.1 p
                      (sym out ∙ e));
            }

        summed : (r : Result Fault Crc32) → summing.0 ≡ r → Verified p
        summed (err fault) is =
            let out : (find_in storage h type_guid total d).0 ≡ some (err fault) =
              rw (is, find_in) refl in
            absurd (err_ne_ok (sym out ∙ e))
        summed (ok checksum) is = elim (Bool-cases (crc_finish checksum == h.entries_crc)) [
          | inl good ↦ checked checksum is good
          | inr bad ↦
              let out : (find_in storage h type_guid total d).0 ≡ some (err corrupt) =
                rw (is, bad, find_in) refl in
              absurd (err_ne_ok (sym out ∙ e))
        ]

    pub find_in_returns : h.entry_size % 128 ≡ 0 → (find_in storage h type_guid total d).0 ≢ none
    unfolding find_in
    find_in_returns whole e = summed summing.0 refl
      where
        summed : (r : Result Fault Crc32) → summing.0 ≡ r → ⊥
        summed (err fault) is =
            let out : (find_in storage h type_guid total d).0 ≡ some (err fault) =
              rw (is, find_in) refl in
            none_ne_some (sym e ∙ out)
        summed (ok checksum) is = elim (Bool-cases (crc_finish checksum == h.entries_crc)) [
          | inr bad ↦
              let out : (find_in storage h type_guid total d).0 ≡ some (err corrupt) =
                rw (is, bad, find_in) refl in
              none_ne_some (sym e ∙ out)
          | inl good ↦
              let out : (find_in storage h type_guid total d).0
                  ≡ (scan storage h.entry_count 0 h type_guid total summing.1).0 =
                rw (is, good, find_in) refl in
              scan_returns storage h readable type_guid total whole h.entry_count 0 summing.1
                (λ sector bytes got. sized sector bytes (sym (summing-Same sector) ∙ got))
                (sym out ∙ e)
        ]

  module _ (readable : IsReadable storage) (type_guid : List ℕ) (d : D)
      (sized : IsSized storage d) where
    abbrev total_of : ℕ
    total_of = storage.sector_count d

    header-IsSized : IsSized storage (find_header storage total_of d).1
    header-IsSized sector bytes got =
        sized sector bytes (sym (find_header-Same storage readable total_of d sector) ∙ got)

    -- A partition that `find` returns is on the disk: its numbers are in order and below the number of
    -- sectors. A header that the disk holds and that passed its checksum, the primary one or else the
    -- backup, names an array of entries whose bytes on the disk have the checksum that it gives, and the
    -- partition is the one of the first entry in it of the type that was asked for. The disk gives sectors
    -- of 512 bytes, which a read does not change.
    pub find-Located :
        (p : Partition) → (find storage type_guid d).0 ≡ some (ok p) → Located type_guid d p
    unfolding find
    find-Located p e = elim (Option-cases (find_header storage total_of d).0) [
      | inl none_found ↦
          let out : (find storage type_guid d).0 ≡ some (err no_table) =
            rw (none_found, find) refl in
          absurd (err_ne_ok (sym out ∙ e))
      | inr (h, is) ↦ with_header h is
    ]
      where
        with_header :
            (h : Header) → (find_header storage total_of d).0 ≡ some h → Located type_guid d p
        with_header h is =
            let d₁ = (find_header storage total_of d).1 in
            let same = find_header-Same storage readable total_of d in
            let out : (find storage type_guid d).0 ≡ (find_in storage h type_guid total_of d₁).0 =
              rw (is, find) refl in
            let v =
              find_in-Verified readable type_guid total_of h d₁ header-IsSized p (sym out ∙ e) in
            let c = find_header-Chosen storage readable total_of d h is in
            let m =
              FirstMatch-Same storage h type_guid total_of d₁ d 0 h.entry_count (ok p) same
                v.first_match in
            record {
              header = h;
              chosen = c;
              trusted = parse_header-Trusted c.sector h c.parsed;
              array = v.array;
              stored =
                  ArrayIs-Same storage h d₁ d (entry_sectors storage h) 0 v.array same v.stored;
              checksum = v.checksum;
              first_match = m;
              on_disk = partition_in-OnDisk type_guid total_of m.entry p m.says;
            }

    -- `find` returns, without reading over the end of a sector, on a disk whose header gives entries of a
    -- multiple of 128 bytes. The disk gives sectors of 512 bytes, which a read does not change.
    pub find_returns :
        ((h : Header) → Chosen storage total_of d h → h.entry_size % 128 ≡ 0)
        → (find storage type_guid d).0 ≢ none
    unfolding find
    find_returns whole e = elim (Option-cases (find_header storage total_of d).0) [
      | inl none_found ↦
          let out : (find storage type_guid d).0 ≡ some (err no_table) =
            rw (none_found, find) refl in
          none_ne_some (sym e ∙ out)
      | inr (h, is) ↦
          let out : (find storage type_guid d).0
              ≡ (find_in storage h type_guid total_of (find_header storage total_of d).1).0 =
            rw (is, find) refl in
          find_in_returns readable type_guid total_of h (find_header storage total_of d).1
            header-IsSized (whole h (find_header-Chosen storage readable total_of d h is))
            (sym out ∙ e)
    ]
