-- ===== src/Gpt/Array.antt =====
-- libs/gpt/src/lib.rs: the entry array, and the loop over its sectors.
use i3ml_os.Prelude.{
  ℕ, zero, suc, ◌+◌, ◌-◌, ◌*◌, ◌/◌, ◌%◌, ◌≤◌, ◌≡◌, ◌≢◌, refl, sym, ◌∙◌, ap, true, false, Option,
  none, some, List, [], ◌++◌, arith, ltb, not_ltb, min, length, take, wrap64, Bool-cases,
  Option-cases, inl, inr, ok, err, take_all, take-append_le, take-append_more, ok-injective,
  ok_ne_err,
}
use mathlib.Core.List.{append-nil}
use native.Mathlib.Nat.{mul_assoc, mul-mod_left}
use i3ml_os.Journal.{Sectors}
use i3ml_os.Journal.Bytes.{slice}
use i3ml_os.Journal.Chain.{peek, Same, IsReadable}
use i3ml_os.Journal.Append.{IsSized}
use i3ml_os.Gpt.{Header, sum_entries, scan, partition_in, device}
use i3ml_os.Gpt.Checksum.{Crc32, crc_update, crc_bytes, crc_bytes-append}
use i3ml_os.Gpt.Entries.{entry_lba, none_ne_some}

module _ {D : Type 0} (storage : Sectors D) (h : Header) where
  -- The bytes of so many sectors of the array, from one on.
  pub data ArrayIs (d : D) : ℕ → ℕ → List ℕ → Type 0 where
    done : {index : ℕ} → ArrayIs d 0 index []
    more :
        {sectors index : ℕ} {bytes : List ℕ} (sector : List ℕ)
        → peek storage (wrap64 (h.entries_lba + index)) d ≡ some sector
        → ArrayIs d sectors (index + 1) bytes
        → ArrayIs d (suc sectors) index (sector ++ bytes)

  pub ArrayIs-Same :
      (d d' : D) (sectors index : ℕ) (bytes : List ℕ)
      → Same storage d d'
      → ArrayIs d sectors index bytes
      → ArrayIs d' sectors index bytes
  ArrayIs-Same d d' _ index _ same done = done
  ArrayIs-Same d d' _ index _ same (more {sectors = n} {bytes = bytes} sector got rest) =
      more sector (sym (same (wrap64 (h.entries_lba + index))) ∙ got)
        (ArrayIs-Same d d' n (index + 1) bytes same rest)

  -- The part of a sector and the part of the others make up the part of all.
  take_parts :
      (n : ℕ) (sector bytes : List ℕ)
      → length sector ≡ 512
      → take n (sector ++ bytes) ≡ take (min n 512) sector ++ take (n - 512) bytes
  take_parts n sector bytes size = elim (Bool-cases (ltb n 512)) [
    | inl less ↦ low less
    | inr enough ↦ high enough
  ]
    where
      low :
          ltb n 512 ≡ true
          → take n (sector ++ bytes) ≡ take (min n 512) sector ++ take (n - 512) bytes
      low less =
          let small : n ≤ 512 = ground (arith, less) in
          let is_n : min n 512 ≡ n = omega (arith, small) in
          let is_zero : n - 512 ≡ 0 = omega (arith, small) in
          take-append_le n sector bytes (omega (arith, small, size))
          ∙ (sym (append-nil (take n sector))
              ∙ (λ i. take (sym is_n i) sector ++ take (sym is_zero i) bytes))

      high :
          ltb n 512 ≡ false
          → take n (sector ++ bytes) ≡ take (min n 512) sector ++ take (n - 512) bytes
      high enough =
          let big : 512 ≤ n = ground (arith, enough) in
          let is_512 : min n 512 ≡ 512 = omega (arith, big) in
          take-append_more n 512 sector bytes size big
          ∙ ap (λ (t : List ℕ). t ++ take (n - 512) bytes)
              (sym (take_all 512 sector (omega (arith, size)))
                ∙ ap (λ (k : ℕ). take k sector) (sym is_512))

  pub record Summed (d : D) (sectors index entries_bytes : ℕ) (start end : Crc32) : Type 0 where
    pub bytes : List ℕ
    pub array : ArrayIs d sectors index bytes
    pub sum : end ≡ crc_update (take (entries_bytes - index * 512) bytes) start

  take_nil : (n : ℕ) → ◌≡◌ {A = List ℕ} (take n []) []
  take_nil zero = refl
  take_nil (suc n) = refl

  module _ (readable : IsReadable storage) (sectors index entries_bytes : ℕ) (start end : Crc32)
      (d : D) (sized : IsSized storage d) where
    abbrev lba : ℕ
    lba = wrap64 (h.entries_lba + index)

    abbrev after_read : D
    after_read = (storage.read_sector lba d).1

    abbrev part_of : List ℕ → List ℕ
    part_of sector = take (min (entries_bytes - index * 512) 512) sector

    pub after_read-IsSized : IsSized storage after_read
    after_read-IsSized sector bytes got =
        sized sector bytes (sym (readable.keeps lba d sector) ∙ got)

    Summed-more :
        (sector : List ℕ)
        → peek storage lba d ≡ some sector
        → Summed after_read sectors
            (index + 1)
            entries_bytes
            (crc_update (part_of sector) start)
            end
        → Summed d (suc sectors) index entries_bytes start end
    Summed-more sector got later =
        let n = entries_bytes - index * 512 in
        let rest : entries_bytes - (index + 1) * 512 ≡ n - 512 = omega arith in
        let parts = take_parts n sector later.bytes (sized lba sector got) in
        record {
          bytes = sector ++ later.bytes;
          array = more sector got (
              ArrayIs-Same after_read d sectors (index + 1) later.bytes (readable.keeps lba d)
                later.array);
          sum = later.sum ∙ (λ i. record {
            value =
                ((ap
                        (λ (k : ℕ).
                          crc_bytes (crc_bytes start.value (part_of sector)) (take k later.bytes))
                        rest
                      ∙ sym (
                          crc_bytes-append start.value (part_of sector)
                            (take (n - 512) later.bytes)))
                    ∙ ap (crc_bytes start.value) (sym parts))
                  i;
          });
        }

  module _ (readable : IsReadable storage) where
    -- The loop sums the array as if its bytes had come at once.
    pub sum_entries-Summed :
        (sectors index entries_bytes : ℕ) (start end : Crc32) (d : D)
        → IsSized storage d
        → (sum_entries storage sectors index entries_bytes h start d).0 ≡ ok end
        → Summed d sectors index entries_bytes start end
    unfolding sum_entries
    sum_entries-Summed zero index entries_bytes start end d sized e = record {
      bytes = [];
      array = done;
      sum =
          sym (ok-injective e)
          ∙ ap (λ (t : List ℕ). crc_update t start) (sym (take_nil (entries_bytes - index * 512)));
    }
    sum_entries-Summed (suc sectors) index entries_bytes start end d sized e =
        with_sector (peek storage lba₀ d) refl (λ start' e'.
          sum_entries-Summed sectors (index + 1) entries_bytes start' end d₁ sized₁ e')
      where
        lba₀ : ℕ
        lba₀ = wrap64 (h.entries_lba + index)

        d₁ : D
        d₁ = (storage.read_sector (wrap64 (h.entries_lba + index)) d).1

        sized₁ : IsSized storage d₁
        sized₁ = after_read-IsSized readable sectors index entries_bytes start end d sized

        with_sector :
            (read : Option (List ℕ))
            → peek storage (wrap64 (h.entries_lba + index)) d ≡ read
            → ((start' : Crc32)
                → (sum_entries storage sectors (index + 1) entries_bytes h start' d₁).0 ≡ ok end
                → Summed d₁ sectors (index + 1) entries_bytes start' end)
            → Summed d (suc sectors) index entries_bytes start end
        with_sector none got ih =
            let out : (sum_entries storage (suc sectors) index entries_bytes h start d).0
                ≡ err device =
              rw (got, sum_entries) refl in
            absurd (ok_ne_err (sym e ∙ out))
        with_sector (some sector) got ih =
            let start' = crc_update (take (min (entries_bytes - index * 512) 512) sector) start in
            let out : (sum_entries storage (suc sectors) index entries_bytes h start d).0
                ≡ (sum_entries storage sectors (index + 1) entries_bytes h start' d₁).0 =
              rw (got, sum_entries) refl in
            Summed-more readable sectors index entries_bytes start end d sized sector got
              (ih start' (sym out ∙ e))

  module _ (readable : IsReadable storage) where
    pub sum_entries-Same :
        (sectors index total : ℕ) (start : Crc32) (d : D)
        → Same storage (sum_entries storage sectors index total h start d).1 d
    unfolding sum_entries
    sum_entries-Same zero index total start d other = refl
    sum_entries-Same (suc sectors) index total start d other =
        with_sector (peek storage (wrap64 (h.entries_lba + index)) d) refl (λ start'.
          sum_entries-Same sectors (index + 1) total start'
            (storage.read_sector (wrap64 (h.entries_lba + index)) d).1 other)
      where
        with_sector :
            (read : Option (List ℕ))
            → peek storage (wrap64 (h.entries_lba + index)) d ≡ read
            → ((start' : Crc32)
                → peek storage other
                    (sum_entries storage sectors
                      (index + 1)
                      total
                      h
                      start'
                      (storage.read_sector (wrap64 (h.entries_lba + index)) d).1).1
                  ≡ peek storage other (storage.read_sector (wrap64 (h.entries_lba + index)) d).1)
            → peek storage other (sum_entries storage (suc sectors) index total h start d).1
              ≡ peek storage other d
        with_sector none got ih =
            rw (got, sum_entries) (readable.keeps (wrap64 (h.entries_lba + index)) d other)
        with_sector (some sector) got ih =
            rw (got, sum_entries)
              (ih (crc_update (take (min (total - index * 512) 512) sector) start)
                ∙ readable.keeps (wrap64 (h.entries_lba + index)) d other)

  -- The loop over the entries never reads over the end of a sector.
  module _ (readable : IsReadable storage) (type_guid : List ℕ) (total : ℕ)
      (whole : h.entry_size % 128 ≡ 0) where
    entry_fits : (index size : ℕ) → size % 128 ≡ 0 → index * size % 512 + 128 ≤ 512
    entry_fits index size e =
        let quarters : size ≡ size / 128 * 128 = omega (arith, e) in
        let product : index * size % 128 ≡ 0 =
          ap (λ (s : ℕ). index * s % 128) quarters
          ∙ (ap (λ (p : ℕ). p % 128) (sym (mul_assoc index (size / 128) 128))
              ∙ mul-mod_left (index * (size / 128)) 128) in
        omega (arith, product)

    pub scan_returns :
        (count index : ℕ) (d : D)
        → IsSized storage d
        → (scan storage count index h type_guid total d).0 ≢ none
    unfolding scan
    scan_returns zero index d sized e = none_ne_some (sym e)
    scan_returns (suc count) index d sized e =
        with_sector (peek storage (entry_lba storage h index) d) refl (
          scan_returns count (index + 1) (storage.read_sector (entry_lba storage h index) d).1
            (λ sector bytes got.
              sized sector bytes (sym (readable.keeps (entry_lba storage h index) d sector) ∙ got)))
      where
        with_sector :
            (read : Option (List ℕ))
            → peek storage (entry_lba storage h index) d ≡ read
            → ((scan storage count
                  (index + 1)
                  h
                  type_guid
                  total
                  (storage.read_sector (entry_lba storage h index) d).1).0
                ≢ none)
            → ⊥
        with_sector none got ih =
            let out : (scan storage (suc count) index h type_guid total d).0 ≡ some (err device) =
              rw (got, scan) refl in
            none_ne_some (sym e ∙ out)
        with_sector (some sector) got ih =
            let fits : ltb (length sector) (index * h.entry_size % 512 + 128) ≡ false =
              not_ltb (length sector) (index * h.entry_size % 512 + 128) (
                omega (
                  arith,
                  sized (entry_lba storage h index) sector got,
                  entry_fits index h.entry_size whole,
                )) in
            elim (Option-cases (
              partition_in type_guid total
                (slice (index * h.entry_size % 512) (index * h.entry_size % 512 + 128) sector))) [
                  | inl passes ↦
                      let out : (scan storage (suc count) index h type_guid total d).0
                          ≡ (scan storage count (index + 1) h type_guid total
                              (storage.read_sector (entry_lba storage h index) d).1).0 =
                        rw (got, fits, passes, scan) refl in
                      ih (sym out ∙ e)
                  | inr (r, says) ↦
                      let out : (scan storage (suc count) index h type_guid total d).0 ≡ some r =
                        rw (got, fits, says, scan) refl in
                      none_ne_some (sym e ∙ out)
                ]
