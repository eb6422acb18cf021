-- ===== src/Journal/Growth.antt =====
-- `append` of libs/journal/src/lib.rs, and a journal as the list of its records.
use i3ml_os.Prelude.{
  ℕ, ◌+◌, ◌*◌, ◌^◌, ◌≤◌, ◌<◌, ◌≡◌, ◌≢◌, refl, sym, ◌∙◌, ap, true, false, some, List, [], ◌∷◌, ◌++◌,
  arith, length, ok, ℕ_discrete, ◌==◌, subst, length-append,
}
use mathlib.Core.Option.{some-injective}
use i3ml_os.Journal.{
  Sectors, Record, Journal, hash, encode, slot_of, sector_of, found_at, found_in, fetch, append,
  superblock_encode, record_capacity, record_bytes, read_record,
}
use i3ml_os.Journal.Format.{
  IsRecord, IsDigest, decode-encode, length-encode, superblock_decode-encode,
  length-superblock_encode,
}
use i3ml_os.Journal.Chain.{peek, IsReadable, record_at}
use i3ml_os.Journal.Open.{Holds, genesis}
use i3ml_os.Journal.Append.{
  IsWritable, IsSized, Chained-kept, Chained-snoc, tip_from-snoc, slot_bytes-overwrite_self,
  slot_bytes-overwrite_before, length-overwrite,
}
use i3ml_os.Journal.Appended.{
  fetched, sector_with, stored_in, noted, append-Appended, fetch-keeps, fetch-size, fetch-peek,
  fetch-length,
}

module _ {D : Type 0} (storage : Sectors D) (digest : List ℕ → List ℕ)
    (readable : IsReadable storage) (writable : IsWritable storage) (is_digest : IsDigest digest)
    (j : Journal) (r : Record) (d : D) (whole_device : IsSized storage d)
    (ok_record : IsRecord r) where
  abbrev after : List ℕ → D
  after bytes =
      (storage.write_sector 0 (superblock_encode (noted storage digest j r d))
        (stored_in storage digest j r d bytes)).1

  encoded_size : length (encode digest j.tip r) ≡ record_bytes
  encoded_size = length-encode digest is_digest j.tip r ok_record

  fits_in :
      (bytes : List ℕ) → length bytes ≡ 512 → (slot_of j.count + 1) * record_bytes ≤ length bytes
  fits_in bytes sized = omega (arith, sized)

  -- The sector of the record after the append.
  after-sector :
      (bytes : List ℕ)
      → (fetch storage digest j.count d).0 ≡ some bytes
      → (storage.write_sector
          (sector_of j.count)
          (sector_with storage digest j r d bytes)
          (fetched storage digest j r d)).0
        ≡ true
      → peek storage (sector_of j.count) (after bytes)
        ≡ some (sector_with storage digest j r d bytes)
  after-sector bytes had written =
      let sized = fetch-length storage digest readable d whole_device j.count bytes had in
      let whole : length (sector_with storage digest j r d bytes) ≡ 512 =
        length-overwrite (slot_of j.count) (encode digest j.tip r) bytes encoded_size
          (fits_in bytes sized)
        ∙ sized in
      let apart : 0 ≢ sector_of j.count = λ e. omega (arith, e) in
      writable.spares 0 (sector_of j.count) _ _ apart
      ∙ writable.lands (sector_of j.count) _ _ whole written

  -- Every other sector but the superblock is as it was.
  after-other :
      (bytes : List ℕ) (sector : ℕ)
      → 0 ≢ sector
      → sector_of j.count ≢ sector
      → peek storage sector (after bytes) ≡ peek storage sector d
  after-other bytes sector apart other =
      writable.spares 0 sector _ _ apart
      ∙ (writable.spares (sector_of j.count) sector _ _ other
          ∙ fetch-keeps storage digest readable j.count d sector)

  -- The new record is found at the end, and the earlier ones where they were.
  after-new :
      (bytes : List ℕ)
      → (fetch storage digest j.count d).0 ≡ some bytes
      → (storage.write_sector
          (sector_of j.count)
          (sector_with storage digest j r d bytes)
          (fetched storage digest j r d)).0
        ≡ true
      → record_at storage j.count (after bytes) ≡ ok (r, hash digest j.tip r)
  unfolding read_record
  after-new bytes had written =
      let sized = fetch-length storage digest readable d whole_device j.count bytes had in
      let mine =
        slot_bytes-overwrite_self (slot_of j.count) (encode digest j.tip r) bytes encoded_size
          (fits_in bytes sized) in
      let read = decode-encode digest is_digest j.tip r ok_record in
      ap (found_at storage j.count) (after-sector bytes had written)
      ∙ (ap (found_in j.count) mine ∙ rw (read, found_in) refl)

  after-earlier :
      (bytes : List ℕ) (i : ℕ)
      → (fetch storage digest j.count d).0 ≡ some bytes
      → (storage.write_sector
          (sector_of j.count)
          (sector_with storage digest j r d bytes)
          (fetched storage digest j r d)).0
        ≡ true
      → i < j.count
      → record_at storage i (after bytes) ≡ record_at storage i d
  unfolding read_record
  after-earlier bytes i had written h = elim (ℕ_discrete (sector_of j.count) (sector_of i)) [
    | no other ↦
        let apart : 0 ≢ sector_of i = λ e. omega (arith, e) in
        ap (found_at storage i) (after-other bytes (sector_of i) apart other)
    | yes shared ↦
        let sized = fetch-length storage digest readable d whole_device j.count bytes had in
        let before : slot_of i < slot_of j.count = omega (arith, shared) in
        let later : (slot_of j.count == 0) ≡ false = ground (arith, before) in
        let now =
          subst
            (λ (s : ℕ).
              peek storage s (after bytes) ≡ some (sector_with storage digest j r d bytes))
            shared (after-sector bytes had written) in
        let then_ =
          subst (λ (s : ℕ). peek storage s d ≡ some bytes) shared
            (sym (fetch-peek storage digest readable j.count d later) ∙ had) in
        let mine =
          slot_bytes-overwrite_before (slot_of i) (slot_of j.count) (encode digest j.tip r) bytes
            before (fits_in bytes sized) in
        ap (found_at storage i) now ∙ (ap (found_in i) mine ∙ sym (ap (found_at storage i) then_))
  ]

  after-size : (bytes : List ℕ) → storage.sector_count (after bytes) ≡ storage.sector_count d
  after-size bytes =
      writable.spares_size 0 _ _
      ∙ (writable.spares_size (sector_of j.count) _ _
          ∙ fetch-size storage digest readable j.count d)

  pub append-IsSized :
      (append storage digest j r d).0 ≡ ok tt → IsSized storage (append storage digest j r d).2
  append-IsSized success sector bytes e =
      let a = append-Appended storage digest j r d success in
      let e' : peek storage sector (after a.bytes) ≡ some bytes =
        subst (λ (x : D). peek storage sector x ≡ some bytes) a.device_after e in
      let block = length-superblock_encode (noted storage digest j r d) (is_digest _) in
      elim (ℕ_discrete 0 sector) [
        | yes first ↦
            let it =
              subst (λ (s : ℕ). peek storage s (after a.bytes) ≡ some bytes) (sym first) e' in
            ap length (sym (some-injective _ _ (sym (writable.lands 0 _ _ block a.recorded) ∙ it)))
            ∙ block
        | no apart ↦ elim (ℕ_discrete (sector_of j.count) sector) [
          | yes here ↦
              let it =
                subst (λ (s : ℕ). peek storage s (after a.bytes) ≡ some bytes) (sym here) e' in
              let sized =
                fetch-length storage digest readable d whole_device j.count a.bytes a.had in
              ap length (sym (some-injective _ _ (sym (after-sector a.bytes a.had a.written) ∙ it)))
              ∙ (length-overwrite (slot_of j.count) (encode digest j.tip r) a.bytes encoded_size
                    (fits_in a.bytes sized)
                  ∙ sized)
          | no other ↦ whole_device sector bytes (sym (after-other a.bytes sector apart other) ∙ e')
        ]
      ]

  -- On a device of 512-byte sectors that reads without changing and writes only where it is told, with a
  -- digest of 32 bytes, a successful append of a record to a journal that the device holds leaves the
  -- device holding that journal with the record at its end. The record's integers fit, its label is 40
  -- bytes long, and its label length is at most 40, as `Record::new` leaves it.
  pub append-Holds :
      (rs : List Record)
      → Holds storage digest d j rs
      → (append storage digest j r d).0 ≡ ok tt
      → Holds storage digest
          (append storage digest j r d).2
          (append storage digest j r d).1
          (rs ++ (r ∷ []))
  append-Holds rs h success =
      let a = append-Appended storage digest j r d success in
      let last : record_at storage j.count (after a.bytes) ≡ ok (r, hash digest j.tip r) =
        after-new a.bytes a.had a.written in
      let earlier : (i : ℕ)
          → 0 ≤ i
          → i < 0 + length rs
          → record_at storage i (after a.bytes) ≡ record_at storage i d =
        λ i low high. after-earlier a.bytes i a.had a.written (omega (arith, high, h.counted)) in
      let place : j.count ≡ 0 + length rs = omega (arith, h.counted) in
      let small : j.capacity ≤ 2 ^ 20 = omega (arith, h.sized) in
      let len = length-append rs (r ∷ []) in
      rw (a.journal, a.device_after)
        (record {
          sector = superblock_encode (noted storage digest j r d);
          stands =
              writable.lands 0 _ _
                (length-superblock_encode (noted storage digest j r d) (is_digest _)) a.recorded;
          named =
              superblock_decode-encode (noted storage digest j r d) (omega (arith, a.room, small))
                (is_digest _);
          counted = omega (arith, h.counted, len);
          ends =
              ap (λ (t : List ℕ). hash digest t r) h.ends
              ∙ sym (tip_from-snoc storage digest genesis rs r);
          sized = h.sized ∙ ap record_capacity (sym (after-size a.bytes));
          room = omega (arith, a.room);
          chain =
              Chained-snoc storage digest (after a.bytes) 0 genesis rs r
                (Chained-kept storage digest d (after a.bytes) 0 genesis rs earlier h.chain)
                (subst
                  (λ (t : List ℕ).
                    record_at storage (0 + length rs) (after a.bytes) ≡ ok (r, hash digest t r))
                  h.ends
                  (subst
                    (λ (n : ℕ). record_at storage n (after a.bytes) ≡ ok (r, hash digest j.tip r))
                    place last));
        })
