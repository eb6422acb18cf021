-- ===== src/Journal/Reach.antt =====
-- The reads and writes of sectors in libs/journal/src/lib.rs.
use i3ml_os.Prelude.{
  ℕ, zero, suc, ◌+◌, ◌≡◌, refl, false, some, List, ltb, leb, ◌==◌, ok, err, Result, Bool-cases,
  Option-cases, inl, inr, replicate,
}
use i3ml_os.Journal.Bytes.{bytes_eq}
use i3ml_os.Journal.{
  Sectors, Journal, Record, Fault, Superblock, create, append, fetch, write_superblock, overwrite,
  encode, hash, slot_of, sector_of, superblock_encode, superblock_decode, open_journal, open_chain,
  verify, read_record, read_journal, record_capacity,
}

-- A fact about the device that survives every read and every write.
module _ {D : Type 0} (storage : Sectors D) (P : D → Type 0)
    (reads : (sector : ℕ) (d : D) → P d → P (storage.read_sector sector d).1)
    (writes : (sector : ℕ) (bytes : List ℕ) (d : D)
      → P d
      → P (storage.write_sector sector bytes d).1) where
  write_superblock-keeps : (j : Journal) (d : D) → P d → P (write_superblock storage j d).1
  unfolding write_superblock
  write_superblock-keeps j d h =
      writes 0 (superblock_encode (record { count = j.count; tip = j.tip })) d h

  abbrev fresh : D → Journal
  fresh d = record {
    count = 0;
    tip = replicate 32 0;
    capacity = record_capacity (storage.sector_count d);
  }

  pub create-keeps : (d : D) → P d → P (create storage d).1
  unfolding create
  create-keeps d h = finished (write_superblock storage (fresh d) d).0 refl
    where
      finished :
          (r : Result Fault (Unit {0}))
          → (write_superblock storage (fresh d) d).0 ≡ r
          → P (create storage d).1
      finished (err e) is = rw (is, create) (write_superblock-keeps (fresh d) d h)
      finished (ok u) is = rw (is, create) (write_superblock-keeps (fresh d) d h)

  fetch-keeps :
      (digest : List ℕ → List ℕ) (index : ℕ) (d : D) → P d → P (fetch storage digest index d).1
  unfolding fetch
  fetch-keeps digest index d h = elim (Bool-cases (slot_of index == 0)) [
    | inl fresh ↦ rw (fresh, fetch) h
    | inr shared ↦ rw (shared, fetch) (reads (sector_of index) d h)
  ]

  module _ (digest : List ℕ → List ℕ) (j : Journal) (r : Record) where
    abbrev next : Journal
    next = record j { tip = hash digest j.tip r; count = j.count + 1 }

    pub append-keeps : (d : D) → P d → P (append storage digest j r d).2
    unfolding append
    append-keeps d h = elim (Bool-cases (leb j.capacity j.count)) [
      | inl full ↦ rw (full, append) h
      | inr room ↦ elim (Option-cases (fetch storage digest j.count d).0) [
        | inl unread ↦ rw (room, unread, append) (fetch-keeps digest j.count d h)
        | inr (bytes, had) ↦ stored d bytes h had room
      ]
    ]
      where
        stored :
            (d : D) (bytes : List ℕ)
            → P d
            → (fetch storage digest j.count d).0 ≡ some bytes
            → leb j.capacity j.count ≡ false
            → P (append storage digest j r d).2
        stored d bytes h had room =
            let d₁ = (fetch storage digest j.count d).1 in
            let sector = overwrite (slot_of j.count) (encode digest j.tip r) bytes in
            let kept = writes (sector_of j.count) sector d₁ (fetch-keeps digest j.count d h) in
            let d₂ = (storage.write_sector (sector_of j.count) sector d₁).1 in
            elim (Bool-cases (storage.write_sector (sector_of j.count) sector d₁).0) [
              | inl done ↦ rw (room, had, done, append) (write_superblock-keeps next d₂ kept)
              | inr failed ↦ rw (room, had, failed, append) kept
            ]

  read_record-keeps : (index : ℕ) (d : D) → P d → P (read_record storage index d).1
  unfolding read_record
  read_record-keeps index d h = reads (sector_of index) d h

  pub read_journal-keeps :
      (j : Journal) (index : ℕ) (d : D) → P d → P (read_journal storage j index d).1
  unfolding read_journal
  read_journal-keeps j index d h = elim (Bool-cases (leb j.count index)) [
    | inl beyond ↦ rw (beyond, read_journal) h
    | inr inside ↦ from (read_record storage index d).0 refl inside
  ]
    where
      from :
          (r : Result Fault (Record × List ℕ))
          → (read_record storage index d).0 ≡ r
          → leb j.count index ≡ false
          → P (read_journal storage j index d).1
      from (err fault) is inside = rw (inside, is, read_journal) (read_record-keeps index d h)
      from (ok (r, stored)) is inside = rw (inside, is, read_journal) (read_record-keeps index d h)

  module _ (digest : List ℕ → List ℕ) where
    verify-keeps :
        (count index : ℕ) (previous : List ℕ) (d : D)
        → P d
        → P (verify storage digest count index previous d).1
    unfolding verify
    verify-keeps zero index previous d h = h
    verify-keeps (suc count) index previous d h =
        from (read_record storage index d).0 refl
          (λ stored. verify-keeps count (index + 1) stored _ kept)
      where
        kept : P (read_record storage index d).1
        kept = read_record-keeps index d h

        from :
            (r : Result Fault (Record × List ℕ))
            → (read_record storage index d).0 ≡ r
            → ((stored : List ℕ)
                → P
                    (verify storage digest count
                      (index + 1)
                      stored
                      (read_record storage index d).1).1)
            → P (verify storage digest (suc count) index previous d).1
        from (err fault) is ih = rw (is, verify) kept
        from (ok (found, stored)) is ih =
            elim (Bool-cases (bytes_eq (hash digest previous found) stored)) [
              | inl same ↦ rw (is, same, verify) (ih stored)
              | inr other ↦ rw (is, other, verify) kept
            ]

    open_chain-keeps : (s : Superblock) (d : D) → P d → P (open_chain storage digest s d).1
    unfolding open_chain
    open_chain-keeps s d h =
        elim (Bool-cases (ltb (record_capacity (storage.sector_count d)) s.count)) [
          | inl long ↦ rw (long, open_chain) h
          | inr room ↦ from (verify storage digest s.count 0 (replicate 32 0) d).0 refl room
        ]
      where
        kept : P (verify storage digest s.count 0 (replicate 32 0) d).1
        kept = verify-keeps s.count 0 (replicate 32 0) d h

        from :
            (r : Result Fault (List ℕ))
            → (verify storage digest s.count 0 (replicate 32 0) d).0 ≡ r
            → ltb (record_capacity (storage.sector_count d)) s.count ≡ false
            → P (open_chain storage digest s d).1
        from (err fault) is room = rw (room, is, open_chain) kept
        from (ok previous) is room = elim (Bool-cases (bytes_eq previous s.tip)) [
          | inl same ↦ rw (room, is, same, open_chain) kept
          | inr other ↦ rw (room, is, other, open_chain) kept
        ]

    pub open_journal-keeps : (d : D) → P d → P (open_journal storage digest d).1
    unfolding open_journal
    open_journal-keeps d h = elim (Option-cases (storage.read_sector 0 d).0) [
      | inl unread ↦ rw (unread, open_journal) (reads 0 d h)
      | inr (bytes, got) ↦ elim (Option-cases (superblock_decode bytes)) [
        | inl foreign ↦ rw (got, foreign, open_journal) (reads 0 d h)
        | inr (s, parsed) ↦
            rw (got, parsed, open_journal)
              (open_chain-keeps s (storage.read_sector 0 d).1 (reads 0 d h))
      ]
    ]
