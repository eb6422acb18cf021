-- ===== src/Persist/Boot.antt =====
-- `run` of nawa/kernel/src/persist.rs on a partitioned disk.
use i3ml_os.Prelude.{
  ℕ, ◌-◌, ◌^◌, ◌≤◌, ◌≡◌, ◌≢◌, ◌⊎◌, inl, inr, refl, ◌∙◌, ap, true, false, some, List, [], ◌∷◌, ◌++◌,
  arith, ltb, leb, le→leb, length, replicate, Result, ok, err, Bool-cases, Option-cases,
}
use i3ml_os.Sijil.{Entry}
use i3ml_os.Text.{Text}
use i3ml_os.Journal.{
  Sectors, Journal, Fault, no_journal, chain_broken, device, full, open_journal, create, append,
  read_journal, flush,
}
use i3ml_os.Journal.Chain.{peek, IsReadable}
use i3ml_os.Journal.Append.{IsSized, IsWritable}
use i3ml_os.Journal.Reach.{create-keeps, append-keeps, read_journal-keeps, open_journal-keeps}
use i3ml_os.Gpt.{find}
use i3ml_os.Gpt.Entries.{OnDisk}
use i3ml_os.Gpt.Window.{Partition, window, window_new}
use i3ml_os.Gpt.Confined.{IsPlaced, Outside, read_keeps, write_window-confined}
use i3ml_os.Gpt.Located.{find-Located}
use i3ml_os.Gpt.Untouched.{find-Same}
use i3ml_os.Gpt.Partitions.{Beside}
use i3ml_os.Persist.{
  disk, journal_partition, record_of, greeting, round_trip, mirror, commit, journal, scratch,
  usable, run,
}

-- A fact about the device that survives every read, write and flush survives the steps of a boot.
module _ {D : Type 0} (storage : Sectors D) (P : D → Type 0)
    (reads : (sector : ℕ) (d : D) → P d → P (storage.read_sector sector d).1)
    (writes : (sector : ℕ) (bytes : List ℕ) (d : D)
      → P d
      → P (storage.write_sector sector bytes d).1)
    (flushes : (d : D) → P d → P (storage.flush_device d).1) where
  round_trip-keeps : (d : D) → P d → P (round_trip storage d)
  unfolding round_trip
  round_trip-keeps d h =
      let sector = greeting ++ replicate 482 0 in
      let d₁ = (storage.write_sector 0 sector d).1 in
      let kept = writes 0 sector d h in
      elim (Bool-cases (storage.write_sector 0 sector d).0) [
        | inr refused ↦ rw (refused, round_trip) kept
        | inl written ↦ elim (Option-cases (storage.read_sector 0 d₁).0) [
          | inl unread ↦ rw (written, unread, round_trip) (reads 0 d₁ kept)
          | inr (bytes, got) ↦
              rw (written, got, round_trip) (flushes (storage.read_sector 0 d₁).1 (reads 0 d₁ kept))
        ]
      ]

  module _ (digest : List ℕ → List ℕ) where
    mirror-keeps :
        (entries : List (Entry × Text)) (j : Journal) (d : D)
        → P d
        → P (mirror storage digest entries j d).2
    unfolding mirror
    mirror-keeps [] j d h = h
    mirror-keeps ((entry, label) ∷ entries) j d h =
        from (append storage digest j (record_of entry label) d).0 refl (
          mirror-keeps entries (append storage digest j (record_of entry label) d).1
            (append storage digest j (record_of entry label) d).2 kept)
      where
        kept : P (append storage digest j (record_of entry label) d).2
        kept = append-keeps storage P reads writes digest j (record_of entry label) d h

        from :
            (r : Result Fault (Unit {0}))
            → (append storage digest j (record_of entry label) d).0 ≡ r
            → P
                (mirror storage digest entries
                  (append storage digest j (record_of entry label) d).1
                  (append storage digest j (record_of entry label) d).2).2
            → P (mirror storage digest ((entry, label) ∷ entries) j d).2
        from (err e) is ih = rw (is, mirror) kept
        from (ok u) is ih = rw (is, mirror) ih

    commit-keeps :
        (entries : List (Entry × Text)) (j : Journal) (d : D)
        → P d
        → P (commit storage digest entries j d).1
    unfolding flush
    commit-keeps entries j d h =
        flushes (mirror storage digest entries j d).2 (mirror-keeps entries j d h)

    journal-keeps :
        (entries : List (Entry × Text)) (d : D) → P d → P (journal storage digest entries d).1
    unfolding journal
    journal-keeps entries d h = from (open_journal storage digest d).0 refl
      where
        d₁ : D
        d₁ = (open_journal storage digest d).1

        opened : P (open_journal storage digest d).1
        opened = open_journal-keeps storage P reads writes digest d h

        started : P (create storage (open_journal storage digest d).1).1
        started = create-keeps storage P reads writes (open_journal storage digest d).1 opened

        fresh :
            (r : Result Fault Journal)
            → (create storage (open_journal storage digest d).1).0 ≡ r
            → (open_journal storage digest d).0 ≡ err no_journal
            → P (journal storage digest entries d).1
        fresh (err e) made is = rw (is, made, journal) started
        fresh (ok j) made is =
            rw (is, made, journal)
              (commit-keeps entries j (create storage (open_journal storage digest d).1).1 started)

        from :
            (r : Result Fault Journal)
            → (open_journal storage digest d).0 ≡ r
            → P (journal storage digest entries d).1
        from (err no_journal) is =
            fresh (create storage (open_journal storage digest d).1).0 refl is
        from (err (chain_broken n)) is = rw (is, journal) opened
        from (err device) is = rw (is, journal) opened
        from (err full) is = rw (is, journal) opened
        from (ok j) is = elim (Bool-cases (ltb 0 j.count)) [
          | inl some_entries ↦
              rw (is, some_entries, journal)
                (commit-keeps entries j
                  (read_journal storage j 0 (open_journal storage digest d).1).1
                  (read_journal-keeps storage P reads writes j 0 (open_journal storage digest d).1
                    opened))
          | inr empty ↦
              rw (is, empty, journal)
                (commit-keeps entries j (open_journal storage digest d).1 opened)
        ]

module _ {D : Type 0} (device : Sectors D) where
  disk-IsReadable : IsReadable device → IsReadable (disk device)
  disk-IsReadable readable = record {
    keeps = readable.keeps;
    keeps_size = λ sector d i. readable.keeps_size sector d i - 1;
  }

  disk-IsWritable : IsWritable device → IsWritable (disk device)
  disk-IsWritable writable = record {
    lands = λ sector bytes d sized done.
        landed sector bytes d sized (le→leb 512 (length bytes) (omega (arith, sized))) done;
    spares = λ sector other bytes d apart.
        spared sector other bytes d apart (Bool-cases (leb 512 (length bytes)));
    spares_size = λ sector bytes d. size sector bytes d (Bool-cases (leb 512 (length bytes)));
  }
    where
      landed :
          (sector : ℕ) (bytes : List ℕ) (d : D)
          → length bytes ≡ 512
          → leb 512 (length bytes) ≡ true
          → ((disk device).write_sector sector bytes d).0 ≡ true
          → peek device sector ((disk device).write_sector sector bytes d).1 ≡ some bytes
      landed sector bytes d sized long done =
          rw (long, disk) (writable.lands sector bytes d sized (rw (long, disk) at done))

      spared :
          (sector other : ℕ) (bytes : List ℕ) (d : D)
          → sector ≢ other
          → (leb 512 (length bytes) ≡ true) ⊎ (leb 512 (length bytes) ≡ false)
          → peek device other ((disk device).write_sector sector bytes d).1 ≡ peek device other d
      spared sector other bytes d apart (inl long) =
          rw (long, disk) (writable.spares sector other bytes d apart)
      spared sector other bytes d apart (inr short) = rw (short, disk) refl

      size :
          (sector : ℕ) (bytes : List ℕ) (d : D)
          → (leb 512 (length bytes) ≡ true) ⊎ (leb 512 (length bytes) ≡ false)
          → device.sector_count ((disk device).write_sector sector bytes d).1 - 1
            ≡ device.sector_count d - 1
      size sector bytes d (inl long) =
          rw (long, disk) (ap (λ (n : ℕ). n - 1) (writable.spares_size sector bytes d))
      size sector bytes d (inr short) = rw (short, disk) refl

  -- A window inside of a partition.
  module _ (total : ℕ) (p : Partition) (on_disk : OnDisk total journal_partition p)
      (fits : total ≤ 2 ^ 64) where
    scratch-IsPlaced : IsPlaced (window_new (scratch p)) (disk device)
    scratch-IsPlaced = omega (arith, on_disk.ordered, on_disk.inside, fits)

    usable-IsPlaced : IsPlaced (window_new (usable p)) (disk device)
    usable-IsPlaced = omega (arith, on_disk.ordered, on_disk.inside, fits)

    scratch-Outside :
        (sector : ℕ)
        → Beside device p sector
        → Outside (window_new (scratch p)) (disk device) sector
    scratch-Outside sector (inl before) = inl (omega (arith, before, on_disk.ordered))
    scratch-Outside sector (inr behind) = inr (omega (arith, behind))

    usable-Outside :
        (sector : ℕ) → Beside device p sector → Outside (window_new (usable p)) (disk device) sector
    usable-Outside sector (inl before) = inl before
    usable-Outside sector (inr behind) = inr (omega (arith, behind, on_disk.ordered))

  -- A boot on a disk where `find` returns the journal's partition leaves every sector before the partition
  -- and behind it as it was: the check of the scratch sector, opening or creating the journal, reading its
  -- first record, appending the entries of the ring and flushing, whichever of these fail. The device has
  -- at most 2 ^ 64 sectors of 512 bytes; a read and a flush change none of them, and a write no other than
  -- its own.
  pub run-confined :
      (readable : IsReadable device) (writable : IsWritable device)
      (flushes : (sector : ℕ) (d : D)
        → peek device sector (device.flush_device d).1 ≡ peek device sector d)
      (digest : List ℕ → List ℕ) (entries : List (Entry × Text)) (d : D) (p : Partition)
      → IsSized device d
      → device.sector_count d ≤ 2 ^ 64
      → (find (disk device) journal_partition d).0 ≡ some (ok p)
      → (sector : ℕ) → Beside device p sector
      → peek device sector (run device digest entries d).1 ≡ peek device sector d
  unfolding run
  run-confined readable writable flushes digest entries d p sized fits found sector out =
      let storage = disk device in
      let readable' = disk-IsReadable readable in
      let writable' = disk-IsWritable writable in
      let total = device.sector_count d - 1 in
      let on_disk = (find-Located storage readable' journal_partition d sized p found).on_disk in
      let room : total ≤ 2 ^ 64 = omega (arith, fits) in
      let looked = find-Same storage readable' journal_partition d sector in
      let d₁ = (find storage journal_partition d).1 in
      let w₁ = window_new (scratch p) in
      let w₂ = window_new (usable p) in
      let checked =
        round_trip-keeps (window w₁ storage) (λ (x : D). Kept d sector x)
          (λ s x kept. read_keeps w₁ storage readable' s x sector ∙ kept)
          (λ s bytes x kept.
            write_window-confined w₁ storage writable' (scratch-IsPlaced total p on_disk room) s
              bytes x sector (scratch-Outside total p on_disk room sector out)
            ∙ kept)
          (λ x kept. flushes sector x ∙ kept) d₁ looked in
      let written =
        journal-keeps (window w₂ storage) (λ (x : D). Kept d sector x)
          (λ s x kept. read_keeps w₂ storage readable' s x sector ∙ kept)
          (λ s bytes x kept.
            write_window-confined w₂ storage writable' (usable-IsPlaced total p on_disk room) s
              bytes x sector (usable-Outside total p on_disk room sector out)
            ∙ kept)
          (λ x kept. flushes sector x ∙ kept) digest entries (round_trip (window w₁ storage) d₁)
          checked in
      rw (found, run) written
    where
      Kept : D → ℕ → D → Type 0
      Kept d sector x = peek device sector x ≡ peek device sector d
