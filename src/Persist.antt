-- ===== src/Persist.antt =====
-- nawa/kernel/src/persist.rs: what a boot does to the disk. The block device under the disk is an
-- interface of sectors; what is printed is left out.
pub mod Boot
mod Tests
use i3ml_os.Prelude.{
  ℕ, zero, suc, ◌+◌, ◌-◌, Bool, true, false, Option, none, some, List, [], ◌∷◌, ◌++◌, ltb, leb,
  ◌==◌, if◌then◌else◌, length, replicate, Result, ok, err,
}
use i3ml_os.Sijil.{Event, Entry}
use i3ml_os.Text.{Text}
use i3ml_os.Journal.{
  Sectors, Journal, Record, no_journal, open_journal, read_journal, create, append, flush,
  record_new,
}
use i3ml_os.Gpt.{find}
use i3ml_os.Gpt.Window.{Partition, window, window_new}

-- JOURNAL_PARTITION.
abbrev pub journal_partition : List ℕ
journal_partition =
    0x6c ∷ 0x6d ∷ 0x33 ∷ 0x69 ∷ 0x53 ∷ 0x00 ∷ 0x4c ∷ 0x4a ∷ 0xa1 ∷ 0x00 ∷ 0x69 ∷ 0x33 ∷ 0x6d ∷ 0x6c
    ∷ 0x4f ∷ 0x53 ∷ []

abbrev pub event_code : Event → ℕ
event_code Event.spawned = 0
event_code Event.delegated = 1
event_code Event.attenuated = 2
event_code Event.granted = 3
event_code Event.invoked = 4
event_code Event.denied = 5
event_code Event.approval_requested = 6
event_code Event.approved = 7
event_code Event.rejected = 8
event_code Event.remembered = 9
event_code Event.noted = 10
event_code Event.finished = 11
event_code Event.budget_exhausted = 12

-- The record of an entry whose label is this text.
abbrev pub record_of : Entry → Text → Record
record_of entry label =
    record_new entry.sequence entry.at entry.agent (event_code entry.event) entry.detail label

-- "i3mlOS scratch sector -- i3mel", and zeros.
abbrev pub greeting : List ℕ
greeting =
    105 ∷ 51 ∷ 109 ∷ 108 ∷ 79 ∷ 83 ∷ 32 ∷ 115 ∷ 99 ∷ 114 ∷ 97 ∷ 116 ∷ 99 ∷ 104 ∷ 32 ∷ 115 ∷ 101 ∷ 99
    ∷ 116 ∷ 111 ∷ 114 ∷ 32 ∷ 45 ∷ 45 ∷ 32 ∷ 105 ∷ 51 ∷ 109 ∷ 101 ∷ 108 ∷ []

-- The last sector of the partition, and the sectors before it.
abbrev pub scratch : Partition → Partition
scratch p = record p { first_lba = p.last_lba }

abbrev pub usable : Partition → Partition
usable p = record p { last_lba = p.last_lba - 1 }

module _ {D : Type 0} where
  -- `impl Sectors for Disk`.
  abbrev pub disk : Sectors D → Sectors D
  disk device = record {
    sector_count = λ d. device.sector_count d - 1;
    read_sector = device.read_sector;
    write_sector = λ sector bytes d.
        if leb 512 (length bytes) then device.write_sector sector bytes d else (false, d);
    flush_device = device.flush_device;
  }

  -- `impl Sectors for Tail`.
  abbrev pub tail : Sectors D → Sectors D
  tail inner = record {
    sector_count = λ d. 1;
    read_sector =
        λ sector d. if sector == 0 then inner.read_sector (inner.sector_count d) d else (none, d);
    write_sector = λ sector bytes d.
        if sector == 0 then inner.write_sector (inner.sector_count d) bytes d else (false, d);
    flush_device = inner.flush_device;
  }

  module _ (storage : Sectors D) where
    -- What the check of a sector leaves of the device; what it prints is left out.
    unfoldable pub round_trip : D → D
    round_trip d =
        let (written, d₁) = storage.write_sector 0 (greeting ++ replicate 482 0) d in
        let (read, d₂) = storage.read_sector 0 d₁ in
        if written then elim read [ none ↦ d₂ | some bytes ↦ (storage.flush_device d₂).1 ] else d₁

    module _ (digest : List ℕ → List ℕ) where
      -- The visitor that appends the entries of the ring, until one is refused: how many were written.
      unfoldable pub mirror : List (Entry × Text) → Journal → D → ℕ × Journal × D
      mirror [] j d = (0, j, d)
      mirror ((entry, label) ∷ entries) j d =
          let (r, j₁, d₁) = append storage digest j (record_of entry label) d in
          let (count, j₂, d₂) = mirror entries j₁ d₁ in
          elim r [ err e ↦ (0, j₁, d₁) | ok u ↦ (count + 1, j₂, d₂) ]

      -- The appends and the flush.
      abbrev pub commit : List (Entry × Text) → Journal → D → Option (ℕ × Journal) × D
      commit entries j d =
          let (count, j₁, d₁) = mirror entries j d in (some (count, j₁), (flush storage j₁ d₁).1)

      -- `journal`: how many entries were written to which journal; `none` is that there is none to write to.
      unfoldable pub journal : List (Entry × Text) → D → Option (ℕ × Journal) × D
      journal entries d =
          let (opened, d₁) = open_journal storage digest d in
          let (created, d₂) = create storage d₁ in
          elim opened [
            | ok j ↦
                let (first, d₃) = read_journal storage j 0 d₁ in
                commit entries j (if ltb 0 j.count then d₃ else d₁)
            | err e ↦ elim e [
              | no_journal ↦ elim created [ ok j ↦ commit entries j d₂ | err f ↦ (none, d₂) ]
              | _ ↦ (none, d₁)
            ]
          ]

  -- `run`; `none` is the panic of `find`.
  unfoldable pub run :
      Sectors D → (List ℕ → List ℕ) → List (Entry × Text) → D → Option (Option (ℕ × Journal)) × D
  run device digest entries d =
      let (found, d₁) = find (disk device) journal_partition d in
      elim found [
        | none ↦ (none, d₁)
        | some (ok p) ↦
            let d₂ = round_trip (window (window_new (scratch p)) (disk device)) d₁ in
            let (r, d₃) =
              journal (window (window_new (usable p)) (disk device)) digest entries d₂ in
            (some r, d₃)
        | some (err fault) ↦
            let d₂ = round_trip (tail (disk device)) d₁ in
            let (r, d₃) = journal (disk device) digest entries d₂ in (some r, d₃)
      ]
