-- ===== src/Journal.antt =====
-- libs/journal/src/lib.rs: the hash-chained journal on a block device. The device is a parameter, and
-- so is the hash function of libs/sha256, as a function from a byte string to its digest.
pub mod Hashing
pub mod Reach
pub mod Bytes
pub mod Format
pub mod Chain
pub mod Open
pub mod Stored
pub mod Tamper
pub mod Append
pub mod Appended
pub mod Growth
pub mod Reopen
pub mod Read
pub mod Ram
mod Tests
use i3ml_os.Prelude.{
  ℕ, zero, suc, ◌+◌, ◌-◌, ◌*◌, ◌/◌, ◌%◌, ◌^◌, Bool, true, false, not, ◌&&◌, Option, none, some,
  List, [], ◌∷◌, ◌++◌, min, ltb, leb, ◌==◌, if◌then◌else◌, length, take, drop, replicate, Result,
  ok, err,
}
use Bytes.{to_le_bytes, from_le_bytes, slice, bytes_eq}
use i3ml_os.Text.{Text, copy_chars, utf8_or_empty}

abbrev pub sector_bytes : ℕ
sector_bytes = 512

abbrev pub record_bytes : ℕ
record_bytes = 128

abbrev pub records_per_sector : ℕ
records_per_sector = 4

abbrev pub label_bytes : ℕ
label_bytes = 40

abbrev pub first_record_sector : ℕ
first_record_sector = 1

-- `*b"i3mlSJL1"`.
abbrev pub magic : List ℕ
magic = 105 ∷ 51 ∷ 109 ∷ 108 ∷ 83 ∷ 74 ∷ 76 ∷ 49 ∷ []

abbrev pub max_records : ℕ
max_records = 2 ^ 20

-- `trait Sectors`. A read that fails gives no sector; the buffer that it leaves is not looked at.
pub record Sectors (D : Type 0) : Type 0 where
  pub sector_count : D → ℕ
  pub read_sector : ℕ → D → Option (List ℕ) × D
  pub write_sector : ℕ → List ℕ → D → Bool × D
  pub flush_device : D → Bool × D

pub record Record : Type 0 where
  pub sequence : ℕ
  pub at : ℕ
  pub agent : ℕ
  pub event : ℕ
  pub detail : ℕ
  pub label : List ℕ
  pub label_length : ℕ

pub record Superblock : Type 0 where
  pub count : ℕ
  pub tip : List ℕ

pub data Fault : Type 0 where
  no_journal : Fault
  chain_broken : ℕ → Fault
  device full : Fault

pub record Journal : Type 0 where
  pub count : ℕ
  pub tip : List ℕ
  pub capacity : ℕ

-- `Record::new`.
unfoldable pub record_new : ℕ → ℕ → ℕ → ℕ → ℕ → Text → Record
record_new sequence at agent event detail label =
    let bytes = copy_chars label_bytes [] label in
    record {
      sequence = sequence;
      at = at;
      agent = agent;
      event = event;
      detail = detail;
      label = bytes ++ replicate (label_bytes - length bytes) 0;
      label_length = length bytes;
    }

unfoldable pub label_str : Record → List ℕ
label_str r = utf8_or_empty (take r.label_length r.label)

abbrev pub fields : Record → List ℕ
fields r =
    to_le_bytes 8 r.sequence
    ++ (to_le_bytes 8 r.at
        ++ (to_le_bytes 4 r.agent
            ++ ((r.event ∷ r.label_length ∷ 0 ∷ 0 ∷ []) ++ (to_le_bytes 8 r.detail ++ r.label))))

-- The record that `decode` reads out of 128 bytes.
abbrev pub parsed : List ℕ → Record
parsed bytes = record {
  sequence = from_le_bytes (slice 0 8 bytes);
  at = from_le_bytes (slice 8 16 bytes);
  agent = from_le_bytes (slice 16 20 bytes);
  event = from_le_bytes (slice 20 21 bytes);
  detail = from_le_bytes (slice 24 32 bytes);
  label = slice 32 72 bytes;
  label_length = from_le_bytes (slice 21 22 bytes);
}

unfoldable pub decode : List ℕ → Option (Record × List ℕ)
decode bytes =
    if ltb (length bytes) record_bytes
    then none
    else if ltb label_bytes (from_le_bytes (slice 21 22 bytes))
    then none
    else some (parsed bytes, slice 72 104 bytes)

unfoldable pub superblock_encode : Superblock → List ℕ
superblock_encode s = magic ++ (to_le_bytes 8 s.count ++ (s.tip ++ replicate 464 0))

unfoldable pub superblock_decode : List ℕ → Option Superblock
superblock_decode bytes =
    if ltb (length bytes) 48
    then none
    else if bytes_eq (slice 0 8 bytes) magic
    then some (record { count = from_le_bytes (slice 8 16 bytes); tip = slice 16 48 bytes })
    else none

-- `saturating_mul` by four, then the cap, which is far below 2 ^ 64.
abbrev pub record_capacity : ℕ → ℕ
record_capacity sector_count =
    min (min ((sector_count - first_record_sector) * records_per_sector) (2 ^ 64 - 1)) max_records

module _ (digest : List ℕ → List ℕ) where
  -- The hasher is fed the previous hash and then the fields.
  abbrev pub hash : List ℕ → Record → List ℕ
  hash previous r = digest (previous ++ fields r)

  unfoldable pub encode : List ℕ → Record → List ℕ
  encode previous r = fields r ++ (hash previous r ++ replicate 24 0)

abbrev pub sector_of : ℕ → ℕ
sector_of index = first_record_sector + index / records_per_sector

abbrev pub slot_of : ℕ → ℕ
slot_of index = index % records_per_sector

-- The bytes of one slot of a sector, and the sector with one slot overwritten.
abbrev pub slot_bytes : ℕ → List ℕ → List ℕ
slot_bytes slot buffer = slice (slot * record_bytes) ((slot + 1) * record_bytes) buffer

abbrev pub overwrite : ℕ → List ℕ → List ℕ → List ℕ
overwrite slot encoded buffer =
    take (slot * record_bytes) buffer ++ (encoded ++ drop ((slot + 1) * record_bytes) buffer)

abbrev pub found_in : ℕ → List ℕ → Result Fault (Record × List ℕ)
found_in index bytes = elim (decode bytes) [
  | none ↦ err (chain_broken index)
  | some found ↦ ok found
]

module _ {D : Type 0} (storage : Sectors D) where
  -- What a read of the record's sector makes of it.
  abbrev pub found_at : ℕ → Option (List ℕ) → Result Fault (Record × List ℕ)
  found_at index none = err device
  found_at index (some buffer) = found_in index (slot_bytes (slot_of index) buffer)

  unfoldable pub read_record : ℕ → D → Result Fault (Record × List ℕ) × D
  read_record index d =
      let (buffer, d') = storage.read_sector (sector_of index) d in (found_at index buffer, d')

  unfoldable pub write_superblock : Journal → D → Result Fault (Unit {0}) × D
  write_superblock j d =
      let (written, d') =
        storage.write_sector 0 (superblock_encode (record { count = j.count; tip = j.tip })) d in
      (if written then ok tt else err device, d')

  unfoldable pub create : D → Result Fault Journal × D
  create d =
      let j : Journal = record {
        count = 0;
        tip = replicate 32 0;
        capacity = record_capacity (storage.sector_count d);
      } in
      let (r, d') = write_superblock j d in elim r [ err e ↦ (err e, d') | ok u ↦ (ok j, d') ]

  -- `read`.
  unfoldable pub read_journal : Journal → ℕ → D → Result Fault Record × D
  read_journal j index d =
      let (r, d') = read_record index d in
      if leb j.count index
      then (err (chain_broken index), d)
      else elim r [ err e ↦ (err e, d') | ok (found, stored) ↦ (ok found, d') ]

  unfoldable pub flush : Journal → D → Bool × D
  flush j d = storage.flush_device d

  module _ (digest : List ℕ → List ℕ) where
    -- The loop of `open` over `count` records from `index` on, and the hash that it ends with.
    unfoldable pub verify : ℕ → ℕ → List ℕ → D → Result Fault (List ℕ) × D
    verify zero index previous d = (ok previous, d)
    verify (suc count) index previous d =
        let (r, d') = read_record index d in
        elim r [
          | err e ↦ (err e, d')
          | ok (found, stored) ↦ elim (bytes_eq (hash digest previous found) stored) [
            | true ↦ verify count (index + 1) stored d'
            | false ↦ (err (chain_broken index), d')
          ]
        ]

    -- The rest of `open`, once the superblock has been parsed.
    unfoldable pub open_chain : Superblock → D → Result Fault Journal × D
    open_chain s d =
        let capacity = record_capacity (storage.sector_count d) in
        let (r, d') = verify s.count 0 (replicate 32 0) d in
        if ltb capacity s.count then (err (chain_broken 0), d) else elim r [
          | err e ↦ (err e, d')
          | ok previous ↦
              if bytes_eq previous s.tip
              then (ok (record { count = s.count; tip = s.tip; capacity = capacity }), d')
              else (err (chain_broken s.count), d')
        ]

    -- `open` is a keyword, hence the name.
    unfoldable pub open_journal : D → Result Fault Journal × D
    open_journal d =
        let (sector, d') = storage.read_sector 0 d in
        elim sector [
          | none ↦ (err device, d')
          | some bytes ↦ elim (superblock_decode bytes) [
            | none ↦ (err no_journal, d')
            | some s ↦ open_chain s d'
          ]
        ]

    -- The sector that the record goes to, as it is before the record is put there.
    unfoldable pub fetch : ℕ → D → Option (List ℕ) × D
    fetch index d =
        if slot_of index == 0
        then (some (replicate sector_bytes 0), d)
        else storage.read_sector (sector_of index) d

    unfoldable pub append : Journal → Record → D → Result Fault (Unit {0}) × Journal × D
    append j r d =
        let (buffer, d₁) = fetch j.count d in
        if leb j.capacity j.count then (err full, j, d) else elim buffer [
          | none ↦ (err device, j, d₁)
          | some bytes ↦
              let (written, d₂) =
                storage.write_sector (sector_of j.count)
                  (overwrite (slot_of j.count) (encode digest j.tip r) bytes) d₁ in
              let j' : Journal = record j { tip = hash digest j.tip r; count = j.count + 1 } in
              let (done, d₃) = write_superblock j' d₂ in
              if written then (done, j', d₃) else (err device, j, d₂)
        ]
