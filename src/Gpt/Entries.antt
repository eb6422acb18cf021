-- ===== src/Gpt/Entries.antt =====
-- The loop of `find` of libs/gpt/src/lib.rs over the entries.
use i3ml_os.Prelude.{
  ℕ, zero, suc, ◌+◌, ◌*◌, ◌/◌, ◌%◌, ◌≤◌, ◌<◌, ◌≡◌, ◌≢◌, refl, sym, ◌∙◌, subst, false, ◌||◌, Option,
  none, some, List, arith, ltb, leb, ◌==◌, ==_iff, ltb_false→le, length, wrap64, Bool-cases,
  Option-cases, inl, inr, Result, ok, err,
}
use i3ml_os.Journal.{Sectors}
use i3ml_os.Journal.Bytes.{slice, bytes_eq, bytes_eq→eq}
use i3ml_os.Journal.Chain.{peek, Same, IsReadable}
use i3ml_os.Gpt.{Header, Partition, Fault, corrupt, device, partition_in, scan, read_u64}

-- A partition that lies on a disk of so many sectors.
pub record OnDisk (total : ℕ) (type_guid : List ℕ) (p : Partition) : Type 0 where
  pub typed : p.type_guid ≡ type_guid
  pub ordered : p.first_lba ≤ p.last_lba
  pub inside : p.last_lba < total

pub none_ne_some {ℓ} : {A : Type ℓ} {a : A} → ◌≢◌ {A = Option A} none (some a)
none_ne_some e = cc

module _ {ℓ κ} {E : Type ℓ} {A : Type κ} where
  pub ok_of : {a b : A} → ◌≡◌ {A = Option (Result E A)} (some (ok a)) (some (ok b)) → a ≡ b
  ok_of e = cc

  pub err_ne_ok : {a : E} {b : A} → ◌≢◌ {A = Option (Result E A)} (some (err a)) (some (ok b))
  err_ne_ok e = cc

in_order : (a b c : ℕ) → (ltb b a || leb c b) ≡ false → a ≤ b
in_order a b c h = ground arith

below : (a b c : ℕ) → (ltb b a || leb c b) ≡ false → b < c
below a b c h = ground arith

module _ (type_guid : List ℕ) (total : ℕ) (entry : List ℕ) where
  abbrev first : ℕ
  first = read_u64 entry 32

  abbrev last : ℕ
  last = read_u64 entry 40

  abbrev found : Partition
  found = record { type_guid = slice 0 16 entry; first_lba = first; last_lba = last }

  pub partition_in-OnDisk :
      (p : Partition) → partition_in type_guid total entry ≡ some (ok p) → OnDisk total type_guid p
  unfolding partition_in
  partition_in-OnDisk p e = elim (Bool-cases (bytes_eq (slice 0 16 entry) type_guid)) [
    | inr other ↦
        let out : partition_in type_guid total entry ≡ none = rw (other, partition_in) refl in
        absurd (none_ne_some (sym out ∙ e))
    | inl same ↦ elim (Bool-cases (ltb last first || leb total last)) [
      | inl bad ↦
          let out : partition_in type_guid total entry ≡ some (err corrupt) =
            rw (same, bad, partition_in) refl in
          absurd (err_ne_ok (sym out ∙ e))
      | inr good ↦
          let out : partition_in type_guid total entry ≡ some (ok found) =
            rw (same, good, partition_in) refl in
          subst (λ (q : Partition). OnDisk total type_guid q) (ok_of (sym out ∙ e))
            (record {
              typed = bytes_eq→eq (slice 0 16 entry) type_guid same;
              ordered = in_order first last total good;
              inside = below first last total good;
            })
    ]
  ]

module _ {D : Type 0} (storage : Sectors D) (h : Header) where
  -- The sector that an entry begins in, and where it begins.
  abbrev pub entry_lba : ℕ → ℕ
  entry_lba index = wrap64 (h.entries_lba + index * h.entry_size / 512)

  abbrev pub entry_offset : ℕ → ℕ
  entry_offset index = index * h.entry_size % 512

  -- The entry on the disk.
  pub record EntryIs (d : D) (index : ℕ) (entry : List ℕ) : Type 0 where
    pub sector : List ℕ
    pub read : peek storage (entry_lba index) d ≡ some sector
    pub room : entry_offset index + 128 ≤ length sector
    pub bytes : entry ≡ slice (entry_offset index) (entry_offset index + 128) sector

  -- The first entry of the type, and what it says.
  pub record FirstMatch (d : D) (from count : ℕ) (type_guid : List ℕ) (total : ℕ)
      (r : Result Fault Partition) : Type 0 where
    pub index : ℕ
    pub entry : List ℕ
    pub after : from ≤ index
    pub before : index < from + count
    pub is_entry : EntryIs d index entry
    pub says : partition_in type_guid total entry ≡ some r
    pub earlier :
        (i : ℕ)
        → from ≤ i
        → i < index
        → (e : List ℕ) × EntryIs d i e × (partition_in type_guid total e ≡ none)

  module _ (type_guid : List ℕ) (total : ℕ) where
    module _ (d : D) (index : ℕ) (sector : List ℕ)
        (got : peek storage (entry_lba index) d ≡ some sector) where
      abbrev entry_bytes : List ℕ
      entry_bytes = slice (entry_offset index) (entry_offset index + 128) sector

      entry_is :
          ltb (length sector) (entry_offset index + 128) ≡ false → EntryIs d index entry_bytes
      entry_is room = record {
        sector = sector;
        read = got;
        room = ltb_false→le (length sector) (entry_offset index + 128) room;
        bytes = refl;
      }

    FirstMatch-later :
        (d : D) (index count : ℕ) (r : Result Fault Partition) (entry : List ℕ)
        → EntryIs d index entry
        → partition_in type_guid total entry ≡ none
        → FirstMatch d (index + 1) count type_guid total r
        → FirstMatch d index (suc count) type_guid total r
    FirstMatch-later d index count r entry here passes m = record {
      index = m.index;
      entry = m.entry;
      after = omega (arith, m.after);
      before = omega (arith, m.before);
      is_entry = m.is_entry;
      says = m.says;
      earlier = λ i from to. before i from to;
    }
      where
        before :
            (i : ℕ)
            → index ≤ i
            → i < m.index
            → (e : List ℕ) × EntryIs d i e × (partition_in type_guid total e ≡ none)
        before i from to = elim (Bool-cases (i == index)) [
          | inl same ↦
              let is = sym ((==_iff i index).0 same) in
              (entry, subst (λ (k : ℕ). EntryIs d k entry) is here, passes)
          | inr other ↦ m.earlier i (later i index from other) to
        ]
          where
            later : (i index : ℕ) → index ≤ i → (i == index) ≡ false → index + 1 ≤ i
            later i index h e = ground arith

    pub FirstMatch-Same :
        (d d' : D) (index count : ℕ) (r : Result Fault Partition)
        → Same storage d d'
        → FirstMatch d index count type_guid total r
        → FirstMatch d' index count type_guid total r
    FirstMatch-Same d d' index count r same m = record {
      index = m.index;
      entry = m.entry;
      after = m.after;
      before = m.before;
      is_entry = moved m.index m.entry m.is_entry;
      says = m.says;
      earlier = λ i from to. let (e, is, passes) = m.earlier i from to in (e, moved i e is, passes);
    }
      where
        moved : (i : ℕ) (e : List ℕ) → EntryIs d i e → EntryIs d' i e
        moved i e is = record {
          sector = is.sector;
          read = sym (same (entry_lba i)) ∙ is.read;
          room = is.room;
          bytes = is.bytes;
        }

    -- One round of the loop, with what the rounds after it find.
    module _ (readable : IsReadable storage) (count index : ℕ) (d : D) (p : Partition)
        (ih : (scan storage count
              (index + 1)
              h
              type_guid
              total
              (storage.read_sector (entry_lba index) d).1).0
            ≡ some (ok p)
          → FirstMatch
              (storage.read_sector (entry_lba index) d).1
              (index + 1)
              count
              type_guid
              total
              (ok p))
        (e : (scan storage (suc count) index h type_guid total d).0 ≡ some (ok p)) where
      abbrev after_read : D
      after_read = (storage.read_sector (entry_lba index) d).1

      scan_entry :
          (sector : List ℕ)
          → peek storage (entry_lba index) d ≡ some sector
          → ltb (length sector) (entry_offset index + 128) ≡ false
          → FirstMatch d index (suc count) type_guid total (ok p)
      unfolding scan
      scan_entry sector got room =
          let entry = slice (entry_offset index) (entry_offset index + 128) sector in
          let here = entry_is d index sector got room in
          elim (Option-cases (partition_in type_guid total entry)) [
            | inl passes ↦
                let out : (scan storage (suc count) index h type_guid total d).0
                    ≡ (scan storage count (index + 1) h type_guid total after_read).0 =
                  rw (got, room, passes, scan) refl in
                FirstMatch-later d index count (ok p) entry here passes (
                  FirstMatch-Same after_read d (index + 1) count (ok p)
                    (readable.keeps (entry_lba index) d) (ih (sym out ∙ e)))
            | inr (r, says) ↦
                let out : (scan storage (suc count) index h type_guid total d).0 ≡ some r =
                  rw (got, room, says, scan) refl in
                record {
                  index = index;
                  entry = entry;
                  after = omega arith;
                  before = omega arith;
                  is_entry = here;
                  says = says ∙ (sym out ∙ e);
                  earlier = λ i from to. absurd (omega (arith, from, to));
                }
          ]

      scan_round :
          (read : Option (List ℕ))
          → peek storage (entry_lba index) d ≡ read
          → FirstMatch d index (suc count) type_guid total (ok p)
      unfolding scan
      scan_round none got =
          let out : (scan storage (suc count) index h type_guid total d).0 ≡ some (err device) =
            rw (got, scan) refl in
          absurd (err_ne_ok (sym out ∙ e))
      scan_round (some sector) got =
          elim (Bool-cases (ltb (length sector) (entry_offset index + 128))) [
            | inl short ↦
                let out : (scan storage (suc count) index h type_guid total d).0 ≡ none =
                  rw (got, short, scan) refl in
                absurd (none_ne_some (sym out ∙ e))
            | inr room ↦ scan_entry sector got room
          ]

    -- A partition that the loop returns is the one of the first entry of its type.
    pub scan-FirstMatch :
        IsReadable storage
        → (count index : ℕ) (d : D) (p : Partition)
        → (scan storage count index h type_guid total d).0 ≡ some (ok p)
        → FirstMatch d index count type_guid total (ok p)
    unfolding scan
    scan-FirstMatch readable zero index d p e = absurd (err_ne_ok e)
    scan-FirstMatch readable (suc count) index d p e =
        scan_round readable count index d p
          (scan-FirstMatch readable count (index + 1) (storage.read_sector (entry_lba index) d).1 p)
          e (peek storage (entry_lba index) d) refl
