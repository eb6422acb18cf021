-- ===== src/Journal/Appended.antt =====
-- `append` of libs/journal/src/lib.rs, write by write.
use i3ml_os.Prelude.{
  ℕ, ◌+◌, ◌<◌, ◌≡◌, refl, sym, ◌∙◌, ap, true, false, Option, none, some, List, arith, length,
  replicate, ok, err, ok_ne_err, leb, ◌==◌, Bool-cases, inl, inr,
}
use mathlib.Core.Option.{some-injective}
use i3ml_os.Journal.{
  Sectors, Record, Superblock, Journal, full, device, hash, encode, overwrite, slot_of, sector_of,
  fetch, append, write_superblock, superblock_encode,
}
use i3ml_os.Journal.Chain.{peek, IsReadable}
use i3ml_os.Journal.Append.{IsSized}

module _ {D : Type 0} (storage : Sectors D) (digest : List ℕ → List ℕ) (j : Journal) (r : Record)
    (d : D) where
  abbrev pub grown : Journal
  grown = record j { tip = hash digest j.tip r; count = j.count + 1 }

  abbrev pub fetched : D
  fetched = (fetch storage digest j.count d).1

  abbrev pub sector_with : List ℕ → List ℕ
  sector_with bytes = overwrite (slot_of j.count) (encode digest j.tip r) bytes

  abbrev pub stored_in : List ℕ → D
  stored_in bytes = (storage.write_sector (sector_of j.count) (sector_with bytes) fetched).1

  abbrev pub noted : Superblock
  noted = record { count = j.count + 1; tip = hash digest j.tip r }

  -- What a successful append did.
  pub record Appended : Type 0 where
    pub room : j.count < j.capacity
    pub bytes : List ℕ
    pub had : (fetch storage digest j.count d).0 ≡ some bytes
    pub written : (storage.write_sector (sector_of j.count) (sector_with bytes) fetched).0 ≡ true
    pub recorded : (storage.write_sector 0 (superblock_encode noted) (stored_in bytes)).0 ≡ true
    pub journal : (append storage digest j r d).1 ≡ grown
    pub device_after :
        (append storage digest j r d).2
        ≡ (storage.write_sector 0 (superblock_encode noted) (stored_in bytes)).1

  pub append-Appended : (append storage digest j r d).0 ≡ ok tt → Appended
  unfolding append write_superblock
  append-Appended h = elim (Bool-cases (leb j.capacity j.count)) [
    | inl no_room ↦
        let broken : (append storage digest j r d).0 ≡ err full = rw (no_room, append) refl in
        absurd (ok_ne_err (sym h ∙ broken))
    | inr room ↦ with_bytes room (fetch storage digest j.count d).0 refl
  ]
    where
      with_bytes :
          leb j.capacity j.count ≡ false
          → (o : Option (List ℕ)) → (fetch storage digest j.count d).0 ≡ o
          → Appended
      with_bytes room none e =
          let broken : (append storage digest j r d).0 ≡ err device = rw (room, e, append) refl in
          absurd (ok_ne_err (sym h ∙ broken))
      with_bytes room (some bytes) e =
          elim (Bool-cases
            (storage.write_sector (sector_of j.count) (sector_with bytes) fetched).0) [
              | inr lost ↦
                  let broken : (append storage digest j r d).0 ≡ err device =
                    rw (room, e, lost, append) refl in
                  absurd (ok_ne_err (sym h ∙ broken))
              | inl stored ↦
                  elim (Bool-cases
                    (storage.write_sector 0 (superblock_encode noted) (stored_in bytes)).0) [
                      | inr lost ↦
                          let broken : (append storage digest j r d).0 ≡ err device =
                            rw (room, e, stored, append, write_superblock) (rw lost refl) in
                          absurd (ok_ne_err (sym h ∙ broken))
                      | inl done ↦ record {
                        room = ground (arith, room);
                        bytes = bytes;
                        had = e;
                        written = stored;
                        recorded = done;
                        journal = rw (room, e, stored, append, write_superblock) refl;
                        device_after = rw (room, e, stored, append, write_superblock) refl;
                      }
                    ]
            ]

module _ {D : Type 0} (storage : Sectors D) (digest : List ℕ → List ℕ)
    (readable : IsReadable storage) where
  pub fetch-keeps :
      (index : ℕ) (d : D) (i : ℕ)
      → peek storage i (fetch storage digest index d).1 ≡ peek storage i d
  unfolding fetch
  fetch-keeps index d i = elim (Bool-cases (slot_of index == 0)) [
    | inl first ↦ rw (first, fetch) refl
    | inr later ↦ rw (later, fetch) (readable.keeps (sector_of index) d i)
  ]

  pub fetch-size :
      (index : ℕ) (d : D)
      → storage.sector_count (fetch storage digest index d).1 ≡ storage.sector_count d
  unfolding fetch
  fetch-size index d = elim (Bool-cases (slot_of index == 0)) [
    | inl first ↦ rw (first, fetch) refl
    | inr later ↦ rw (later, fetch) (readable.keeps_size (sector_of index) d)
  ]

  -- Past the first slot, what is fetched is the sector as it stands.
  pub fetch-peek :
      (index : ℕ) (d : D)
      → (slot_of index == 0) ≡ false
      → (fetch storage digest index d).0 ≡ peek storage (sector_of index) d
  unfolding fetch
  fetch-peek index d later = rw (later, fetch) refl

  module _ (d : D) (sized : IsSized storage d) where
    pub fetch-length :
        (index : ℕ) (bytes : List ℕ)
        → (fetch storage digest index d).0 ≡ some bytes
        → length bytes ≡ 512
    unfolding fetch
    fetch-length index bytes h = elim (Bool-cases (slot_of index == 0)) [
      | inl first ↦
          let blank : (fetch storage digest index d).0 ≡ some (replicate 512 0) =
            rw (first, fetch) refl in
          ap length (some-injective bytes (replicate 512 0) (sym h ∙ blank))
      | inr later ↦ sized (sector_of index) bytes (sym (fetch-peek index d later) ∙ h)
    ]
