-- ===== src/Journal/Reopen.antt =====
-- `create`, any number of `append`s and `open` of libs/journal/src/lib.rs.
use i3ml_os.Prelude.{
  ℕ, ◌≡◌, refl, sym, ◌∙◌, ap, Bool, true, some, List, [], ◌∷◌, ◌++◌, arith, length, ok, err,
  ok-injective, ok_ne_err, Bool-cases, inl, inr, subst, ℕ_discrete,
}
use mathlib.Core.Option.{some-injective}
use i3ml_os.Journal.{
  Sectors, Record, Superblock, Journal, device, append, create, write_superblock, superblock_encode,
  record_capacity, open_journal,
}
use i3ml_os.Journal.Format.{IsRecord, IsDigest, superblock_decode-encode, length-superblock_encode}
use i3ml_os.Journal.Chain.{peek, IsReadable}
use i3ml_os.Journal.Open.{Holds, genesis, Holds-open}
use i3ml_os.Journal.Append.{IsWritable, IsSized}
use i3ml_os.Journal.Growth.{append-Holds, append-IsSized}

module _ {D : Type 0} (storage : Sectors D) (digest : List ℕ → List ℕ) where
  -- `Written d j rs`: the device and the journal after `create` and a successful `append` of each of `rs`.
  pub data Written : D → Journal → List Record → Type 0 where
    created :
        (d : D) (j : Journal)
        → IsSized storage d
        → (create storage d).0 ≡ ok j
        → Written (create storage d).1 j []
    appended :
        (d : D) (j : Journal) (rs : List Record) (r : Record)
        → Written d j rs
        → IsRecord r
        → (append storage digest j r d).0 ≡ ok tt
        → Written (append storage digest j r d).2 (append storage digest j r d).1 (rs ++ (r ∷ []))

  module _ (writable : IsWritable storage) where
    abbrev blank : Superblock
    blank = record { count = 0; tip = genesis }

    abbrev written_blank : D → Bool × D
    written_blank d = storage.write_sector 0 (superblock_encode blank) d

    abbrev blank_journal : D → Journal
    blank_journal d = record {
      count = 0;
      tip = genesis;
      capacity = record_capacity (storage.sector_count d);
    }

    create-blank :
        (d : D) (j : Journal)
        → (create storage d).0 ≡ ok j
        → ((written_blank d).0 ≡ true)
          × (j ≡ blank_journal d)
          × ((create storage d).1 ≡ (written_blank d).1)
    unfolding create write_superblock
    create-blank d j h = elim (Bool-cases (written_blank d).0) [
      | inl done ↦
          let out : (create storage d).0 ≡ ok (blank_journal d) =
            rw (done, create, write_superblock) refl in
          (done, ok-injective (sym h ∙ out), rw (done, create, write_superblock) refl)
      | inr lost ↦
          let out : (create storage d).0 ≡ err device = rw (lost, create, write_superblock) refl in
          absurd (ok_ne_err (sym h ∙ out))
    ]

    create-Holds :
        (d : D) (j : Journal)
        → (create storage d).0 ≡ ok j
        → Holds storage digest (create storage d).1 j []
    create-Holds d j h =
        let (done, is_blank, end) = create-blank d j h in
        rw (is_blank, end)
          (record {
            sector = superblock_encode blank;
            stands =
                writable.lands 0 (superblock_encode blank) d (length-superblock_encode blank refl)
                  done;
            named = superblock_decode-encode blank (omega arith) refl;
            counted = refl;
            ends = refl;
            sized = ap record_capacity (sym (writable.spares_size 0 (superblock_encode blank) d));
            room = omega arith;
            chain = tt;
          })

    create-IsSized :
        (d : D) (j : Journal)
        → IsSized storage d
        → (create storage d).0 ≡ ok j
        → IsSized storage (create storage d).1
    create-IsSized d j sized h sector bytes e =
        let (done, is_blank, end) = create-blank d j h in
        let block = length-superblock_encode blank refl in
        let e' : peek storage sector (written_blank d).1 ≡ some bytes =
          subst (λ (x : D). peek storage sector x ≡ some bytes) end e in
        elim (ℕ_discrete 0 sector) [
          | yes first ↦
              let it =
                subst (λ (s : ℕ). peek storage s (written_blank d).1 ≡ some bytes) (sym first) e' in
              ap length (sym (some-injective _ _ (sym (writable.lands 0 _ d block done) ∙ it)))
              ∙ block
          | no apart ↦ sized sector bytes (sym (writable.spares 0 sector _ d apart) ∙ e')
        ]

    module _ (readable : IsReadable storage) (is_digest : IsDigest digest) where
      Written-sound :
          (d : D) (j : Journal) (rs : List Record)
          → Written d j rs
          → IsSized storage d × Holds storage digest d j rs
      Written-sound _ _ _ (created d j sized h) = (create-IsSized d j sized h, create-Holds d j h)
      Written-sound _ _ _ (appended d j rs r w ok_record h) =
          let (sized, holds) = Written-sound d j rs w in
          (
            append-IsSized storage digest readable writable is_digest j r d sized ok_record h,
            append-Holds storage digest readable writable is_digest j r d sized ok_record rs holds
                h,
          )

      -- The journal survives a reboot. After `create` and any number of successful appends, on a device
      -- of 512-byte sectors that reads without changing and writes only where it is told, with a digest
      -- of 32 bytes, `open` verifies what the device holds and returns the same journal, and the device
      -- holds the records that were appended, in their order, each linked to the one before. The integers
      -- of each record fit, its label is 40 bytes long, and its label length is at most 40, as
      -- `Record::new` leaves it.
      pub Written-open :
          (d : D) (j : Journal) (rs : List Record)
          → Written d j rs
          → ((open_journal storage digest d).0 ≡ ok j) × Holds storage digest d j rs
      Written-open d j rs w =
          let holds = (Written-sound d j rs w).1 in
          (Holds-open storage digest readable d j rs holds, holds)
