-- ===== src/Journal/Open.antt =====
-- `open` of libs/journal/src/lib.rs, and a journal as the list of its records.
use i3ml_os.Prelude.{
  ℕ, ◌≤◌, ◌≡◌, refl, sym, ◌∙◌, ap, false, Option, none, some, List, length, replicate, Result, ok,
  err, ok-injective, ok_ne_err, ltb, not_ltb, ltb_false→le, Bool-cases, inl, inr,
}
use i3ml_os.Journal.{
  Sectors, Record, Superblock, Fault, chain_broken, device, no_journal, Journal, verify, open_chain,
  open_journal, superblock_decode, record_capacity,
}
use i3ml_os.Journal.Bytes.{bytes_eq, bytes_eq_self, bytes_eq→eq}
use i3ml_os.Journal.Chain.{
  tip_from, peek, IsReadable, Chained, verify-Chained, Chained-verify, Chained-Same, record_at-Same,
  record_at,
}

abbrev pub genesis : List ℕ
genesis = replicate 32 0

module _ {D : Type 0} (storage : Sectors D) (digest : List ℕ → List ℕ) where
  -- The device holds a journal: the superblock names the length and the last hash of the chain of `rs`.
  pub record Holds (d : D) (j : Journal) (rs : List Record) : Type 0 where
    pub sector : List ℕ
    pub stands : peek storage 0 d ≡ some sector
    pub named : superblock_decode sector ≡ some (record { count = j.count; tip = j.tip })
    pub counted : j.count ≡ length rs
    pub ends : j.tip ≡ tip_from digest genesis rs
    pub sized : j.capacity ≡ record_capacity (storage.sector_count d)
    pub room : j.count ≤ j.capacity
    pub chain : Chained storage digest d 0 genesis rs

  abbrev opened : Superblock → D → Journal
  opened s d = record {
    count = s.count;
    tip = s.tip;
    capacity = record_capacity (storage.sector_count d);
  }

  chain_opens :
      (s : Superblock) (d : D)
      → s.count ≤ record_capacity (storage.sector_count d)
      → (verify storage digest s.count 0 genesis d).0 ≡ ok s.tip
      → (open_chain storage digest s d).0 ≡ ok (opened s d)
  unfolding open_chain
  chain_opens s d room e =
      rw (not_ltb (record_capacity (storage.sector_count d)) s.count room, e, bytes_eq_self s.tip)
        refl

  chain_opened :
      (s : Superblock) (j : Journal) (d : D)
      → (open_chain storage digest s d).0 ≡ ok j
      → (s.count ≤ record_capacity (storage.sector_count d))
        × ((verify storage digest s.count 0 genesis d).0 ≡ ok s.tip)
        × (j ≡ opened s d)
  unfolding open_chain
  chain_opened s j d h =
      elim (Bool-cases (ltb (record_capacity (storage.sector_count d)) s.count)) [
        | inl long ↦
            let broken : (open_chain storage digest s d).0 ≡ err (chain_broken 0) =
              rw (long, open_chain) refl in
            absurd (ok_ne_err (sym h ∙ broken))
        | inr room ↦ from room (verify storage digest s.count 0 genesis d).0 refl
      ]
    where
      from :
          ltb (record_capacity (storage.sector_count d)) s.count ≡ false
          → (r : Result Fault (List ℕ)) → (verify storage digest s.count 0 genesis d).0 ≡ r
          → (s.count ≤ record_capacity (storage.sector_count d))
            × ((verify storage digest s.count 0 genesis d).0 ≡ ok s.tip)
            × (j ≡ opened s d)
      from room (err f) e =
          let broken : (open_chain storage digest s d).0 ≡ err f = rw (room, e, open_chain) refl in
          absurd (ok_ne_err (sym h ∙ broken))
      from room (ok last) e = elim (Bool-cases (bytes_eq last s.tip)) [
        | inl same ↦
            let done : (open_chain storage digest s d).0 ≡ ok (opened s d) =
              rw (room, e, same, open_chain) refl in
            (
              ltb_false→le _ s.count room,
              e ∙ ap ok (bytes_eq→eq last s.tip same),
              ok-injective (sym h ∙ done),
            )
        | inr other ↦
            let broken : (open_chain storage digest s d).0 ≡ err (chain_broken s.count) =
              rw (room, e, other, open_chain) refl in
            absurd (ok_ne_err (sym h ∙ broken))
      ]

  module _ (readable : IsReadable storage) where
    after : D → D
    after d = (storage.read_sector 0 d).1

    same_after : (d : D) (index : ℕ) → record_at storage index d ≡ record_at storage index (after d)
    unfolding after
    same_after d index = record_at-Same storage d (after d) (λ i. sym (readable.keeps 0 d i)) index

    -- A device that reads without changing gives back the journal that it holds: `open` accepts it, with
    -- the count, the last hash and the capacity that it had.
    pub Holds-open :
        (d : D) (j : Journal) (rs : List Record)
        → Holds d j rs
        → (open_journal storage digest d).0 ≡ ok j
    unfolding open_journal after
    Holds-open d j rs h =
        let s : Superblock = record { count = j.count; tip = j.tip } in
        let size = readable.keeps_size 0 d in
        let chain =
          Chained-Same storage digest readable d (after d) 0 genesis rs (same_after d) h.chain in
        let verified : (verify storage digest j.count 0 genesis (after d)).0 ≡ ok j.tip =
          rw (h.counted, h.ends)
            (Chained-verify storage digest readable 0 genesis rs (after d) chain) in
        let room : j.count ≤ record_capacity (storage.sector_count (after d)) =
          rw (size, sym h.sized) h.room in
        let whole : opened s (after d) ≡ j = (λ i. record {
          count = j.count;
          tip = j.tip;
          capacity = (ap record_capacity size ∙ sym h.sized) i;
        }) in
        rw (h.stands, h.named, open_journal) (chain_opens s (after d) room verified ∙ ap ok whole)

    -- A journal that `open` accepts from such a device is one that the device holds: there is a list of
    -- as many records as the count says, each linked to the one before by its hash, from 32 zero bytes
    -- to the last hash of the superblock.
    pub open-Holds :
        (d : D) (j : Journal)
        → (open_journal storage digest d).0 ≡ ok j
        → (rs : List Record) × Holds d j rs
    unfolding open_journal after
    open-Holds d j h = from (peek storage 0 d) refl
      where
        chain_from :
            (sector : List ℕ) (s : Superblock)
            → peek storage 0 d ≡ some sector
            → superblock_decode sector ≡ some s
            → (open_chain storage digest s (after d)).0 ≡ ok j
            → (rs : List Record) × Holds d j rs
        chain_from sector s e n o =
            let (room, verified, whole) = chain_opened s j (after d) o in
            let (rs, counted, chain, ends) =
              verify-Chained storage digest readable s.count 0 genesis s.tip (after d) verified in
            let size = readable.keeps_size 0 d in
            (
              rs,
              record {
                sector = sector;
                stands = e;
                named = n ∙ rw whole refl;
                counted = ap (λ (x : Journal). x.count) whole ∙ sym counted;
                ends = ap (λ (x : Journal). x.tip) whole ∙ sym ends;
                sized = ap (λ (x : Journal). x.capacity) whole ∙ ap record_capacity size;
                room = rw whole room;
                chain =
                    Chained-Same storage digest readable (after d) d 0 genesis rs
                      (λ i. sym (same_after d i)) chain;
              },
            )

        parsed :
            (sector : List ℕ)
            → peek storage 0 d ≡ some sector
            → (s : Option Superblock) → superblock_decode sector ≡ s
            → (rs : List Record) × Holds d j rs
        parsed sector e none n =
            let broken : (open_journal storage digest d).0 ≡ err no_journal =
              rw (e, n, open_journal) refl in
            absurd (ok_ne_err (sym h ∙ broken))
        parsed sector e (some s) n =
            let same : (open_journal storage digest d).0
                ≡ (open_chain storage digest s (after d)).0 =
              rw (e, n, open_journal) refl in
            chain_from sector s e n (sym same ∙ h)

        from :
            (sector : Option (List ℕ))
            → peek storage 0 d ≡ sector
            → (rs : List Record) × Holds d j rs
        from none e =
            let broken : (open_journal storage digest d).0 ≡ err device =
              rw (e, open_journal) refl in
            absurd (ok_ne_err (sym h ∙ broken))
        from (some sector) e = parsed sector e (superblock_decode sector) refl
