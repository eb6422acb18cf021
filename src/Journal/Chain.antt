-- ===== src/Journal/Chain.antt =====
-- The loop of `open` of libs/journal/src/lib.rs over the records.
use i3ml_os.Prelude.{
  ℕ, zero, suc, ◌+◌, ◌≡◌, refl, sym, ◌∙◌, ap, Option, List, [], ◌∷◌, length, Result, ok, err,
  ok-injective, ok_ne_err, Bool-cases, inl, inr, subst,
}
use i3ml_os.Journal.{
  Sectors, Record, Fault, found_at, chain_broken, sector_of, hash, read_record, verify,
}
use i3ml_os.Journal.Bytes.{bytes_eq, bytes_eq_self, bytes_eq→eq}

-- The hash after a list of records, on top of a hash.
abbrev pub tip_from : (List ℕ → List ℕ) → List ℕ → List Record → List ℕ
tip_from digest previous [] = previous
tip_from digest previous (r ∷ rs) = tip_from digest (hash digest previous r) rs

module _ {D : Type 0} (storage : Sectors D) where
  abbrev pub peek : ℕ → D → Option (List ℕ)
  peek sector d = (storage.read_sector sector d).0

  -- Two states of the device hold the same sectors.
  abbrev pub Same : D → D → Type 0
  Same d d' = (sector : ℕ) → peek sector d ≡ peek sector d'

  -- Reading a sector changes none and leaves the size alone.
  pub record IsReadable : Type 0 where
    pub keeps : (sector : ℕ) (d : D) → Same (storage.read_sector sector d).1 d
    pub keeps_size :
        (sector : ℕ) (d : D)
        → storage.sector_count (storage.read_sector sector d).1 ≡ storage.sector_count d

  -- What `read_record` finds.
  abbrev pub record_at : ℕ → D → Result Fault (Record × List ℕ)
  record_at index d = (read_record storage index d).0

  pub record_at-Same : (d d' : D) → Same d d' → (index : ℕ) → record_at index d ≡ record_at index d'
  unfolding read_record
  record_at-Same d d' same index = ap (found_at storage index) (same (sector_of index))

  pub read_record-Same : IsReadable → (index : ℕ) (d : D) → Same (read_record storage index d).1 d
  unfolding read_record
  read_record-Same readable index d = readable.keeps (sector_of index) d

  module _ (digest : List ℕ → List ℕ) where
    -- From `index` on the device holds these records, each with the hash that links it to the last.
    abbrev pub Chained : D → ℕ → List ℕ → List Record → Type 0
    Chained d index previous [] = Unit {0}
    Chained d index previous (r ∷ rs) =
        (record_at index d ≡ ok (r, hash digest previous r))
        × Chained d (index + 1) (hash digest previous r) rs

    module _ (readable : IsReadable) where
      pub Chained-Same :
          (d d' : D) (index : ℕ) (previous : List ℕ) (rs : List Record)
          → ((i : ℕ) → record_at i d ≡ record_at i d')
          → Chained d index previous rs
          → Chained d' index previous rs
      Chained-Same d d' index previous [] same c = tt
      Chained-Same d d' index previous (r ∷ rs) same (link, c) = (
        sym (same index) ∙ link,
        Chained-Same d d' (index + 1) (hash digest previous r) rs same c,
      )

      -- One record of the loop.
      verify-link :
          (count index : ℕ) (previous tip : List ℕ) (d : D) (r : Record) (stored : List ℕ)
          → record_at index d ≡ ok (r, stored)
          → (verify storage digest (suc count) index previous d).0 ≡ ok tip
          → (stored ≡ hash digest previous r)
            × ((verify storage digest count (index + 1) stored (read_record storage index d).1).0
                ≡ ok tip)
      unfolding verify
      verify-link count index previous tip d r stored e h =
          elim (Bool-cases (bytes_eq (hash digest previous r) stored)) [
            | inl same ↦ (
              sym (bytes_eq→eq (hash digest previous r) stored same),
              sym (rw (e, verify, same) refl) ∙ h,
            )
            | inr other ↦
                let broken : (verify storage digest (suc count) index previous d).0
                    ≡ err (chain_broken index) =
                  rw (e, verify, other) refl in
                absurd (ok_ne_err (sym h ∙ broken))
          ]

      -- What the loop of `open` accepts is a chain.
      pub verify-Chained :
          (count index : ℕ) (previous tip : List ℕ) (d : D)
          → (verify storage digest count index previous d).0 ≡ ok tip
          → (rs : List Record) × (length rs ≡ count)
            × Chained d index previous rs
            × (tip_from digest previous rs ≡ tip)
      unfolding verify
      verify-Chained zero index previous tip d h = ([], refl, tt, ok-injective h)
      verify-Chained (suc count) index previous tip d h =
          from
            (λ stored rest.
              verify-Chained count (index + 1) stored tip (read_record storage index d).1 rest)
            (record_at index d) refl
        where
          from :
              ((stored : List ℕ)
                → (verify storage digest count (index + 1) stored (read_record storage index d).1).0
                  ≡ ok tip
                → (rs : List Record) × (length rs ≡ count)
                  × Chained (read_record storage index d).1 (index + 1) stored rs
                  × (tip_from digest stored rs ≡ tip))
              → (r : Result Fault (Record × List ℕ)) → record_at index d ≡ r
              → (rs : List Record) × (length rs ≡ suc count)
                × Chained d index previous rs
                × (tip_from digest previous rs ≡ tip)
          from later (err f) e =
              let broken : (verify storage digest (suc count) index previous d).0 ≡ err f =
                rw (e, verify) refl in
              absurd (ok_ne_err (sym h ∙ broken))
          from later (ok (r, stored)) e =
              let (link, rest) = verify-link count index previous tip d r stored e h in
              let d' = (read_record storage index d).1 in
              let (rs, counted, chain, ends) = later stored rest in
              let same : (i : ℕ) → record_at i d' ≡ record_at i d =
                record_at-Same d' d (read_record-Same readable index d) in
              (
                r ∷ rs,
                ap suc counted,
                (
                  subst (λ (s : List ℕ). record_at index d ≡ ok (r, s)) link e,
                  Chained-Same d' d (index + 1) (hash digest previous r) rs same
                      (subst (λ (s : List ℕ). Chained d' (index + 1) s rs) link chain),
                ),
                subst (λ (s : List ℕ). tip_from digest s rs ≡ tip) link ends,
              )

      -- And it accepts every chain.
      pub Chained-verify :
          (index : ℕ) (previous : List ℕ) (rs : List Record) (d : D)
          → Chained d index previous rs
          → (verify storage digest (length rs) index previous d).0
            ≡ ok (tip_from digest previous rs)
      unfolding verify
      Chained-verify index previous [] d c = refl
      Chained-verify index previous (r ∷ rs) d (link, c) =
          let d' = (read_record storage index d).1 in
          let same : (i : ℕ) → record_at i d ≡ record_at i d' =
            record_at-Same d d' (λ i. sym (read_record-Same readable index d i)) in
          rw (link, verify, bytes_eq_self (hash digest previous r))
            (Chained-verify (index + 1) (hash digest previous r) rs d'
              (Chained-Same d d' (index + 1) (hash digest previous r) rs same c))
