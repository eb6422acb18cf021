-- ===== src/Journal/Read.antt =====
-- `read` of libs/journal/src/lib.rs.
use i3ml_os.Prelude.{
  ℕ, zero, suc, ◌+◌, ◌≤◌, ◌<◌, ◌≡◌, refl, some, List, [], ◌∷◌, arith, length, get_elem?,
  get_elem?-lt, ok, err, leb, le→leb, subst, true, false,
}
use mathlib.Core.Option.{some-injective}
use i3ml_os.Journal.{Sectors, Record, Journal, chain_broken, hash, read_journal}
use i3ml_os.Journal.Chain.{Chained, record_at}
use i3ml_os.Journal.Open.{Holds, genesis}

module _ {D : Type 0} (storage : Sectors D) (digest : List ℕ → List ℕ) where
  Chained-get :
      (d : D) (index : ℕ) (previous : List ℕ) (rs : List Record) (i : ℕ) (r : Record)
      → Chained storage digest d index previous rs
      → get_elem? rs i ≡ some r
      → (stored : List ℕ) × (record_at storage (index + i) d ≡ ok (r, stored))
  Chained-get d index previous [] i r c e = cc
  Chained-get d index previous (x ∷ rs) zero r (link, c) e =
      let here : index ≡ index + 0 = omega arith in
      (
        hash digest previous x,
        subst (λ (n : ℕ). record_at storage n d ≡ ok (r, hash digest previous x)) here
            (subst (λ (y : Record). record_at storage index d ≡ ok (y, hash digest previous x))
              (some-injective x r e) link),
      )
  Chained-get d index previous (x ∷ rs) (suc i) r (link, c) e =
      let (stored, found) = Chained-get d (index + 1) (hash digest previous x) rs i r c e in
      let here : index + 1 + i ≡ index + suc i = omega arith in
      (stored, subst (λ (n : ℕ). record_at storage n d ≡ ok (r, stored)) here found)

  not_leb : (a b : ℕ) → b < a → leb a b ≡ false
  not_leb a b h = ground arith

  -- Reading a journal that the device holds: record `i` of the list is what index `i` reads, and an index
  -- past the end is refused as a break at that index.
  pub Holds-read :
      (d : D) (j : Journal) (rs : List Record) (i : ℕ)
      → Holds storage digest d j rs
      → ((r : Record) → get_elem? rs i ≡ some r → (read_journal storage j i d).0 ≡ ok r)
        × (length rs ≤ i → (read_journal storage j i d).0 ≡ err (chain_broken i))
  unfolding read_journal
  Holds-read d j rs i h = (
    λ r e.
        let (stored, found) = Chained-get d 0 genesis rs i r h.chain e in
        let here : 0 + i ≡ i = omega arith in
        let found' : record_at storage i d ≡ ok (r, stored) =
          subst (λ (n : ℕ). record_at storage n d ≡ ok (r, stored)) here found in
        let inside : leb j.count i ≡ false =
          not_leb j.count i (omega (arith, h.counted, get_elem?-lt rs i e)) in
        rw (inside, found', read_journal) refl,
    λ past.
        let beyond : leb j.count i ≡ true = le→leb j.count i (omega (arith, h.counted, past)) in
        rw (beyond, read_journal) refl,
  )
