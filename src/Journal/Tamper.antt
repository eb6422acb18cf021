-- ===== src/Journal/Tamper.antt =====
-- `open` of libs/journal/src/lib.rs on a device that held a journal before.
use i3ml_os.Prelude.{
  take-append_at, drop-append_at, ℕ, zero, suc, ◌+◌, ◌≡◌, ◌≢◌, ◌⊎◌, refl, sym, ◌∙◌, ap, true, false,
  Option, none, some, List, [], ◌∷◌, ◌++◌, arith, length, take, drop, ok, err, ok-injective,
  ok_ne_err, Bool-cases, Option-cases, inl, inr, subst, All, get_elem?, replicate,
}
use i3ml_os.Journal.{
  Sectors, Record, Journal, hash, decode, fields, found_at, found_in, open_journal, slot_bytes,
  slot_of, sector_of, read_record, chain_broken,
}
use i3ml_os.Journal.Bytes.{bytes_eq, bytes_eq_self, bytes_eq→eq}
use i3ml_os.Journal.Format.{IsRecord, IsDigest, fields-injective}
use i3ml_os.Journal.Chain.{tip_from, peek, IsReadable, Chained, record_at}
use i3ml_os.Journal.Open.{Holds, genesis, open-Holds}
use i3ml_os.Journal.Stored.{IsByte, IsStored, All-take, All-drop, All-append, decode-IsStored}

differ : (xs ys : List ℕ) → bytes_eq xs ys ≡ false → xs ≢ ys
differ xs ys other w =
    let same = subst (λ (v : List ℕ). bytes_eq xs v ≡ true) w (bytes_eq_self xs) in ground arith

zeros-IsByte : (n : ℕ) → All IsByte (replicate n 0)
zeros-IsByte zero = tt
zeros-IsByte (suc n) = (omega arith, zeros-IsByte n)

genesis-IsByte : All IsByte genesis
genesis-IsByte = zeros-IsByte 32

-- The inputs of the hashes of a chain of records, one for each record: the hash of the one before, and the
-- record's fields.
abbrev pub links : (List ℕ → List ℕ) → List ℕ → List Record → List (List ℕ)
links digest previous [] = []
links digest previous (r ∷ rs) = (previous ++ fields r) ∷ links digest (hash digest previous r) rs

-- At some place of two chains the inputs differ, and their digests do not.
pub record Clash (digest : List ℕ → List ℕ) (left right : List (List ℕ)) : Type 0 where
  pub index : ℕ
  pub xs : List ℕ
  pub ys : List ℕ
  pub in_left : get_elem? left index ≡ some xs
  pub in_right : get_elem? right index ≡ some ys
  pub left_bytes : All IsByte xs
  pub right_bytes : All IsByte ys
  pub apart : xs ≢ ys
  pub one_digest : digest xs ≡ digest ys

Clash-later :
    (digest : List ℕ → List ℕ) (x y : List ℕ) (left right : List (List ℕ))
    → Clash digest left right
    → Clash digest (x ∷ left) (y ∷ right)
Clash-later digest x y left right c = record {
  index = suc c.index;
  xs = c.xs;
  ys = c.ys;
  in_left = c.in_left;
  in_right = c.in_right;
  left_bytes = c.left_bytes;
  right_bytes = c.right_bytes;
  apart = c.apart;
  one_digest = c.one_digest;
}

abbrev AllBytes : List (List ℕ) → Type 0
AllBytes = All (All IsByte)

module _ (digest : List ℕ → List ℕ) (is_digest : IsDigest digest) where
  -- One link: equal hashes have equal inputs, or clash.
  hash-injective :
      (p q : List ℕ) (a b : Record) (left right : List (List ℕ))
      → length p ≡ 32
      → length q ≡ 32
      → IsRecord a
      → IsRecord b
      → All IsByte (p ++ fields a)
      → All IsByte (q ++ fields b)
      → hash digest p a ≡ hash digest q b
      → ((p ≡ q) × (a ≡ b)) ⊎ Clash digest ((p ++ fields a) ∷ left) ((q ++ fields b) ∷ right)
  hash-injective p q a b left right sp sq oka okb ba bb e =
      elim (Bool-cases (bytes_eq (p ++ fields a) (q ++ fields b))) [
        | inl same ↦
            let whole = bytes_eq→eq (p ++ fields a) (q ++ fields b) same in
            inl (
              sym (take-append_at 32 p (fields a) sp)
                  ∙ (ap (take 32) whole ∙ take-append_at 32 q (fields b) sq),
              fields-injective a b oka okb (
                  sym (drop-append_at 32 p (fields a) sp)
                  ∙ (ap (drop 32) whole ∙ drop-append_at 32 q (fields b) sq)),
            )
        | inr other ↦ inr (record {
          index = 0;
          xs = p ++ fields a;
          ys = q ++ fields b;
          in_left = refl;
          in_right = refl;
          left_bytes = ba;
          right_bytes = bb;
          apart = λ w. differ _ _ other w;
          one_digest = e;
        })
      ]

  -- Chains of one length with one last hash are the same chain, or clash.
  tip_from-injective :
      (p q : List ℕ) (rs ss : List Record)
      → length p ≡ 32
      → length q ≡ 32
      → All IsRecord rs
      → All IsRecord ss
      → AllBytes (links digest p rs)
      → AllBytes (links digest q ss)
      → length rs ≡ length ss
      → tip_from digest p rs ≡ tip_from digest q ss
      → ((p ≡ q) × (rs ≡ ss)) ⊎ Clash digest (links digest p rs) (links digest q ss)
  tip_from-injective p q [] [] sp sq okr oks br bs n e = inl (e, refl)
  tip_from-injective p q [] (s ∷ ss) sp sq okr oks br bs n e = absurd (omega arith)
  tip_from-injective p q (r ∷ rs) [] sp sq okr oks br bs n e = absurd (omega arith)
  tip_from-injective p q (r ∷ rs) (s ∷ ss) sp sq (okr, okrs) (oks, okss) (br, brs) (bs, bss) n e =
      elim (tip_from-injective (hash digest p r) (hash digest q s) rs ss (is_digest _) (is_digest _)
        okrs okss brs bss (omega arith) e) [
          | inr clash ↦ inr (Clash-later digest (p ++ fields r) (q ++ fields s) _ _ clash)
          | inl (here, rest) ↦ elim (hash-injective p q r s _ _ sp sq okr oks br bs here) [
            | inr clash ↦ inr clash
            | inl (before, head) ↦ inl (before, λ i. head i ∷ rest i)
          ]
        ]

module _ {D : Type 0} (storage : Sectors D) (digest : List ℕ → List ℕ)
    (is_digest : IsDigest digest) where
  -- The sectors of the device are byte strings.
  abbrev pub IsBytes : D → Type 0
  IsBytes d = (i : ℕ) (bytes : List ℕ) → peek storage i d ≡ some bytes → All IsByte bytes

  record_at-IsStored :
      (d : D) (i : ℕ) (r : Record) (stored : List ℕ)
      → IsBytes d
      → record_at storage i d ≡ ok (r, stored)
      → IsStored r stored
  unfolding read_record
  record_at-IsStored d i r stored whole e = from (peek storage (sector_of i) d) refl e
    where
      from :
          (o : Option (List ℕ))
          → peek storage (sector_of i) d ≡ o
          → found_at storage i o ≡ ok (r, stored)
          → IsStored r stored
      from none p o = absurd (ok_ne_err (sym o))
      from (some buffer) p o = elim (Option-cases (decode (slot_bytes (slot_of i) buffer))) [
        | inl n ↦
            let broken : found_at storage i (some buffer) ≡ err (chain_broken i) =
              rw (n, found_at, found_in) refl in
            absurd (ok_ne_err (sym o ∙ broken))
        | inr (found, n) ↦
            let done : found_at storage i (some buffer) ≡ ok found =
              rw (n, found_at, found_in) refl in
            decode-IsStored (slot_bytes (slot_of i) buffer) r stored
              (All-take _ _ (All-drop _ buffer (whole (sector_of i) buffer p)))
              (n ∙ ap some (ok-injective (sym done ∙ o)))
      ]

  Chained-IsRecord :
      (d : D) (i : ℕ) (previous : List ℕ) (rs : List Record)
      → IsBytes d
      → Chained storage digest d i previous rs
      → All IsRecord rs
  Chained-IsRecord d i previous [] whole c = tt
  Chained-IsRecord d i previous (r ∷ rs) whole (link, c) = (
    (record_at-IsStored d i r _ whole link).sound,
    Chained-IsRecord d (i + 1) (hash digest previous r) rs whole c,
  )

  Chained-AllBytes :
      (d : D) (i : ℕ) (previous : List ℕ) (rs : List Record)
      → IsBytes d
      → All IsByte previous
      → Chained storage digest d i previous rs
      → AllBytes (links digest previous rs)
  Chained-AllBytes d i previous [] whole before c = tt
  Chained-AllBytes d i previous (r ∷ rs) whole before (link, c) =
      let stored = record_at-IsStored d i r _ whole link in
      (
        All-append previous (fields r) before stored.of_bytes,
        Chained-AllBytes d (i + 1) (hash digest previous r) rs whole stored.hash_bytes c,
      )

  -- Tamper evidence, on a device of bytes that reads without changing, with a digest of 32 bytes. The
  -- device held a journal. Whatever was done to it since, if `open` accepts what is there now, with the
  -- count and the last hash of that journal, then the records are those of that journal, or else a record
  -- of the journal now on the device and the one at the same place before were hashed from two different
  -- byte strings with the same digest.
  pub open_detects :
      (d d' : D) (j j' : Journal) (rs : List Record)
      → IsReadable storage
      → IsBytes d
      → IsBytes d'
      → Holds storage digest d j rs
      → (open_journal storage digest d').0 ≡ ok j'
      → j'.count ≡ j.count
      → j'.tip ≡ j.tip
      → Chained storage digest d' 0 genesis rs
        ⊎ ((ss : List Record) × Holds storage digest d' j' ss
            × Clash digest (links digest genesis rs) (links digest genesis ss))
  open_detects d d' j j' rs readable whole whole' h o same_count same_tip =
      let (ss, h') = open-Holds storage digest readable d' j' o in
      elim (tip_from-injective digest is_digest genesis genesis rs ss refl refl
        (Chained-IsRecord d 0 genesis rs whole h.chain)
        (Chained-IsRecord d' 0 genesis ss whole' h'.chain)
        (Chained-AllBytes d 0 genesis rs whole genesis-IsByte h.chain)
        (Chained-AllBytes d' 0 genesis ss whole' genesis-IsByte h'.chain)
        (sym h.counted ∙ (sym same_count ∙ h'.counted)) (sym h.ends ∙ (sym same_tip ∙ h'.ends))) [
          | inl (_, same) ↦ inl (
              subst (λ (x : List Record). Chained storage digest d' 0 genesis x) (sym same)
                h'.chain)
          | inr clash ↦ inr (ss, h', clash)
        ]
