-- ===== src/Journal/Append.antt =====
-- `create` and `append` of libs/journal/src/lib.rs on a device that may fail.
use i3ml_os.Prelude.{
  take-append_at, drop-append_at, ℕ, zero, suc, ◌+◌, ◌-◌, ◌*◌, ◌≤◌, ◌<◌, ◌≡◌, ◌≢◌, refl, ◌∙◌, ap,
  true, some, List, [], ◌∷◌, ◌++◌, arith, length, take, drop, ok, subst, length-take, length-drop,
  length-append,
}
use i3ml_os.Journal.{Sectors, Record, hash, overwrite, slot_bytes, record_bytes}
use i3ml_os.Journal.Chain.{tip_from, peek, Chained, record_at}

-- The slot that was overwritten, and the ones before it.
drop-overwritten :
    (n k : ℕ) (xs ys : List ℕ)
    → n ≤ k
    → k ≤ length xs
    → drop n (take k xs ++ ys) ≡ take (k - n) (drop n xs) ++ ys
drop-overwritten zero k xs ys h l =
    let e : k ≡ k - 0 = omega arith in ap (λ (t : ℕ). take t xs ++ ys) e
drop-overwritten (suc n) zero xs ys h l = absurd (omega arith)
drop-overwritten (suc n) (suc k) [] ys h l = absurd (omega arith)
drop-overwritten (suc n) (suc k) (x ∷ xs) ys h l =
    let e : k - n ≡ suc k - suc n = omega arith in
    drop-overwritten n k xs ys (omega arith) (omega arith)
    ∙ ap (λ (t : ℕ). take t (drop n xs) ++ ys) e

take-taken :
    (m k : ℕ) (xs ys : List ℕ) → m ≤ k → k ≤ length xs → take m (take k xs ++ ys) ≡ take m xs
take-taken zero k xs ys h l = refl
take-taken (suc m) zero xs ys h l = absurd (omega arith)
take-taken (suc m) (suc k) [] ys h l = absurd (omega arith)
take-taken (suc m) (suc k) (x ∷ xs) ys h l =
    ap (λ (t : List ℕ). x ∷ t) (take-taken m k xs ys (omega arith) (omega arith))

pub slot_bytes-overwrite_self :
    (slot : ℕ) (encoded buffer : List ℕ)
    → length encoded ≡ record_bytes
    → (slot + 1) * record_bytes ≤ length buffer
    → slot_bytes slot (overwrite slot encoded buffer) ≡ encoded
slot_bytes-overwrite_self slot encoded buffer sized room =
    let before : length (take (slot * record_bytes) buffer) ≡ slot * record_bytes =
      omega (arith, length-take (slot * record_bytes) buffer) in
    let width : (slot + 1) * record_bytes - slot * record_bytes ≡ record_bytes = omega arith in
    rw
      (
        drop-append_at (slot * record_bytes) (take (slot * record_bytes) buffer)
            (encoded ++ drop ((slot + 1) * record_bytes) buffer) before,
        width,
      )
      (take-append_at record_bytes encoded (drop ((slot + 1) * record_bytes) buffer) sized)

pub slot_bytes-overwrite_before :
    (earlier slot : ℕ) (encoded buffer : List ℕ)
    → earlier < slot
    → (slot + 1) * record_bytes ≤ length buffer
    → slot_bytes earlier (overwrite slot encoded buffer) ≡ slot_bytes earlier buffer
slot_bytes-overwrite_before earlier slot encoded buffer h room =
    let rest = encoded ++ drop ((slot + 1) * record_bytes) buffer in
    rw
      (drop-overwritten (earlier * record_bytes) (slot * record_bytes) buffer rest (omega arith)
        (omega arith))
      (take-taken ((earlier + 1) * record_bytes - earlier * record_bytes)
        (slot * record_bytes - earlier * record_bytes) (drop (earlier * record_bytes) buffer) rest
        (omega arith) (omega (arith, length-drop (earlier * record_bytes) buffer)))

pub length-overwrite :
    (slot : ℕ) (encoded buffer : List ℕ)
    → length encoded ≡ record_bytes
    → (slot + 1) * record_bytes ≤ length buffer
    → length (overwrite slot encoded buffer) ≡ length buffer
length-overwrite slot encoded buffer sized room = omega (
  arith,
  length-append (take (slot * record_bytes) buffer)
      (encoded ++ drop ((slot + 1) * record_bytes) buffer),
  length-append encoded (drop ((slot + 1) * record_bytes) buffer),
  length-take (slot * record_bytes) buffer,
  length-drop ((slot + 1) * record_bytes) buffer,
  sized,
)

module _ {D : Type 0} (storage : Sectors D) where
  -- A sector has 512 bytes.
  abbrev pub IsSized : D → Type 0
  IsSized d =
      (sector : ℕ) (bytes : List ℕ) → peek storage sector d ≡ some bytes → length bytes ≡ 512

  -- A write that succeeds lands, and no write touches another sector or the size of the device.
  pub record IsWritable : Type 0 where
    pub lands :
        (sector : ℕ) (bytes : List ℕ) (d : D)
        → length bytes ≡ 512
        → (storage.write_sector sector bytes d).0 ≡ true
        → peek storage sector (storage.write_sector sector bytes d).1 ≡ some bytes
    pub spares :
        (sector other : ℕ) (bytes : List ℕ) (d : D)
        → sector ≢ other
        → peek storage other (storage.write_sector sector bytes d).1 ≡ peek storage other d
    pub spares_size :
        (sector : ℕ) (bytes : List ℕ) (d : D)
        → storage.sector_count (storage.write_sector sector bytes d).1 ≡ storage.sector_count d

  module _ (digest : List ℕ → List ℕ) where
    -- Only the records of a chain's own range matter to it.
    pub Chained-kept :
        (d d' : D) (index : ℕ) (previous : List ℕ) (rs : List Record)
        → ((i : ℕ)
            → index ≤ i
            → i < index + length rs
            → record_at storage i d' ≡ record_at storage i d)
        → Chained storage digest d index previous rs
        → Chained storage digest d' index previous rs
    Chained-kept d d' index previous [] same c = tt
    Chained-kept d d' index previous (r ∷ rs) same (link, c) = (
      same index (omega arith) (omega arith) ∙ link,
      Chained-kept d d' (index + 1) (hash digest previous r) rs
          (λ i low high. same i (omega arith) (omega arith)) c,
    )

    -- One more record at the end of a chain.
    pub Chained-snoc :
        (d : D) (index : ℕ) (previous : List ℕ) (rs : List Record) (r : Record)
        → Chained storage digest d index previous rs
        → record_at storage (index + length rs) d
          ≡ ok (r, hash digest (tip_from digest previous rs) r)
        → Chained storage digest d index previous (rs ++ (r ∷ []))
    Chained-snoc d index previous [] r c e =
        let here : index + 0 ≡ index = omega arith in
        (subst (λ (i : ℕ). record_at storage i d ≡ ok (r, hash digest previous r)) here e, tt)
    Chained-snoc d index previous (x ∷ rs) r (link, c) e =
        let here : index + suc (length rs) ≡ index + 1 + length rs = omega arith in
        (
          link,
          Chained-snoc d (index + 1) (hash digest previous x) rs r c (
              subst
                (λ (i : ℕ).
                  record_at storage i d
                  ≡ ok (r, hash digest (tip_from digest (hash digest previous x) rs) r))
                here e),
        )

    pub tip_from-snoc :
        (previous : List ℕ) (rs : List Record) (r : Record)
        → tip_from digest previous (rs ++ (r ∷ [])) ≡ hash digest (tip_from digest previous rs) r
    tip_from-snoc previous [] r = refl
    tip_from-snoc previous (x ∷ rs) r = tip_from-snoc (hash digest previous x) rs r
