-- ===== src/Journal/Format.antt =====
-- The records and the superblock of libs/journal/src/lib.rs as bytes.
use i3ml_os.Prelude.{
  take-append_at, drop-append_at, ℕ, ◌+◌, ◌^◌, ◌≤◌, ◌<◌, ◌≡◌, refl, sym, ◌∙◌, ap, some, List, ◌++◌,
  arith, not_ltb, length, replicate, length-append,
}
use mathlib.Core.Option.{some-injective}
use i3ml_os.Journal.{
  Record, Superblock, fields, encode, hash, decode, superblock_encode, superblock_decode,
  label_bytes, record_bytes,
}
use i3ml_os.Journal.Bytes.{from_le_bytes, slice, from_le_bytes-to_le_bytes}

-- A record whose integers fit their types and whose label is an array of 40 bytes, of which at most 40 are
-- in use. The last is what `Record::new` ensures; `label_length` itself is a byte, which `append` does not
-- check.
pub record IsRecord (r : Record) : Type 0 where
  pub sequence_fits : r.sequence < 256 ^ 8
  pub at_fits : r.at < 256 ^ 8
  pub agent_fits : r.agent < 256 ^ 4
  pub detail_fits : r.detail < 256 ^ 8
  pub label_sized : length r.label ≡ label_bytes
  pub label_length_fits : r.label_length ≤ label_bytes

-- A digest has 32 bytes.
abbrev pub IsDigest : (List ℕ → List ℕ) → Type 0
IsDigest digest = (bytes : List ℕ) → length (digest bytes) ≡ 32

length-append_at :
    (m n : ℕ) (xs ys : List ℕ) → length xs ≡ m → length ys ≡ n → length (xs ++ ys) ≡ m + n
length-append_at m n xs ys h k = length-append xs ys ∙ ground (arith, h, k)

-- Decoding is field by field: bytes whose slices are the fields of a record are that record.
decode_slices :
    (bytes : List ℕ) (r : Record) (stored : List ℕ)
    → record_bytes ≤ length bytes
    → r.label_length ≤ label_bytes
    → from_le_bytes (slice 0 8 bytes) ≡ r.sequence
    → from_le_bytes (slice 8 16 bytes) ≡ r.at
    → from_le_bytes (slice 16 20 bytes) ≡ r.agent
    → from_le_bytes (slice 20 21 bytes) ≡ r.event
    → from_le_bytes (slice 24 32 bytes) ≡ r.detail
    → slice 32 72 bytes ≡ r.label
    → from_le_bytes (slice 21 22 bytes) ≡ r.label_length
    → slice 72 104 bytes ≡ stored
    → decode bytes ≡ some (r, stored)
unfolding decode
decode_slices bytes r stored long fits e₁ e₂ e₃ e₄ e₅ e₆ e₇ e₈ =
    rw (not_ltb (length bytes) record_bytes long, e₇, not_ltb label_bytes r.label_length fits)
      (λ i. some (
        record {
          sequence = e₁ i;
          at = e₂ i;
          agent = e₃ i;
          event = e₄ i;
          detail = e₅ i;
          label = e₆ i;
          label_length = r.label_length;
        },
        e₈ i,
      ))

module _ (r : Record) (stored rest : List ℕ) (ok : IsRecord r) (sized : length stored ≡ 32) where
  -- The fields of a record with 32 bytes of hash behind them decode to both.
  pub decode-fields : 24 ≤ length rest → decode (fields r ++ (stored ++ rest)) ≡ some (r, stored)
  decode-fields long =
      decode_slices (fields r ++ (stored ++ rest)) r stored
        (omega (
          arith,
          length-append r.label (stored ++ rest),
          length-append stored rest,
          ok.label_sized,
          sized,
          long,
        ))
        ok.label_length_fits (from_le_bytes-to_le_bytes 8 r.sequence ok.sequence_fits)
        (from_le_bytes-to_le_bytes 8 r.at ok.at_fits)
        (from_le_bytes-to_le_bytes 4 r.agent ok.agent_fits) (omega arith)
        (from_le_bytes-to_le_bytes 8 r.detail ok.detail_fits)
        (take-append_at 40 r.label (stored ++ rest) ok.label_sized) (omega arith)
        (rw (drop-append_at 40 r.label (stored ++ rest) ok.label_sized)
          (take-append_at 32 stored rest sized))

module _ (digest : List ℕ → List ℕ) (is_digest : IsDigest digest) where
  -- A record whose integers fit, whose label is 40 bytes long and whose label length is at most 40 reads
  -- back as it was written, with the hash that links it to the one before, if the digest has 32 bytes.
  pub decode-encode :
      (previous : List ℕ) (r : Record)
      → IsRecord r
      → decode (encode digest previous r) ≡ some (r, hash digest previous r)
  unfolding encode
  decode-encode previous r ok =
      decode-fields r (hash digest previous r) (replicate 24 0) ok
        (is_digest (previous ++ fields r)) (omega arith)

  -- A record takes exactly its slot.
  pub length-encode :
      (previous : List ℕ) (r : Record)
      → IsRecord r
      → length (encode digest previous r) ≡ record_bytes
  unfolding encode
  length-encode previous r ok = omega (
    arith,
    length-append r.label (hash digest previous r ++ replicate 24 0),
    length-append (hash digest previous r) (replicate 24 0),
    is_digest (previous ++ fields r),
    ok.label_sized,
  )

-- A superblock whose count fits 64 bits and whose last hash has 32 bytes reads back as it was written.
pub superblock_decode-encode :
    (s : Superblock)
    → s.count < 256 ^ 8
    → length s.tip ≡ 32
    → superblock_decode (superblock_encode s) ≡ some s
unfolding superblock_decode superblock_encode
superblock_decode-encode s fits sized =
    let long : 48 ≤ length (superblock_encode s) =
      omega (arith, length-append s.tip (replicate 464 0), sized) in
    rw (not_ltb _ 48 long) (λ i. some (record {
      count = from_le_bytes-to_le_bytes 8 s.count fits i;
      tip = take-append_at 32 s.tip (replicate 464 0) sized i;
    }))

pub length-superblock_encode :
    (s : Superblock) → length s.tip ≡ 32 → length (superblock_encode s) ≡ 512
unfolding superblock_encode
length-superblock_encode s sized = omega (arith, length-append s.tip (replicate 464 0), sized)

-- Two records with the same fields are the same record.
pub fields-injective : (a b : Record) → IsRecord a → IsRecord b → fields a ≡ fields b → a ≡ b
fields-injective a b oka okb e =
    let da = decode-fields a (replicate 32 0) (replicate 24 0) oka refl (omega arith) in
    let db = decode-fields b (replicate 32 0) (replicate 24 0) okb refl (omega arith) in
    let same =
      some-injective _ _
        (sym da ∙ (ap (λ (f : List ℕ). decode (f ++ (replicate 32 0 ++ replicate 24 0))) e ∙ db)) in
    ap (λ (p : Record × List ℕ). p.0) same
