-- ===== src/Journal/Stored.antt =====
-- A record of libs/journal/src/lib.rs as `decode` takes it from bytes.
use i3ml_os.Prelude.{
  ℕ, zero, suc, ◌-◌, ◌^◌, ◌≤◌, ◌<◌, ◌≡◌, ◌≢◌, ◌/◌, refl, sym, ◌∙◌, Option, none, some, List, [],
  ◌∷◌, ◌++◌, arith, length, take, drop, ltb, ltb_false→le, Bool-cases, inl, inr, subst, All,
  length-take, length-drop,
}
use native.Mathlib.Nat.{pow-suc}
use mathlib.Core.Option.{some-injective}
use i3ml_os.Journal.{Record, decode, parsed, fields, record_bytes, label_bytes}
use i3ml_os.Journal.Bytes.{from_le_bytes, slice, to_le_bytes}
use i3ml_os.Journal.Format.{IsRecord}

abbrev pub IsByte : ℕ → Type 0
IsByte b = b < 256

pub All-take : (n : ℕ) (xs : List ℕ) → All IsByte xs → All IsByte (take n xs)
All-take zero xs h = tt
All-take (suc n) [] h = tt
All-take (suc n) (x ∷ xs) (b, h) = (b, All-take n xs h)

pub All-drop : (n : ℕ) (xs : List ℕ) → All IsByte xs → All IsByte (drop n xs)
All-drop zero xs h = h
All-drop (suc n) [] h = tt
All-drop (suc n) (x ∷ xs) (b, h) = All-drop n xs h

pub All-append : (xs ys : List ℕ) → All IsByte xs → All IsByte ys → All IsByte (xs ++ ys)
All-append [] ys h k = k
All-append (x ∷ xs) ys (b, h) k = (b, All-append xs ys h k)

All-to_le_bytes : (width n : ℕ) → All IsByte (to_le_bytes width n)
All-to_le_bytes zero n = tt
All-to_le_bytes (suc width) n = (omega arith, All-to_le_bytes width (n / 256))

from_le_bytes-lt : (xs : List ℕ) → All IsByte xs → from_le_bytes xs < 256 ^ length xs
from_le_bytes-lt [] h = omega arith
from_le_bytes-lt (x ∷ xs) (b, h) = omega (arith, pow-suc 256 (length xs), from_le_bytes-lt xs h)

length-slice :
    (from to : ℕ) (bytes : List ℕ) → to ≤ length bytes → length (slice from to bytes) ≡ to - from
length-slice from to bytes h =
    omega (arith, length-take (to - from) (drop from bytes), length-drop from bytes)

slice-lt :
    (from to : ℕ) (bytes : List ℕ)
    → All IsByte bytes
    → to ≤ length bytes
    → from_le_bytes (slice from to bytes) < 256 ^ (to - from)
slice-lt from to bytes h long =
    subst (λ (n : ℕ). from_le_bytes (slice from to bytes) < 256 ^ n)
      (length-slice from to bytes long)
      (from_le_bytes-lt (slice from to bytes)
        (All-take (to - from) (drop from bytes) (All-drop from bytes h)))

pub none_ne_some : {A : Type 0} {a : A} → ◌≢◌ {A = Option A} none (some a)
none_ne_some e = cc

-- What a record is that was decoded from bytes, and the hash that stood behind it.
pub record IsStored (r : Record) (stored : List ℕ) : Type 0 where
  pub sound : IsRecord r
  pub of_bytes : All IsByte (fields r)
  pub hash_bytes : All IsByte stored

fields-IsByte :
    (r : Record) → r.event < 256 → r.label_length < 256 → All IsByte r.label → All IsByte (fields r)
fields-IsByte r event label_length label =
    let four : All IsByte (r.event ∷ r.label_length ∷ 0 ∷ 0 ∷ []) =
      (event, (label_length, (omega arith, (omega arith, tt)))) in
    let after_four = to_le_bytes 8 r.detail ++ r.label in
    let after_at =
      to_le_bytes 4 r.agent ++ ((r.event ∷ r.label_length ∷ 0 ∷ 0 ∷ []) ++ after_four) in
    let ending = All-append (to_le_bytes 8 r.detail) r.label (All-to_le_bytes 8 r.detail) label in
    let middle = All-append (r.event ∷ r.label_length ∷ 0 ∷ 0 ∷ []) after_four four ending in
    All-append (to_le_bytes 8 r.sequence) (to_le_bytes 8 r.at ++ after_at)
      (All-to_le_bytes 8 r.sequence)
      (All-append (to_le_bytes 8 r.at) after_at (All-to_le_bytes 8 r.at) (
        All-append (to_le_bytes 4 r.agent) ((r.event ∷ r.label_length ∷ 0 ∷ 0 ∷ []) ++ after_four)
          (All-to_le_bytes 4 r.agent) middle))

parsed-IsStored :
    (bytes : List ℕ)
    → All IsByte bytes
    → record_bytes ≤ length bytes
    → from_le_bytes (slice 21 22 bytes) ≤ label_bytes
    → IsStored (parsed bytes) (slice 72 104 bytes)
parsed-IsStored bytes h room narrow = record {
  sound = record {
    sequence_fits = slice-lt 0 8 bytes h (omega arith);
    at_fits = slice-lt 8 16 bytes h (omega arith);
    agent_fits = slice-lt 16 20 bytes h (omega arith);
    detail_fits = slice-lt 24 32 bytes h (omega arith);
    label_sized = length-slice 32 72 bytes (omega arith);
    label_length_fits = narrow;
  };
  of_bytes =
      fields-IsByte (parsed bytes) (slice-lt 20 21 bytes h (omega arith)) (omega arith)
        (All-take 40 (drop 32 bytes) (All-drop 32 bytes h));
  hash_bytes = All-take 32 (drop 72 bytes) (All-drop 72 bytes h);
}

pub decode-IsStored :
    (bytes : List ℕ) (r : Record) (stored : List ℕ)
    → All IsByte bytes
    → decode bytes ≡ some (r, stored)
    → IsStored r stored
unfolding decode
decode-IsStored bytes r stored h e = elim (Bool-cases (ltb (length bytes) record_bytes)) [
  | inl short ↦
      let refused : decode bytes ≡ none = rw (short, decode) refl in
      absurd (none_ne_some (sym refused ∙ e))
  | inr long ↦ elim (Bool-cases (ltb label_bytes (from_le_bytes (slice 21 22 bytes)))) [
    | inl wide ↦
        let refused : decode bytes ≡ none = rw (long, wide, decode) refl in
        absurd (none_ne_some (sym refused ∙ e))
    | inr narrow ↦
        let done : decode bytes ≡ some (parsed bytes, slice 72 104 bytes) =
          rw (long, narrow, decode) refl in
        subst (λ (p : Record × List ℕ). IsStored p.0 p.1) (some-injective _ _ (sym done ∙ e))
          (parsed-IsStored bytes h (ltb_false→le (length bytes) record_bytes long)
            (ltb_false→le label_bytes _ narrow))
  ]
]
