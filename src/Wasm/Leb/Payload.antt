-- ===== src/Wasm/Leb/Payload.antt =====
-- The seven bits of one byte in `unsigned` of libs/wasm/src/leb.rs, and where they are put.
use i3ml_os.Prelude.{
  ℕ, zero, suc, ◌+◌, ◌-◌, ◌*◌, ◌^◌, ◌<◌, ◌≤◌, ◌≡◌, ap, true, false, arith, ltb, leb, ltb→lt,
  ltb_false→le, min, wrap64, Bool-cases, inl, inr, subst,
}
use native.Mathlib.Nat.{pow-suc}
use i3ml_os.Wasm.Leb.{refuses, accumulate}

pub pow-add : (d s : ℕ) → 2 ^ (d + s) ≡ 2 ^ d * 2 ^ s
pow-add zero s = let e : 0 + s ≡ s = omega arith in omega (arith, ap (λ (x : ℕ). 2 ^ x) e)
pow-add (suc d) s =
    let e : suc d + s ≡ suc (d + s) = omega arith in
    omega (
      arith,
      ap (λ (x : ℕ). 2 ^ x) e,
      pow-suc 2 (d + s),
      pow-add d s,
      ap (λ (x : ℕ). x * 2 ^ s) (pow-suc 2 d),
    )

-- A payload below 2 ^ d on top of a result below 2 ^ s.
pub stacked : (d s p result : ℕ) → p < 2 ^ d → result < 2 ^ s → result + p * 2 ^ s < 2 ^ (d + s)
stacked d s p result hp hr =
    let rest = 2 ^ d - (p + 1) in
    let split : 2 ^ d ≡ p + 1 + rest = omega arith in
    omega (arith, pow-add d s, ap (λ (x : ℕ). x * 2 ^ s) split)

pub leb_false→lt : (a b : ℕ) → leb a b ≡ false → b < a
leb_false→lt a b h = ground arith

-- Near the last bits, a payload that is not refused fits what is left of them.
pub fits_left :
    (bits shift payload : ℕ)
    → leb bits shift ≡ false
    → ltb bits (shift + 7) ≡ true
    → refuses bits shift payload ≡ false
    → payload < 2 ^ (bits - shift)
fits_left bits shift payload here last fits =
    leb_false→lt (2 ^ (bits - shift)) payload (rw (here, last) at fits)

pub pow-pos : (d : ℕ) → 0 < 2 ^ d
pow-pos zero = omega arith
pow-pos (suc d) = omega (arith, pow-suc 2 d, pow-pos d)

pub widen : (s bits n : ℕ) → n < 2 ^ min s bits → n < 2 ^ bits
widen s bits n h =
    let rest = bits - min s bits in
    let whole : rest + min s bits ≡ bits = omega arith in
    let more = stacked rest (min s bits) 0 n (pow-pos rest) h in
    subst (λ (x : ℕ). n < 2 ^ x) whole (omega (arith, more))

-- Bits that a shift moves past the width are dropped.
pub wrap64-le : (n : ℕ) → wrap64 n ≤ n
wrap64-le n = omega arith

-- Below `bits`, putting a payload in that is not refused keeps the sum below the bits that are filled.
pub put-lt :
    (bits shift result payload : ℕ)
    → payload < 128
    → leb bits shift ≡ false
    → refuses bits shift payload ≡ false
    → result < 2 ^ min shift bits
    → result + payload * 2 ^ shift < 2 ^ min (shift + 7) bits
put-lt bits shift result payload small here fits h =
    let room = leb_false→lt bits shift here in
    let before : min shift bits ≡ shift = omega arith in
    elim (Bool-cases (ltb bits (shift + 7))) [
      | inl last ↦
          let reached = ltb→lt bits (shift + 7) last in
          let after : min (shift + 7) bits ≡ bits = omega arith in
          let whole : bits - shift + shift ≡ bits = omega arith in
          rw after (
            subst (λ (x : ℕ). result + payload * 2 ^ shift < 2 ^ x) whole
              (stacked (bits - shift) shift payload result
                (fits_left bits shift payload here last fits)
                (subst (λ (x : ℕ). result < 2 ^ x) before h)))
      | inr inside ↦
          let more = ltb_false→le bits (shift + 7) inside in
          let after : min (shift + 7) bits ≡ 7 + shift = omega arith in
          rw after
            (stacked 7 shift payload result small (subst (λ (x : ℕ). result < 2 ^ x) before h))
    ]

-- Under 64 bits, no bit of a payload that is not refused is dropped.
pub accumulate-value :
    (bits shift result payload : ℕ)
    → bits ≤ 64
    → payload < 128
    → refuses bits shift payload ≡ false
    → accumulate bits shift result payload ≡ result + payload * 2 ^ shift
accumulate-value bits shift result payload narrow small fits = elim (Bool-cases (leb bits shift)) [
  | inl past ↦ ground arith
  | inr here ↦
      let put = put-lt bits shift 0 payload small here fits (pow-pos (min shift bits)) in
      let gap = 64 - bits in
      let whole : gap + bits ≡ 64 = omega arith in
      let low = widen (shift + 7) bits (payload * 2 ^ shift) (omega (arith, put)) in
      let room : payload * 2 ^ shift < 2 ^ 64 =
        subst (λ (x : ℕ). payload * 2 ^ shift < 2 ^ x) whole
          (omega (arith, stacked gap bits 0 (payload * 2 ^ shift) (pow-pos gap) low)) in
      rw here (omega (arith, room))
]
