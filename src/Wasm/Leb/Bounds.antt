-- ===== src/Wasm/Leb/Bounds.antt =====
-- `unsigned` of libs/wasm/src/leb.rs, and the width that it is asked for.
use i3ml_os.Prelude.{
  ℕ, ◌+◌, ◌*◌, ◌%◌, ◌^◌, ◌<◌, ◌≡◌, sym, ap, false, List, [], ◌∷◌, arith, leb, leb→le, min, Result,
  ok, ok_ne_err, Bool-cases, inl, inr, subst, drop,
}
use i3ml_os.Wasm.Leb.Value.{loop_step}
use i3ml_os.Wasm.Leb.Payload.{pow-pos, widen, wrap64-le, put-lt}
use i3ml_os.Wasm.Leb.{Error, Reader, refuses, accumulate, unsigned, unsigned_loop}

-- Putting a payload in keeps the result below the bits that are filled.
accumulate-lt :
    (bits shift result payload : ℕ)
    → payload < 128
    → refuses bits shift payload ≡ false
    → result < 2 ^ min shift bits
    → accumulate bits shift result payload < 2 ^ min (shift + 7) bits
accumulate-lt bits shift result payload small fits h = elim (Bool-cases (leb bits shift)) [
  | inl past ↦
      let room = leb→le bits shift past in
      let before : min shift bits ≡ bits = omega arith in
      let after : min (shift + 7) bits ≡ bits = omega arith in
      rw (past, after) (subst (λ (x : ℕ). result < 2 ^ x) before h)
  | inr here ↦ rw here (
      omega (
        arith,
        put-lt bits shift result payload small here fits h,
        wrap64-le (payload * 2 ^ shift),
      ))
]

loop_lt :
    (bits shift result taken : ℕ) (bytes : List ℕ) (v t : ℕ)
    → result < 2 ^ min shift bits
    → unsigned_loop bits shift result taken bytes ≡ (ok v, t)
    → v < 2 ^ bits
unfolding unsigned_loop
loop_lt bits shift result taken [] v t h e =
    absurd (ok_ne_err (sym (ap (λ (x : Result Error ℕ × ℕ). x.0) e)))
loop_lt bits shift result taken (b ∷ rest) v t h e =
    let step = loop_step bits shift result taken b rest v t e in
    let next = accumulate-lt bits shift result (b % 128) (omega arith) step.0 h in
    let result' = accumulate bits shift result (b % 128) in
    elim (step.1) [
      | inl (here, _, _) ↦
          subst (λ (x : ℕ). x < 2 ^ bits) (sym here) (widen (shift + 7) bits result' next)
      | inr (_, later) ↦ loop_lt bits (shift + 7) result' (taken + 1) rest v t next later
    ]

-- An unsigned integer that is read as `bits` wide is below 2 ^ bits.
pub unsigned-lt : (bits : ℕ) (r : Reader) (v : ℕ) → (unsigned bits r).0 ≡ ok v → v < 2 ^ bits
unfolding unsigned
unsigned-lt bits r v h =
    let start = pow-pos (min 0 bits) in
    loop_lt bits 0 0 0 (drop r.position r.bytes) v _ start
      (λ i. (h i, (unsigned_loop bits 0 0 0 (drop r.position r.bytes)).1))
