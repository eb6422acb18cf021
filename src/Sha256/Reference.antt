-- ===== src/Sha256/Reference.antt =====
-- SHA-256 as the standard states it: pad the whole message, then compress its blocks one by one.
use i3ml_os.Prelude.{
  ℕ, zero, suc, ◌+◌, ◌-◌, ◌*◌, ◌/◌, ◌%◌, ◌≡◌, refl, ◌∙◌, ap, List, [], ◌∷◌, ◌++◌, arith, length,
  take, drop, replicate, wrap64, length-drop, take-append_le, drop-append_le, take_all,
}
use i3ml_os.Sha256.Compress.{Words, initial_state, compress, digest_bytes, to_be_bytes}

unfoldable pub hash_blocks : ℕ → Words → List ℕ → Words
hash_blocks zero state bytes = state
hash_blocks (suc n) state bytes = hash_blocks n (compress state (take 64 bytes)) (drop 64 bytes)

-- A one bit, the least number of zeros that fills a block, and the length of the message in bits.
abbrev pub padding : List ℕ → List ℕ
padding message =
    0x80
    ∷ (replicate ((119 - length message % 64) % 64) 0
        ++ to_be_bytes 8 (wrap64 (length message * 8)))

unfoldable pub reference : List ℕ → List ℕ
reference message =
    let padded = message ++ padding message in
    digest_bytes (hash_blocks (length padded / 64) initial_state padded)

-- One more block at the end.
pub hash_blocks-snoc :
    (n : ℕ) (state : Words) (whole block : List ℕ)
    → length whole ≡ 64 * n
    → length block ≡ 64
    → hash_blocks (suc n) state (whole ++ block) ≡ compress (hash_blocks n state whole) block
unfolding hash_blocks
hash_blocks-snoc zero state [] block h k = rw (take_all 64 block (omega (arith, k))) refl
hash_blocks-snoc zero state (x ∷ whole) block h k = absurd (omega arith)
hash_blocks-snoc (suc n) state whole block h k =
    rw
      (
        take-append_le 64 whole block (omega (arith, h)),
        drop-append_le 64 whole block (omega (arith, h)),
      )
      (hash_blocks-snoc n (compress state (take 64 whole)) (drop 64 whole) block
        (omega (arith, length-drop 64 whole, h)) k)

-- Blocks before and blocks after.
pub hash_blocks-append :
    (n m : ℕ) (state : Words) (whole rest : List ℕ)
    → length whole ≡ 64 * n
    → hash_blocks (n + m) state (whole ++ rest) ≡ hash_blocks m (hash_blocks n state whole) rest
unfolding hash_blocks
hash_blocks-append zero m state [] rest h =
    let e : 0 + m ≡ m = omega arith in ap (λ (k : ℕ). hash_blocks k state rest) e
hash_blocks-append zero m state (x ∷ whole) rest h = absurd (omega arith)
hash_blocks-append (suc n) m state whole rest h =
    let e : suc n + m ≡ suc (n + m) = omega arith in
    let head : compress state (take 64 (whole ++ rest)) ≡ compress state (take 64 whole) =
      ap (compress state) (take-append_le 64 whole rest (omega (arith, h))) in
    let tail = drop-append_le 64 whole rest (omega (arith, h)) in
    ap (λ (k : ℕ). hash_blocks k state (whole ++ rest)) e
    ∙ ((λ i. hash_blocks (n + m) (head i) (tail i))
        ∙ hash_blocks-append n m (compress state (take 64 whole)) (drop 64 whole) rest
            (omega (arith, length-drop 64 whole, h)))
