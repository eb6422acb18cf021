-- ===== src/Sha256/Compress.antt =====
-- `compress` of libs/sha256/src/lib.rs: the message schedule and the 64 rounds.
use Prim.Native.Nat.{bit_and, bit_xor}
use i3ml_os.Prelude.{
  ℕ, zero, suc, ◌+◌, ◌-◌, ◌*◌, ◌/◌, ◌%◌, ◌^◌, none, some, List, [], ◌∷◌, ◌++◌, length, get_elem?,
  wrap32,
}

abbrev pub block_bytes : ℕ
block_bytes = 64

abbrev round_constants : List ℕ
round_constants =
    0x428a2f98 ∷ 0x71374491 ∷ 0xb5c0fbcf ∷ 0xe9b5dba5 ∷ 0x3956c25b ∷ 0x59f111f1 ∷ 0x923f82a4
    ∷ 0xab1c5ed5 ∷ 0xd807aa98 ∷ 0x12835b01 ∷ 0x243185be ∷ 0x550c7dc3 ∷ 0x72be5d74 ∷ 0x80deb1fe
    ∷ 0x9bdc06a7 ∷ 0xc19bf174 ∷ 0xe49b69c1 ∷ 0xefbe4786 ∷ 0x0fc19dc6 ∷ 0x240ca1cc ∷ 0x2de92c6f
    ∷ 0x4a7484aa ∷ 0x5cb0a9dc ∷ 0x76f988da ∷ 0x983e5152 ∷ 0xa831c66d ∷ 0xb00327c8 ∷ 0xbf597fc7
    ∷ 0xc6e00bf3 ∷ 0xd5a79147 ∷ 0x06ca6351 ∷ 0x14292967 ∷ 0x27b70a85 ∷ 0x2e1b2138 ∷ 0x4d2c6dfc
    ∷ 0x53380d13 ∷ 0x650a7354 ∷ 0x766a0abb ∷ 0x81c2c92e ∷ 0x92722c85 ∷ 0xa2bfe8a1 ∷ 0xa81a664b
    ∷ 0xc24b8b70 ∷ 0xc76c51a3 ∷ 0xd192e819 ∷ 0xd6990624 ∷ 0xf40e3585 ∷ 0x106aa070 ∷ 0x19a4c116
    ∷ 0x1e376c08 ∷ 0x2748774c ∷ 0x34b0bcb5 ∷ 0x391c0cb3 ∷ 0x4ed8aa4a ∷ 0x5b9cca4f ∷ 0x682e6ff3
    ∷ 0x748f82ee ∷ 0x78a5636f ∷ 0x84c87814 ∷ 0x8cc70208 ∷ 0x90befffa ∷ 0xa4506ceb ∷ 0xbef9a3f7
    ∷ 0xc67178f2 ∷ []

-- Eight words: the state between blocks, and the variables `a` to `h` of the rounds.
pub record Words : Type 0 where
  pub a : ℕ
  pub b : ℕ
  pub c : ℕ
  pub d : ℕ
  pub e : ℕ
  pub f : ℕ
  pub g : ℕ
  pub h : ℕ

abbrev pub initial_state : Words
initial_state = record {
  a = 0x6a09e667;
  b = 0xbb67ae85;
  c = 0x3c6ef372;
  d = 0xa54ff53a;
  e = 0x510e527f;
  f = 0x9b05688c;
  g = 0x1f83d9ab;
  h = 0x5be0cd19;
}

-- `word.rotate_right(k)`: the low bits go on top of the others, which they do not overlap.
rotate_right : ℕ → ℕ → ℕ
rotate_right k word = word / 2 ^ k + word % 2 ^ k * 2 ^ (32 - k)

-- `!word`.
abbrev complement : ℕ → ℕ
complement word = 2 ^ 32 - 1 - word

abbrev xor3 : ℕ → ℕ → ℕ → ℕ
xor3 x y z = bit_xor (bit_xor x y) z

abbrev word_at : List ℕ → ℕ → ℕ
word_at words index = elim (get_elem? words index) [ none ↦ 0 | some word ↦ word ]

-- The big-endian words of a block.
be_words : List ℕ → List ℕ
be_words (b₀ ∷ b₁ ∷ b₂ ∷ b₃ ∷ bytes) = (((b₀ * 256 + b₁) * 256 + b₂) * 256 + b₃) ∷ be_words bytes
be_words _ = []

-- The word of the schedule at `index`, from the ones before it.
scheduled : List ℕ → ℕ → ℕ
unfolding rotate_right
scheduled words index =
    let previous = word_at words (index - 15) in
    let ahead = word_at words (index - 2) in
    let s0 = xor3 (rotate_right 7 previous) (rotate_right 18 previous) (previous / 2 ^ 3) in
    let s1 = xor3 (rotate_right 17 ahead) (rotate_right 19 ahead) (ahead / 2 ^ 10) in
    wrap32 (wrap32 (wrap32 (word_at words (index - 16) + s0) + word_at words (index - 7)) + s1)

-- The array `schedule`, as far as it is filled, over the rounds that are left.
schedule_from : ℕ → List ℕ → List ℕ
unfolding scheduled
schedule_from zero words = words
schedule_from (suc rounds) words =
    schedule_from rounds (words ++ (scheduled words (length words) ∷ []))

-- One round.
round : ℕ → ℕ → Words → Words
unfolding rotate_right
round constant word s =
    let s1 = xor3 (rotate_right 6 s.e) (rotate_right 11 s.e) (rotate_right 25 s.e) in
    let choose = bit_xor (bit_and s.e s.f) (bit_and (complement s.e) s.g) in
    let temp1 = wrap32 (wrap32 (wrap32 (wrap32 (s.h + s1) + choose) + constant) + word) in
    let s0 = xor3 (rotate_right 2 s.a) (rotate_right 13 s.a) (rotate_right 22 s.a) in
    let majority = xor3 (bit_and s.a s.b) (bit_and s.a s.c) (bit_and s.b s.c) in
    let temp2 = wrap32 (s0 + majority) in
    record {
      a = wrap32 (temp1 + temp2);
      b = s.a;
      c = s.b;
      d = s.c;
      e = wrap32 (s.d + temp1);
      f = s.e;
      g = s.f;
      h = s.g;
    }

rounds_over : List ℕ → List ℕ → Words → Words
unfolding round
rounds_over [] words s = s
rounds_over (k ∷ constants) [] s = s
rounds_over (k ∷ constants) (word ∷ words) s = rounds_over constants words (round k word s)

unfoldable pub compress : Words → List ℕ → Words
unfolding rounds_over schedule_from be_words
compress state block =
    let s = rounds_over round_constants (schedule_from 48 (be_words block)) state in
    record {
      a = wrap32 (state.a + s.a);
      b = wrap32 (state.b + s.b);
      c = wrap32 (state.c + s.c);
      d = wrap32 (state.d + s.d);
      e = wrap32 (state.e + s.e);
      f = wrap32 (state.f + s.f);
      g = wrap32 (state.g + s.g);
      h = wrap32 (state.h + s.h);
    }

-- `value.to_be_bytes()` for an integer of `width` bytes.
abbrev pub to_be_bytes : ℕ → ℕ → List ℕ
to_be_bytes zero n = []
to_be_bytes (suc width) n = (n / 256 ^ width % 256) ∷ to_be_bytes width n

-- The digest: the words of the state, big-endian.
abbrev pub digest_bytes : Words → List ℕ
digest_bytes s =
    to_be_bytes 4 s.a
    ++ (to_be_bytes 4 s.b
        ++ (to_be_bytes 4 s.c
            ++ (to_be_bytes 4 s.d
                ++ (to_be_bytes 4 s.e
                    ++ (to_be_bytes 4 s.f ++ (to_be_bytes 4 s.g ++ to_be_bytes 4 s.h))))))
