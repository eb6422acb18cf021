-- ===== src/Sha256.antt =====
-- libs/sha256/src/lib.rs: the hash of the on-disk journal. A u32 is a number below 2 ^ 32.
pub mod Compress
pub mod Reference
pub mod Absorb
pub mod Streaming
mod Tests
use i3ml_os.Prelude.{
  ℕ, zero, suc, ◌+◌, ◌-◌, ◌*◌, Bool, true, false, List, [], ◌∷◌, ◌++◌, min, ltb, leb, ◌==◌,
  if◌then◌else◌, length, take, drop, replicate, wrap64,
}
use Compress.{Words, initial_state, compress, digest_bytes, to_be_bytes, block_bytes}

pub record Hasher : Type 0 where
  pub state : Words
  pub buffer : List ℕ
  pub buffered : ℕ
  pub total_bytes : ℕ

abbrev pub hasher_new : Hasher
hasher_new = record {
  state = initial_state;
  buffer = replicate block_bytes 0;
  buffered = 0;
  total_bytes = 0;
}

-- `into[at..at + bytes.len()].copy_from_slice(bytes)`.
abbrev pub copy_into : ℕ → List ℕ → List ℕ → List ℕ
copy_into at bytes into = take at into ++ (bytes ++ drop (at + length bytes) into)

-- The first step of `update`: fill the buffered block, and compress it once it is full. What is left of
-- the input, and the hasher.
unfoldable pub fill_buffer : List ℕ → Hasher → List ℕ × Hasher
fill_buffer bytes h =
    let count = min (block_bytes - h.buffered) (length bytes) in
    let buffer = copy_into h.buffered (take count bytes) h.buffer in
    let filled = h.buffered + count in
    let full : Hasher = record h {
      state = compress h.state buffer;
      buffer = buffer;
      buffered = 0;
    } in
    let part : Hasher = record h { buffer = buffer; buffered = filled } in
    if h.buffered == 0
    then (bytes, h)
    else (drop count bytes, if filled == block_bytes then full else part)

-- The loop of `update` over whole blocks, with as many rounds at hand as there are bytes.
unfoldable pub whole_blocks : ℕ → List ℕ → Words → List ℕ × Words
whole_blocks zero bytes state = (bytes, state)
whole_blocks (suc rounds) bytes state = elim (leb block_bytes (length bytes)) [
  | true ↦ whole_blocks rounds (drop block_bytes bytes) (compress state (take block_bytes bytes))
  | false ↦ (bytes, state)
]

-- The rest of `update`: the whole blocks of the input, and its tail into the buffer.
unfoldable pub absorb_rest : List ℕ → Hasher → Hasher
absorb_rest rest h =
    let (tail, state) = whole_blocks (length rest) rest h.state in
    let h' = record h { state = state } in
    if length tail == 0
    then h'
    else record h' { buffer = copy_into 0 tail h.buffer; buffered = length tail }

unfoldable pub update : List ℕ → Hasher → Hasher
update bytes h =
    let h₁ = record h { total_bytes = wrap64 (h.total_bytes + length bytes) } in
    let (rest, h₂) = fill_buffer bytes h₁ in absorb_rest rest h₂

-- The padding that `finish` feeds: a one bit, zeros, and the length in bits.
abbrev pub zeros_of : ℕ → ℕ
zeros_of buffered = if ltb buffered 56 then 55 - buffered else 119 - buffered

abbrev pub padding_of : ℕ → ℕ → List ℕ
padding_of buffered total_bytes =
    0x80 ∷ (replicate (zeros_of buffered) 0 ++ to_be_bytes 8 (wrap64 (total_bytes * 8)))

-- The loop of `finish` over what is left of the padding, with as many rounds at hand as there are bytes.
unfoldable pub feed : ℕ → List ℕ → List ℕ → ℕ → Words → Words
feed zero padding block filled state = state
feed (suc rounds) padding block filled state =
    let count = min (block_bytes - filled) (length padding) in
    let block' = copy_into filled (take count padding) block in
    let rest = drop count padding in
    elim (length padding == 0) [
      | true ↦ state
      | false ↦ elim (filled + count == block_bytes) [
        | true ↦ feed rounds rest (replicate block_bytes 0) 0 (compress state block')
        | false ↦ feed rounds rest block' (filled + count) state
      ]
    ]

unfoldable pub finish : Hasher → List ℕ
finish h =
    let padding = padding_of h.buffered h.total_bytes in
    digest_bytes (feed (length padding) padding h.buffer h.buffered h.state)

unfoldable pub digest : List ℕ → List ℕ
digest bytes = finish (update bytes hasher_new)
