-- ===== src/Sha256/Streaming.antt =====
-- The streaming hasher against the hash of the whole message.
use i3ml_os.Prelude.{
  ℕ, zero, suc, ◌+◌, ◌-◌, ◌*◌, ◌/◌, ◌%◌, ◌≤◌, ◌<◌, ◌≡◌, refl, sym, ◌∙◌, ap, true, false, List, [],
  ◌∷◌, ◌++◌, arith, length, take, drop, replicate, wrap64, min, ==_iff, ◌==◌, length-append,
  length-take, length-replicate, take_all, length-drop, take-append_more, drop-append_more,
  Bool-cases, inl, inr,
}
use mathlib.Core.List.{append_assoc, append-nil}
use i3ml_os.Sha256.{
  Hasher, hasher_new, copy_into, fill_buffer, whole_blocks, absorb_rest, update, zeros_of,
  padding_of, feed, finish, digest,
}
use i3ml_os.Sha256.Compress.{Words, initial_state, compress, digest_bytes, to_be_bytes}
use i3ml_os.Sha256.Reference.{hash_blocks, hash_blocks-append, padding, reference}
use i3ml_os.Sha256.Absorb.{
  Absorbed, hasher_new-Absorbed, update-Absorbed, copy_into-size, take-copy_into,
}

-- One full block leaves the loop over the padding.
module _ (tail block : List ℕ) (filled : ℕ) (pending : List ℕ) (size : length pending ≡ filled)
    (room : filled < 64) (sized : length block ≡ 64) (held : take filled block ≡ pending)
    (long : 64 ≤ filled + length tail) where
  abbrev moved : ℕ
  moved = min (64 - filled) (length tail)

  moved_rest : moved ≡ 64 - filled
  moved_rest = omega arith

  full_block : copy_into filled (take moved tail) block ≡ take 64 (pending ++ tail)
  full_block =
      let len = length-take moved tail in
      let brim : filled + length (take moved tail) ≡ 64 = omega (arith, len) in
      let fits : filled + length (take moved tail) ≤ length block = omega (arith, len, sized) in
      let whole : length (copy_into filled (take moved tail) block) ≤ 64 =
        omega (arith, copy_into-size filled (take moved tail) block fits, sized) in
      sym (take_all 64 (copy_into filled (take moved tail) block) whole)
      ∙ (ap (λ (n : ℕ). take n (copy_into filled (take moved tail) block)) (sym brim)
          ∙ (take-copy_into filled (take moved tail) block fits
              ∙ ((λ i. held i ++ take (moved_rest i) tail)
                  ∙ sym (take-append_more 64 filled pending tail size (omega arith)))))

  rest_of : drop moved tail ≡ drop 64 (pending ++ tail)
  rest_of =
      ap (λ (n : ℕ). drop n tail) moved_rest
      ∙ sym (drop-append_more 64 filled pending tail size (omega arith))

-- The loop compresses the blocks of what waits in the buffer and the padding behind it.
feed-hash_blocks :
    (rounds : ℕ) (tail block : List ℕ) (filled : ℕ) (state : Words) (pending : List ℕ) (n : ℕ)
    → length pending ≡ filled
    → filled < 64
    → length block ≡ 64
    → take filled block ≡ pending
    → filled + length tail ≡ 64 * n
    → length tail ≤ rounds
    → feed rounds tail block filled state ≡ hash_blocks n state (pending ++ tail)
unfolding feed hash_blocks
feed-hash_blocks zero tail block filled state pending zero size room sized held whole h = refl
feed-hash_blocks zero tail block filled state pending (suc n) size room sized held whole h =
    absurd (omega arith)
feed-hash_blocks (suc rounds) tail block filled state pending zero size room sized held whole h =
    let none : (length tail == 0) ≡ true = (==_iff (length tail) 0).1 (omega arith) in
    rw (none, feed) refl
feed-hash_blocks (suc rounds) tail block filled state pending (suc n) size room sized held whole h =
    let some_left : (length tail == 0) ≡ false = nonzero (length tail) (omega arith) in
    let full : (filled + min (64 - filled) (length tail) == 64) ≡ true =
      (==_iff (filled + min (64 - filled) (length tail)) 64).1 (omega arith) in
    let long : 64 ≤ filled + length tail = omega arith in
    let block_is = full_block tail block filled pending size room sized held long in
    let rest_is = rest_of tail block filled pending size room sized held long in
    let left : length (drop (min (64 - filled) (length tail)) tail) ≡ length tail - (64 - filled) =
      omega (arith, length-drop (min (64 - filled) (length tail)) tail) in
    rw (some_left, full, feed)
      (feed-hash_blocks rounds (drop (min (64 - filled) (length tail)) tail) (replicate 64 0) 0
          (compress state (copy_into filled (take (min (64 - filled) (length tail)) tail) block)) []
          n refl (omega arith) refl refl (omega (arith, left)) (omega (arith, left))
        ∙ (λ i. hash_blocks n (compress state (block_is i)) (rest_is i)))
  where
    nonzero : (k : ℕ) → 0 < k → (k == 0) ≡ false
    nonzero k h = ground arith

length-to_be_bytes : (width n : ℕ) → length (to_be_bytes width n) ≡ width
length-to_be_bytes zero n = refl
length-to_be_bytes (suc width) n = ap suc (length-to_be_bytes width n)

-- The zeros of the code are the least number that fills a block.
zeros_least : (b : ℕ) → b < 64 → zeros_of b ≡ (119 - b) % 64
zeros_least b h = ground arith

total_rest : (rest : List ℕ) (h : Hasher) → (absorb_rest rest h).total_bytes ≡ h.total_bytes
unfolding absorb_rest
total_rest rest h = elim (Bool-cases (length (whole_blocks (length rest) rest h.state).0 == 0)) [
  | inl e ↦ rw (e, absorb_rest) refl
  | inr e ↦ rw (e, absorb_rest) refl
]

total_filled : (bytes : List ℕ) (h : Hasher) → (fill_buffer bytes h).1.total_bytes ≡ h.total_bytes
unfolding fill_buffer
total_filled bytes h = elim (Bool-cases (h.buffered == 0)) [
  | inl e ↦ rw (e, fill_buffer) refl
  | inr e ↦ elim (Bool-cases (h.buffered + min (64 - h.buffered) (length bytes) == 64)) [
    | inl f ↦ rw (e, f, fill_buffer) refl
    | inr f ↦ rw (e, f, fill_buffer) refl
  ]
]

update-total_bytes :
    (input : List ℕ) (h : Hasher)
    → (update input h).total_bytes ≡ wrap64 (h.total_bytes + length input)
unfolding update
update-total_bytes input h =
    let counted = record h { total_bytes = wrap64 (h.total_bytes + length input) } in
    let (rest, h₂) = fill_buffer input counted in total_rest rest h₂ ∙ total_filled input counted

-- A hasher that holds the bytes finishes with their hash.
finish-reference :
    (bytes : List ℕ) (h : Hasher)
    → Absorbed h bytes
    → h.total_bytes ≡ wrap64 (length bytes)
    → finish h ≡ reference bytes
unfolding finish reference
finish-reference bytes h a counted =
    let size : length bytes ≡ 64 * a.blocks + h.buffered =
      ap length a.split
      ∙ omega (arith, length-append a.whole a.pending, a.whole_size, a.pending_size) in
    let rest : h.buffered ≡ length bytes % 64 = omega (arith, size, a.room) in
    let zeros : zeros_of h.buffered ≡ (119 - length bytes % 64) % 64 =
      zeros_least h.buffered a.room ∙ ap (λ (b : ℕ). (119 - b) % 64) rest in
    let bits : wrap64 (h.total_bytes * 8) ≡ wrap64 (length bytes * 8) = omega (arith, counted) in
    let tail_is : padding_of h.buffered h.total_bytes ≡ padding bytes =
      λ i. 0x80 ∷ (replicate (zeros i) 0 ++ to_be_bytes 8 (bits i)) in
    let n = (h.buffered + length (padding bytes)) / 64 in
    let tail_size : length (padding bytes) ≡ suc ((119 - length bytes % 64) % 64 + 8) = ap suc (
      length-append (replicate ((119 - length bytes % 64) % 64) 0)
        (to_be_bytes 8 (wrap64 (length bytes * 8)))
      ∙ (λ i.
          length-replicate {A = ℕ} ((119 - length bytes % 64) % 64) 0 i
          + length-to_be_bytes 8 (wrap64 (length bytes * 8)) i)) in
    let blocks : h.buffered + length (padding bytes) ≡ 64 * n = omega (arith, rest, tail_size) in
    let all_blocks : length (bytes ++ padding bytes) / 64 ≡ a.blocks + n =
      omega (arith, length-append bytes (padding bytes), size, blocks) in
    let fed : feed (length (padding bytes)) (padding bytes) h.buffer h.buffered h.state
        ≡ hash_blocks n h.state (a.pending ++ padding bytes) =
      feed-hash_blocks (length (padding bytes)) (padding bytes) h.buffer h.buffered h.state
        a.pending n a.pending_size a.room a.buffer_size a.buffer blocks (omega arith) in
    let joined : bytes ++ padding bytes ≡ a.whole ++ (a.pending ++ padding bytes) =
      ap (λ (t : List ℕ). t ++ padding bytes) a.split
      ∙ append_assoc a.whole a.pending (padding bytes) in
    let state : hash_blocks n h.state (a.pending ++ padding bytes)
        ≡ hash_blocks (length (bytes ++ padding bytes) / 64) initial_state
            (bytes ++ padding bytes) =
      ap (λ (w : Words). hash_blocks n w (a.pending ++ padding bytes)) a.state
      ∙ (sym (
            hash_blocks-append a.blocks n initial_state a.whole (a.pending ++ padding bytes)
              a.whole_size)
          ∙ (λ i. hash_blocks (sym all_blocks i) initial_state (sym joined i))) in
    ap digest_bytes
      ((λ i. feed (length (tail_is i)) (tail_is i) h.buffer h.buffered h.state) ∙ (fed ∙ state))

-- Inputs fed one after the other.
abbrev pub updates : List (List ℕ) → Hasher → Hasher
updates [] h = h
updates (input ∷ inputs) h = updates inputs (update input h)

abbrev pub joined : List (List ℕ) → List ℕ
joined [] = []
joined (input ∷ inputs) = input ++ joined inputs

updates-reference :
    (inputs : List (List ℕ)) (bytes : List ℕ) (h : Hasher)
    → Absorbed h bytes
    → h.total_bytes ≡ wrap64 (length bytes)
    → finish (updates inputs h) ≡ reference (bytes ++ joined inputs)
updates-reference [] bytes h a counted =
    finish-reference bytes h a counted ∙ ap reference (sym (append-nil bytes))
updates-reference (input ∷ inputs) bytes h a counted =
    updates-reference inputs (bytes ++ input) (update input h) (update-Absorbed input bytes h a)
      (update-total_bytes input h ∙ omega (arith, counted, length-append bytes input))
    ∙ ap reference (append_assoc bytes input (joined inputs))

-- However a message is cut into calls of `update`, the hasher finishes with the SHA-256 of the whole
-- message: the message padded and compressed block by block.
pub streaming-reference :
    (inputs : List (List ℕ)) → finish (updates inputs hasher_new) ≡ reference (joined inputs)
streaming-reference inputs = updates-reference inputs [] hasher_new hasher_new-Absorbed refl

-- The hash of a message does not depend on how the message is cut.
pub digest-reference : (bytes : List ℕ) → digest bytes ≡ reference bytes
unfolding digest
digest-reference bytes = streaming-reference (bytes ∷ []) ∙ ap reference (append-nil bytes)

length-digest_bytes : (s : Words) → length (digest_bytes s) ≡ 32
length-digest_bytes s = refl

-- The digest has 32 bytes, which is what the journal asks of its hash.
pub digest-IsDigest : (bytes : List ℕ) → length (digest bytes) ≡ 32
unfolding digest finish
digest-IsDigest bytes = refl
