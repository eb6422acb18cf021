-- ===== src/Wasm/Leb/Tests.antt =====
-- The runs that the tests of libs/wasm/src/leb.rs make, and the reader's theorems there.
use i3ml_os.Wasm.Leb.Value.{IsEncoding, leb_value, unsigned-value}
use i3ml_os.Wasm.Leb.Bounds.{unsigned-lt}
use i3ml_os.Prelude.{
  ℕ, length, take, drop, ◌+◌, ◌≤◌, ◌<◌, ◌-◌, ◌^◌, ◌≡◌, refl, [], ◌∷◌, ok, err, arith,
}
use i3ml_os.Wasm.Leb.{
  Reader, truncated, overlong, reader_new, unsigned, signed, name, unsigned_loop, signed_loop,
  read_usize, slice,
}

three_bytes : (unsigned 32 (reader_new (0xe5 ∷ 0x8e ∷ 0x26 ∷ []))).0 ≡ ok 624_485
unfolding unsigned unsigned_loop
three_bytes = refl

negative : (signed 32 (reader_new (0xc0 ∷ 0xbb ∷ 0x78 ∷ []))).0 ≡ ok (2 ^ 64 - 123_456)
unfolding signed signed_loop
negative = refl

too_wide :
    (unsigned 32 (reader_new (0xff ∷ 0xff ∷ 0xff ∷ 0xff ∷ 0xff ∷ 0x7f ∷ []))).0 ≡ err overlong
unfolding unsigned unsigned_loop
too_wide = refl

cut_short : (name (reader_new (0x02 ∷ 0x68 ∷ []))).0 ≡ err truncated
unfolding name read_usize unsigned unsigned_loop slice
cut_short = refl

abbrev three : Reader
three = reader_new (0xe5 ∷ 0x8e ∷ 0x26 ∷ 0xff ∷ [])

reads_three : (unsigned 32 three).0 ≡ ok 624_485
unfolding unsigned unsigned_loop
reads_three = refl

thirty_two : 32 ≤ 64
thirty_two = omega arith

unsigned-value_example :
    (n : ℕ) × ((unsigned 32 three).1.position ≡ three.position + n)
    × (n ≤ length (drop three.position three.bytes))
    × IsEncoding (take n (drop three.position three.bytes))
    × (624_485 ≡ leb_value (take n (drop three.position three.bytes)))
unsigned-value_example = unsigned-value 32 three 624_485 thirty_two reads_three

unsigned-lt_example : 624_485 < 2 ^ 32
unsigned-lt_example = unsigned-lt 32 three 624_485 reads_three
