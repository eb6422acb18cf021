-- ===== src/Sha256/Tests.antt =====
-- The published vectors that the tests of libs/sha256/src/lib.rs use.
use i3ml_os.Prelude.{◌≡◌, refl, [], ◌∷◌}
use i3ml_os.Sha256.{
  digest, hasher_new, update, absorb_rest, finish, feed, whole_blocks, fill_buffer,
}
use i3ml_os.Sha256.Compress.{compress}
use i3ml_os.Sha256.Reference.{reference}
use i3ml_os.Sha256.Streaming.{updates, streaming-reference}

abc :
    digest (97 ∷ 98 ∷ 99 ∷ [])
    ≡ 0xba ∷ 0x78 ∷ 0x16 ∷ 0xbf ∷ 0x8f ∷ 0x01 ∷ 0xcf ∷ 0xea ∷ 0x41 ∷ 0x41 ∷ 0x40 ∷ 0xde ∷ 0x5d
      ∷ 0xae ∷ 0x22 ∷ 0x23 ∷ 0xb0 ∷ 0x03 ∷ 0x61 ∷ 0xa3 ∷ 0x96 ∷ 0x17 ∷ 0x7a ∷ 0x9c ∷ 0xb4 ∷ 0x10
      ∷ 0xff ∷ 0x61 ∷ 0xf2 ∷ 0x00 ∷ 0x15 ∷ 0xad ∷ []
unfolding digest update absorb_rest finish feed whole_blocks fill_buffer compress
abc = refl

-- A message in three parts, one of them empty.
streaming-reference_example :
    finish (updates ((97 ∷ []) ∷ [] ∷ (98 ∷ 99 ∷ []) ∷ []) hasher_new)
    ≡ reference (97 ∷ 98 ∷ 99 ∷ [])
streaming-reference_example = streaming-reference ((97 ∷ []) ∷ [] ∷ (98 ∷ 99 ∷ []) ∷ [])
