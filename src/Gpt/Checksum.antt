-- ===== src/Gpt/Checksum.antt =====
-- libs/gpt/src/lib.rs: CRC-32, of a byte string at once and of one that comes in pieces.
use Prim.Native.Nat.{bit_and, bit_xor}
use i3ml_os.Prelude.{ℕ, zero, suc, ◌-◌, ◌/◌, ◌%◌, ◌^◌, ◌*◌, ◌≡◌, refl, List, [], ◌∷◌, ◌++◌}

-- One turn of the inner loop. `(crc & 1).wrapping_neg()` is all ones or zero.
unfoldable pub crc_bit : ℕ → ℕ
crc_bit crc = let mask = crc % 2 * (2 ^ 32 - 1) in bit_xor (crc / 2) (bit_and 0xedb88320 mask)

abbrev pub crc_bits : ℕ → ℕ → ℕ
crc_bits zero crc = crc
crc_bits (suc turns) crc = crc_bits turns (crc_bit crc)

abbrev pub crc_byte : ℕ → ℕ → ℕ
crc_byte crc byte = crc_bits 8 (bit_xor crc byte)

abbrev pub crc_bytes : ℕ → List ℕ → ℕ
crc_bytes crc [] = crc
crc_bytes crc (byte ∷ bytes) = crc_bytes (crc_byte crc byte) bytes

abbrev pub crc32 : List ℕ → ℕ
crc32 bytes = 2 ^ 32 - 1 - crc_bytes 0xffffffff bytes

pub record Crc32 : Type 0 where
  pub value : ℕ

abbrev pub crc_new : Crc32
crc_new = record { value = 0xffffffff }

abbrev pub crc_update : List ℕ → Crc32 → Crc32
crc_update bytes c = record { value = crc_bytes c.value bytes }

abbrev pub crc_finish : Crc32 → ℕ
crc_finish c = 2 ^ 32 - 1 - c.value

pub crc_bytes-append :
    (crc : ℕ) (xs ys : List ℕ) → crc_bytes crc (xs ++ ys) ≡ crc_bytes (crc_bytes crc xs) ys
crc_bytes-append crc [] ys = refl
crc_bytes-append crc (x ∷ xs) ys = crc_bytes-append (crc_byte crc x) xs ys
