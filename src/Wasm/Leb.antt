-- ===== src/Wasm/Leb.antt =====
-- libs/wasm/src/leb.rs: the reader over the bytes of a module, and the LEB128 integers. A byte is a
-- number below 256. An i64 is the number below 2 ^ 64 with its bits. `|` is a sum here, since the fields
-- that the loops put together do not overlap.
pub mod Payload
pub mod Value
pub mod Bounds
mod Tests
use i3ml_os.Prelude.{
  ℕ, zero, suc, ◌+◌, ◌-◌, ◌*◌, ◌/◌, ◌%◌, ◌^◌, Bool, true, false, not, ◌&&◌, ◌||◌, Option, none,
  some, List, [], ◌∷◌, ltb, leb, ◌==◌, if◌then◌else◌, length, get_elem?, take, drop, Result, ok,
  err, wrap64,
}
use i3ml_os.Text.{is_utf8}

pub data Error : Type 0 where
  truncated overlong malformed : Error

pub record Reader : Type 0 where
  pub bytes : List ℕ
  pub position : ℕ

abbrev pub reader_new : List ℕ → Reader
reader_new bytes = record { bytes = bytes; position = 0 }

unfoldable pub seek : ℕ → Reader → Result Error (Unit {0}) × Reader
seek position r =
    if ltb (length r.bytes) position
    then (err truncated, r)
    else (ok tt, record r { position = position })

abbrev pub remaining : Reader → ℕ
remaining r = length r.bytes - r.position

abbrev pub at_end : Reader → Bool
at_end r = leb (length r.bytes) r.position

unfoldable pub byte : Reader → Result Error ℕ × Reader
byte r = elim (get_elem? r.bytes r.position) [
  | none ↦ (err truncated, r)
  | some b ↦ (ok b, record r { position = r.position + 1 })
]

unfoldable pub peek : Reader → Result Error ℕ
peek r = elim (get_elem? r.bytes r.position) [ none ↦ err truncated | some b ↦ ok b ]

-- `position + length` is checked against the width of usize, and the range against the bytes.
unfoldable pub slice : ℕ → Reader → Result Error (List ℕ) × Reader
slice count r =
    if ltb (2 ^ 64 - 1) (r.position + count) || ltb (length r.bytes) (r.position + count)
    then (err truncated, r)
    else (ok (take count (drop r.position r.bytes)), record r { position = r.position + count })

-- Whether the payload of a byte does not fit, and the result with the payload put in: from `bits` on
-- only a zero payload fits, and the last bits below take what is left of them. `bits` is at most 64, the
-- width of the result, and the callers' is 32; bits that `payload << shift` moves past it are dropped.
abbrev pub refuses : ℕ → ℕ → ℕ → Bool
refuses bits shift payload =
    if leb bits shift
    then not (payload == 0)
    else ltb bits (shift + 7) && leb (2 ^ (bits - shift)) payload

abbrev pub accumulate : ℕ → ℕ → ℕ → ℕ → ℕ
accumulate bits shift result payload =
    if leb bits shift then result else result + wrap64 (payload * 2 ^ shift)

-- The loop of `unsigned`, over the bytes from the reader's position on: the value and how many bytes
-- were taken.
unfoldable pub unsigned_loop : ℕ → ℕ → ℕ → ℕ → List ℕ → Result Error ℕ × ℕ
unsigned_loop bits shift result taken [] = (err truncated, taken)
unsigned_loop bits shift result taken (b ∷ rest) = elim (refuses bits shift (b % 128)) [
  | true ↦ (err overlong, taken + 1)
  | false ↦ elim (ltb b 128) [
    | true ↦ (ok (accumulate bits shift result (b % 128)), taken + 1)
    | false ↦ elim (leb (bits + 7) (shift + 7)) [
      | true ↦ (err overlong, taken + 1)
      | false ↦
          unsigned_loop bits (shift + 7) (accumulate bits shift result (b % 128)) (taken + 1) rest
    ]
  ]
]

unfoldable pub unsigned : ℕ → Reader → Result Error ℕ × Reader
unsigned bits r =
    let (value, taken) = unsigned_loop bits 0 0 0 (drop r.position r.bytes) in
    (value, record r { position = r.position + taken })

-- An i64 below zero, and how far.
abbrev pub is_negative : ℕ → Bool
is_negative value = leb (2 ^ 63) value

-- `result >= limit || result < -limit`, for `limit = 1 << (bits - 1)`.
abbrev pub out_of_range : ℕ → ℕ → Bool
out_of_range bits value =
    if is_negative value then ltb (2 ^ (bits - 1)) (2 ^ 64 - value) else leb (2 ^ (bits - 1)) value

unfoldable pub signed_loop : ℕ → ℕ → ℕ → ℕ → List ℕ → Result Error ℕ × ℕ
signed_loop bits shift result taken [] = (err truncated, taken)
signed_loop bits shift result taken (b ∷ rest) =
    let result' = result + wrap64 (b % 128 * 2 ^ shift) in
    let extended =
      if ltb (shift + 7) 64 && leb 64 (b % 128)
      then result' + (2 ^ 64 - 2 ^ (shift + 7))
      else result' in
    elim (leb bits shift) [
      | true ↦ (err overlong, taken + 1)
      | false ↦ elim (ltb b 128) [
        | true ↦ (
          if ltb bits 64 && out_of_range bits extended then err overlong else ok extended,
          taken + 1,
        )
        | false ↦ signed_loop bits (shift + 7) result' (taken + 1) rest
      ]
    ]

unfoldable pub signed : ℕ → Reader → Result Error ℕ × Reader
signed bits r =
    let (value, taken) = signed_loop bits 0 0 0 (drop r.position r.bytes) in
    (value, record r { position = r.position + taken })

-- `u32` and `usize` read the same; the casts keep a value of 32 bits.
unfoldable pub read_u32 : Reader → Result Error ℕ × Reader
read_u32 r = unsigned 32 r

unfoldable pub read_usize : Reader → Result Error ℕ × Reader
read_usize r = unsigned 32 r

unfoldable pub name : Reader → Result Error (List ℕ) × Reader
name r =
    let (count, r₁) = read_usize r in
    elim count [
      | err e ↦ (err e, r₁)
      | ok n ↦
          let (bytes, r₂) = slice n r₁ in
          elim bytes [
            | err e ↦ (err e, r₂)
            | ok text ↦ (if is_utf8 text then ok text else err malformed, r₂)
          ]
    ]
