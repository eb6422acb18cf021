-- ===== src/Text.antt =====
-- Text as the kernel copies it: a character is the list of its UTF-8 bytes (`ch.len_utf8()` is its
-- length, `ch.encode_utf8` writes it), a `&str` is a list of characters, and `from_utf8` is the
-- standard library's validation of a byte string.
pub mod Valid
use i3ml_os.Prelude.{
  ℕ, zero, suc, ◌+◌, Bool, true, false, ◌&&◌, List, [], ◌∷◌, ◌++◌, ltb, leb, ◌==◌, if◌then◌else◌,
  length,
}
use Prim.Native.Char.{code}
use Prim.Native.String.{String}
use Prim.Native.String

abbrev pub Char : Type 0
Char = List ℕ

abbrev pub Text : Type 0
Text = List Char

-- `text.as_bytes()`.
abbrev pub as_bytes : Text → List ℕ
as_bytes [] = []
as_bytes (ch ∷ text) = ch ++ as_bytes text

-- A literal of the source; all of them are ASCII.
abbrev pub literal : String → Text
literal String.[] = []
literal (String.◌∷◌ c s) = (code c ∷ []) ∷ literal s

-- What a lead byte says: whether it may lead, how many bytes follow, and the range of the next.
pub record Lead : Type 0 where
  pub valid : Bool
  pub more : ℕ
  pub low : ℕ
  pub high : ℕ

abbrev lead_of : Bool → ℕ → ℕ → ℕ → Lead
lead_of v m l h = record { valid = v; more = m; low = l; high = h }

unfoldable pub lead : ℕ → Lead
lead b =
    if ltb b 0x80
    then lead_of true 0 0x80 0xbf
    else if ltb b 0xc2
    then lead_of false 0 0x80 0xbf
    else if ltb b 0xe0
    then lead_of true 1 0x80 0xbf
    else if b == 0xe0
    then lead_of true 2 0xa0 0xbf
    else if b == 0xed
    then lead_of true 2 0x80 0x9f
    else if ltb b 0xf0
    then lead_of true 2 0x80 0xbf
    else if b == 0xf0
    then lead_of true 3 0x90 0xbf
    else if ltb b 0xf4
    then lead_of true 3 0x80 0xbf
    else if b == 0xf4
    then lead_of true 3 0x80 0x8f
    else lead_of false 0 0x80 0xbf

-- Validation with `more` bytes of a character still to come, the next between `low` and `high`.
unfoldable pub utf8_from : ℕ → ℕ → ℕ → List ℕ → Bool
utf8_from zero low high [] = true
utf8_from (suc more) low high [] = false
utf8_from zero low high (b ∷ bytes) =
    let l = lead b in l.valid && utf8_from l.more l.low l.high bytes
utf8_from (suc more) low high (b ∷ bytes) =
    leb low b && leb b high && utf8_from more 0x80 0xbf bytes

-- `core::str::from_utf8(bytes).is_ok()`.
unfoldable pub is_utf8 : List ℕ → Bool
is_utf8 bytes = utf8_from 0 0x80 0xbf bytes

-- `core::str::from_utf8(bytes).unwrap_or("")`, as bytes.
abbrev pub utf8_or_empty : List ℕ → List ℕ
utf8_or_empty bytes = if is_utf8 bytes then bytes else []

-- The copying loop of `Label::new` and `Record::new`: whole characters, while they fit.
unfoldable pub copy_chars : ℕ → List ℕ → Text → List ℕ
copy_chars capacity out [] = out
copy_chars capacity out (ch ∷ text) =
    if ltb capacity (length out + length ch) then out else copy_chars capacity (out ++ ch) text
