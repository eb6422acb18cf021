-- ===== src/Sijil/Label.antt =====
-- `Label` of nawa/sijil/src/lib.rs: a short text that is copied, never allocated.
use i3ml_os.Prelude.{
  ℕ, ◌-◌, ◌≡◌, refl, ap, inl, inr, Option, none, some, List, [], ◌++◌, arith, ltb, if◌then◌else◌,
  length, take, replicate, take-append, Bool-cases,
}
use i3ml_os.Text.{Text, as_bytes, copy_chars, utf8_or_empty}
use i3ml_os.Text.Valid.{
  IsText, fitting, copy_chars-fitting, fitting-IsText, as_bytes-is_utf8, fitting_all,
}

abbrev pub label_capacity : ℕ
label_capacity = 40

-- A fixed array of bytes and how many of them are text.
pub record Label : Type 0 where
  pub bytes : List ℕ
  pub length : ℕ

unfoldable pub new : Text → Label
new text =
    let out = copy_chars label_capacity [] text in
    record { bytes = out ++ replicate (label_capacity - length out) 0; length = length out }

-- `text.len()` counts bytes.
unfoldable pub exact : Text → Option Label
exact text = if ltb label_capacity (length (as_bytes text)) then none else some (new text)

unfoldable pub as_str : Label → List ℕ
as_str l = utf8_or_empty (take l.length l.bytes)

-- A label reads back as the longest run of whole characters that its forty bytes hold.
pub as_str-new :
    (text : Text) → IsText text → as_str (new text) ≡ as_bytes (fitting label_capacity 0 text)
unfolding as_str new
as_str-new text h =
    let copied = copy_chars-fitting label_capacity 0 [] text refl in
    rw (
      copied,
      take-append (as_bytes (fitting label_capacity 0 text)),
      as_bytes-is_utf8 _ (fitting-IsText label_capacity 0 text h),
    )

-- A label that `exact` makes of a well-formed text reads back as all of the text.
pub exact_reads_back :
    (text : Text) (l : Label) → IsText text → exact text ≡ some l → as_str l ≡ as_bytes text
unfolding exact
exact_reads_back text l h e = elim (Bool-cases (ltb label_capacity (length (as_bytes text)))) [
  | inl long ↦ ground arith
  | inr short ↦
      ground
        (arith, as_str-new text h, ap as_bytes (fitting_all label_capacity 0 text (ground arith)))
]
