-- ===== src/Text/Valid.antt =====
-- The UTF-8 of copied text.
use i3ml_os.Prelude.{
  ℕ, zero, suc, ◌+◌, ◌≤◌, ◌≡◌, refl, sym, true, ◌&&◌, List, [], ◌∷◌, ◌++◌, arith, leb, ltb,
  if◌then◌else◌, length, length-append, All, and_true, true_and, Bool-cases, inl, inr,
}
use mathlib.Core.List.{append_assoc, append-nil}
use i3ml_os.Text.{Char, Text, lead, utf8_from, is_utf8, copy_chars, as_bytes}

-- One character: a lead byte, and as many bytes as it announces.
abbrev pub IsChar : Char → Type 0
IsChar [] = ⊥
IsChar (b ∷ tail) =
    ((lead b).valid ≡ true)
    × (length tail ≡ (lead b).more)
    × (utf8_from (lead b).more (lead b).low (lead b).high tail ≡ true)

abbrev pub IsText : Text → Type 0
IsText = All IsChar

utf8_from-append :
    (more low high low' high' : ℕ) (tail rest : List ℕ)
    → length tail ≡ more
    → utf8_from more low high tail ≡ true
    → utf8_from 0 low' high' rest ≡ true
    → utf8_from more low high (tail ++ rest) ≡ true
unfolding utf8_from
utf8_from-append zero low high l h [] [] e v r = refl
utf8_from-append zero low high l h [] (b ∷ rest) e v r = r
utf8_from-append (suc more) low high l h [] rest e v r = absurd (omega arith)
utf8_from-append zero low high l h (b ∷ tail) rest e v r = absurd (omega arith)
utf8_from-append (suc more) low high l h (b ∷ tail) rest e v r =
    let parts = and_true (leb low b && leb b high) _ v in
    let range = and_true (leb low b) (leb b high) parts.0 in
    true_and (leb low b && leb b high) _ (true_and (leb low b) (leb b high) range.0 range.1)
      (utf8_from-append more 0x80 0xbf l h tail rest (omega arith) parts.1 r)

char-append-is_utf8 :
    (ch : Char) (rest : List ℕ) → IsChar ch → is_utf8 rest ≡ true → is_utf8 (ch ++ rest) ≡ true
unfolding is_utf8 utf8_from
char-append-is_utf8 [] rest h r = absurd h
char-append-is_utf8 (b ∷ tail) rest h r =
    true_and (lead b).valid _ h.0
      (utf8_from-append (lead b).more (lead b).low (lead b).high 0x80 0xbf tail rest h.1 h.2 r)

-- The characters that are copied: the longest run of whole characters that fits.
abbrev pub fitting : ℕ → ℕ → Text → Text
fitting capacity used [] = []
fitting capacity used (ch ∷ text) =
    if ltb capacity (used + length ch) then [] else ch ∷ fitting capacity (used + length ch) text

pub copy_chars-fitting :
    (capacity used : ℕ) (out : List ℕ) (text : Text)
    → length out ≡ used
    → copy_chars capacity out text ≡ out ++ as_bytes (fitting capacity used text)
unfolding copy_chars
copy_chars-fitting capacity used out [] e = sym (append-nil out)
copy_chars-fitting capacity used out (ch ∷ text) e =
    let rest =
      copy_chars-fitting capacity (used + length ch) (out ++ ch) text
        (omega (arith, length-append out ch)) in
    elim (Bool-cases (ltb capacity (used + length ch))) [
      | inl full ↦ rw (e, full) (sym (append-nil out))
      | inr room ↦ rw (e, room, rest) (append_assoc out ch _)
    ]

pub fitting-IsText :
    (capacity used : ℕ) (text : Text) → IsText text → IsText (fitting capacity used text)
fitting-IsText capacity used [] h = tt
fitting-IsText capacity used (ch ∷ text) h =
    ground (arith, fitting-IsText capacity (used + length ch) text h.1)

pub as_bytes-is_utf8 : (text : Text) → IsText text → is_utf8 (as_bytes text) ≡ true
unfolding is_utf8 utf8_from
as_bytes-is_utf8 [] h = refl
as_bytes-is_utf8 (ch ∷ text) h =
    char-append-is_utf8 ch (as_bytes text) h.0 (as_bytes-is_utf8 text h.1)

pub length-fitting-le :
    (capacity used : ℕ) (text : Text)
    → used ≤ capacity
    → used + length (as_bytes (fitting capacity used text)) ≤ capacity
length-fitting-le capacity used [] h = omega arith
length-fitting-le capacity used (ch ∷ text) h =
    elim (Bool-cases (ltb capacity (used + length ch))) [
      | inl full ↦ rw full (omega arith)
      | inr room ↦
          rw (room, length-append ch (as_bytes (fitting capacity (used + length ch) text)))
            (omega (arith, length-fitting-le capacity (used + length ch) text (ground arith)))
    ]

-- Text that fits is copied whole.
pub fitting_all :
    (capacity used : ℕ) (text : Text)
    → used + length (as_bytes text) ≤ capacity
    → fitting capacity used text ≡ text
fitting_all capacity used [] h = refl
fitting_all capacity used (ch ∷ text) h =
    ground (arith, length-append ch (as_bytes text), fitting_all capacity (used + length ch) text)
