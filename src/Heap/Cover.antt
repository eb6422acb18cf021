-- ===== src/Heap/Cover.antt =====
-- How many blocks of a list hold a byte.
use i3ml_os.Prelude.{ℕ, ◌+◌, ◌≡◌, ◌&&◌, ltb, leb, if◌then◌else◌, List, [], ◌∷◌, ◌++◌, arith}
use i3ml_os.Heap.{FreeBlock}

abbrev pub holds : ℕ → ℕ → ℕ → ℕ
holds byte address size = if leb address byte && ltb byte (address + size) then 1 else 0

abbrev pub cover : ℕ → List FreeBlock → ℕ
cover byte [] = 0
cover byte ((address, size) ∷ list) = holds byte address size + cover byte list

pub cover-append :
    (byte : ℕ) (xs ys : List FreeBlock) → cover byte (xs ++ ys) ≡ cover byte xs + cover byte ys
cover-append byte [] ys = omega arith
cover-append byte ((address, size) ∷ xs) ys = omega (arith, cover-append byte xs ys)

-- A block and its two parts.
pub holds-split :
    (byte address m n : ℕ)
    → holds byte address (m + n) ≡ holds byte address m + holds byte (address + m) n
holds-split byte address m n = ground arith

pub holds_none : (byte address : ℕ) → holds byte address 0 ≡ 0
holds_none byte address = ground arith
