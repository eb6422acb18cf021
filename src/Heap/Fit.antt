-- ===== src/Heap/Fit.antt =====
-- `alloc` of nawa/core/src/heap.rs and its walk over the free list.
use native.Mathlib.Nat.{mul_assoc, mul_comm, mul-mod_left, mod-lt, div-add-mod, pow-suc}
use i3ml_os.Prelude.{
  ℕ, zero, suc, ◌+◌, ◌-◌, ◌*◌, ◌/◌, ◌%◌, ◌^◌, ◌≤◌, ◌<◌, ◌≡◌, ◌≢◌, inl, inr, refl, sym, ◌∙◌, ap,
  subst, Bool, true, false, not, ◌&&◌, ◌||◌, ltb, ltb_false→le, leb, ◌==◌, max, Option, none, some,
  List, [], ◌∷◌, ◌++◌, arith, All, All-append, Bool-cases, Option-cases,
}
use mathlib.Core.Option.{some-injective}
use i3ml_os.Heap.{
  FreeBlock, alloc_in, next_multiple, tail_of, padding_of, effective_size, effective_align, Layout,
}
use i3ml_os.Heap.Cover.{holds, cover, cover-append, holds-split, holds_none}

-- Every block begins at a multiple of 16 and is as long as one.
abbrev pub IsQuantum : FreeBlock → Type 0
IsQuantum block = (block.0 % 16 ≡ 0) × (block.1 % 16 ≡ 0)

pub next_multiple-le : (n align : ℕ) → 0 < align → n ≤ next_multiple n align
next_multiple-le n align h =
    let m = n + (align - 1) in
    omega (arith, div-add-mod m align, mul_comm align (m / align), mod-lt m h)

pub next_multiple-mod : (n align : ℕ) → next_multiple n align % align ≡ 0
next_multiple-mod n align = mul-mod_left ((n + (align - 1)) / align) align

times_quantum : (k align : ℕ) → align % 16 ≡ 0 → k * align % 16 ≡ 0
times_quantum k align h =
    let sixteens : align ≡ align / 16 * 16 = omega (arith, h) in
    ap (λ (a : ℕ). k * a % 16) sixteens
    ∙ (ap (λ (p : ℕ). p % 16) (sym (mul_assoc k (align / 16) 16))
        ∙ mul-mod_left (k * (align / 16)) 16)

pub next_multiple-quantum : (n align : ℕ) → align % 16 ≡ 0 → next_multiple n align % 16 ≡ 0
next_multiple-quantum n align h = times_quantum ((n + (align - 1)) / align) align h

cover-tail_of :
    (byte address block_size used : ℕ)
    → (block_size - used) % 16 ≡ 0
    → cover byte (tail_of address block_size used) ≡ holds byte (address + used) (block_size - used)
cover-tail_of byte address block_size used h = elim (Bool-cases (leb 16 (block_size - used))) [
  | inl some_left ↦ rw (some_left, tail_of) (omega arith)
  | inr none_left ↦
      let empty = nothing (block_size - used) none_left h in
      rw (none_left, tail_of)
        (sym (ap (holds byte (address + used)) empty ∙ holds_none byte (address + used)))
]
  where
    nothing : (n : ℕ) → leb 16 n ≡ false → n % 16 ≡ 0 → n ≡ 0
    nothing n h k = ground arith

cover-padding_of :
    (byte address padding : ℕ)
    → (not (padding == 0) && ltb padding 16) ≡ false
    → cover byte (padding_of address padding) ≡ holds byte address padding
cover-padding_of byte address padding h = elim (Bool-cases (leb 16 padding)) [
  | inl some_left ↦ rw (some_left, padding_of) (omega arith)
  | inr none_left ↦
      let empty = nothing padding h none_left in
      rw (none_left, padding_of) (sym (ap (holds byte address) empty ∙ holds_none byte address))
]
  where
    nothing : (n : ℕ) → (not (n == 0) && ltb n 16) ≡ false → leb 16 n ≡ false → n ≡ 0
    nothing n h k = ground arith

-- What an allocation took, and what it left.
pub record Taken (size align : ℕ) (list : List FreeBlock) (found : ℕ × List FreeBlock)
    : Type 0 where
  pub aligned : found.0 % align ≡ 0
  pub quantum : found.0 % 16 ≡ 0
  pub covers : (byte : ℕ) → cover byte list ≡ holds byte found.0 size + cover byte found.1
  pub left : All IsQuantum found.1

-- The block that fits, in its parts.
module _ (size align address block_size : ℕ) (rest : List FreeBlock) where
  abbrev payload : ℕ
  payload = next_multiple address align

  abbrev padding : ℕ
  padding = payload - address

  Taken-here :
      0 < align
      → align % 16 ≡ 0
      → size % 16 ≡ 0
      → IsQuantum (address, block_size)
      → All IsQuantum rest
      → (not (padding == 0) && ltb padding 16) ≡ false
      → padding + size ≤ block_size
      → Taken size align ((address, block_size) ∷ rest) (
        payload,
        tail_of address block_size (padding + size) ++ (padding_of address padding ++ rest),
      )
  Taken-here positive aligned sized (address_quantum, size_quantum) rests guard fits =
      let after = next_multiple-le address align positive in
      let payload_quantum = next_multiple-quantum address align aligned in
      let tail_quantum : (block_size - (padding + size)) % 16 ≡ 0 =
        omega (arith, payload_quantum, address_quantum, size_quantum, sized, fits, after) in
      record {
        aligned = next_multiple-mod address align;
        quantum = payload_quantum;
        covers = λ byte. split byte after fits tail_quantum guard;
        left =
            All-append IsQuantum (tail_of address block_size (padding + size))
              (padding_of address padding ++ rest)
              (tail_all tail_quantum
                (omega (arith, payload_quantum, address_quantum, sized, after)))
              (All-append IsQuantum (padding_of address padding) rest
                (padding_all address_quantum
                  (omega (arith, payload_quantum, address_quantum, after)))
                rests);
      }
    where
      split :
          (byte : ℕ)
          → address ≤ payload
          → padding + size ≤ block_size
          → (block_size - (padding + size)) % 16 ≡ 0
          → (not (padding == 0) && ltb padding 16) ≡ false
          → cover byte ((address, block_size) ∷ rest)
            ≡ holds byte payload size
              + cover byte (
                  tail_of address block_size (padding + size)
                  ++ (padding_of address padding ++ rest))
      split byte after fits tail_quantum guard =
          let used = padding + size in
          let left = block_size - used in
          let all : block_size ≡ padding + (size + left) = omega (arith, fits) in
          let at : address + padding ≡ payload = omega (arith, after) in
          let behind : address + used ≡ payload + size = omega (arith, after) in
          let whole : holds byte address block_size
              ≡ holds byte address padding + holds byte payload (size + left) =
            ap (holds byte address) all
            ∙ (holds-split byte address padding (size + left)
                ∙ ap (λ (a : ℕ). holds byte address padding + holds byte a (size + left)) at) in
          let parts = holds-split byte payload size left in
          let tail : cover byte (tail_of address block_size used)
              ≡ holds byte (payload + size) left =
            cover-tail_of byte address block_size used tail_quantum
            ∙ ap (λ (a : ℕ). holds byte a left) behind in
          omega (
            arith,
            whole,
            parts,
            tail,
            cover-padding_of byte address padding guard,
            cover-append byte (tail_of address block_size used)
                (padding_of address padding ++ rest),
            cover-append byte (padding_of address padding) rest,
          )

      tail_all :
          (block_size - (padding + size)) % 16 ≡ 0
          → (address + (padding + size)) % 16 ≡ 0
          → All IsQuantum (tail_of address block_size (padding + size))
      tail_all h k = elim (Bool-cases (leb 16 (block_size - (padding + size)))) [
        | inl some_left ↦ rw (some_left, tail_of) ((k, h), tt)
        | inr none_left ↦ rw (none_left, tail_of) tt
      ]

      padding_all : address % 16 ≡ 0 → padding % 16 ≡ 0 → All IsQuantum (padding_of address padding)
      padding_all h k = elim (Bool-cases (leb 16 padding)) [
        | inl some_left ↦ rw (some_left, padding_of) ((h, k), tt)
        | inr none_left ↦ rw (none_left, padding_of) tt
      ]

-- The walk of `alloc` takes the first block that fits, and passes over the others.
pub alloc_in-Taken :
    (size align : ℕ) (list : List FreeBlock) (found : ℕ × List FreeBlock)
    → 0 < align
    → align % 16 ≡ 0
    → size % 16 ≡ 0
    → All IsQuantum list
    → alloc_in size align list ≡ some found
    → Taken size align list found
unfolding alloc_in
alloc_in-Taken size align [] found positive aligned sized quantum e = absurd (none_ne_some e)
  where
    none_ne_some : ◌≢◌ {A = Option (ℕ × List FreeBlock)} none (some found)
    none_ne_some e = cc
alloc_in-Taken size align ((address, block_size) ∷ rest) found positive aligned sized quantum e =
    elim (Bool-cases passed) [
      | inr fits ↦
          let (guard, room) = both fits in
          let out : alloc_in size align ((address, block_size) ∷ rest)
              ≡ some (
                payload₀,
                tail_of address block_size (padding₀ + size)
                    ++ (padding_of address padding₀ ++ rest),
              ) =
            rw (fits, alloc_in) refl in
          subst (λ (x : ℕ × List FreeBlock). Taken size align ((address, block_size) ∷ rest) x)
            (some-injective _ found (sym out ∙ e))
            (Taken-here size align address block_size rest positive aligned sized quantum.0
              quantum.1 guard room)
      | inl passes ↦ elim (Option-cases (alloc_in size align rest)) [
        | inl nowhere ↦
            let out : alloc_in size align ((address, block_size) ∷ rest) ≡ none =
              rw (passes, nowhere, alloc_in) refl in
            absurd (none_ne_some (sym out ∙ e))
        | inr ((pointer, left), got) ↦
            let t =
              alloc_in-Taken size align rest (pointer, left) positive aligned sized quantum.1 got in
            let out : alloc_in size align ((address, block_size) ∷ rest)
                ≡ some (pointer, (address, block_size) ∷ left) =
              rw (passes, got, alloc_in) refl in
            subst (λ (x : ℕ × List FreeBlock). Taken size align ((address, block_size) ∷ rest) x)
              (some-injective (pointer, (address, block_size) ∷ left) found (sym out ∙ e))
              (record {
                aligned = t.aligned;
                quantum = t.quantum;
                covers = λ byte. omega (arith, t.covers byte);
                left = (quantum.0, t.left);
              })
      ]
    ]
  where
    none_ne_some : ◌≢◌ {A = Option (ℕ × List FreeBlock)} none (some found)
    none_ne_some e = cc

    payload₀ : ℕ
    payload₀ = next_multiple address align

    padding₀ : ℕ
    padding₀ = next_multiple address align - address

    passed : Bool
    passed =
        (not (next_multiple address align - address == 0)
          && ltb (next_multiple address align - address) 16)
        || ltb block_size (next_multiple address align - address + size)

    either : (a b : Bool) → (a || b) ≡ false → (a ≡ false) × (b ≡ false)
    either true b e = absurd (contra e)
      where
        contra : true ≢ false
        contra e = cc
    either false b e = (refl, e)

    both :
        passed ≡ false
        → ((not (padding₀ == 0) && ltb padding₀ 16) ≡ false) × (padding₀ + size ≤ block_size)
    both e =
        let (guard, room) =
          either (not (padding₀ == 0) && ltb padding₀ 16) (ltb block_size (padding₀ + size)) e in
        (guard, ltb_false→le block_size (padding₀ + size) room)

-- An alignment is a power of two.
pub record IsLayout (layout : Layout) : Type 0 where
  pub exponent : ℕ
  pub power : layout.align ≡ 2 ^ exponent

pub effective_size-quantum : (layout : Layout) → effective_size layout % 16 ≡ 0
effective_size-quantum layout = next_multiple-mod (max layout.size 16) 16

power_quantum : (k : ℕ) → max (2 ^ k) 16 % 16 ≡ 0
power_quantum zero = refl
power_quantum (suc zero) = refl
power_quantum (suc (suc zero)) = refl
power_quantum (suc (suc (suc zero))) = refl
power_quantum (suc (suc (suc (suc k)))) =
    omega (
      arith,
      pow-suc 2 (suc (suc (suc k))),
      pow-suc 2 (suc (suc k)),
      pow-suc 2 (suc k),
      pow-suc 2 k,
    )

pub effective_align-quantum : (layout : Layout) → IsLayout layout → effective_align layout % 16 ≡ 0
effective_align-quantum layout is =
    ap (λ (n : ℕ). max n 16 % 16) is.power ∙ power_quantum is.exponent

pub effective_align-positive : (layout : Layout) → 0 < effective_align layout
effective_align-positive layout = omega arith
