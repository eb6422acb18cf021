-- ===== src/Frames/Search.antt =====
-- The search of nawa/core/src/mem.rs for a run of free frames.
use i3ml_os.Prelude.{
  ℕ, zero, suc, ◌+◌, ◌≤◌, ◌<◌, ◌≡◌, ◌≢◌, refl, sym, ◌∙◌, subst, Bool, true, false, ◌==◌, ==_iff,
  ltb, ltb→lt, ltb_false→le, Option, none, some, List, arith, Bool-cases, inl, inr,
}
use mathlib.Core.Option.{some-injective}
use i3ml_os.Frames.{bit_at, search}

abbrev pub AllFree : List Bool → ℕ → ℕ → Type 0
AllFree bits from to = (i : ℕ) → from ≤ i → i < to → bit_at bits i ≡ false

-- Each run of so many frames in a range has a used frame.
abbrev pub NoRun : List Bool → ℕ → ℕ → ℕ → Type 0
NoRun bits from to count =
    (s : ℕ)
    → from ≤ s
    → s + count ≤ to
    → (i : ℕ) × (s ≤ i) × (i < s + count) × (bit_at bits i ≡ true)

pub record Run (bits : List Bool) (from to count : ℕ) (found : ℕ × ℕ) : Type 0 where
  pub after : from ≤ found.0
  pub before : found.1 < to
  pub some_asked : 0 < count
  pub sized : found.1 + 1 ≡ found.0 + count
  pub free : AllFree bits found.0 (found.1 + 1)

pub none_ne_some {ℓ} : {A : Type ℓ} {a : A} → ◌≢◌ {A = Option A} none (some a)
none_ne_some e = cc

AllFree-snoc :
    (bits : List Bool) (from to : ℕ)
    → AllFree bits from to
    → bit_at bits to ≡ false
    → AllFree bits from (to + 1)
AllFree-snoc bits from to all free i h k = elim (Bool-cases (i == to)) [
  | inl same ↦ subst (λ (n : ℕ). bit_at bits n ≡ false) (sym ((==_iff i to).0 same)) free
  | inr other ↦ all i h (below i to k other)
]
  where
    below : (i to : ℕ) → i < to + 1 → (i == to) ≡ false → i < to
    below i to h e = ground arith

Run-wider :
    (bits : List Bool) (from from' to to' count : ℕ) (found : ℕ × ℕ)
    → from ≤ from'
    → to' ≤ to
    → Run bits from' to' count found
    → Run bits from to count found
Run-wider bits from from' to to' count found h k r = record {
  after = omega (arith, h, r.after);
  before = omega (arith, k, r.before);
  some_asked = r.some_asked;
  sized = r.sized;
  free = r.free;
}

-- The run that was found is as long as it was asked for, and free.
pub search-Run :
    (left frame run_start run_length count : ℕ) (bits : List Bool) (found : ℕ × ℕ)
    → frame ≡ run_start + run_length
    → AllFree bits run_start frame
    → search left frame run_start run_length count bits ≡ some found
    → Run bits run_start (frame + left) count found
unfolding search
search-Run zero frame run_start run_length count bits found at all e = absurd (none_ne_some e)
search-Run (suc left) frame run_start run_length count bits found at all e =
    elim (Bool-cases (bit_at bits frame)) [
      | inl used ↦
          Run-wider bits run_start (frame + 1) (frame + suc left) (frame + 1 + left) count found
            (omega (arith, at)) (omega arith)
            (search-Run left (frame + 1) (frame + 1) 0 count bits found (omega arith)
              (λ i h k. absurd (omega (arith, h, k))) (rw (used, search) at e))
      | inr free ↦ elim (Bool-cases (run_length + 1 == count)) [
        | inl enough ↦
            let is : (run_start, frame) ≡ found =
              some-injective (run_start, frame) found (rw (free, enough, search) at e) in
            subst (λ (x : ℕ × ℕ). Run bits run_start (frame + suc left) count x) is
              (record {
                after = omega arith;
                before = omega arith;
                some_asked = omega (arith, (==_iff (run_length + 1) count).0 enough);
                sized = omega (arith, at, (==_iff (run_length + 1) count).0 enough);
                free = AllFree-snoc bits run_start frame all free;
              })
        | inr more ↦
            Run-wider bits run_start run_start (frame + suc left) (frame + 1 + left) count found
              (omega arith) (omega arith)
              (search-Run left (frame + 1) run_start (run_length + 1) count bits found
                (omega (arith, at)) (AllFree-snoc bits run_start frame all free)
                (rw (free, more, search) at e))
      ]
    ]

-- A search that finds none has looked at every run.
pub search-NoRun :
    (left frame run_start run_length count : ℕ) (bits : List Bool)
    → frame ≡ run_start + run_length
    → run_length < count
    → search left frame run_start run_length count bits ≡ none
    → NoRun bits run_start (frame + left) count
unfolding search
search-NoRun zero frame run_start run_length count bits at short e s h k =
    absurd (omega (arith, at, short, h, k))
search-NoRun (suc left) frame run_start run_length count bits at short e s h k =
    elim (Bool-cases (bit_at bits frame)) [
      | inl used ↦ elim (Bool-cases (ltb frame s)) [
        | inl later ↦
            search-NoRun left (frame + 1) (frame + 1) 0 count bits (omega arith)
              (omega (arith, short)) (rw (used, search) at e) s
              (omega (arith, ltb→lt frame s later)) (omega (arith, k))
        | inr around ↦
            let before = ltb_false→le frame s around in
            (frame, before, omega (arith, at, short, h), used)
      ]
      | inr free ↦ elim (Bool-cases (run_length + 1 == count)) [
        | inl enough ↦
            let out : search (suc left) frame run_start run_length count bits
                ≡ some (run_start, frame) =
              rw (free, enough, search) refl in
            absurd (none_ne_some (sym e ∙ out))
        | inr more ↦
            search-NoRun left (frame + 1) run_start (run_length + 1) count bits (omega (arith, at))
              (longer run_length count short more) (rw (free, more, search) at e) s h
              (omega (arith, k))
      ]
    ]
  where
    longer : (n count : ℕ) → n < count → (n + 1 == count) ≡ false → n + 1 < count
    longer n count h e = ground arith
