-- ===== src/Wasm/Leb/Value.antt =====
-- `unsigned` of libs/wasm/src/leb.rs, its loop byte by byte.
use i3ml_os.Prelude.{
  ℕ, suc, ◌+◌, ◌*◌, ◌%◌, ◌^◌, ◌≤◌, ◌≡◌, ◌≢◌, ◌⊎◌, refl, sym, ◌∙◌, ap, Bool, true, false, List, [],
  ◌∷◌, arith, ltb, leb, length, take, drop, Result, ok, err, ok-injective, ok_ne_err, inl, inr,
  subst, ◌<◌, ltb→lt, ltb_false→le,
}
use native.Mathlib.Numerals.{towards_suc}
use i3ml_os.Wasm.Leb.Payload.{accumulate-value}
use i3ml_os.Wasm.Leb.{Error, overlong, refuses, accumulate, Reader, unsigned, unsigned_loop}

-- The value of a list of seven-bit digits, the lowest first.
abbrev pub leb_value : List ℕ → ℕ
leb_value [] = 0
leb_value (b ∷ bytes) = b % 128 + 128 * leb_value bytes

shift-suc : (s : ℕ) → 2 ^ (s + 7) ≡ 128 * 2 ^ s
shift-suc s = simp towards_suc (omega arith)

-- A byte below 128 ends an integer, and any other goes on.
pub data IsEncoding : List ℕ → Type 0 where
  final_byte : (b : ℕ) → b < 128 → IsEncoding (b ∷ [])
  inner : (b : ℕ) (bytes : List ℕ) → 128 ≤ b → IsEncoding bytes → IsEncoding (b ∷ bytes)

-- What the loop returns when it returns a value: the digits it took, on top of the result so far.
record Took (shift result taken : ℕ) (bytes : List ℕ) (v t : ℕ) : Type 0 where
  count : ℕ
  counted : t ≡ taken + count
  within : count ≤ length bytes
  value : v ≡ result + 2 ^ shift * leb_value (take count bytes)
  framed : IsEncoding (take count bytes)

Took-longer :
    (shift result taken b : ℕ) (rest : List ℕ) (v t : ℕ)
    → 128 ≤ b
    → Took (shift + 7) (result + b % 128 * 2 ^ shift) (taken + 1) rest v t
    → Took shift result taken (b ∷ rest) v t
Took-longer shift result taken b rest v t more k = record {
  count = suc k.count;
  counted = omega (arith, k.counted);
  within = omega (arith, k.within);
  value =
      omega (arith, k.value, ap (λ (x : ℕ). x * leb_value (take k.count rest)) (shift-suc shift));
  framed = inner b (take k.count rest) more k.framed;
}

-- One byte of a run that returns a value: it was not refused, and either it was the last, or the run
-- goes on behind it.
pub loop_step :
    (bits shift result taken b : ℕ) (rest : List ℕ) (v t : ℕ)
    → unsigned_loop bits shift result taken (b ∷ rest) ≡ (ok v, t)
    → (refuses bits shift (b % 128) ≡ false)
      × (((v ≡ accumulate bits shift result (b % 128)) × (t ≡ taken + 1) × (b < 128))
          ⊎ ((128 ≤ b)
              × (unsigned_loop bits
                    (shift + 7)
                    (accumulate bits shift result (b % 128))
                    (taken + 1)
                    rest
                  ≡ (ok v, t))))
unfolding unsigned_loop
loop_step bits shift result taken b rest v t h =
    by_tests (refuses bits shift (b % 128)) (ltb b 128) (leb (bits + 7) (shift + 7)) refl refl refl
  where
    overlong_not : unsigned_loop bits shift result taken (b ∷ rest) ≢ (err overlong, taken + 1)
    overlong_not out = ok_ne_err (ap (λ (x : Result Error ℕ × ℕ). x.0) (sym h ∙ out))

    by_tests :
        (refused last long : Bool)
        → refuses bits shift (b % 128) ≡ refused
        → ltb b 128 ≡ last
        → leb (bits + 7) (shift + 7) ≡ long
        → (refused ≡ false)
          × (((v ≡ accumulate bits shift result (b % 128)) × (t ≡ taken + 1) × (b < 128))
              ⊎ ((128 ≤ b)
                  × (unsigned_loop bits
                        (shift + 7)
                        (accumulate bits shift result (b % 128))
                        (taken + 1)
                        rest
                      ≡ (ok v, t))))
    by_tests true last long e₁ e₂ e₃ = absurd (overlong_not (rw (e₁, unsigned_loop) refl))
    by_tests false true long e₁ e₂ e₃ =
        let out : unsigned_loop bits shift result taken (b ∷ rest)
            ≡ (ok (accumulate bits shift result (b % 128)), taken + 1) =
          rw (e₁, e₂, unsigned_loop) refl in
        let both = sym h ∙ out in
        (
          refl,
          inl (
            ok-injective (ap (λ (x : Result Error ℕ × ℕ). x.0) both),
            ap (λ (x : Result Error ℕ × ℕ). x.1) both,
            ltb→lt b 128 e₂,
          ),
        )
    by_tests false false true e₁ e₂ e₃ = absurd (overlong_not (rw (e₁, e₂, e₃, unsigned_loop) refl))
    by_tests false false false e₁ e₂ e₃ =
        let out : unsigned_loop bits shift result taken (b ∷ rest)
            ≡ unsigned_loop bits (shift + 7) (accumulate bits shift result (b % 128)) (taken + 1)
                rest =
          rw (e₁, e₂, e₃, unsigned_loop) refl in
        (refl, inr (ltb_false→le b 128 e₂, sym out ∙ h))

loop_value :
    (bits shift result taken : ℕ) (bytes : List ℕ) (v t : ℕ)
    → bits ≤ 64
    → unsigned_loop bits shift result taken bytes ≡ (ok v, t)
    → Took shift result taken bytes v t
unfolding unsigned_loop
loop_value bits shift result taken [] v t narrow h =
    absurd (ok_ne_err (sym (ap (λ (x : Result Error ℕ × ℕ). x.0) h)))
loop_value bits shift result taken (b ∷ rest) v t narrow h =
    let step = loop_step bits shift result taken b rest v t h in
    let sum = accumulate-value bits shift result (b % 128) narrow (omega arith) step.0 in
    elim (step.1) [
      | inl (v_eq, t_eq, small) ↦ record {
        count = 1;
        counted = t_eq;
        within = omega arith;
        value = omega (arith, v_eq, sum);
        framed = final_byte b small;
      }
      | inr (more, later) ↦ Took-longer shift result taken b rest v t more (
          subst (λ (x : ℕ). Took (shift + 7) x (taken + 1) rest v t) sum
            (loop_value bits (shift + 7) (accumulate bits shift result (b % 128)) (taken + 1) rest v
              t narrow later))
    ]

-- A value that `unsigned` returns, asked for at most 64 bits, is the value of the bytes that it took: those
-- up to the first below 128. They are there to take, so the reader never runs past the end of its bytes,
-- and it moves past just what it read.
pub unsigned-value :
    (bits : ℕ) (r : Reader) (v : ℕ)
    → bits ≤ 64
    → (unsigned bits r).0 ≡ ok v
    → (n : ℕ) × ((unsigned bits r).1.position ≡ r.position + n)
      × (n ≤ length (drop r.position r.bytes))
      × IsEncoding (take n (drop r.position r.bytes))
      × (v ≡ leb_value (take n (drop r.position r.bytes)))
unfolding unsigned
unsigned-value bits r v narrow h =
    let out = unsigned_loop bits 0 0 0 (drop r.position r.bytes) in
    let took = loop_value bits 0 0 0 (drop r.position r.bytes) v out.1 narrow (λ i. (h i, out.1)) in
    (took.count, omega (arith, took.counted), took.within, took.framed, omega (arith, took.value))
