-- ===== src/Prelude/Slices.antt =====
-- What `take` and `drop` do to two lists put together.
use Prim.Native.Nat.{ℕ, zero, suc, ◌-◌, ◌≤◌}
use mathlib.Core.Path.{◌≡◌, refl, ap, ◌∙◌}
use mathlib.Core.List.{List, [], ◌∷◌, ◌++◌}
use native.Mathlib.Omega.{arith}
use i3ml_os.Prelude.Lists.{length, take, drop}

module _ {ℓ} {A : Type ℓ} where
  pub take-append_le : (n : ℕ) (xs ys : List A) → n ≤ length xs → take n (xs ++ ys) ≡ take n xs
  take-append_le zero xs ys h = refl
  take-append_le (suc n) [] ys h = absurd (omega arith)
  take-append_le (suc n) (x ∷ xs) ys h =
      ap (λ (t : List A). x ∷ t) (take-append_le n xs ys (omega arith))

  pub drop-append_le :
      (n : ℕ) (xs ys : List A) → n ≤ length xs → drop n (xs ++ ys) ≡ drop n xs ++ ys
  drop-append_le zero xs ys h = refl
  drop-append_le (suc n) [] ys h = absurd (omega arith)
  drop-append_le (suc n) (x ∷ xs) ys h = drop-append_le n xs ys (omega arith)

  pub take_all : (n : ℕ) (xs : List A) → length xs ≤ n → take n xs ≡ xs
  take_all zero [] h = refl
  take_all zero (x ∷ xs) h = absurd (omega arith)
  take_all (suc n) [] h = refl
  take_all (suc n) (x ∷ xs) h = ap (λ (t : List A). x ∷ t) (take_all n xs (omega arith))

  pub take-append-drop : (n : ℕ) (xs : List A) → take n xs ++ drop n xs ≡ xs
  take-append-drop zero xs = refl
  take-append-drop (suc n) [] = refl
  take-append-drop (suc n) (x ∷ xs) = ap (λ (t : List A). x ∷ t) (take-append-drop n xs)

  -- At the seam, and beyond it.
  pub take-append_at : (n : ℕ) (xs ys : List A) → length xs ≡ n → take n (xs ++ ys) ≡ xs
  take-append_at n xs ys h =
      take-append_le n xs ys (omega (arith, h)) ∙ take_all n xs (omega (arith, h))

  pub drop-append_at : (n : ℕ) (xs ys : List A) → length xs ≡ n → drop n (xs ++ ys) ≡ ys
  drop-append_at zero [] ys h = refl
  drop-append_at zero (x ∷ xs) ys h = absurd (omega arith)
  drop-append_at (suc n) [] ys h = absurd (omega arith)
  drop-append_at (suc n) (x ∷ xs) ys h = drop-append_at n xs ys (omega arith)

  pub take-append_more :
      (n k : ℕ) (xs ys : List A) → length xs ≡ k → k ≤ n → take n (xs ++ ys) ≡ xs ++ take (n - k) ys
  take-append_more n zero [] ys h l = let e : n ≡ n - 0 = omega arith in ap (λ (t : ℕ). take t ys) e
  take-append_more n zero (x ∷ xs) ys h l = absurd (omega arith)
  take-append_more n (suc k) [] ys h l = absurd (omega arith)
  take-append_more zero (suc k) (x ∷ xs) ys h l = absurd (omega arith)
  take-append_more (suc n) (suc k) (x ∷ xs) ys h l =
      let e : n - k ≡ suc n - suc k = omega arith in
      ap (λ (t : List A). x ∷ t)
        (take-append_more n k xs ys (omega arith) (omega arith) ∙ ap (λ (t : ℕ). xs ++ take t ys) e)

  pub drop-append_more :
      (n k : ℕ) (xs ys : List A) → length xs ≡ k → k ≤ n → drop n (xs ++ ys) ≡ drop (n - k) ys
  drop-append_more n zero [] ys h l = let e : n ≡ n - 0 = omega arith in ap (λ (t : ℕ). drop t ys) e
  drop-append_more n zero (x ∷ xs) ys h l = absurd (omega arith)
  drop-append_more n (suc k) [] ys h l = absurd (omega arith)
  drop-append_more zero (suc k) (x ∷ xs) ys h l = absurd (omega arith)
  drop-append_more (suc n) (suc k) (x ∷ xs) ys h l =
      let e : n - k ≡ suc n - suc k = omega arith in
      drop-append_more n k xs ys (omega arith) (omega arith) ∙ ap (λ (t : ℕ). drop t ys) e
