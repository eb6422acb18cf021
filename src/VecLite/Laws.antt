-- ===== src/VecLite/Laws.antt =====
-- Writing one place of the inline vector's array, and reading it and the others back.
use i3ml_os.Prelude.{
  ℕ, zero, suc, ◌<◌, ◌≡◌, ◌≢◌, refl, ap, Option, List, [], ◌∷◌, arith, length, set,
}
use i3ml_os.VecLite.{item}

module _ {ℓ} {A : Type ℓ} where
  pub item-set_self :
      (xs : List (Option A)) (i : ℕ) (x : Option A) → i < length xs → item (set xs i x) i ≡ x
  item-set_self [] i x h = elim h [ ]
  item-set_self (y ∷ xs) zero x h = refl
  item-set_self (y ∷ xs) (suc i) x h = item-set_self xs i x (omega arith)

  pub item-set_ne :
      (xs : List (Option A)) (i j : ℕ) (x : Option A) → i ≢ j → item (set xs i x) j ≡ item xs j
  item-set_ne [] i j x h = refl
  item-set_ne (y ∷ xs) zero zero x h = absurd (h refl)
  item-set_ne (y ∷ xs) zero (suc j) x h = refl
  item-set_ne (y ∷ xs) (suc i) zero x h = refl
  item-set_ne (y ∷ xs) (suc i) (suc j) x h = item-set_ne xs i j x (λ e. h (ap suc e))
