-- ===== src/VecLite.antt =====
-- nawa/core/src/vec_lite.rs: the inline vector of fixed capacity. The array is a list of options,
-- whose length is the constant `N` of the Rust type.
pub mod Laws
use i3ml_os.Prelude.{
  ℕ, zero, suc, ◌+◌, Bool, true, false, Option, none, some, List, [], ◌∷◌, ltb, ◌==◌, if◌then◌else◌,
  length, get_elem?, set, replicate,
}
use mathlib.Core.Option

pub record SmallVec {ℓ} (A : Type ℓ) : Type ℓ where
  pub items : List (Option A)
  pub length : ℕ

-- `items[index]`; the callers keep the index in range.
abbrev pub item {ℓ} : {A : Type ℓ} → List (Option A) → ℕ → Option A
item [] i = none
item (x ∷ xs) zero = x
item (x ∷ xs) (suc i) = item xs i

module _ {ℓ} {A : Type ℓ} where
  abbrev pub new : ℕ → SmallVec A
  new n = record { items = replicate n none; length = 0 }

  unfoldable pub push : A → SmallVec A → SmallVec A × Bool
  push x v =
      if v.length == length v.items
      then (v, false)
      else (record v { items = set v.items v.length (some x); length = v.length + 1 }, true)

  unfoldable pub get : SmallVec A → ℕ → Option A
  get v i = if ltb i v.length then item v.items i else none

  pub len : SmallVec A → ℕ
  len v = v.length

  pub is_empty : SmallVec A → Bool
  is_empty v = v.length == 0

  pub is_full : SmallVec A → Bool
  is_full v = v.length == length v.items

  -- `(0..length).filter_map(...)`: the entries from `index` on, for `count` places.
  unfoldable pub iter_from : List (Option A) → ℕ → ℕ → List A
  iter_from items index zero = []
  iter_from items index (suc count) =
      let rest = iter_from items (index + 1) count in
      elim (item items index) [ none ↦ rest | some x ↦ x ∷ rest ]

  unfoldable pub iter : SmallVec A → List A
  unfolding iter_from
  iter v = iter_from v.items 0 v.length
