-- ===== src/Prelude/Lists.antt =====
-- Lists measured and indexed by native numbers, under the library's names.
use Prim.Native.Nat.{ℕ, zero, suc, ◌+◌, ◌-◌, ◌≤◌, ◌<◌, min}
use mathlib.Core.Path.{◌≡◌, refl, sym, ap, subst}
use mathlib.Core.Logic.{◌≢◌, ◌⊎◌, inl, inr}
use mathlib.Core.Bool.{Bool, true, false, ◌||◌}
use mathlib.Core.List.{List, [], ◌∷◌, ◌++◌, map}
use mathlib.Core.Option.{Option, none, some, some-injective}
use native.Mathlib.Omega.{arith}
use i3ml_os.Prelude.Tests.{if◌then◌else◌, Bool-cases}

module _ {ℓ} {A : Type ℓ} where
  abbrev pub length : List A → ℕ
  length [] = 0
  length (x ∷ xs) = suc (length xs)

  abbrev pub get_elem? : List A → ℕ → Option A
  get_elem? [] i = none
  get_elem? (x ∷ xs) zero = some x
  get_elem? (x ∷ xs) (suc i) = get_elem? xs i

  -- A write out of bounds changes nothing.
  abbrev pub set : List A → ℕ → A → List A
  set [] i v = []
  set (x ∷ xs) zero v = v ∷ xs
  set (x ∷ xs) (suc i) v = x ∷ set xs i v

  abbrev pub take : ℕ → List A → List A
  take zero xs = []
  take (suc n) [] = []
  take (suc n) (x ∷ xs) = x ∷ take n xs

  abbrev pub drop : ℕ → List A → List A
  drop zero xs = xs
  drop (suc n) [] = []
  drop (suc n) (x ∷ xs) = drop n xs

  abbrev pub replicate : ℕ → A → List A
  replicate zero a = []
  replicate (suc n) a = a ∷ replicate n a

  -- `iter().any(test)`, `iter().find(test)` and `iter().filter(test)`.
  abbrev pub any : (A → Bool) → List A → Bool
  any test [] = false
  any test (x ∷ xs) = test x || any test xs

  abbrev pub find : (A → Bool) → List A → Option A
  find test [] = none
  find test (x ∷ xs) = if test x then some x else find test xs

  abbrev pub filter : (A → Bool) → List A → List A
  filter test [] = []
  filter test (x ∷ xs) = let rest = filter test xs in if test x then x ∷ rest else rest

  -- `iter_mut().find(test)` followed by a write through the reference.
  abbrev pub modify_first : (A → Bool) → (A → A) → List A → List A
  modify_first test f [] = []
  modify_first test f (x ∷ xs) = if test x then f x ∷ xs else x ∷ modify_first test f xs

  pub length-append : (xs ys : List A) → length (xs ++ ys) ≡ length xs + length ys
  length-append [] ys = omega arith
  length-append (x ∷ xs) ys = omega (arith, length-append xs ys)

  pub length-set : (xs : List A) (i : ℕ) (v : A) → length (set xs i v) ≡ length xs
  length-set [] i v = refl
  length-set (x ∷ xs) zero v = refl
  length-set (x ∷ xs) (suc i) v = ap suc (length-set xs i v)

  pub length-replicate : (n : ℕ) (a : A) → length (replicate n a) ≡ n
  length-replicate zero a = refl
  length-replicate (suc n) a = ap suc (length-replicate n a)

  pub length-take : (n : ℕ) (xs : List A) → length (take n xs) ≡ min n (length xs)
  length-take zero xs = omega arith
  length-take (suc n) [] = omega arith
  length-take (suc n) (x ∷ xs) = omega (arith, length-take n xs)

  pub length-drop : (n : ℕ) (xs : List A) → length (drop n xs) ≡ length xs - n
  length-drop zero xs = omega arith
  length-drop (suc n) [] = omega arith
  length-drop (suc n) (x ∷ xs) = omega (arith, length-drop n xs)

  pub drop_all : (xs : List A) (n : ℕ) → length xs ≤ n → drop n xs ≡ []
  drop_all [] zero h = refl
  drop_all [] (suc n) h = refl
  drop_all (x ∷ xs) zero h = absurd (omega arith)
  drop_all (x ∷ xs) (suc n) h = drop_all xs n (omega arith)

  pub drop_step :
      (xs : List A) (n : ℕ) {x : A} → get_elem? xs n ≡ some x → drop n xs ≡ x ∷ drop (suc n) xs
  drop_step [] n e = cc
  drop_step (y ∷ xs) zero e = ground arith
  drop_step (y ∷ xs) (suc n) e = drop_step xs n e

  pub take-append : (xs ys : List A) → take (length xs) (xs ++ ys) ≡ xs
  take-append [] ys = refl
  take-append (x ∷ xs) ys = ap (◌∷◌ x) (take-append xs ys)

  pub drop-append : (xs ys : List A) → drop (length xs) (xs ++ ys) ≡ ys
  drop-append [] ys = refl
  drop-append (x ∷ xs) ys = drop-append xs ys

  pub get_elem?-set_self :
      (xs : List A) (i : ℕ) (v : A) → i < length xs → get_elem? (set xs i v) i ≡ some v
  get_elem?-set_self [] i v h = elim h [ ]
  get_elem?-set_self (x ∷ xs) zero v h = refl
  get_elem?-set_self (x ∷ xs) (suc i) v h = get_elem?-set_self xs i v (omega arith)

  pub get_elem?-set_ne :
      (xs : List A) (i j : ℕ) (v : A) → i ≢ j → get_elem? (set xs i v) j ≡ get_elem? xs j
  get_elem?-set_ne [] i j v h = refl
  get_elem?-set_ne (x ∷ xs) zero zero v h = absurd (h refl)
  get_elem?-set_ne (x ∷ xs) zero (suc j) v h = refl
  get_elem?-set_ne (x ∷ xs) (suc i) zero v h = refl
  get_elem?-set_ne (x ∷ xs) (suc i) (suc j) v h = get_elem?-set_ne xs i j v (λ e. h (ap suc e))

  pub get_elem?-append_left :
      (xs ys : List A) (i : ℕ) → i < length xs → get_elem? (xs ++ ys) i ≡ get_elem? xs i
  get_elem?-append_left [] ys i h = elim h [ ]
  get_elem?-append_left (x ∷ xs) ys zero h = refl
  get_elem?-append_left (x ∷ xs) ys (suc i) h = get_elem?-append_left xs ys i (omega arith)

  pub get_elem?-append_end : (xs : List A) (x : A) → get_elem? (xs ++ (x ∷ [])) (length xs) ≡ some x
  get_elem?-append_end [] x = refl
  get_elem?-append_end (y ∷ xs) x = get_elem?-append_end xs x

  pub get_elem?-lt : (xs : List A) (i : ℕ) {x : A} → get_elem? xs i ≡ some x → i < length xs
  get_elem?-lt [] i e = cc
  get_elem?-lt (y ∷ xs) zero e = omega arith
  get_elem?-lt (y ∷ xs) (suc i) e = omega (arith, get_elem?-lt xs i e)

  pub get_elem?-length_le : (xs : List A) (i : ℕ) → length xs ≤ i → get_elem? xs i ≡ none
  get_elem?-length_le [] i h = refl
  get_elem?-length_le (y ∷ xs) zero h = absurd (omega arith)
  get_elem?-length_le (y ∷ xs) (suc i) h = get_elem?-length_le xs i (omega arith)

  pub get_elem?-some : (xs : List A) (i : ℕ) → i < length xs → (x : A) × (get_elem? xs i ≡ some x)
  get_elem?-some [] i h = elim h [ ]
  get_elem?-some (y ∷ xs) zero h = (y, refl)
  get_elem?-some (y ∷ xs) (suc i) h = get_elem?-some xs i (omega arith)

  -- Where an entry of `xs ++ (x ∷ [])` comes from.
  pub get_elem?-append_cases :
      (xs : List A) (x : A) (i : ℕ) {y : A}
      → get_elem? (xs ++ (x ∷ [])) i ≡ some y
      → (get_elem? xs i ≡ some y) ⊎ ((i ≡ length xs) × (x ≡ y))
  get_elem?-append_cases [] x zero e = ground arith
  get_elem?-append_cases [] x (suc i) e = cc
  get_elem?-append_cases (z ∷ xs) x zero e = ground arith
  get_elem?-append_cases (z ∷ xs) x (suc i) e = ground (arith, get_elem?-append_cases xs x i e)

-- A predicate that every entry satisfies.
abbrev pub All {ℓ κ} : {A : Type ℓ} → (A → Type κ) → List A → Type κ
All P [] = Unit
All P (x ∷ xs) = P x × All P xs

module _ {ℓ κ} {A : Type ℓ} (P : A → Type κ) where
  pub All-append : (xs ys : List A) → All P xs → All P ys → All P (xs ++ ys)
  All-append [] ys hx hy = hy
  All-append (x ∷ xs) ys hx hy = (hx.0, All-append xs ys hx.1 hy)

  pub All-get_elem? : (xs : List A) (i : ℕ) {x : A} → All P xs → get_elem? xs i ≡ some x → P x
  All-get_elem? [] i h e = cc
  All-get_elem? (y ∷ xs) zero {x} h e = subst P (some-injective y x e) h.0
  All-get_elem? (y ∷ xs) (suc i) h e = All-get_elem? xs i h.1 e

module _ {ℓ} {A : Type ℓ} (test : A → Bool) where
  -- A write through `iter_mut().find` is seen by the next `find`.
  pub find-modify_first :
      (f : A → A) (xs : List A) (x : A)
      → ((y : A) → test y ≡ true → test (f y) ≡ true)
      → find test xs ≡ some x
      → find test (modify_first test f xs) ≡ some (f x)
  find-modify_first f [] x keep e = cc
  find-modify_first f (y ∷ xs) x keep e = elim (Bool-cases (test y)) [
    | inl here ↦ ground (arith, keep y here)
    | inr later ↦ ground (arith, find-modify_first f xs x keep (rw later at e))
  ]

  -- A search finds something where something passes.
  pub find-reaches :
      (xs : List A) (i : ℕ) (x : A)
      → get_elem? xs i ≡ some x
      → test x ≡ true
      → (y : A) × (find test xs ≡ some y)
  find-reaches [] i x e h = cc
  find-reaches (y ∷ xs) zero x e h =
      let there : test y ≡ true = subst (λ (z : A). test z ≡ true) (sym (some-injective y x e)) h in
      (y, rw there refl)
  find-reaches (y ∷ xs) (suc i) x e h = elim (Bool-cases (test y)) [
    | inl here ↦ (y, rw here refl)
    | inr later ↦ let (z, found) = find-reaches xs i x e h in (z, rw later found)
  ]

  -- A search that found nothing reaches what is put at the end.
  pub find-append :
      (xs : List A) (x : A)
      → find test xs ≡ none
      → test x ≡ true
      → find test (xs ++ (x ∷ [])) ≡ some x
  find-append [] x e h = ground arith
  find-append (y ∷ xs) x e h = ground (arith, find-append xs x)

  pub find-modify_other :
      (other : A → Bool) (f : A → A) (xs : List A)
      → ((y : A) → test (f y) ≡ test y)
      → find test xs ≡ none
      → find test (modify_first other f xs) ≡ none
  find-modify_other other f [] same e = refl
  find-modify_other other f (y ∷ xs) same e =
      ground (arith, same y, find-modify_other other f xs same)

  pub find-passes : (xs : List A) (x : A) → find test xs ≡ some x → test x ≡ true
  find-passes [] x e = cc
  find-passes (y ∷ xs) x e = ground (arith, find-passes xs x)

  -- What `any` found.
  pub any-found :
      (xs : List A)
      → any test xs ≡ true
      → (i : ℕ) × (x : A) × (get_elem? xs i ≡ some x) × (test x ≡ true)
  any-found [] h = cc
  any-found (y ∷ xs) h = elim (Bool-cases (test y)) [
    | inl here ↦ (0, y, refl, here)
    | inr later ↦ let (i, x, e, t) = any-found xs (rw later at h) in (suc i, x, e, t)
  ]

module _ {ℓ κ} {A : Type ℓ} {B : Type κ} where
  -- A write that keeps a field keeps the list of that field.
  pub map-modify_first :
      (test : A → Bool) (f : A → A) (g : A → B) (xs : List A)
      → ((x : A) → g (f x) ≡ g x)
      → map g (modify_first test f xs) ≡ map g xs
  map-modify_first test f g [] keep = refl
  map-modify_first test f g (x ∷ xs) keep =
      ground (arith, keep x, map-modify_first test f g xs keep)
