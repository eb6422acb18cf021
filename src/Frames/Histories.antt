-- ===== src/Frames/Histories.antt =====
-- Any history of allocations and returns with nawa/core/src/mem.rs.
use i3ml_os.Prelude.{
  ℕ, ◌+◌, ◌*◌, ◌≤◌, ◌<◌, ◌≡◌, ◌≢◌, ◌⊎◌, refl, sym, ◌∙◌, subst, true, false, ◌==◌, ltb, ltb→lt,
  ltb_false→le, none, some, List, [], ◌∷◌, ◌++◌, arith, Bool-cases, Option-cases, inl, inr, All,
}
use mathlib.Core.Option.{some-injective}
use i3ml_os.Frames.{Allocator, allocate_contiguous, free_frames, search_from, bit_at, page_size}
use i3ml_os.Frames.Search.{none_ne_some}
use i3ml_os.Frames.Marks.{AllUsed}
use i3ml_os.Frames.Ownership.{IsValid, Allocated, allocate-Allocated}
use i3ml_os.Frames.Returns.{Returned, free_frames-Returned, side}

true_ne_false : true ≢ false
true_ne_false e = cc

-- A block of frames: the first, and how many.
abbrev pub Block : Type 0
Block = ℕ × ℕ

-- `Reached a₀ a live`: from `a₀`, by allocations and returns of whole blocks, to `a` with these blocks
-- handed out and not returned.
pub data Reached (a₀ : Allocator) : Allocator → List Block → Type 0 where
  start : Reached a₀ a₀ []
  allocated :
      {a : Allocator} {live : List Block} (count first : ℕ)
      → Reached a₀ a live
      → (allocate_contiguous count a).0 ≡ some (a.base + first * page_size)
      → Reached a₀ (allocate_contiguous count a).1 ((first, count) ∷ live)
  refused :
      {a : Allocator} {live : List Block} (count : ℕ)
      → Reached a₀ a live
      → (allocate_contiguous count a).0 ≡ none
      → Reached a₀ (allocate_contiguous count a).1 live
  returned :
      {a a' : Allocator} (before : List Block) (block : Block) (after : List Block)
      → Reached a₀ a (before ++ (block ∷ after))
      → free_frames (a.base + block.0 * page_size) block.1 (some a) ≡ some a'
      → Reached a₀ a' (before ++ after)

-- Two blocks share no frame.
abbrev pub Apart : Block → Block → Type 0
Apart x y = (x.0 + x.1 ≤ y.0) ⊎ (y.0 + y.1 ≤ x.0)

abbrev pub Disjoint : List Block → Type 0
Disjoint [] = Unit {0}
Disjoint (x ∷ xs) = All (Apart x) xs × Disjoint xs

-- A block that its owner may use: its frames are in the region, and the bitmap has them as used.
pub record Owned (a : Allocator) (x : Block) : Type 0 where
  pub some_frames : 0 < x.1
  pub inside : x.0 + x.1 ≤ a.frames
  pub used : AllUsed a.bitmap x.0 (x.0 + x.1)

pub record IsOwned (a : Allocator) (live : List Block) : Type 0 where
  pub valid : IsValid a
  pub owned : All (Owned a) live
  pub disjoint : Disjoint live

module _ {ℓ κ μ} {A : Type ℓ} (P : A → Type κ) (Q : A → Type μ) where
  All-map : (xs : List A) → ((x : A) → P x → Q x) → All P xs → All Q xs
  All-map [] f h = tt
  All-map (x ∷ xs) f h = (f x h.0, All-map xs f h.1)

All-map₂ {ℓ κ μ ν} :
    {A : Type ℓ} (P : A → Type κ) (Q : A → Type μ) (R : A → Type ν) (xs : List A)
    → ((x : A) → P x → Q x → R x)
    → All P xs
    → All Q xs
    → All R xs
All-map₂ P Q R [] f h k = tt
All-map₂ P Q R (x ∷ xs) f h k = (f x h.0 k.0, All-map₂ P Q R xs f h.1 k.1)

All-remove {ℓ κ} :
    {A : Type ℓ} (P : A → Type κ) (before : List A) (x : A) (after : List A)
    → All P (before ++ (x ∷ after))
    → P x × All P (before ++ after)
All-remove P [] x after h = h
All-remove P (y ∷ before) x after h =
    let (here, rest) = All-remove P before x after h.1 in (here, (h.0, rest))

Apart-sym : (x y : Block) → Apart x y → Apart y x
Apart-sym x y (inl h) = inr h
Apart-sym x y (inr h) = inl h

Disjoint-remove :
    (before : List Block) (x : Block) (after : List Block)
    → Disjoint (before ++ (x ∷ after))
    → All (Apart x) (before ++ after) × Disjoint (before ++ after)
Disjoint-remove [] x after d = d
Disjoint-remove (y ∷ before) x after d =
    let (apart, rest) = All-remove (Apart y) before x after d.0 in
    let (others, disjoint) = Disjoint-remove before x after d.1 in
    ((Apart-sym y x apart, others), (rest, disjoint))

-- A refused allocation leaves the bitmap alone.
allocate-none :
    (a : Allocator) (count : ℕ)
    → (allocate_contiguous count a).0 ≡ none
    → (hint : ℕ) × (hint ≤ a.next_hint)
      × ((allocate_contiguous count a).1 ≡ record a { next_hint = hint })
unfolding allocate_contiguous
allocate-none a count e = elim (Option-cases (search_from a.next_hint count a)) [
  | inr ((run_start, frame), got) ↦
      let out : (allocate_contiguous count a).0 ≡ some (a.base + run_start * page_size) =
        rw (got, allocate_contiguous) refl in
      absurd (none_ne_some (sym e ∙ out))
  | inl missed ↦ elim (Bool-cases (a.next_hint == 0)) [
    | inl whole ↦ (a.next_hint, omega arith, rw (missed, whole, allocate_contiguous) refl)
    | inr part ↦ elim (Option-cases (search_from 0 count a)) [
      | inr ((run_start, frame), got) ↦
          let out : (allocate_contiguous count a).0 ≡ some (a.base + run_start * page_size) =
            rw (missed, part, got, allocate_contiguous) refl in
          absurd (none_ne_some (sym e ∙ out))
      | inl none_at_all ↦ (0, omega arith, rw (missed, part, none_at_all, allocate_contiguous) refl)
    ]
  ]
]

module _ (a a' : Allocator) (count address : ℕ) (done : Allocated a count address a') where
  Owned-kept : (x : Block) → Owned a x → Owned a' x
  Owned-kept x o = record {
    some_frames = o.some_frames;
    inside = omega (arith, o.inside, done.same_frames);
    used = λ i h k. elim (side i done.start (done.start + count)) [
      | inl out ↦ done.others i out ∙ o.used i h k
      | inr (low, high) ↦ done.are_used i low high
    ];
  }

  -- The new block shares no frame with one that is owned: it was free, and the other was used.
  Owned-Apart : (x : Block) → Owned a x → Apart (done.start, count) x
  Owned-Apart x o = elim (Bool-cases (ltb x.0 (done.start + count))) [
    | inr behind ↦ inl (ltb_false→le x.0 (done.start + count) behind)
    | inl reaches ↦ elim (Bool-cases (ltb done.start (x.0 + x.1))) [
      | inr before ↦ inr (ltb_false→le done.start (x.0 + x.1) before)
      | inl overlaps ↦
          absurd (
            clash (ltb→lt x.0 (done.start + count) reaches)
              (ltb→lt done.start (x.0 + x.1) overlaps))
    ]
  ]
    where
      differ : (i : ℕ) → bit_at a.bitmap i ≡ false → bit_at a.bitmap i ≡ true → ⊥
      differ i e f = true_ne_false (sym f ∙ e)

      clash : x.0 < done.start + count → done.start < x.0 + x.1 → ⊥
      clash h k = elim (Bool-cases (ltb done.start x.0)) [
        | inl first ↦
            differ x.0 (done.were_free x.0 (omega (arith, ltb→lt done.start x.0 first)) h)
              (o.used x.0 (omega arith) (omega (arith, o.some_frames)))
        | inr last ↦
            differ done.start
              (done.were_free done.start (omega arith) (omega (arith, done.some_asked)))
              (o.used done.start (ltb_false→le done.start x.0 last) k)
      ]

Returned-Owned :
    (a : Allocator) (block : Block) (r : Returned a block.0 block.1) (x : Block)
    → Apart block x
    → Owned a x
    → Owned r.after x
Returned-Owned a block r x apart o = record {
  some_frames = o.some_frames;
  inside = omega (arith, o.inside, r.same_frames);
  used = λ i h k. r.others i (beside apart i h k) ∙ o.used i h k;
}
  where
    beside :
        Apart block x → (i : ℕ) → x.0 ≤ i → i < x.0 + x.1 → (i < block.0) ⊎ (block.0 + block.1 ≤ i)
    beside (inl before) i h k = inr (omega (arith, before, h))
    beside (inr behind) i h k = inl (omega (arith, behind, k))

IsOwned-allocated :
    (a : Allocator) (live : List Block) (count first : ℕ)
    → IsOwned a live
    → (allocate_contiguous count a).0 ≡ some (a.base + first * page_size)
    → IsOwned (allocate_contiguous count a).1 ((first, count) ∷ live)
IsOwned-allocated a live count first o e =
    let a' = (allocate_contiguous count a).1 in
    let address = a.base + first * page_size in
    let done = allocate-Allocated count a o.valid address e in
    let place : done.start ≡ first = omega (arith, done.address_is) in
    let mine : Owned a' (done.start, count) = record {
      some_frames = done.some_asked;
      inside = omega (arith, done.inside, done.same_frames);
      used = done.are_used;
    } in
    subst (λ (n : ℕ). IsOwned a' ((n, count) ∷ live)) place
      (record {
        valid = done.still_valid;
        owned =
            (mine, All-map (Owned a) (Owned a') live (Owned-kept a a' count address done) o.owned);
        disjoint = (
          All-map (Owned a) (Apart (done.start, count)) live (Owned-Apart a a' count address done)
              o.owned,
          o.disjoint,
        );
      })

IsOwned-refused :
    (a : Allocator) (live : List Block) (count : ℕ)
    → IsOwned a live
    → (allocate_contiguous count a).0 ≡ none
    → IsOwned (allocate_contiguous count a).1 live
IsOwned-refused a live count o e =
    let (hint, low, is) = allocate-none a count e in
    subst (λ (x : Allocator). IsOwned x live) (sym is)
      (record {
        valid = record {
          sized = o.valid.sized;
          hinted = omega (arith, low, o.valid.hinted);
          aligned = o.valid.aligned;
        };
        owned =
            All-map (Owned a) (Owned (record a { next_hint = hint })) live
              (λ x own. record {
                some_frames = own.some_frames;
                inside = own.inside;
                used = own.used;
              })
              o.owned;
        disjoint = o.disjoint;
      })

IsOwned-returned :
    (a a' : Allocator) (before : List Block) (block : Block) (after : List Block)
    → IsOwned a (before ++ (block ∷ after))
    → free_frames (a.base + block.0 * page_size) block.1 (some a) ≡ some a'
    → IsOwned a' (before ++ after)
IsOwned-returned a a' before block after o e =
    let (mine, others) = All-remove (Owned a) before block after o.owned in
    let (apart, disjoint) = Disjoint-remove before block after o.disjoint in
    let r = free_frames-Returned a block.0 block.1 o.valid mine.some_frames mine.inside mine.used in
    let is : r.after ≡ a' = some-injective r.after a' (sym r.is ∙ e) in
    subst (λ (x : Allocator). IsOwned x (before ++ after)) is
      (record {
        valid = r.still_valid;
        owned =
            All-map₂ (Apart block) (Owned a) (Owned r.after) (before ++ after)
              (Returned-Owned a block r) apart others;
        disjoint = disjoint;
      })

-- No frame is handed out twice: after any history of allocations, refused or not, and returns of blocks
-- that were handed out, the blocks that are out share no frame with one another, lie in the managed
-- region, and are marked as used. The allocator begins with a bitmap that covers its frames and a region
-- that begins at a page.
pub Reached-IsOwned :
    (a₀ a : Allocator) (live : List Block) → IsValid a₀ → Reached a₀ a live → IsOwned a live
Reached-IsOwned a₀ _ _ valid start = record { valid = valid; owned = tt; disjoint = tt }
Reached-IsOwned a₀ _ _ valid (allocated {a} {live} count first r e) =
    IsOwned-allocated a live count first (Reached-IsOwned a₀ a live valid r) e
Reached-IsOwned a₀ _ _ valid (refused {a} {live} count r e) =
    IsOwned-refused a live count (Reached-IsOwned a₀ a live valid r) e
Reached-IsOwned a₀ _ _ valid (returned {a} {a'} before block after r e) =
    IsOwned-returned a a' before block after
      (Reached-IsOwned a₀ a (before ++ (block ∷ after)) valid r) e
