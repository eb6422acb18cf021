-- ===== src/Frames/Init.antt =====
-- `init` of nawa/core/src/mem.rs, and its survey of the regions of memory.
use i3ml_os.Prelude.{
  ℕ, zero, suc, ◌+◌, ◌*◌, ◌/◌, ◌%◌, ◌≤◌, ◌≡◌, ◌≢◌, refl, sym, ◌∙◌, Bool, true, false, ltb, ◌==◌,
  ==_iff, ltb→lt, ltb_false→le, some, List, [], ◌∷◌, arith, Bool-cases, inl, inr, length, replicate,
  get_elem?, ◌⊎◌, length-replicate, All,
}
use i3ml_os.Frames.{
  Allocator, MemoryRegion, Survey, survey, survey_region, init, bitmap_frames, mark_used, bit_at,
  conventional, page_size,
}
use i3ml_os.Frames.Search.{AllFree}
use i3ml_os.Frames.Marks.{AllUsed, length-mark_used, mark_used-AllUsed, mark_used-SameBeside}
use i3ml_os.Frames.Ownership.{IsValid}

true_ne_false : true ≢ false
true_ne_false e = cc

bit_at-replicate : (n i : ℕ) → bit_at (replicate n false) i ≡ false
bit_at-replicate zero i = refl
bit_at-replicate (suc n) zero = refl
bit_at-replicate (suc n) (suc i) = bit_at-replicate n i

abbrev pub IsAligned : MemoryRegion → Type 0
IsAligned region = region.physical_start % page_size ≡ 0

-- No region of conventional memory is larger.
abbrev pub Fits : ℕ → MemoryRegion → Type 0
Fits frames region = region.kind ≡ conventional → region.pages ≤ frames

-- Where a survey has found its largest region.
abbrev pub Source : List MemoryRegion → ℕ → ℕ → Type 0
Source regions base pages =
    (i : ℕ) × (region : MemoryRegion) × (get_elem? regions i ≡ some region)
    × (region.kind ≡ conventional)
    × (region.physical_start ≡ base)
    × (region.pages ≡ pages)

record Step (region : MemoryRegion) (s s' : Survey) : Type 0 where
  aligned : IsAligned region → s.largest_base % page_size ≡ 0 → s'.largest_base % page_size ≡ 0
  grows : s.largest_pages ≤ s'.largest_pages
  fits : Fits s'.largest_pages region
  source :
      ((s'.largest_base ≡ s.largest_base) × (s'.largest_pages ≡ s.largest_pages))
      ⊎ Source (region ∷ []) s'.largest_base s'.largest_pages

survey_region-Step : (region : MemoryRegion) (s : Survey) → Step region s (survey_region region s)
survey_region-Step region s = elim (Bool-cases (region.kind == conventional)) [
  | inr other ↦
      rw (other, survey_region)
        (record {
          aligned = λ here before. before;
          grows = omega arith;
          fits = λ e. absurd (true_ne_false (sym ((==_iff region.kind conventional).1 e) ∙ other));
          source = inl (refl, refl);
        })
  | inl usable ↦ elim (Bool-cases (ltb s.largest_pages region.pages)) [
    | inl larger ↦
        let more = ltb→lt s.largest_pages region.pages larger in
        rw (usable, larger, survey_region)
          (record {
            aligned = λ here before. here;
            grows = omega (arith, more);
            fits = λ e. omega arith;
            source = inr (0, region, refl, (==_iff region.kind conventional).0 usable, refl, refl);
          })
    | inr smaller ↦
        let less = ltb_false→le s.largest_pages region.pages smaller in
        rw (usable, smaller, survey_region)
          (record {
            aligned = λ here before. before;
            grows = omega arith;
            fits = λ e. less;
            source = inl (refl, refl);
          })
  ]
]

record Surveyed (regions : List MemoryRegion) (s s' : Survey) : Type 0 where
  aligned : s'.largest_base % page_size ≡ 0
  grows : s.largest_pages ≤ s'.largest_pages
  fits : All (Fits s'.largest_pages) regions
  source :
      ((s'.largest_base ≡ s.largest_base) × (s'.largest_pages ≡ s.largest_pages))
      ⊎ Source regions s'.largest_base s'.largest_pages

-- What the survey of the other regions found, or else the first region gave.
Source-cons :
    (region : MemoryRegion) (regions : List MemoryRegion) (s s₁ s₂ : Survey)
    → ((s₁.largest_base ≡ s.largest_base) × (s₁.largest_pages ≡ s.largest_pages))
      ⊎ Source (region ∷ []) s₁.largest_base s₁.largest_pages
    → ((s₂.largest_base ≡ s₁.largest_base) × (s₂.largest_pages ≡ s₁.largest_pages))
      ⊎ Source regions s₂.largest_base s₂.largest_pages
    → ((s₂.largest_base ≡ s.largest_base) × (s₂.largest_pages ≡ s.largest_pages))
      ⊎ Source (region ∷ regions) s₂.largest_base s₂.largest_pages
Source-cons region regions s s₁ s₂ first (inr (i, r, at, usable, base, pages)) =
    inr (suc i, r, at, usable, base, pages)
Source-cons region regions s s₁ s₂ (inl (base, pages)) (inl (base', pages')) =
    inl (base' ∙ base, pages' ∙ pages)
Source-cons region regions s s₁ s₂ (inr (zero, r, at, usable, base, pages)) (inl (base', pages')) =
    inr (0, r, at, usable, base ∙ sym base', pages ∙ sym pages')
Source-cons region regions s s₁ s₂ (inr (suc i, r, at, usable, base, pages)) (inl same) = cc

survey-Surveyed :
    (regions : List MemoryRegion) (s : Survey)
    → All IsAligned regions
    → s.largest_base % page_size ≡ 0
    → Surveyed regions s (survey regions s)
survey-Surveyed [] s h k = record {
  aligned = k;
  grows = omega arith;
  fits = tt;
  source = inl (refl, refl);
}
survey-Surveyed (region ∷ regions) s h k =
    let step = survey_region-Step region s in
    let rest = survey-Surveyed regions (survey_region region s) h.1 (step.aligned h.0 k) in
    record {
      aligned = rest.aligned;
      grows = omega (arith, step.grows, rest.grows);
      fits = (λ e. omega (arith, step.fits e, rest.grows), rest.fits);
      source =
          Source-cons region regions s (survey_region region s)
            (survey regions (survey_region region s)) step.source rest.source;
    }

-- An allocator over a region of conventional memory, none of which is larger, frame by frame: those of
-- the bitmap are used, and the others are free. Without conventional memory it has no frame.
pub record Initial (regions : List MemoryRegion) (a : Allocator) : Type 0 where
  pub valid : IsValid a
  pub source : ((a.base ≡ 0) × (a.frames ≡ 0)) ⊎ Source regions a.base a.frames
  pub largest : All (Fits a.frames) regions
  pub reserved : AllUsed a.bitmap 0 (bitmap_frames a.frames)
  pub free : AllFree a.bitmap (bitmap_frames a.frames) a.frames

-- `init` leaves an allocator whose base and frames are those of a region of conventional memory that no
-- other exceeds, or one without frames at base 0. Its bitmap covers its frames: the frames of the bitmap
-- itself are marked as used, and all others are free. The regions of the firmware's map begin at pages.
pub init-Initial :
    (regions : List MemoryRegion)
    → All IsAligned regions
    → (a : Allocator) × ((init regions).1 ≡ some a) × Initial regions a
unfolding init
init-Initial regions aligned =
    let s = survey regions (record { usable = 0; largest_base = 0; largest_pages = 0 }) in
    let surveyed =
      survey-Surveyed regions (record { usable = 0; largest_base = 0; largest_pages = 0 }) aligned
        refl in
    let frames = s.largest_pages in
    let size : length (replicate {A = Bool} ((frames + 7) / 8 * 8) false) ≡ (frames + 7) / 8 * 8 =
      length-replicate ((frames + 7) / 8 * 8) false in
    let bits = replicate {A = Bool} ((frames + 7) / 8 * 8) false in
    let marked = length-mark_used 0 (bitmap_frames frames) bits in
    (
      record {
        base = s.largest_base;
        frames = frames;
        bitmap = mark_used 0 (bitmap_frames frames) bits;
        next_hint = 0;
      },
      refl,
      record {
        valid = record {
          sized = omega (arith, size, marked);
          hinted = omega arith;
          aligned = surveyed.aligned;
        };
        source = surveyed.source;
        largest = surveyed.fits;
        reserved = λ i h k.
            mark_used-AllUsed 0 (bitmap_frames frames) bits (omega (arith, size)) i h
              (omega (arith, k));
        free = λ i h k.
            mark_used-SameBeside 0 (bitmap_frames frames) bits i (inr (omega (arith, h)))
            ∙ bit_at-replicate ((frames + 7) / 8 * 8) i;
      },
    )
