-- ===== src/Wasm/Module/Limits.antt =====
-- The decoders of libs/wasm/src/module.rs and its limits.
use i3ml_os.Prelude.{
  ℕ, zero, suc, ◌+◌, ◌^◌, ◌≤◌, ◌<◌, ◌≡◌, ◌≢◌, refl, sym, ◌∙◌, ap, subst, Bool, true, false, not,
  ◌||◌, Option, none, some, List, [], ◌∷◌, ◌++◌, arith, ltb, ltb_false→le, ◌==◌, ==_iff,
  if◌then◌else◌, length, replicate, length-append, length-replicate, All, Result, ok, err,
  ok_ne_err, Bool-cases, inl, inr, ◌⊎◌,
}
use i3ml_os.Wasm.Module.{Export, counted, usize, decode_exports, export_entry, kept}
use i3ml_os.Wasm.Module.Monad.{Error, Decoder, ◌>>=◌, fail_if, times, return, too_large}

-- What a decoder returned when it succeeded.
module _ {A B : Type 0} (d : Decoder A) (k : A → Decoder B) where
  pub record Bound (position : ℕ) (b : B) (after : ℕ) : Type 0 where
    pub value : A
    pub between : ℕ
    pub first : d position ≡ ok (value, between)
    pub second : k value between ≡ ok (b, after)

  pub bind-Bound :
      (position : ℕ) (b : B) (after : ℕ)
      → (d >>= k) position ≡ ok (b, after)
      → Bound position b after
  bind-Bound position b after e = from (d position) refl e
    where
      from :
          (r : Result Error (A × ℕ))
          → d position ≡ r
          → (d >>= k) position ≡ ok (b, after)
          → Bound position b after
      from (err fault) is e =
          let out : (d >>= k) position ≡ err fault = rw (is, ◌>>=◌) refl in
          absurd (ok_ne_err (sym e ∙ out))
      from (ok (a, between)) is e =
          let out : (d >>= k) position ≡ k a between = rw (is, ◌>>=◌) refl in
          record { value = a; between = between; first = is; second = sym out ∙ e }

pub ok_pair :
    {A : Type 0} {a b : A} {p q : ℕ}
    → ◌≡◌ {A = Result Error (A × ℕ)} (ok (a, p)) (ok (b, q))
    → (a ≡ b) × (p ≡ q)
ok_pair e = let both = i3ml_os.Prelude.ok-injective e in (ap (λ x. x.0) both, ap (λ x. x.1) both)

pub fail_if-passed :
    (b : Bool) (e : Error) (position : ℕ) (u : Unit {0}) (after : ℕ)
    → fail_if b e position ≡ ok (u, after)
    → (b ≡ false) × (position ≡ after)
fail_if-passed true e position u after h = absurd (ok_ne_err (sym h))
fail_if-passed false e position u after h = (refl, (ok_pair h).1)

module _ {A : Type 0} (d : Decoder A) where
  pub length-times :
      (count position : ℕ) (xs : List A) (after : ℕ)
      → times count d position ≡ ok (xs, after)
      → length xs ≡ count
  length-times zero position xs after e = ap length (sym (ok_pair e).0)
  length-times (suc count) position xs after e =
      let b = bind-Bound d (λ a. times count d >>= λ rest. return (a ∷ rest)) position xs after e in
      let c =
        bind-Bound (times count d) (λ rest. return (b.value ∷ rest)) b.between xs after b.second in
      ap length (sym (ok_pair c.second).0)
      ∙ ap suc (length-times count b.between c.value c.between c.first)

module _ (bytes : List ℕ) where
  pub counted-le :
      (limit : ℕ) (e : Error) (position count after : ℕ)
      → counted bytes limit e position ≡ ok (count, after)
      → count ≤ limit
  counted-le limit e position count after h =
      let b =
        bind-Bound (usize bytes) (λ n. fail_if (ltb limit n) e >>= λ _. return n) position count
          after h in
      let c =
        bind-Bound (fail_if (ltb limit b.value) e) (λ _. return b.value) b.between count after
          b.second in
      let passed = (fail_if-passed (ltb limit b.value) e b.between c.value c.between c.first).0 in
      let is = (ok_pair c.second).0 in omega (arith, ltb_false→le limit b.value passed, is)

  module _ {A : Type 0} (d : Decoder A) (limit : ℕ) (e : Error) where
    -- A list of at most so many entries.
    pub list_le :
        (position : ℕ) (xs : List A) (after : ℕ)
        → (counted bytes limit e >>= λ count. times count d) position ≡ ok (xs, after)
        → length xs ≤ limit
    list_le position xs after h =
        let b = bind-Bound (counted bytes limit e) (λ count. times count d) position xs after h in
        omega (
          arith,
          counted-le limit e position b.value b.between b.first,
          length-times d b.value b.between xs after b.second,
        )

  length-kept : (entries : List (Option Export)) → length (kept bytes entries) ≤ length entries
  length-kept [] = omega arith
  length-kept (none ∷ entries) = omega (arith, length-kept entries)
  length-kept (some e ∷ entries) = omega (arith, length-kept entries)

  pub decode_exports-le :
      (position : ℕ) (xs : List Export) (after : ℕ)
      → decode_exports bytes position ≡ ok (xs, after)
      → length xs ≤ 64
  unfolding decode_exports
  decode_exports-le position xs after h =
      let b =
        bind-Bound (counted bytes 64 too_large)
          (λ count. times count (export_entry bytes) >>= λ entries. return (kept bytes entries))
          position xs after h in
      let c =
        bind-Bound (times b.value (export_entry bytes)) (λ entries. return (kept bytes entries))
          b.between xs after b.second in
      let is = ap length (ok_pair c.second).0 in
      omega (
        arith,
        counted-le 64 too_large position b.value b.between b.first,
        length-times (export_entry bytes) b.value b.between c.value c.between c.first,
        length-kept c.value,
        is,
      )
