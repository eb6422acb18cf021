-- ===== src/Wasm/Module/Decoded.antt =====
-- `decode` of libs/wasm/src/module.rs as a whole.
use i3ml_os.Prelude.{
  ℕ, zero, suc, ◌+◌, ◌*◌, ◌<◌, ◌≡◌, ◌≢◌, refl, sym, ◌∙◌, subst, false, Option, none, some, List,
  arith, ltb, leb, length, Result, ok, err, Bool-cases, inl, inr,
}
use i3ml_os.Wasm.Module.{Module, Decoding, one_section, sections, decode, decoding_new, preamble}
use i3ml_os.Wasm.Module.Monad.{Error, too_large}
use i3ml_os.Wasm.Module.Ceilings.{Ordered, WithinCeilings}
use i3ml_os.Wasm.Module.Returned.{one_section-Advanced}

module _ (bytes : List ℕ) where
  none_ne_some : {a : Result Error Module} → ◌≢◌ {A = Option (Result Error Module)} none (some a)
  none_ne_some e = cc

  err_ne_ok :
      {a : Error} {m : Module} → ◌≢◌ {A = Option (Result Error Module)} (some (err a)) (some (ok m))
  err_ne_ok e = cc

  ok_of :
      {a b : Module} → ◌≡◌ {A = Option (Result Error Module)} (some (ok a)) (some (ok b)) → a ≡ b
  ok_of e = cc

  Ordered-Within : (p : ℕ) (s : Decoding) → Ordered bytes p s → WithinCeilings bytes s.current
  Ordered-Within p s o = record {
    types_le = o.types.under;
    imports_le = o.imports.under;
    functions_le = o.functions.under;
    exports_le = o.exports.under;
    segments_le = o.segments.under;
    pages_fit = o.pages;
    functions_fit = o.fits;
  }

  decoding_new-Ordered : Ordered bytes 0 (decoding_new bytes)
  decoding_new-Ordered = record {
    types = record { under = omega arith; empty = λ h. refl };
    imports = record { under = omega arith; empty = λ h. refl };
    function_types = record { under = omega arith; empty = λ h. refl };
    exports = record { under = omega arith; empty = λ h. refl };
    functions = record { under = omega arith; empty = λ h. refl };
    segments = record { under = omega arith; empty = λ h. refl };
    pages = tt;
    fits = tt;
  }

  -- Each round takes a byte at least, so there are enough.
  sections_returns :
      (rounds p position : ℕ) (s : Decoding)
      → length bytes < position + rounds
      → 0 < rounds
      → sections bytes rounds p s position ≢ none
  unfolding sections
  sections_returns zero p position s h k e = omega (arith, k)
  sections_returns (suc rounds) p position s h k e =
      elim (Bool-cases (leb (length bytes) position)) [
        | inl at_end ↦
            let out : sections bytes (suc rounds) p s position ≡ some (ok s.current) =
              rw (at_end, sections) refl in
            none_ne_some (sym e ∙ out)
        | inr inside ↦
            let more = before inside in
            next inside more (one_section bytes p s position) refl
              (λ q at t l. sections_returns rounds q at t l (omega (arith, h, more)))
      ]
    where
      before : leb (length bytes) position ≡ false → position < length bytes
      before inside = ground arith

      next :
          leb (length bytes) position ≡ false
          → position < length bytes
          → (r : Result Error ((ℕ × Decoding) × ℕ)) → one_section bytes p s position ≡ r
          → ((q at : ℕ) (t : Decoding)
              → length bytes < at + rounds
              → sections bytes rounds q t at ≢ none)
          → ⊥
      next inside more (err fault) is ih =
          let out : sections bytes (suc rounds) p s position ≡ some (err fault) =
            rw (inside, is, sections) refl in
          none_ne_some (sym e ∙ out)
      next inside more (ok ((q, t), after)) is ih =
          let out : sections bytes (suc rounds) p s position ≡ sections bytes rounds q t after =
            rw (inside, is, sections) refl in
          let step = one_section-Advanced bytes p position s (q, t) after is in
          ih q after t (omega (arith, h, step.further)) (sym out ∙ e)

  sections-Within :
      (rounds p position : ℕ) (s : Decoding) (m : Module)
      → Ordered bytes p s
      → sections bytes rounds p s position ≡ some (ok m)
      → WithinCeilings bytes m
  unfolding sections
  sections-Within zero p position s m o e = absurd (none_ne_some e)
  sections-Within (suc rounds) p position s m o e =
      elim (Bool-cases (leb (length bytes) position)) [
        | inl at_end ↦
            let out : sections bytes (suc rounds) p s position ≡ some (ok s.current) =
              rw (at_end, sections) refl in
            subst (λ (x : Module). WithinCeilings bytes x) (ok_of (sym out ∙ e))
              (Ordered-Within p s o)
        | inr inside ↦
            next inside (one_section bytes p s position) refl
              (λ q at t. sections-Within rounds q at t m)
      ]
    where
      next :
          leb (length bytes) position ≡ false
          → (r : Result Error ((ℕ × Decoding) × ℕ)) → one_section bytes p s position ≡ r
          → ((q at : ℕ) (t : Decoding)
              → Ordered bytes q t
              → sections bytes rounds q t at ≡ some (ok m)
              → WithinCeilings bytes m)
          → WithinCeilings bytes m
      next inside (err fault) is ih =
          let out : sections bytes (suc rounds) p s position ≡ some (err fault) =
            rw (inside, is, sections) refl in
          absurd (err_ne_ok (sym out ∙ e))
      next inside (ok ((q, t), after)) is ih =
          let out : sections bytes (suc rounds) p s position ≡ sections bytes rounds q t after =
            rw (inside, is, sections) refl in
          let step = one_section-Advanced bytes p position s (q, t) after is in
          ih q after t (step.ordered o) (sym out ∙ e)

-- A module that `decode` accepts is within every ceiling, whatever its bytes: at most 128 types, 32
-- imports, 256 functions, 64 exports and 32 data segments, 256 locals in each function, bodies that end
-- inside the module, and a memory whose least and greatest size are 16 pages at most.
pub decode-WithinCeilings :
    (bytes : List ℕ) (m : Module) → decode bytes ≡ some (ok m) → WithinCeilings bytes m
unfolding decode
decode-WithinCeilings bytes m e = elim (Bool-cases (ltb (128 * 1024) (length bytes))) [
  | inl large ↦
      let out : decode bytes ≡ some (err too_large) = rw (large, decode) refl in
      absurd (err_ne_ok bytes (sym out ∙ e))
  | inr small ↦ started small (preamble bytes 0) refl
]
  where
    started :
        ltb (128 * 1024) (length bytes) ≡ false
        → (r : Result Error (Unit {0} × ℕ)) → preamble bytes 0 ≡ r
        → WithinCeilings bytes m
    started small (err fault) is =
        let out : decode bytes ≡ some (err fault) = rw (small, is, decode) refl in
        absurd (err_ne_ok bytes (sym out ∙ e))
    started small (ok (u, position)) is =
        let out : decode bytes
            ≡ sections bytes (suc (length bytes)) 0 (decoding_new bytes) position =
          rw (small, is, decode) refl in
        sections-Within bytes (suc (length bytes)) 0 position (decoding_new bytes) m
          (decoding_new-Ordered bytes) (sym out ∙ e)

-- `decode` comes to an end on every input: the rounds at hand suffice, since a section that is decoded
-- ends behind where it began, even though the reader is sent back to the end that its header gives.
pub decode_returns : (bytes : List ℕ) → decode bytes ≢ none
unfolding decode
decode_returns bytes e = elim (Bool-cases (ltb (128 * 1024) (length bytes))) [
  | inl large ↦
      let out : decode bytes ≡ some (err too_large) = rw (large, decode) refl in
      none_ne_some bytes (sym e ∙ out)
  | inr small ↦ started small (preamble bytes 0) refl
]
  where
    started :
        ltb (128 * 1024) (length bytes) ≡ false
        → (r : Result Error (Unit {0} × ℕ)) → preamble bytes 0 ≡ r
        → ⊥
    started small (err fault) is =
        let out : decode bytes ≡ some (err fault) = rw (small, is, decode) refl in
        none_ne_some bytes (sym e ∙ out)
    started small (ok (u, position)) is =
        let out : decode bytes
            ≡ sections bytes (suc (length bytes)) 0 (decoding_new bytes) position =
          rw (small, is, decode) refl in
        sections_returns bytes (suc (length bytes)) 0 position (decoding_new bytes) (omega arith)
          (omega arith) (sym out ∙ e)
