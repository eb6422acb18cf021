-- ===== src/Wasm/Module/Returned.antt =====
-- One round of the loop over the sections in libs/wasm/src/module.rs.
use i3ml_os.Prelude.{
  ℕ, ◌+◌, ◌≤◌, ◌<◌, ◌≡◌, refl, sym, ◌∙◌, ap, subst, true, false, not, ◌||◌, ◌&&◌, List, arith, ltb,
  leb, ◌==◌, ==_iff, if◌then◌else◌, length, drop, get_elem?, Option-cases, Result, ok, err,
  ok_ne_err, Bool-cases, inl, inr, ◌⊎◌,
}
use i3ml_os.Wasm.Leb
use i3ml_os.Wasm.Leb.{Reader}
use i3ml_os.Wasm.Module.{
  Decoding, section, one_section, section_from, section_to, usize, byte, ending,
}
use i3ml_os.Wasm.Module.Monad.{
  from_leb, ◌>>=◌, fail_if, return, lift, lifted, truncated, malformed, unsupported,
}
use i3ml_os.Wasm.Module.Limits.{bind-Bound, fail_if-passed, ok_pair}
use i3ml_os.Wasm.Module.Bodies.{ending-is}
use i3ml_os.Wasm.Module.Ceilings.{Ordered}
use i3ml_os.Wasm.Module.Sections.{
  types-Ordered, imports-Ordered, function_types-Ordered, memory-Ordered, exports-Ordered,
  code-Ordered, data-Ordered,
}

module _ (bytes : List ℕ) where
  -- A section with a number above the last one.
  section-Ordered :
      (id p position : ℕ) (s s' : Decoding) (after : ℕ)
      → p < id
      → Ordered bytes p s
      → section bytes id s position ≡ ok (s', after)
      → Ordered bytes id s'
  unfolding section
  section-Ordered id p position s s' after h o e = elim (Bool-cases (id == 1)) [
    | inl t ↦ at 1 t (types-Ordered bytes p position s s' after)
    | inr n₁ ↦ elim (Bool-cases (id == 2)) [
      | inl t ↦ at 2 t (imports-Ordered bytes p position s s' after)
      | inr n₂ ↦ elim (Bool-cases (id == 3)) [
        | inl t ↦ at 3 t (function_types-Ordered bytes p position s s' after)
        | inr n₃ ↦ elim (Bool-cases (id == 5)) [
          | inl t ↦ at 5 t (memory-Ordered bytes p position s s' after)
          | inr n₅ ↦ elim (Bool-cases (id == 7)) [
            | inl t ↦ at 7 t (exports-Ordered bytes p position s s' after)
            | inr n₇ ↦ elim (Bool-cases (id == 10)) [
              | inl t ↦ at 10 t (code-Ordered bytes p position s s' after)
              | inr n₁₀ ↦ elim (Bool-cases (id == 11)) [
                | inl t ↦ at 11 t (data-Ordered bytes p position s s' after)
                | inr n₁₁ ↦
                    let n₀ : (id == 0) ≡ false = above id p h in
                    let out : section bytes id s position
                        ≡ err (
                            if id == 4 || (id == 6 || (id == 8 || id == 9))
                            then unsupported
                            else malformed) =
                      rw (n₀, n₁, n₂, n₃, n₅, n₇, n₁₀, n₁₁, section) refl in
                    absurd (ok_ne_err (sym e ∙ out))
              ]
            ]
          ]
        ]
      ]
    ]
  ]
    where
      above : (id p : ℕ) → p < id → (id == 0) ≡ false
      above id p h = ground arith

      at :
          (k : ℕ)
          → (id == k) ≡ true
          → (p < k
              → Ordered bytes p s
              → section bytes k s position ≡ ok (s', after)
              → Ordered bytes k s')
          → Ordered bytes id s'
      at k t filled =
          let is = (==_iff id k).0 t in
          subst (λ (n : ℕ). Ordered bytes n s') (sym is)
            (filled (subst (λ (n : ℕ). p < n) is h) o
              (subst (λ (n : ℕ). section bytes n s position ≡ ok (s', after)) is e))

  -- Where the methods of the reader leave it.
  byte-position :
      (position b after : ℕ) → byte bytes position ≡ ok (b, after) → after ≡ position + 1
  unfolding Leb.byte
  byte-position position b after e = elim (Option-cases (get_elem? bytes position)) [
    | inl missing ↦
        let out : byte bytes position ≡ err truncated = rw (missing, byte, lift, Leb.byte) refl in
        absurd (ok_ne_err (sym e ∙ out))
    | inr (x, got) ↦
        let reader : Reader = record { bytes = bytes; position = position } in
        let next : Reader = record { bytes = bytes; position = position + 1 } in
        let read : Leb.byte reader ≡ (ok x, next) = rw (got, Leb.byte) refl in
        sym (ok_pair (sym (ap lifted read) ∙ e)).1
  ]

  usize-position : (position n after : ℕ) → usize bytes position ≡ ok (n, after) → position ≤ after
  unfolding Leb.read_usize Leb.unsigned
  usize-position position n after e = from (Leb.unsigned_loop 32 0 0 0 (drop position bytes)).0 refl
    where
      from :
          (r : Result Leb.Error ℕ)
          → (Leb.unsigned_loop 32 0 0 0 (drop position bytes)).0 ≡ r
          → position ≤ after
      from (err fault) is =
          let out : usize bytes position ≡ err (from_leb fault) =
            rw (is, usize, lift, Leb.read_usize, Leb.unsigned) refl in
          absurd (ok_ne_err (sym e ∙ out))
      from (ok value) is =
          let taken = (Leb.unsigned_loop 32 0 0 0 (drop position bytes)).1 in
          let out : usize bytes position ≡ ok (value, position + taken) =
            rw (is, usize, lift, Leb.read_usize, Leb.unsigned) refl in
          omega (arith, (ok_pair (sym out ∙ e)).1)

  seek-position :
      (end position : ℕ) (u : Unit {0}) (after : ℕ)
      → lift bytes (Leb.seek end) position ≡ ok (u, after)
      → after ≡ end
  unfolding Leb.seek
  seek-position end position u after e = elim (Bool-cases (ltb (length bytes) end)) [
    | inl behind ↦
        let out : lift bytes (Leb.seek end) position ≡ err truncated =
          rw (behind, lift, Leb.seek) refl in
        absurd (ok_ne_err (sym e ∙ out))
    | inr inside ↦
        let reader : Reader = record { bytes = bytes; position = position } in
        let next : Reader = record { bytes = bytes; position = end } in
        let moved : Leb.seek end reader ≡ (ok tt, next) = rw (inside, Leb.seek) refl in
        sym (ok_pair (sym (ap lifted moved) ∙ e)).1
  ]

  -- A section that was decoded: it ends behind where it began, and the ceilings hold after it.
  pub record Advanced (p position : ℕ) (s : Decoding) (next : ℕ × Decoding) (after : ℕ)
      : Type 0 where
    pub further : position < after
    pub ordered : Ordered bytes p s → Ordered bytes next.0 next.1

  section_to-Advanced :
      (p position : ℕ) (s : Decoding) (id section_end between : ℕ) (next : ℕ × Decoding) (after : ℕ)
      → (not (id == 0) && leb id p) ≡ false
      → position < section_end
      → section_to bytes p s id section_end between ≡ ok (next, after)
      → Advanced p position s next after
  unfolding section
  section_to-Advanced p position s id section_end between next after above h e =
      let put = λ (s' : Decoding). return {A = ℕ × Decoding} (if id == 0 then p else id, s') in
      let b =
        bind-Bound (section bytes id s) (λ s'. lift bytes (Leb.seek section_end) >>= λ _. put s')
          between next after e in
      let c =
        bind-Bound (lift bytes (Leb.seek section_end)) (λ _. put b.value) b.between next after
          b.second in
      let ended = seek-position section_end b.between c.value c.between c.first in
      let last = ok_pair c.second in
      record {
        further = omega (arith, h, ended, last.1);
        ordered = λ o.
            subst (λ (x : ℕ × Decoding). Ordered bytes x.0 x.1) last.0
              (kept b.value b.between o b.first (Bool-cases (id == 0)));
      }
    where
      bigger : (id p : ℕ) → (not (id == 0) && leb id p) ≡ false → (id == 0) ≡ false → p < id
      bigger id p h k = ground arith

      kept :
          (s' : Decoding) (middle : ℕ)
          → Ordered bytes p s
          → section bytes id s between ≡ ok (s', middle)
          → ((id == 0) ≡ true) ⊎ ((id == 0) ≡ false)
          → Ordered bytes (if id == 0 then p else id) s'
      kept s' middle o got (inl custom) =
          let out : section bytes id s between ≡ ok (s, between) = rw (custom, section) refl in
          rw custom (subst (λ (x : Decoding). Ordered bytes p x) (ok_pair (sym out ∙ got)).0 o)
      kept s' middle o got (inr known) =
          rw known (section-Ordered id p between s s' middle (bigger id p above known) o got)

  pub one_section-Advanced :
      (p position : ℕ) (s : Decoding) (next : ℕ × Decoding) (after : ℕ)
      → one_section bytes p s position ≡ ok (next, after)
      → Advanced p position s next after
  unfolding one_section
  one_section-Advanced p position s next after e =
      let b = bind-Bound (byte bytes) (section_from bytes p s) position next after e in
      let id = b.value in
      let started = byte-position position id b.between b.first in
      let to_end = λ (size : ℕ). ending bytes size >>= section_to bytes p s id in
      let guard = fail_if (not (id == 0) && leb id p) malformed in
      let g = bind-Bound guard (λ _. usize bytes >>= to_end) b.between next after b.second in
      let passed =
        fail_if-passed (not (id == 0) && leb id p) malformed b.between g.value g.between g.first in
      let size = bind-Bound (usize bytes) to_end g.between next after g.second in
      let end =
        bind-Bound (ending bytes size.value) (section_to bytes p s id) size.between next after
          size.second in
      let sized = usize-position g.between size.value size.between size.first in
      let ends = ending-is bytes size.value size.between end.value end.between end.first in
      section_to-Advanced p position s id end.value end.between next after passed.0
        (omega (arith, started, passed.1, sized, ends.0)) end.second
