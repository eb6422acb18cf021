-- ===== src/Wasm/Module/Bodies.antt =====
-- The code section and the memory section of libs/wasm/src/module.rs.
use i3ml_os.Prelude.{
  ℕ, zero, suc, ◌+◌, ◌-◌, ◌^◌, ◌≤◌, ◌≡◌, ◌≢◌, refl, ap, subst, Bool, true, false, not, ◌||◌, Option,
  none, some, List, [], ◌∷◌, ◌++◌, arith, ltb, ltb_false→le, ◌==◌, length, replicate, length-append,
  length-replicate, All, ok, Bool-cases, inl, inr,
}
use i3ml_os.Wasm.Leb
use i3ml_os.Wasm.Module.{
  Function, counted, ending, usize, decode_locals, decode_code, function_body, finish_body,
  body_before, function_bodies, memory, decode_memory, typed, byte, limits_of, ValueType,
}
use i3ml_os.Wasm.Module.Monad.{
  ◌>>=◌, fail_if, return, lift, here, truncated, too_large, malformed, unsupported,
}
use i3ml_os.Wasm.Module.Limits.{bind-Bound, fail_if-passed, ok_pair}

-- A function that fits: its locals under their ceiling, its body before the end of the module.
pub record Fits (bytes : List ℕ) (f : Function) : Type 0 where
  pub locals_le : length f.locals ≤ 256
  pub end_le : f.body_end ≤ length bytes

-- Pages of memory under their ceiling.
abbrev pub PagesFit : Option (ℕ × ℕ) → Type 0
PagesFit none = Unit {0}
PagesFit (some (minimum, maximum)) = (minimum ≤ 16) × (maximum ≤ 16)

module _ (bytes : List ℕ) where
  decode_locals-le :
      (groups : ℕ) (locals : List ValueType) (position : ℕ) (xs : List ValueType) (after : ℕ)
      → length locals ≤ 256
      → decode_locals bytes groups locals position ≡ ok (xs, after)
      → length xs ≤ 256
  unfolding decode_locals
  decode_locals-le zero locals position xs after h e =
      let is = ap length (ok_pair e).0 in omega (arith, h, is)
  decode_locals-le (suc groups) locals position xs after h e =
      let b = bind-Bound (usize bytes) _ position xs after e in
      let c = bind-Bound (typed bytes) _ b.between xs after b.second in
      let g =
        bind-Bound (fail_if (ltb 256 (length locals + b.value)) too_large) _ c.between xs after
          c.second in
      let passed =
        (fail_if-passed (ltb 256 (length locals + b.value)) too_large c.between g.value g.between
          g.first).0 in
      decode_locals-le groups (locals ++ replicate b.value c.value) g.between xs after
        (omega (
          arith,
          ltb_false→le 256 (length locals + b.value) passed,
          length-append locals (replicate b.value c.value),
          length-replicate b.value c.value,
        ))
        g.second

  either_false : (a b : Bool) → (a || b) ≡ false → b ≡ false
  either_false true b e = absurd (true_ne_false e)
    where
      true_ne_false : true ≢ false
      true_ne_false e = cc
  either_false false b e = e

  pub ending-is :
      (size position end after : ℕ)
      → ending bytes size position ≡ ok (end, after)
      → (end ≡ position + size) × (after ≡ position) × (end ≤ length bytes)
  ending-is size position end after e =
      let put = λ (n : ℕ). return {A = ℕ} (n + size) in
      let guard = λ (n : ℕ).
        fail_if (ltb (2 ^ 64 - 1) (n + size) || ltb (length bytes) (n + size)) truncated in
      let b = bind-Bound here (λ n. guard n >>= λ _. put n) position end after e in
      let start = ok_pair b.first in
      let c = bind-Bound (guard b.value) (λ _. put b.value) b.between end after b.second in
      let passed =
        fail_if-passed (ltb (2 ^ 64 - 1) (b.value + size) || ltb (length bytes) (b.value + size))
          truncated b.between c.value c.between c.first in
      let low = ltb_false→le (length bytes) (b.value + size) (
        either_false (ltb (2 ^ 64 - 1) (b.value + size)) (ltb (length bytes) (b.value + size))
          passed.0) in
      let last = ok_pair c.second in
      (
        omega (arith, start.0, last.0),
        omega (arith, start.1, passed.1, last.1),
        omega (arith, last.0, low),
      )

  finish_body-Fits :
      (type_index body_end : ℕ) (locals : List ValueType) (position : ℕ) (f : Function) (after : ℕ)
      → length locals ≤ 256
      → body_end ≤ length bytes
      → finish_body bytes type_index body_end locals position ≡ ok (f, after)
      → Fits bytes f
  finish_body-Fits type_index body_end locals position f after h k e =
      let put = λ (body_start : ℕ). return {A = Function} (record {
        type_index = type_index;
        locals = locals;
        body_start = body_start;
        body_end = body_end;
      }) in
      let start =
        bind-Bound here (λ body_start. lift bytes (Leb.seek body_end) >>= λ _. put body_start)
          position f after e in
      let sought =
        bind-Bound (lift bytes (Leb.seek body_end)) (λ _. put start.value) start.between f after
          start.second in
      subst (λ (x : Function). Fits bytes x) (ok_pair sought.second).0
        (record { locals_le = h; end_le = k })

  function_body-Fits :
      (type_index position : ℕ) (f : Function) (after : ℕ)
      → function_body bytes type_index position ≡ ok (f, after)
      → Fits bytes f
  unfolding function_body
  function_body-Fits type_index position f after e =
      let b =
        bind-Bound (usize bytes) (λ size. ending bytes size >>= body_before bytes type_index)
          position f after e in
      let end =
        bind-Bound (ending bytes b.value) (body_before bytes type_index) b.between f after
          b.second in
      let groups =
        bind-Bound (usize bytes)
          (λ n. decode_locals bytes n [] >>= finish_body bytes type_index end.value) end.between f
          after end.second in
      let locals =
        bind-Bound (decode_locals bytes groups.value []) (finish_body bytes type_index end.value)
          groups.between f after groups.second in
      finish_body-Fits type_index end.value locals.value locals.between f after
        (decode_locals-le groups.value [] groups.between locals.value locals.between (omega arith)
          locals.first)
        (ending-is b.value b.between end.value end.between end.first).2 locals.second

  function_bodies-Fits :
      (types : List ℕ) (position : ℕ) (fs : List Function) (after : ℕ)
      → function_bodies bytes types position ≡ ok (fs, after)
      → All (Fits bytes) fs × (length fs ≡ length types)
  unfolding function_bodies
  function_bodies-Fits [] position fs after e =
      subst (λ (xs : List Function). All (Fits bytes) xs × (length xs ≡ 0)) (ok_pair e).0 (tt, refl)
  function_bodies-Fits (t ∷ types) position fs after e =
      let f = bind-Bound (function_body bytes t) _ position fs after e in
      let rest = bind-Bound (function_bodies bytes types) _ f.between fs after f.second in
      let (fits, size) = function_bodies-Fits types f.between rest.value rest.between rest.first in
      subst (λ (xs : List Function). All (Fits bytes) xs × (length xs ≡ suc (length types)))
        (ok_pair rest.second).0
        ((function_body-Fits t position f.value f.between f.first, fits), ap suc size)

  pub decode_code-Fits :
      (types : List ℕ) (position : ℕ) (fs : List Function) (after : ℕ)
      → decode_code bytes types position ≡ ok (fs, after)
      → All (Fits bytes) fs × (length fs ≡ length types)
  unfolding decode_code
  decode_code-Fits types position fs after e =
      let b = bind-Bound (usize bytes) _ position fs after e in
      let c =
        bind-Bound (fail_if (not (b.value == length types)) malformed) _ b.between fs after
          b.second in
      function_bodies-Fits types c.between fs after c.second

  memory-Fits :
      (position : ℕ) (pages : ℕ × ℕ) (after : ℕ)
      → memory bytes position ≡ ok (pages, after)
      → PagesFit (some pages)
  unfolding memory
  memory-Fits position pages after e =
      let kind = bind-Bound (byte bytes) _ position pages after e in
      let limits = bind-Bound (limits_of bytes kind.value) _ kind.between pages after kind.second in
      let guard =
        bind-Bound (fail_if (ltb 16 limits.value.0 || ltb 16 limits.value.1) too_large) _
          limits.between pages after limits.second in
      let passed =
        (fail_if-passed (ltb 16 limits.value.0 || ltb 16 limits.value.1) too_large limits.between
          guard.value guard.between guard.first).0 in
      subst (λ (x : ℕ × ℕ). PagesFit (some x)) (ok_pair guard.second).0
        (within limits.value.0 limits.value.1 passed)
    where
      within : (a b : ℕ) → (ltb 16 a || ltb 16 b) ≡ false → (a ≤ 16) × (b ≤ 16)
      within a b h = (ground arith, ground arith)

  pub decode_memory-Fits :
      (before : Option (ℕ × ℕ)) (position : ℕ) (pages : Option (ℕ × ℕ)) (after : ℕ)
      → PagesFit before
      → decode_memory bytes before position ≡ ok (pages, after)
      → PagesFit pages
  unfolding decode_memory
  decode_memory-Fits before position pages after h e =
      let b = bind-Bound (counted bytes 1 unsupported) _ position pages after e in
      elim (Bool-cases (b.value == 0)) [
        | inl zero_of ↦
            let out = rw zero_of at b.second in
            subst (λ (x : Option (ℕ × ℕ)). PagesFit x) (ok_pair out).0 h
        | inr one ↦
            let out = rw one at b.second in
            let m =
              bind-Bound (memory bytes) (λ (p : ℕ × ℕ). return (some p)) b.between pages after
                out in
            subst (λ (x : Option (ℕ × ℕ)). PagesFit x) (ok_pair m.second).0
              (memory-Fits b.between m.value m.between m.first)
      ]
