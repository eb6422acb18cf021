-- ===== src/Wasm/Module/Sections.antt =====
-- The decoders of single sections in libs/wasm/src/module.rs.
use i3ml_os.Prelude.{ℕ, ◌<◌, ◌≡◌, subst, Option, List, ◌++◌, arith, All-append, ok}
use i3ml_os.Wasm.Module.{
  Decoding, FuncType, ImportRef, Export, Function, section, func_type, import_ref, u32,
  data_segment, decode_types, decode_imports, decode_function_types, decode_memory, decode_exports,
  decode_code, decode_data,
}
use i3ml_os.Wasm.Module.Monad.{return, too_large}
use i3ml_os.Wasm.Module.Limits.{bind-Bound, ok_pair, list_le, decode_exports-le}
use i3ml_os.Wasm.Module.Bodies.{Fits, decode_code-Fits, decode_memory-Fits}
use i3ml_os.Wasm.Module.Ceilings.{Ordered, Ordered-later, Filled-append}

module _ (bytes : List ℕ) where
  pub types-Ordered :
      (p position : ℕ) (s s' : Decoding) (after : ℕ)
      → p < 1
      → Ordered bytes p s
      → section bytes 1 s position ≡ ok (s', after)
      → Ordered bytes 1 s'
  unfolding section decode_types
  types-Ordered p position s s' after h o e =
      let l = Ordered-later bytes p 1 s (omega (arith, h)) o in
      let put = λ (new : List FuncType).
        return {A = Decoding}
          (record s { current = record s.current { types = s.current.types ++ new } }) in
      let b = bind-Bound (decode_types bytes) put position s' after e in
      subst (λ (x : Decoding). Ordered bytes 1 x) (ok_pair b.second).0
        (record {
          types =
              Filled-append bytes p 1 128 s.current.types b.value h
                (list_le bytes (func_type bytes) 128 too_large position b.value b.between b.first)
                o.types;
          imports = l.imports;
          function_types = l.function_types;
          exports = l.exports;
          functions = l.functions;
          segments = l.segments;
          pages = l.pages;
          fits = l.fits;
        })

  pub imports-Ordered :
      (p position : ℕ) (s s' : Decoding) (after : ℕ)
      → p < 2
      → Ordered bytes p s
      → section bytes 2 s position ≡ ok (s', after)
      → Ordered bytes 2 s'
  unfolding section decode_imports
  imports-Ordered p position s s' after h o e =
      let l = Ordered-later bytes p 2 s (omega (arith, h)) o in
      let put = λ (new : List ImportRef).
        return {A = Decoding}
          (record s { current = record s.current { imports = s.current.imports ++ new } }) in
      let b = bind-Bound (decode_imports bytes) put position s' after e in
      subst (λ (x : Decoding). Ordered bytes 2 x) (ok_pair b.second).0
        (record {
          types = l.types;
          imports =
              Filled-append bytes p 2 32 s.current.imports b.value h
                (list_le bytes (import_ref bytes) 32 too_large position b.value b.between b.first)
                o.imports;
          function_types = l.function_types;
          exports = l.exports;
          functions = l.functions;
          segments = l.segments;
          pages = l.pages;
          fits = l.fits;
        })

  pub function_types-Ordered :
      (p position : ℕ) (s s' : Decoding) (after : ℕ)
      → p < 3
      → Ordered bytes p s
      → section bytes 3 s position ≡ ok (s', after)
      → Ordered bytes 3 s'
  unfolding section decode_function_types
  function_types-Ordered p position s s' after h o e =
      let l = Ordered-later bytes p 3 s (omega (arith, h)) o in
      let put = λ (new : List ℕ).
        return {A = Decoding} (record s { function_types = s.function_types ++ new }) in
      let b = bind-Bound (decode_function_types bytes) put position s' after e in
      subst (λ (x : Decoding). Ordered bytes 3 x) (ok_pair b.second).0
        (record {
          types = l.types;
          imports = l.imports;
          function_types =
              Filled-append bytes p 3 256 s.function_types b.value h
                (list_le bytes (u32 bytes) 256 too_large position b.value b.between b.first)
                o.function_types;
          exports = l.exports;
          functions = l.functions;
          segments = l.segments;
          pages = l.pages;
          fits = l.fits;
        })

  pub memory-Ordered :
      (p position : ℕ) (s s' : Decoding) (after : ℕ)
      → p < 5
      → Ordered bytes p s
      → section bytes 5 s position ≡ ok (s', after)
      → Ordered bytes 5 s'
  unfolding section
  memory-Ordered p position s s' after h o e =
      let l = Ordered-later bytes p 5 s (omega (arith, h)) o in
      let put = λ (new : Option (ℕ × ℕ)).
        return {A = Decoding} (record s { current = record s.current { memory_pages = new } }) in
      let b = bind-Bound (decode_memory bytes s.current.memory_pages) put position s' after e in
      subst (λ (x : Decoding). Ordered bytes 5 x) (ok_pair b.second).0
        (record {
          types = l.types;
          imports = l.imports;
          function_types = l.function_types;
          exports = l.exports;
          functions = l.functions;
          segments = l.segments;
          pages =
              decode_memory-Fits bytes s.current.memory_pages position b.value b.between o.pages
                b.first;
          fits = l.fits;
        })

  pub exports-Ordered :
      (p position : ℕ) (s s' : Decoding) (after : ℕ)
      → p < 7
      → Ordered bytes p s
      → section bytes 7 s position ≡ ok (s', after)
      → Ordered bytes 7 s'
  unfolding section
  exports-Ordered p position s s' after h o e =
      let l = Ordered-later bytes p 7 s (omega (arith, h)) o in
      let put = λ (new : List Export).
        return {A = Decoding}
          (record s { current = record s.current { exports = s.current.exports ++ new } }) in
      let b = bind-Bound (decode_exports bytes) put position s' after e in
      subst (λ (x : Decoding). Ordered bytes 7 x) (ok_pair b.second).0
        (record {
          types = l.types;
          imports = l.imports;
          function_types = l.function_types;
          exports =
              Filled-append bytes p 7 64 s.current.exports b.value h
                (decode_exports-le bytes position b.value b.between b.first) o.exports;
          functions = l.functions;
          segments = l.segments;
          pages = l.pages;
          fits = l.fits;
        })

  pub code-Ordered :
      (p position : ℕ) (s s' : Decoding) (after : ℕ)
      → p < 10
      → Ordered bytes p s
      → section bytes 10 s position ≡ ok (s', after)
      → Ordered bytes 10 s'
  unfolding section
  code-Ordered p position s s' after h o e =
      let l = Ordered-later bytes p 10 s (omega (arith, h)) o in
      let put = λ (new : List Function).
        return {A = Decoding}
          (record s { current = record s.current { functions = s.current.functions ++ new } }) in
      let b = bind-Bound (decode_code bytes s.function_types) put position s' after e in
      subst (λ (x : Decoding). Ordered bytes 10 x) (ok_pair b.second).0
        (record {
          types = l.types;
          imports = l.imports;
          function_types = l.function_types;
          exports = l.exports;
          functions =
              Filled-append bytes p 10 256 s.current.functions b.value h
                (omega (
                  arith,
                  (decode_code-Fits bytes s.function_types position b.value b.between b.first).1,
                  o.function_types.under,
                ))
                o.functions;
          segments = l.segments;
          pages = l.pages;
          fits =
              All-append (Fits bytes) s.current.functions b.value o.fits
                (decode_code-Fits bytes s.function_types position b.value b.between b.first).0;
        })

  pub data-Ordered :
      (p position : ℕ) (s s' : Decoding) (after : ℕ)
      → p < 11
      → Ordered bytes p s
      → section bytes 11 s position ≡ ok (s', after)
      → Ordered bytes 11 s'
  unfolding section decode_data
  data-Ordered p position s s' after h o e =
      let l = Ordered-later bytes p 11 s (omega (arith, h)) o in
      let put = λ (new : List (ℕ × List ℕ)).
        return {A = Decoding}
          (record s { current = record s.current { segments = s.current.segments ++ new } }) in
      let b = bind-Bound (decode_data bytes) put position s' after e in
      subst (λ (x : Decoding). Ordered bytes 11 x) (ok_pair b.second).0
        (record {
          types = l.types;
          imports = l.imports;
          function_types = l.function_types;
          exports = l.exports;
          functions = l.functions;
          segments =
              Filled-append bytes p 11 32 s.current.segments b.value h
                (list_le bytes (data_segment bytes) 32 too_large position b.value b.between b.first)
                o.segments;
          pages = l.pages;
          fits = l.fits;
        })
