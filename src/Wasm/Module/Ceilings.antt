-- ===== src/Wasm/Module/Ceilings.antt =====
-- The limits of libs/wasm/src/module.rs on a decoded module.
use i3ml_os.Prelude.{
  ℕ, ◌+◌, ◌≤◌, ◌<◌, ◌≡◌, sym, subst, List, ◌++◌, arith, length, length-append, All,
}
use i3ml_os.Wasm.Module.{Module, Decoding}
use i3ml_os.Wasm.Module.Bodies.{Fits, PagesFit}

-- A list under its ceiling, which its own section alone fills: nothing is in it before that section.
pub record Filled (previous own limit size : ℕ) : Type 0 where
  pub under : size ≤ limit
  pub empty : previous < own → size ≡ 0

Filled-later : (p q own limit size : ℕ) → p ≤ q → Filled p own limit size → Filled q own limit size
Filled-later p q own limit size h f = record {
  under = f.under;
  empty = λ k. f.empty (omega (arith, h, k));
}

Filled-now :
    (p own limit size new : ℕ)
    → p < own
    → new ≤ limit
    → Filled p own limit size
    → Filled own own limit (size + new)
Filled-now p own limit size new h k f = record {
  under = omega (arith, k, f.empty h);
  empty = λ l. absurd (omega (arith, l));
}

pub record WithinCeilings (bytes : List ℕ) (m : Module) : Type 0 where
  pub types_le : length m.types ≤ 128
  pub imports_le : length m.imports ≤ 32
  pub functions_le : length m.functions ≤ 256
  pub exports_le : length m.exports ≤ 64
  pub segments_le : length m.segments ≤ 32
  pub pages_fit : PagesFit m.memory_pages
  pub functions_fit : All (Fits bytes) m.functions

-- The same between two sections, where `previous` is the last number seen.
pub record Ordered (bytes : List ℕ) (previous : ℕ) (s : Decoding) : Type 0 where
  pub types : Filled previous 1 128 (length s.current.types)
  pub imports : Filled previous 2 32 (length s.current.imports)
  pub function_types : Filled previous 3 256 (length s.function_types)
  pub exports : Filled previous 7 64 (length s.current.exports)
  pub functions : Filled previous 10 256 (length s.current.functions)
  pub segments : Filled previous 11 32 (length s.current.segments)
  pub pages : PagesFit s.current.memory_pages
  pub fits : All (Fits bytes) s.current.functions

module _ (bytes : List ℕ) where
  pub Ordered-later : (p q : ℕ) (s : Decoding) → p ≤ q → Ordered bytes p s → Ordered bytes q s
  Ordered-later p q s h o = record {
    types = Filled-later p q 1 128 (length s.current.types) h o.types;
    imports = Filled-later p q 2 32 (length s.current.imports) h o.imports;
    function_types = Filled-later p q 3 256 (length s.function_types) h o.function_types;
    exports = Filled-later p q 7 64 (length s.current.exports) h o.exports;
    functions = Filled-later p q 10 256 (length s.current.functions) h o.functions;
    segments = Filled-later p q 11 32 (length s.current.segments) h o.segments;
    pages = o.pages;
    fits = o.fits;
  }

  -- A list that its section puts new entries behind.
  pub Filled-append :
      {A : Type 0} (p own limit : ℕ) (xs new : List A)
      → p < own
      → length new ≤ limit
      → Filled p own limit (length xs)
      → Filled own own limit (length (xs ++ new))
  Filled-append p own limit xs new h k f =
      subst (λ (n : ℕ). Filled own own limit n) (sym (length-append xs new))
        (Filled-now p own limit (length xs) (length new) h k f)
