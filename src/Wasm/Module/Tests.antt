-- ===== src/Wasm/Module/Tests.antt =====
-- A module with one function, `run`, that returns 42.
use i3ml_os.Prelude.{ℕ, ◌≡◌, ◌≢◌, refl, none, some, List, [], ◌∷◌, ◌++◌, ok, err}
use i3ml_os.Wasm.Leb
use i3ml_os.Wasm.Module.{
  Module, decode, preamble, sections, one_section, section, decode_types, func_type,
  decode_function_types, decode_memory, memory, decode_exports, export_entry, decode_code,
  function_bodies, function_body, decode_locals, function_type, export_named, i32,
}
use i3ml_os.Wasm.Module.Monad.{malformed}
use i3ml_os.Wasm.Module.Ceilings.{WithinCeilings}
use i3ml_os.Wasm.Module.Decoded.{decode-WithinCeilings, decode_returns}

abbrev answer : List ℕ
answer =
    0 ∷ 97 ∷ 115 ∷ 109 ∷ 1 ∷ 0 ∷ 0 ∷ 0 ∷ 1 ∷ 5 ∷ 1 ∷ 96 ∷ 0 ∷ 1 ∷ 127 ∷ 3 ∷ 2 ∷ 1 ∷ 0 ∷ 5 ∷ 3 ∷ 1
    ∷ 0 ∷ 1 ∷ 7 ∷ 7 ∷ 1 ∷ 3 ∷ 114 ∷ 117 ∷ 110 ∷ 0 ∷ 0 ∷ 10 ∷ 6 ∷ 1 ∷ 4 ∷ 0 ∷ 65 ∷ 42 ∷ 11 ∷ []

abbrev answer_module : Module
answer_module = record {
  types = record { params = []; results = i32 ∷ [] } ∷ [];
  imports = [];
  functions = record { type_index = 0; locals = []; body_start = 38; body_end = 41 } ∷ [];
  exports = record { name = 114 ∷ 117 ∷ 110 ∷ []; function_index = 0 } ∷ [];
  memory_pages = some (1, 16);
  segments = [];
}

decoded : decode answer ≡ some (ok answer_module)
unfolding decode preamble sections one_section section decode_types func_type decode_function_types
    decode_memory memory decode_exports export_entry decode_code function_bodies function_body
    decode_locals Leb.byte Leb.slice Leb.seek Leb.read_usize Leb.read_u32 Leb.unsigned
    Leb.unsigned_loop Leb.name i3ml_os.Text.is_utf8 i3ml_os.Text.utf8_from i3ml_os.Text.lead
decoded = refl

-- The section of types once more at the end.
repeated : decode (answer ++ (1 ∷ 1 ∷ 0 ∷ [])) ≡ some (err malformed)
unfolding decode preamble sections one_section section decode_types func_type decode_function_types
    decode_memory memory decode_exports export_entry decode_code function_bodies function_body
    decode_locals Leb.byte Leb.slice Leb.seek Leb.read_usize Leb.read_u32 Leb.unsigned
    Leb.unsigned_loop Leb.name i3ml_os.Text.is_utf8 i3ml_os.Text.utf8_from i3ml_os.Text.lead
repeated = refl

runs :
    (export_named (114 ∷ 117 ∷ 110 ∷ []) answer_module ≡ some 0)
    × (function_type 0 answer_module ≡ some (record { params = []; results = i32 ∷ [] }))
unfolding export_named function_type
runs = (refl, refl)

decode-WithinCeilings_example : WithinCeilings answer answer_module
decode-WithinCeilings_example = decode-WithinCeilings answer answer_module decoded

decode_returns_example : decode answer ≢ none
decode_returns_example = decode_returns answer
