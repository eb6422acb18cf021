-- ===== src/Wasm/Module.antt =====
-- libs/wasm/src/module.rs: the decoder of modules. A name is the bytes of a string. The loop over the
-- sections has as many rounds at hand as the module has bytes; `none` is that they did not suffice.
pub mod Monad
pub mod Limits
pub mod Bodies
pub mod Ceilings
pub mod Sections
pub mod Returned
pub mod Decoded
mod Tests
use i3ml_os.Prelude.{
  ℕ, zero, suc, ◌+◌, ◌-◌, ◌*◌, ◌^◌, Bool, true, false, not, ◌&&◌, ◌||◌, Option, none, some, List,
  [], ◌∷◌, ◌++◌, ltb, leb, ◌==◌, if◌then◌else◌, length, get_elem?, find, replicate, Result, ok, err,
  wrap32,
}
use i3ml_os.Journal.Bytes.{bytes_eq}
use i3ml_os.Wasm.Leb
use Monad.{
  Error, not_wasm, unsupported_version, malformed, truncated, unsupported, too_large, Decoder,
  ◌>>=◌, ◌>>◌, return, fail, fail_if, here, times, lift,
}

pub data ValueType : Type 0 where
  i32 i64 : ValueType

abbrev pub value_type : ℕ → Decoder ValueType
value_type b =
    if b == 0x7f
    then return i32
    else if b == 0x7e
    then return i64
    else fail (if b == 0x7d || b == 0x7c then unsupported else malformed)

pub record FuncType : Type 0 where
  pub params : List ValueType
  pub results : List ValueType

pub record ImportRef : Type 0 where
  pub namespace : List ℕ
  pub name : List ℕ
  pub type_index : ℕ

pub record Export : Type 0 where
  pub name : List ℕ
  pub function_index : ℕ

pub record Function : Type 0 where
  pub type_index : ℕ
  pub locals : List ValueType
  pub body_start : ℕ
  pub body_end : ℕ

pub record Module : Type 0 where
  pub types : List FuncType
  pub imports : List ImportRef
  pub functions : List Function
  pub exports : List Export
  pub memory_pages : Option (ℕ × ℕ)
  pub segments : List (ℕ × List ℕ)

abbrev pub max_types : ℕ
max_types = 128

abbrev pub max_imports : ℕ
max_imports = 32

abbrev pub max_functions : ℕ
max_functions = 256

abbrev pub max_exports : ℕ
max_exports = 64

abbrev pub max_locals : ℕ
max_locals = 256

abbrev pub max_memory_pages : ℕ
max_memory_pages = 16

abbrev pub max_data_segments : ℕ
max_data_segments = 32

abbrev pub max_module_bytes : ℕ
max_module_bytes = 128 * 1024

-- The module under construction, with the type indices of the function section.
pub record Decoding : Type 0 where
  pub current : Module
  pub function_types : List ℕ

module _ (bytes : List ℕ) where
  abbrev byte : Decoder ℕ
  byte = lift bytes Leb.byte

  abbrev usize : Decoder ℕ
  usize = lift bytes Leb.read_usize

  abbrev u32 : Decoder ℕ
  u32 = lift bytes Leb.read_u32

  abbrev text : Decoder (List ℕ)
  text = lift bytes Leb.name

  abbrev typed : Decoder ValueType
  typed = byte >>= value_type

  -- A count, which must not be more than the limit.
  abbrev pub counted : ℕ → Error → Decoder ℕ
  counted limit e = do count ← usize; fail_if (ltb limit count) e; return count

  -- The end of something of a size that begins here, which must not be behind the module.
  abbrev pub ending : ℕ → Decoder ℕ
  ending size = do
    start ← here
    fail_if (ltb (2 ^ 64 - 1) (start + size) || ltb (length bytes) (start + size)) truncated
    return (start + size)

  unfoldable pub func_type : Decoder FuncType
  func_type = do
    tag ← byte
    fail_if (not (tag == 0x60)) malformed
    params ← usize
    ps ← times params typed
    results ← counted 1 unsupported
    rs ← times results typed
    return (record { params = ps; results = rs })

  unfoldable pub decode_types : Decoder (List FuncType)
  decode_types = do count ← counted max_types too_large; times count func_type

  unfoldable pub import_ref : Decoder ImportRef
  import_ref = do
    namespace ← text
    name ← text
    kind ← byte
    fail_if (leb 1 kind && leb kind 3) unsupported
    fail_if (not (kind == 0)) malformed
    type_index ← u32
    return (record { namespace = namespace; name = name; type_index = type_index })

  unfoldable pub decode_imports : Decoder (List ImportRef)
  decode_imports = do count ← counted max_imports too_large; times count import_ref

  unfoldable pub decode_function_types : Decoder (List ℕ)
  decode_function_types = do count ← counted max_functions too_large; times count u32

  abbrev pub limits_of : ℕ → Decoder (ℕ × ℕ)
  limits_of kind =
      if kind == 0
      then (u32 >>= λ minimum. return (minimum, max_memory_pages))
      else if kind == 1
      then (u32 >>= λ minimum. u32 >>= λ maximum. return (minimum, maximum))
      else fail malformed

  unfoldable pub memory : Decoder (ℕ × ℕ)
  memory = do
    kind ← byte
    limits ← limits_of kind
    fail_if (ltb max_memory_pages limits.0 || ltb max_memory_pages limits.1) too_large
    return limits

  unfoldable pub decode_memory : Option (ℕ × ℕ) → Decoder (Option (ℕ × ℕ))
  decode_memory before = do
    count ← counted 1 unsupported
    if count == 0 then return before else (memory >>= λ pages. return (some pages))

  abbrev kept : List (Option Export) → List Export
  kept [] = []
  kept (none ∷ entries) = kept entries
  kept (some e ∷ entries) = e ∷ kept entries

  -- `none` is an export that is no function, which is ignored.
  unfoldable pub export_entry : Decoder (Option Export)
  export_entry = do
    name ← text
    kind ← byte
    index ← u32
    return (if kind == 0 then some (record { name = name; function_index = index }) else none)

  unfoldable pub decode_exports : Decoder (List Export)
  decode_exports = do
    count ← counted max_exports too_large
    entries ← times count export_entry
    return (kept entries)

  -- The loop over the groups of locals.
  unfoldable pub decode_locals : ℕ → List ValueType → Decoder (List ValueType)
  decode_locals zero locals = return locals
  decode_locals (suc groups) locals = do
    repeat ← usize
    value ← typed
    fail_if (ltb max_locals (length locals + repeat)) too_large
    decode_locals groups (locals ++ replicate repeat value)

  -- The body is what lies between the locals and the end.
  abbrev pub finish_body : ℕ → ℕ → List ValueType → Decoder Function
  finish_body type_index body_end locals = do
    body_start ← here
    lift bytes (Leb.seek body_end)
    return (record {
      type_index = type_index;
      locals = locals;
      body_start = body_start;
      body_end = body_end;
    })

  abbrev pub body_before : ℕ → ℕ → Decoder Function
  body_before type_index body_end = do
    groups ← usize
    locals ← decode_locals groups []
    finish_body type_index body_end locals

  unfoldable pub function_body : ℕ → Decoder Function
  function_body type_index = do
    size ← usize
    body_end ← ending size
    body_before type_index body_end

  unfoldable pub function_bodies : List ℕ → Decoder (List Function)
  function_bodies [] = return []
  function_bodies (type_index ∷ rest) = do
    f ← function_body type_index
    fs ← function_bodies rest
    return (f ∷ fs)

  unfoldable pub decode_code : List ℕ → Decoder (List Function)
  decode_code function_types = do
    count ← usize
    fail_if (not (count == length function_types)) malformed
    function_bodies function_types

  unfoldable pub data_segment : Decoder (ℕ × List ℕ)
  data_segment = do
    index ← u32
    fail_if (not (index == 0)) unsupported
    opcode ← byte
    fail_if (not (opcode == 0x41)) unsupported
    offset ← lift bytes (Leb.signed 32)
    end ← byte
    fail_if (not (end == 0x0b)) malformed
    size ← usize
    content ← lift bytes (Leb.slice size)
    return (wrap32 offset, content)

  unfoldable pub decode_data : Decoder (List (ℕ × List ℕ))
  decode_data = do count ← counted max_data_segments too_large; times count data_segment

  -- The `match` on the number of a section: what its decoder adds to the module.
  unfoldable pub section : ℕ → Decoding → Decoder Decoding
  section id s =
      let m = s.current in
      let put = λ (m' : Module). return (record s { current = m' }) in
      if id == 0
      then return s
      else if id == 1
      then (decode_types >>= λ new. put (record m { types = m.types ++ new }))
      else if id == 2
      then (decode_imports >>= λ new. put (record m { imports = m.imports ++ new }))
      else if id == 3
      then (decode_function_types >>= λ new.
          return (record s { function_types = s.function_types ++ new }))
      else if id == 5
      then (decode_memory m.memory_pages >>= λ pages. put (record m { memory_pages = pages }))
      else if id == 7
      then (decode_exports >>= λ new. put (record m { exports = m.exports ++ new }))
      else if id == 10
      then (decode_code s.function_types >>= λ new.
          put (record m { functions = m.functions ++ new }))
      else if id == 11
      then (decode_data >>= λ new. put (record m { segments = m.segments ++ new }))
      else fail (if id == 4 || (id == 6 || (id == 8 || id == 9)) then unsupported else malformed)

  -- What is in a section with a number, and the seek to its end.
  abbrev pub section_to : ℕ → Decoding → ℕ → ℕ → Decoder (ℕ × Decoding)
  section_to previous_id s id section_end = do
    s' ← section id s
    lift bytes (Leb.seek section_end)
    return (if id == 0 then previous_id else id, s')

  abbrev pub section_from : ℕ → Decoding → ℕ → Decoder (ℕ × Decoding)
  section_from previous_id s id = do
    fail_if (not (id == 0) && leb id previous_id) malformed
    size ← usize
    section_end ← ending size
    section_to previous_id s id section_end

  -- One section, from its number to its end: the number that the next one must be above, and what was
  -- decoded.
  unfoldable pub one_section : ℕ → Decoding → Decoder (ℕ × Decoding)
  one_section previous_id s = do id ← byte; section_from previous_id s id

  unfoldable pub sections : ℕ → ℕ → Decoding → ℕ → Option (Result Error Module)
  sections zero previous_id s position = none
  sections (suc rounds) previous_id s position = elim (leb (length bytes) position) [
    | true ↦ some (ok s.current)
    | false ↦ elim (one_section previous_id s position) [
      | err e ↦ some (err e)
      | ok ((id, s'), position') ↦ sections rounds id s' position'
    ]
  ]

  abbrev pub decoding_new : Decoding
  decoding_new = record {
    current = record {
      types = [];
      imports = [];
      functions = [];
      exports = [];
      memory_pages = none;
      segments = [];
    };
    function_types = [];
  }

  -- The magic number and the version.
  unfoldable pub preamble : Decoder (Unit {0})
  preamble = do
    magic ← lift bytes (Leb.slice 4)
    fail_if (not (bytes_eq magic (0 ∷ 97 ∷ 115 ∷ 109 ∷ []))) not_wasm
    version ← lift bytes (Leb.slice 4)
    fail_if (not (bytes_eq version (1 ∷ 0 ∷ 0 ∷ 0 ∷ []))) unsupported_version

  unfoldable pub decode : Option (Result Error Module)
  decode = if ltb max_module_bytes (length bytes) then some (err too_large) else elim (preamble 0) [
    | err e ↦ some (err e)
    | ok (u, position) ↦ sections (suc (length bytes)) 0 decoding_new position
  ]

-- The type of a function: the imported ones have the low numbers.
unfoldable pub function_type : ℕ → Module → Option FuncType
function_type index m =
    if ltb index (length m.imports)
    then elim (get_elem? m.imports index) [ none ↦ none | some i ↦ get_elem? m.types i.type_index ]
    else elim (get_elem? m.functions (index - length m.imports)) [
      | none ↦ none
      | some f ↦ get_elem? m.types f.type_index
    ]

-- `Module::export`.
unfoldable pub export_named : List ℕ → Module → Option ℕ
export_named name m = elim (find (λ (e : Export). bytes_eq e.name name) m.exports) [
  | none ↦ none
  | some e ↦ some e.function_index
]
