-- ===== src/Wasm/Module/Monad.antt =====
-- libs/wasm/src/module.rs: its errors, and decoders with the early return of `?`. The bytes of the module
-- never change while it is decoded, so a decoder is a function of the position alone.
use i3ml_os.Prelude.{ℕ, zero, suc, Bool, true, false, List, [], ◌∷◌, Result, ok, err}
use i3ml_os.Wasm.Leb
use i3ml_os.Wasm.Leb.{Reader}

pub data Error : Type 0 where
  not_wasm unsupported_version malformed truncated unsupported too_large : Error

-- `impl From<LebError> for Error`.
abbrev pub from_leb : Leb.Error → Error
from_leb Leb.truncated = truncated
from_leb Leb.overlong = malformed
from_leb Leb.malformed = malformed

abbrev pub Decoder : Type 0 → Type 0
Decoder A = ℕ → Result Error (A × ℕ)

infixl 5 ◌>>=◌ ◌>>◌
abbrev pub ◌>>=◌ : {A B : Type 0} → Decoder A → (A → Decoder B) → Decoder B
(d >>= k) position = elim (d position) [ err e ↦ err e | ok (a, position') ↦ k a position' ]

abbrev pub ◌>>◌ : {A B : Type 0} → Decoder A → Decoder B → Decoder B
d >> k = d >>= λ _. k

abbrev pub return : {A : Type 0} → A → Decoder A
return a position = ok (a, position)

abbrev pub fail : {A : Type 0} → Error → Decoder A
fail e position = err e

abbrev pub fail_if : Bool → Error → Decoder (Unit {0})
fail_if true e position = err e
fail_if false e position = ok (tt, position)

abbrev pub here : Decoder ℕ
here position = ok (position, position)

-- `for _ in 0..count { list.push(d?) }`.
abbrev pub times : {A : Type 0} → ℕ → Decoder A → Decoder (List A)
times zero d = return []
times (suc count) d = d >>= λ a. times count d >>= λ rest. return (a ∷ rest)

-- A method of the reader.
abbrev pub lifted : {A : Type 0} → Result Leb.Error A × Reader → Result Error (A × ℕ)
lifted (err e, after) = err (from_leb e)
lifted (ok a, after) = ok (a, after.position)

abbrev pub lift : {A : Type 0} → List ℕ → (Reader → Result Leb.Error A × Reader) → Decoder A
lift bytes f position = lifted (f (record { bytes = bytes; position = position }))
