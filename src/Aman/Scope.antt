-- ===== src/Aman/Scope.antt =====
-- `Scope` of nawa/aman/src/lib.rs: a path or a namespace, and containment at component boundaries.
use i3ml_os.Prelude.{
  ℕ, ◌≡◌, refl, sym, ◌∙◌, ap, inl, inr, Bool, true, false, ◌||◌, Option, none, some, List, [], ◌∷◌,
  ◌++◌, arith, ◌==◌, ==_self, if◌then◌else◌, Option-cases,
}
use mathlib.Core.Option
use mathlib.Core.List.{append_assoc, append-nil}
use i3ml_os.Text.{Text}
use i3ml_os.Sijil.Label.{Label}
use i3ml_os.Sijil.Label

pub record Scope : Type 0 where
  pub label : Label

pub new : Text → Option Scope
new text = Option.map (λ l. record { label = l }) (Label.exact text)

abbrev pub as_str : Scope → List ℕ
as_str s = Label.as_str s.label

-- `str::strip_prefix`, `is_empty`, `ends_with('/')` and `starts_with('/')` on bytes.
unfoldable pub strip_prefix : List ℕ → List ℕ → Option (List ℕ)
strip_prefix child [] = some child
strip_prefix [] (p ∷ parent) = none
strip_prefix (c ∷ child) (p ∷ parent) = if c == p then strip_prefix child parent else none

abbrev pub is_empty : List ℕ → Bool
is_empty [] = true
is_empty (b ∷ bytes) = false

abbrev pub ends_with : ℕ → List ℕ → Bool
ends_with c [] = false
ends_with c (b ∷ []) = b == c
ends_with c (b ∷ d ∷ bytes) = ends_with c (d ∷ bytes)

abbrev pub starts_with : ℕ → List ℕ → Bool
starts_with c [] = false
starts_with c (b ∷ bytes) = b == c

abbrev pub slash : ℕ
slash = 0x2f

-- The test on what `strip_prefix` leaves.
abbrev pub boundary : List ℕ → List ℕ → Bool
boundary parent rest = is_empty rest || ends_with slash parent || starts_with slash rest

-- `Scope::is_within` on the texts of the two scopes.
unfoldable pub within : List ℕ → List ℕ → Bool
unfolding strip_prefix
within child parent = elim (strip_prefix child parent) [
  | none ↦ false
  | some rest ↦ boundary parent rest
]

abbrev pub is_within : Scope → Scope → Bool
is_within child parent = within (as_str child) (as_str parent)

-- What containment means: the child is the parent followed by a rest that starts a component.
abbrev pub Within : List ℕ → List ℕ → Type 0
Within child parent = (rest : List ℕ) × (child ≡ parent ++ rest) × (boundary parent rest ≡ true)

strip_prefix-append : (parent rest : List ℕ) → strip_prefix (parent ++ rest) parent ≡ some rest
unfolding strip_prefix
strip_prefix-append [] [] = refl
strip_prefix-append [] (r ∷ rest) = refl
strip_prefix-append (p ∷ parent) rest = rw (==_self p) (strip_prefix-append parent rest)

strip_prefix-eq :
    (child parent rest : List ℕ) → strip_prefix child parent ≡ some rest → child ≡ parent ++ rest
unfolding strip_prefix
strip_prefix-eq [] [] rest e = ground arith
strip_prefix-eq (c ∷ child) [] rest e = ground arith
strip_prefix-eq [] (p ∷ parent) rest e = cc
strip_prefix-eq (c ∷ child) (p ∷ parent) rest e = ground (arith, strip_prefix-eq child parent rest)

pub within→Within : (child parent : List ℕ) → within child parent ≡ true → Within child parent
unfolding within
within→Within child parent h = elim (Option-cases (strip_prefix child parent)) [
  | inl e ↦ ground arith
  | inr (rest, e) ↦ (rest, strip_prefix-eq child parent rest e, (rw (e, within) at h))
]

pub Within→within : (child parent : List ℕ) → Within child parent → within child parent ≡ true
unfolding within
Within→within child parent (rest, e, b) = rw e (rw (strip_prefix-append parent rest, within) b)

pub Within-refl : (text : List ℕ) → Within text text
Within-refl text = ([], sym (append-nil text), refl)

boundary_trans :
    (grand parent r s : List ℕ)
    → parent ≡ grand ++ r
    → boundary grand r ≡ true
    → boundary parent s ≡ true
    → boundary grand (r ++ s) ≡ true
boundary_trans grand parent [] s e g p = rw (e ∙ append-nil grand) at p
boundary_trans grand parent (b ∷ r) s e g p = g

-- Containment of scopes is transitive.
pub Within-trans : (a b c : List ℕ) → Within a b → Within b c → Within a c
Within-trans a b c (s, e, p) (r, f, q) =
    (r ++ s, e ∙ ap (λ t. t ++ s) f ∙ append_assoc c r s, boundary_trans c b r s f q p)
