-- ===== src/Aman/Authority.antt =====
-- `Authority` of nawa/aman/src/lib.rs: what a capability lets an agent touch, how bad that is, and
-- when one authority is at least as narrow as another.
use i3ml_os.Prelude.{
  ℕ, ◌≡◌, refl, Bool, true, false, not, ◌&&◌, ◌||◌, arith, leb, le→leb, leb→le, and_true, true_and,
}
use i3ml_os.Text.{Text, literal}
use i3ml_os.Aman.Scope.{
  Scope, is_within, Within-trans, Within-refl, within→Within, Within→within, as_str,
}

pub data ModelClass : Type 0 where
  fast private frontier arabic : ModelClass

pub data Risk : Type 0 where
  benign reversible irreversible : Risk

-- `fs` is the prefix and whether it may be written, `memory` likewise, `send` is `draft_only`, and
-- `spend` the ceiling in micro-dollars.
pub data Authority : Type 0 where
  fs : Scope → Bool → Authority
  model : ModelClass → Authority
  memory : Scope → Bool → Authority
  send : Bool → Authority
  spend : ℕ → Authority

-- The derived `PartialEq` of the two enumerations.
abbrev pub model_eq : ModelClass → ModelClass → Bool
model_eq fast fast = true
model_eq private private = true
model_eq frontier frontier = true
model_eq arabic arabic = true
model_eq _ _ = false

abbrev pub is_irreversible : Risk → Bool
is_irreversible benign = false
is_irreversible reversible = false
is_irreversible irreversible = true

unfoldable pub risk : Authority → Risk
risk (fs prefix false) = benign
risk (fs prefix true) = reversible
risk (model class) = benign
risk (memory namespace false) = benign
risk (memory namespace true) = reversible
risk (send true) = reversible
risk (send false) = irreversible
risk (spend micro_dollars) = irreversible

unfoldable pub is_subset_of : Authority → Authority → Bool
is_subset_of (fs child child_write) (fs parent parent_write) =
    is_within child parent && (not child_write || parent_write)
is_subset_of (model a) (model b) = model_eq a b
is_subset_of (memory child child_write) (memory parent parent_write) =
    is_within child parent && (not child_write || parent_write)
is_subset_of (send child) (send parent) = child || not parent
is_subset_of (spend child) (spend parent) = leb child parent
is_subset_of _ _ = false

unfoldable pub describe : Authority → Text
describe (fs prefix false) = literal "fs:read"
describe (fs prefix true) = literal "fs:write"
describe (model fast) = literal "model:fast"
describe (model private) = literal "model:private"
describe (model frontier) = literal "model:frontier"
describe (model arabic) = literal "model:arabic"
describe (memory namespace false) = literal "memory:read"
describe (memory namespace true) = literal "memory:write"
describe (send true) = literal "send:draft-only"
describe (send false) = literal "send"
describe (spend micro_dollars) = literal "spend"

-- The order by itself, as a proposition per kind of authority.
abbrev pub Narrower : Authority → Authority → Type 0
Narrower a b = is_subset_of a b ≡ true

write_trans : (a b c : Bool) → (not a || b) ≡ true → (not b || c) ≡ true → (not a || c) ≡ true
write_trans a b c h k = ground arith

scope_trans :
    (a b c : Scope) (u v w : Bool)
    → (is_within a b && (not u || v)) ≡ true
    → (is_within b c && (not v || w)) ≡ true
    → (is_within a c && (not u || w)) ≡ true
scope_trans a b c u v w h k =
    let (ab, uv) = and_true (is_within a b) (not u || v) h in
    let (bc, vw) = and_true (is_within b c) (not v || w) k in
    true_and (is_within a c) (not u || w)
      (Within→within _ _ (
        Within-trans (as_str a) (as_str b) (as_str c) (within→Within _ _ ab)
          (within→Within _ _ bc)))
      (write_trans u v w uv vw)

model_eq_trans :
    (a b c : ModelClass) → model_eq a b ≡ true → model_eq b c ≡ true → model_eq a c ≡ true
model_eq_trans a b c h k = ground arith

-- Narrowing a narrowed authority never widens: the order is transitive.
pub is_subset_of-trans : (a b c : Authority) → Narrower a b → Narrower b c → Narrower a c
unfolding is_subset_of
is_subset_of-trans (fs a u) (fs b v) (fs c w) h k = scope_trans a b c u v w h k
is_subset_of-trans (memory a u) (memory b v) (memory c w) h k = scope_trans a b c u v w h k
is_subset_of-trans (spend a) (spend b) (spend c) h k =
    le→leb a c (omega (arith, leb→le a b h, leb→le b c k))
is_subset_of-trans (send a) (send b) (send c) h k = ground arith
is_subset_of-trans (model a) (model b) (model c) h k = model_eq_trans a b c h k
is_subset_of-trans a b c h k = cc

-- Every authority is within itself.
pub is_subset_of-refl : (a : Authority) → Narrower a a
unfolding is_subset_of
is_subset_of-refl (fs s w) =
    true_and (is_within s s) (not w || w) (Within→within _ _ (Within-refl (as_str s)))
      (ground arith)
is_subset_of-refl (memory s w) =
    true_and (is_within s s) (not w || w) (Within→within _ _ (Within-refl (as_str s)))
      (ground arith)
is_subset_of-refl (model fast) = refl
is_subset_of-refl (model private) = refl
is_subset_of-refl (model frontier) = refl
is_subset_of-refl (model arabic) = refl
is_subset_of-refl (send b) = ground arith
is_subset_of-refl (spend n) = ground arith
