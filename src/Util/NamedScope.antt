-- ===== src/Util/NamedScope.antt =====
-- crates/util/src/named_scope.rs: selections that a store keeps under a name.
pub mod Normal
use sekai.Base.{
  ℕ, ◌≡◌, ◌↔◌, Bool, true, false, ◌&&◌, ◌||◌, List, [], ◌∷◌, map, arith, Ord, ◌==◌, ◌<?◌,
}
use sekai.Base.Int.{ℤ, int_ord, beq_ℤ_iff}
use sekai.Base.Outcome.{Result, ok, err, map_err, ◌>>=◌, ◌>>◌}
use sekai.Base.Sorted.{sort, dedup}
use sekai.Util.Coord.{Dimension, dimension_ord, dimension_beq_iff, all_region_kinds}
use sekai.Util.Scope.{Rect, rect_new, rect, Scope, select}
use sekai.Util.Name.Grammar.{NameRule, PathRule, check, max_len}

pub record ScopeName : Type 0 where
  pub chars : List ℕ

pub data ScopeNameError : Type 0 where
  empty : ScopeNameError
  too_long bad_char : ℕ → ScopeNameError
  bad_path : PathRule → ScopeNameError

abbrev pub scope_error : NameRule → ScopeNameError
scope_error NameRule.empty = ScopeNameError.empty
scope_error NameRule.too_long = ScopeNameError.too_long max_len
scope_error (NameRule.bad_char c) = ScopeNameError.bad_char c
scope_error (NameRule.bad_path reason) = ScopeNameError.bad_path reason

-- `ScopeName::parse`
unfoldable pub parse_scope_name : List ℕ → Result ScopeName ScopeNameError
unfolding check
parse_scope_name text = do map_err scope_error (check text); ok (record { chars = text })

-- the derived equality and order of a rectangle: field by field
abbrev pub rect_beq : Rect → Rect → Bool
rect_beq a b = a.x0 == b.x0 && (a.z0 == b.z0 && (a.x1 == b.x1 && a.z1 == b.z1))

abbrev pub rect_blt : Rect → Rect → Bool
rect_blt a b =
    a.x0 <? b.x0
    || a.x0 == b.x0
      && (a.z0 <? b.z0 || a.z0 == b.z0 && (a.x1 <? b.x1 || a.x1 == b.x1 && a.z1 <? b.z1))

pub rect_beq_iff : (a b : Rect) → (rect_beq a b ≡ true) ↔ (a ≡ b)
rect_beq_iff a b =
    ground
      (arith, beq_ℤ_iff a.x0 b.x0, beq_ℤ_iff a.z0 b.z0, beq_ℤ_iff a.x1 b.x1, beq_ℤ_iff a.z1 b.z1)

instance abbrev pub rect_ord : Ord Rect
rect_ord = record { beq = rect_beq; beq_iff = rect_beq_iff; blt = rect_blt }

-- a rectangle of a dimension
abbrev pub ScopeArea : Type 0
ScopeArea = Dimension × Rect

pub area_beq_iff : (a b : ScopeArea) → ((a.0 == b.0 && a.1 == b.1) ≡ true) ↔ (a ≡ b)
area_beq_iff a b = ground (arith, dimension_beq_iff a.0 b.0, rect_beq_iff a.1 b.1)

instance abbrev pub area_ord : Ord ScopeArea
area_ord = record {
  beq = λ a b. a.0 == b.0 && a.1 == b.1;
  beq_iff = area_beq_iff;
  blt = λ a b. a.0 <? b.0 || a.0 == b.0 && a.1 <? b.1;
}

pub record NamedScope : Type 0 where
  pub name : ScopeName
  pub areas : List ScopeArea
  pub created_at_ms : ℕ

pub data NamedScopeError : Type 0 where
  no_areas : NamedScopeError

-- the corners of an area in order
unfoldable pub normal_area : ScopeArea → ScopeArea
normal_area (dim, r) = (dim, rect_new r.x0 r.z0 r.x1 r.z1)

-- `NamedScope::new`
unfoldable pub named_scope_new : ScopeName → List ScopeArea → ℕ → Result NamedScope NamedScopeError
unfolding normal_area
named_scope_new name [] created_at_ms = err no_areas
named_scope_new name (a ∷ areas) created_at_ms = ok (record {
  name = name;
  areas = dedup (sort (map normal_area (a ∷ areas)));
  created_at_ms = created_at_ms;
})

-- `NamedScope::to_scope`
unfoldable pub to_scope : NamedScope → Scope
to_scope scope = select all_region_kinds (map (λ a. (a.0, rect a.1)) scope.areas)
