-- ===== src/Examples/Named.antt =====
-- A store with one named scope: setting another, replacing it, and deleting it.
use sekai.Base.{
  ℕ, ◌≡◌, ◌↔◌, refl, false, none, some, List, [], ◌∷◌, ◌++◌, arith, ◌==◌, inl, inr, nat_ord,
}
use sekai.Base.{filter}
use sekai.Base.Map
use sekai.Base.Sorted.{sort, dedup}
use sekai.Base.Int.{pos, negsuc}
use sekai.Base.Member.{In-append_left, In-append_right, In-of_append}
use sekai.Base.Outcome.{ok, err}
use sekai.Util.Coord.{overworld, nether}
use sekai.Util.Scope.{Rect}
use sekai.Util.NamedScope.{ScopeName, ScopeArea, NamedScope, parse_scope_name, named_scope_new}
use sekai.Sqlite.{empty_scope, invalid_timestamp}
use sekai.Sqlite.Scopes
use sekai.Sqlite.Scopes.{
  AreaRow, ScopeRow, ScopeTables, text_ord, JoinedRow, lookup_scope, visit_scopes, set_scope,
  delete_scope,
}
use sekai.Sqlite.Scopes.Rows.{Sound}
use sekai.Sqlite.Scopes.Read.{Arranges}
use sekai.Sqlite.Scopes.Set.{IsRecord, named_scope_new-IsRecord, set_scope-lookup_scope}
use sekai.Sqlite.Scopes.Delete.{delete_scope-lookup_scope}

-- the first row comes last
abbrev rotate : List JoinedRow → List JoinedRow
rotate [] = []
rotate (row ∷ rows) = rows ++ row ∷ []

rotate-Arranges : Arranges rotate
rotate-Arranges [] x = (λ i. i, λ i. i)
rotate-Arranges (row ∷ rows) x = (
  λ i. elim (In-of_append rows (row ∷ []) x i) [
    | inl j ↦ inr j
    | inr (inl e) ↦ inl e
    | inr (inr k) ↦ absurd k
  ],
  λ i. elim i [
    | inl e ↦ In-append_right rows (row ∷ []) x (inl e)
    | inr j ↦ In-append_left rows (row ∷ []) x j
  ],
)

-- "base" and "far"
abbrev base_name : ScopeName
base_name = record { chars = 98 ∷ 97 ∷ 115 ∷ 101 ∷ [] }

abbrev far : ScopeName
far = record { chars = 102 ∷ 97 ∷ 114 ∷ [] }

abbrev square : Rect
square = record { x0 = pos 0; z0 = pos 0; x1 = pos 3; z1 = pos 3 }

abbrev turned : Rect
turned = record { x0 = pos 9; z0 = pos 9; x1 = negsuc 4; z1 = pos 7 }

abbrev in_order : Rect
in_order = record { x0 = negsuc 4; z0 = pos 7; x1 = pos 9; z1 = pos 9 }

abbrev tables : ScopeTables
tables = record {
  scopes = record { id = 4; name = base_name.chars; created_at_ms = 1000 } ∷ [];
  areas =
      record { scope = 4; area = (overworld, square) }
      ∷ record { scope = 4; area = (nether, square) }
      ∷ [];
  next_id = 7;
}

abbrev base_scope : NamedScope
base_scope = record {
  name = base_name;
  areas = (overworld, square) ∷ (nether, square) ∷ [];
  created_at_ms = 1000;
}

-- the corners of one area are given the other way, and another is given twice
abbrev given : List ScopeArea
given = (overworld, square) ∷ (overworld, turned) ∷ (overworld, square) ∷ []

abbrev moved : NamedScope
moved = record {
  name = base_name;
  areas = (overworld, in_order) ∷ (overworld, square) ∷ [];
  created_at_ms = 5000;
}

tables-Sound : Sound tables
unfolding parse_scope_name Scopes.areas_of filter
tables-Sound = record {
  apart = (omega arith, tt, tt);
  named = (refl, tt);
  filled = (record { present = λ h. cc h; increasing = (refl, tt); normal = ground arith }, tt);
  known = (omega arith, (omega arith, tt));
}

moved_made : named_scope_new base_name given 5000 ≡ ok moved
unfolding named_scope_new sort dedup
moved_made = refl

base_parsed : parse_scope_name base_name.chars ≡ ok base_name
unfolding parse_scope_name
base_parsed = refl

moved-IsRecord : IsRecord moved
moved-IsRecord = named_scope_new-IsRecord base_name given 5000 base_parsed moved_made

set_scope-lookup_scope_example :
    (after : ScopeTables) × (set_scope tables moved ≡ ok after)
    × Sound after
    × ((created : ℕ) × (lookup_scope rotate after base_name
          ≡ ok (some (record moved { created_at_ms = created })))
        × (lookup_scope rotate tables base_name ≡ ok none → created ≡ 5000)
        × ((old : NamedScope)
            → lookup_scope rotate tables base_name ≡ ok (some old)
            → created ≡ old.created_at_ms))
    × ((other : ScopeName)
        → (base_name.chars == other.chars) ≡ false
        → lookup_scope rotate after other ≡ lookup_scope rotate tables other)
set_scope-lookup_scope_example =
    set_scope-lookup_scope rotate rotate-Arranges tables moved tables-Sound moved-IsRecord
      (omega arith)

delete_scope-lookup_scope_example :
    let (after, deleted) = delete_scope tables base_name in
    Sound after
    × ((deleted ≡ false) ↔ (lookup_scope rotate tables base_name ≡ ok none))
    × (lookup_scope rotate after base_name ≡ ok none)
    × ((other : ScopeName)
        → (base_name.chars == other.chars) ≡ false
        → lookup_scope rotate after other ≡ lookup_scope rotate tables other)
delete_scope-lookup_scope_example =
    delete_scope-lookup_scope rotate rotate-Arranges tables base_name tables-Sound

lookup_base : lookup_scope rotate tables base_name ≡ ok (some base_scope)
unfolding lookup_scope filter Map.get Map.insert sort dedup
lookup_base = refl

lookup_far : lookup_scope rotate tables far ≡ ok none
unfolding lookup_scope filter
lookup_far = refl

visit_all : visit_scopes rotate tables ≡ ok (base_scope ∷ [])
unfolding visit_scopes filter Map.get Map.insert sort dedup
visit_all = refl

-- a scope without areas is corrupt
abbrev emptied : ScopeTables
emptied = record tables { areas = [] }

lookup_corrupt : lookup_scope rotate emptied base_name ≡ err (empty_scope base_name.chars)
unfolding lookup_scope filter Map.get Map.insert
lookup_corrupt = refl

-- a time that no column holds
set_late :
    set_scope tables (record moved { created_at_ms = 9223372036854775808 })
    ≡ err (invalid_timestamp 9223372036854775808)
unfolding set_scope
set_late = refl
