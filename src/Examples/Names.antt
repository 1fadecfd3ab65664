-- ===== src/Examples/Names.antt =====
-- Names of refs, and a named scope with an area that is given twice.
use sekai.Base.{ℕ, ◌≡◌, ◌≢◌, ◌↔◌, refl, false, List, [], ◌∷◌, map, any, all, All, contains}
use sekai.Base.Int.{pos, negsuc}
use sekai.Base.Outcome.{ok, err}
use sekai.Base.Sorted.{IsIncreasing}
use sekai.Util.Coord.{ChunkCoord, overworld, nether}
use sekai.Util.Scope.{scope_contains}
use sekai.Util.Name.{RefName}
use sekai.Util.Name.Grammar.{
  parse_ref_name, is_digit, eq_ignore_case, head, bad_path, dot_segment, reserved,
}
use sekai.Util.Name.Grammar.Exact.{IsPath, parse_ref_name-IsPath}
use sekai.Util.NamedScope.{
  ScopeName, ScopeArea, area_ord, NamedScope, normal_area, named_scope_new, to_scope,
}
use sekai.Util.NamedScope.Normal.{IsNormal, selects, named_scope_new-IsNormal}

-- "a/b"
abbrev nested : List ℕ
nested = 97 ∷ 47 ∷ 98 ∷ []

abbrev nested_name : RefName
nested_name = record { chars = nested }

parse_ref_name-IsPath_example : (parse_ref_name nested ≡ ok nested_name) ↔ (
    (nested_name.chars ≡ nested)
    × IsPath nested
    × (all is_digit nested ≡ false)
    × (eq_ignore_case nested head ≡ false))
parse_ref_name-IsPath_example = parse_ref_name-IsPath nested nested_name

parse_nested : parse_ref_name nested ≡ ok nested_name
unfolding parse_ref_name
parse_nested = refl

-- "a/../b" and "Head"
parse_dots : parse_ref_name (97 ∷ 47 ∷ 46 ∷ 46 ∷ 47 ∷ 98 ∷ []) ≡ err (bad_path dot_segment)
unfolding parse_ref_name
parse_dots = refl

parse_head : parse_ref_name (72 ∷ 101 ∷ 97 ∷ 100 ∷ []) ≡ err reserved
unfolding parse_ref_name
parse_head = refl

abbrev spawn : ScopeName
spawn = record { chars = 115 ∷ [] }

abbrev areas : List ScopeArea
areas =
    (overworld, record { x0 = pos 3; z0 = pos 4; x1 = negsuc 0; z1 = pos 0 })
    ∷ (nether, record { x0 = pos 0; z0 = pos 0; x1 = pos 9; z1 = pos 9 })
    ∷ (overworld, record { x0 = negsuc 0; z0 = pos 0; x1 = pos 3; z1 = pos 4 })
    ∷ []

named_scope_new-IsNormal_example :
    (s : NamedScope) × (named_scope_new spawn areas 1000 ≡ ok s)
    × IsIncreasing s.areas
    × All IsNormal s.areas
    × ((coord : ChunkCoord) → scope_contains (to_scope s) coord ≡ any (selects coord) areas)
    × ((others : List ScopeArea)
        → others ≢ []
        → ((a : ScopeArea)
            → contains (map normal_area others) a ≡ contains (map normal_area areas) a)
        → named_scope_new spawn others 1000 ≡ ok s)
named_scope_new-IsNormal_example = named_scope_new-IsNormal spawn areas 1000 (λ e. cc e)
