-- ===== src/Sqlite/Scopes/Query.antt =====
-- The rows of the query of one scope, and how they are grouped.
use mathlib.Core.Path.{subst}
use mathlib.Core.Option.{some-injective}
use mathlib.Core.List.{append_assoc, append-nil}
use sekai.Base.{
  ℕ, ◌++◌, ◌≡◌, refl, sym, ap, ◌∙◌, ◌↔◌, inl, inr, true, false, none, some, List, [], ◌∷◌, map,
  filter, All, arith, ◌==◌, Bool-cases, beq_refl,
}
use sekai.Base.Map
use sekai.Base.Member.{In, In-map, In-of_map}
use sekai.Util.NamedScope.{ScopeArea, area_ord, normal_area}
use sekai.Sqlite.Scopes.{
  ScopeRow, AreaRow, text_ord, areas_of, ScopeColumns, JoinedRow, joined_row, join_row, left_join,
  group_scope_rows,
}
use sekai.Sqlite.Scopes.Rows.{scope_row, Apart, AllApart}

scope_row-Apart :
    (r : ScopeRow) (rows : List ScopeRow) (name : List ℕ)
    → All (Apart r) rows
    → (r.name == name) ≡ true
    → scope_row rows name ≡ none
unfolding scope_row
scope_row-Apart r [] name all h = refl
scope_row-Apart r (s ∷ rows) name ((n, i), all) h = ground (
  arith,
  n,
  h,
  text_ord.beq_iff r.name name,
  text_ord.beq_iff s.name name,
  text_ord.beq_iff r.name s.name,
  scope_row-Apart r rows name all h,
)

abbrev rows_named : List ℕ → List JoinedRow → List JoinedRow
rows_named name rows = filter (λ (row : JoinedRow). row.name == name) rows

named-append :
    (name : List ℕ) (xs ys : List JoinedRow)
    → rows_named name (xs ++ ys) ≡ rows_named name xs ++ rows_named name ys
unfolding filter
named-append name [] ys = refl
named-append name (x ∷ xs) ys = ground (arith, named-append name xs ys)

named-joined_row :
    (name : List ℕ) (r : ScopeRow) (areas : List ScopeArea)
    → rows_named name (map (λ b. joined_row r (some b)) areas)
      ≡ (elim (r.name == name) [ true ↦ map (λ b. joined_row r (some b)) areas | false ↦ [] ])
unfolding filter
named-joined_row name r [] = ground arith
named-joined_row name r (a ∷ areas) = ground (arith, named-joined_row name r areas)

named-join_row :
    (name : List ℕ) (r : ScopeRow) (areas : List ScopeArea)
    → rows_named name (join_row r areas)
      ≡ (elim (r.name == name) [ true ↦ join_row r areas | false ↦ [] ])
unfolding filter
named-join_row name r [] = ground arith
named-join_row name r (a ∷ areas) = named-joined_row name r (a ∷ areas)

-- The query of one name has the rows of the row of that name.
pub named-left_join :
    (next : ℕ) (rows : List ScopeRow) (areas : List AreaRow) (name : List ℕ)
    → AllApart next rows
    → rows_named name (left_join rows areas)
      ≡ (elim (scope_row rows name) [ none ↦ [] | some r ↦ join_row r (areas_of areas r.id) ])
unfolding scope_row left_join filter
named-left_join next [] areas name all = refl
named-left_join next (r ∷ rows) areas name (lt, away, all) =
    named-append name (join_row r (areas_of areas r.id)) (left_join rows areas)
    ∙ elim (Bool-cases (r.name == name)) [
      | inl e ↦
          rw
            (
              named-join_row name r (areas_of areas r.id),
              named-left_join next rows areas name all,
              scope_row-Apart r rows name away e,
              e,
            )
            (append-nil (join_row r (areas_of areas r.id)))
      | inr e ↦
          rw
            (
              named-join_row name r (areas_of areas r.id),
              named-left_join next rows areas name all,
              e,
            )
            refl
    ]

-- rows that all carry an area of one scope
pub in_form :
    (r : ScopeRow) (areas : List ScopeArea) (rows : List JoinedRow)
    → ((x : JoinedRow) → In x rows → In x (map (λ b. joined_row r (some b)) areas))
    → (found : List ScopeArea) × (rows ≡ map (λ b. joined_row r (some b)) found)
in_form r areas [] h = ([], refl)
in_form r areas (x ∷ rows) h =
    let (a, i, e) = In-of_map (λ b. joined_row r (some b)) areas x (h x (inl refl)) in
    let (found, f) = in_form r areas rows (λ y i. h y (inr i)) in
    (a ∷ found, ap (λ y. y ∷ rows) (sym e) ∙ ap (λ l. joined_row r (some a) ∷ l) f)

abbrev pub rows_for : ScopeRow → List ScopeArea → List JoinedRow
rows_for r areas = map (λ b. joined_row r (some b)) areas

pub In-rows_for :
    (r : ScopeRow) (areas : List ScopeArea) (a : ScopeArea)
    → In (joined_row r (some a)) (rows_for r areas) ↔ In a areas
In-rows_for r areas a = (
  λ i.
      let (b, j, e) = In-of_map (λ b. joined_row r (some b)) areas (joined_row r (some a)) i in
      let same : b ≡ a = some-injective _ _ (ap (λ (x : JoinedRow). x.area) e) in
      subst (λ c. In c areas) same j,
  In-map (λ b. joined_row r (some b)) areas a,
)

unfoldable pub grouped : ScopeRow → List ScopeArea → List (List ℕ × ScopeColumns)
grouped r areas = (r.name, record { created_at_ms = r.created_at_ms; areas = areas }) ∷ []

-- Rows of one scope gather in its grouped.
group-rows_for :
    (r : ScopeRow) (found areas : List ScopeArea)
    → group_scope_rows (rows_for r found) (grouped r areas)
      ≡ grouped r (areas ++ map normal_area found)
unfolding group_scope_rows grouped Map.get Map.insert
group-rows_for r [] areas = ap (grouped r) (sym (append-nil areas))
group-rows_for r (a ∷ found) areas =
    rw (group_scope_rows, beq_refl r.name)
      (group-rows_for r found (areas ++ normal_area a ∷ [])
        ∙ ap (grouped r) (append_assoc areas (normal_area a ∷ []) (map normal_area found)))

pub group-first :
    (r : ScopeRow) (a : ScopeArea) (found : List ScopeArea)
    → group_scope_rows (rows_for r (a ∷ found)) [] ≡ grouped r (map normal_area (a ∷ found))
unfolding group_scope_rows grouped Map.get Map.insert
group-first r a found = group-rows_for r found (normal_area a ∷ [])
