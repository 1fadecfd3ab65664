-- ===== src/Sqlite/Scopes.antt =====
-- crates/storage-sqlite/src/meta.rs: the named scopes, in two tables that no other statement touches.
pub mod Rows
pub mod Stored
pub mod Query
pub mod Read
pub mod Insert
pub mod Set
pub mod Delete
use sekai.Base.{
  ℕ, ◌+◌, ◌++◌, Bool, true, false, not, ◌&&◌, Option, none, some, List, [], ◌∷◌, map, filter, all,
  if◌then◌else◌, Ord, ◌==◌, nat_ord,
}
use sekai.Base.Int.{leb_ℤ}
use sekai.Base.Outcome.{Result, ok, err, map_err, ◌>>=◌}
use sekai.Base.Map
use sekai.Util.Hash.{bytes_beq, bytes_blt, bytes_beq_iff}
use sekai.Util.NamedScope.{
  ScopeName, parse_scope_name, ScopeArea, NamedScope, normal_area, named_scope_new,
}
use sekai.Sqlite.{StorageError, backend, invalid_scope_name, empty_scope, millis_param}

-- a row of `scopes`, its name as text
pub record ScopeRow : Type 0 where
  pub id : ℕ
  pub name : List ℕ
  pub created_at_ms : ℕ

-- a row of `scope_areas`, without its own key, which nothing reads
pub record AreaRow : Type 0 where
  pub scope : ℕ
  pub area : ScopeArea

-- `next_id` is the next key that AUTOINCREMENT gives
pub record ScopeTables : Type 0 where
  pub scopes : List ScopeRow
  pub areas : List AreaRow
  pub next_id : ℕ

instance abbrev pub text_ord : Ord (List ℕ)
text_ord = record { beq = bytes_beq; beq_iff = bytes_beq_iff; blt = bytes_blt }

-- SELECT id FROM scopes WHERE name = ?
unfoldable pub scope_id : List ScopeRow → List ℕ → Option ℕ
scope_id [] name = none
scope_id (row ∷ rows) name = if row.name == name then some row.id else scope_id rows name

-- INSERT INTO scopes ... ON CONFLICT(name) DO NOTHING
unfoldable pub insert_scope : ScopeTables → List ℕ → ℕ → ScopeTables
unfolding scope_id
insert_scope t name created_at_ms = elim (scope_id t.scopes name) [
  | some id ↦ t
  | none ↦ record t {
    scopes = t.scopes ++ record { id = t.next_id; name = name; created_at_ms = created_at_ms } ∷ [];
    next_id = t.next_id + 1;
  }
]

-- DELETE FROM scope_areas WHERE scope = ?
unfoldable pub delete_areas : ℕ → List AreaRow → List AreaRow
delete_areas id areas = filter (λ (a : AreaRow). not (a.scope == id)) areas

-- CHECK (x0 <= x1 AND z0 <= z1)
abbrev pub area_check : ScopeArea → Bool
area_check (dim, r) = leb_ℤ r.x0 r.x1 && leb_ℤ r.z0 r.z1

unfoldable pub set_scope : ScopeTables → NamedScope → Result ScopeTables StorageError
unfolding millis_param insert_scope delete_areas
set_scope t scope = do
  ms ← millis_param scope.created_at_ms
  let inserted = insert_scope t scope.name.chars ms
  elim (scope_id inserted.scopes scope.name.chars) [
    | none ↦ err backend
    | some id ↦
        if all area_check scope.areas
        then ok (record inserted {
          areas =
              delete_areas id inserted.areas
              ++ map (λ a. record { scope = id; area = a }) scope.areas;
        })
        else err backend
  ]

-- a row of `SCOPE_QUERY`; the columns of a missing area are NULL
pub record JoinedRow : Type 0 where
  pub name : List ℕ
  pub created_at_ms : ℕ
  pub area : Option ScopeArea

unfoldable pub areas_of : List AreaRow → ℕ → List ScopeArea
areas_of areas id = map (λ (a : AreaRow). a.area) (filter (λ (a : AreaRow). a.scope == id) areas)

abbrev pub joined_row : ScopeRow → Option ScopeArea → JoinedRow
joined_row row area = record { name = row.name; created_at_ms = row.created_at_ms; area = area }

abbrev pub join_row : ScopeRow → List ScopeArea → List JoinedRow
join_row row [] = joined_row row none ∷ []
join_row row (a ∷ areas) = map (λ b. joined_row row (some b)) (a ∷ areas)

-- FROM scopes LEFT JOIN scope_areas ON scope_areas.scope = scopes.id
unfoldable pub left_join : List ScopeRow → List AreaRow → List JoinedRow
unfolding areas_of
left_join [] areas = []
left_join (row ∷ rows) areas = join_row row (areas_of areas row.id) ++ left_join rows areas

pub record ScopeColumns : Type 0 where
  pub created_at_ms : ℕ
  pub areas : List ScopeArea

-- the columns under the name of a row, new when it is the first of its name
abbrev pub columns_of : Option ScopeColumns → ℕ → ScopeColumns
columns_of (some columns) created_at_ms = columns
columns_of none created_at_ms = record { created_at_ms = created_at_ms; areas = [] }

-- `columns.areas.push((…, Rect::new(…)))`, where there is an area
abbrev pub push_area : ScopeColumns → Option ScopeArea → ScopeColumns
push_area columns none = columns
push_area columns (some a) = record columns { areas = columns.areas ++ normal_area a ∷ [] }

-- the loop of `group_scope_rows` over the rows that are left
unfoldable pub group_scope_rows :
    List JoinedRow → List (List ℕ × ScopeColumns) → List (List ℕ × ScopeColumns)
unfolding normal_area
group_scope_rows [] grouped = grouped
group_scope_rows (row ∷ rows) grouped = group_scope_rows rows (
    Map.insert row.name
      (push_area (columns_of (Map.get grouped row.name) row.created_at_ms) row.area) grouped)

unfoldable pub decode_scope : List ℕ × ScopeColumns → Result NamedScope StorageError
unfolding parse_scope_name named_scope_new
decode_scope (name, columns) = do
  parsed ← map_err (λ e. invalid_scope_name name) (parse_scope_name name)
  map_err (λ e. empty_scope name) (named_scope_new parsed columns.areas columns.created_at_ms)

unfoldable pub decode_first : List (List ℕ × ScopeColumns) → Result (Option NamedScope) StorageError
unfolding decode_scope
decode_first [] = ok none
decode_first (entry ∷ entries) = do scope ← decode_scope entry; ok (some scope)

unfoldable pub decode_all : List (List ℕ × ScopeColumns) → Result (List NamedScope) StorageError
unfolding decode_scope
decode_all [] = ok []
decode_all (entry ∷ entries) = do
  scope ← decode_scope entry
  scopes ← decode_all entries
  ok (scope ∷ scopes)

-- the order in which the database returns the rows of a query, which has no ORDER BY
module _ (arrange : List JoinedRow → List JoinedRow) where
  unfoldable pub lookup_scope : ScopeTables → ScopeName → Result (Option NamedScope) StorageError
  unfolding left_join group_scope_rows decode_first
  lookup_scope t name = decode_first (
      group_scope_rows
        (arrange
          (filter (λ (row : JoinedRow). row.name == name.chars) (left_join t.scopes t.areas)))
        [])

  -- the scopes that a visitor which never stops is given
  unfoldable pub visit_scopes : ScopeTables → Result (List NamedScope) StorageError
  unfolding left_join group_scope_rows decode_all
  visit_scopes t = decode_all (group_scope_rows (arrange (left_join t.scopes t.areas)) [])

-- the foreign key cascades the delete onto the areas
unfoldable pub delete_scope : ScopeTables → ScopeName → ScopeTables × Bool
unfolding scope_id delete_areas
delete_scope t name = elim (scope_id t.scopes name.chars) [
  | none ↦ (t, false)
  | some id ↦ (
    record t {
      scopes = filter (λ (row : ScopeRow). not (row.name == name.chars)) t.scopes;
      areas = delete_areas id t.areas;
    },
    true,
  )
]
