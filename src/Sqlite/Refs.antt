-- ===== src/Sqlite/Refs.antt =====
-- crates/storage-sqlite/src/meta.rs: the refs.
pub mod Active
pub mod Rows
pub mod Steps
pub mod Life
pub mod Reach
use sekai.Base.{
  ℕ, Bool, true, false, not, ◌&&◌, Option, none, some, List, [], ◌∷◌, map, filter, if◌then◌else◌,
  ◌==◌,
}
use sekai.Base.Outcome.{Result, ok, err, ok_or, refuse, ◌>>=◌, ◌>>◌}
use sekai.Base.Map
use sekai.Util.Hash.{CommitId}
use sekai.Util.Name.{RefName, ref_name_ord}
use sekai.Sqlite.{
  RefRow, Tables, StorageError, unknown_commit, unknown_ref, active_ref_protected, millis_param,
  seq_in,
}

-- `CommitRef` of crates/util/src/refs.rs
pub record CommitRef : Type 0 where
  pub name : RefName
  pub commit : Option CommitId
  pub active : Bool
  pub created_at_ms : ℕ

-- `decode_ref`
abbrev pub decode_ref : RefName × RefRow → CommitRef
decode_ref (name, row) = record {
  name = name;
  commit = row.commit;
  active = row.active;
  created_at_ms = row.created_at_ms;
}

-- whether the target of a ref exists
unfoldable pub check_target : Tables → Option CommitId → Result (Unit {0}) StorageError
check_target t none = ok tt
check_target t (some id) = elim (seq_in t.commits id) [
  | none ↦ err (unknown_commit id)
  | some _ ↦ ok tt
]

-- UPDATE refs SET commit_id = excluded.commit_id
unfoldable pub move_ref :
    RefName → Option CommitId → List (RefName × RefRow) → List (RefName × RefRow)
move_ref name commit [] = []
move_ref name commit ((other, row) ∷ rows) =
    (other, if other == name then record row { commit = commit } else row)
    ∷ move_ref name commit rows

-- INSERT INTO refs ... ON CONFLICT(name) DO UPDATE SET commit_id
unfoldable pub upsert_ref :
    List (RefName × RefRow) → RefName → Option CommitId → ℕ → List (RefName × RefRow)
unfolding move_ref
upsert_ref refs name commit created_at_ms = elim (Map.get refs name) [
  | none ↦
      Map.insert name (record { commit = commit; active = false; created_at_ms = created_at_ms })
        refs
  | some _ ↦ move_ref name commit refs
]

unfoldable pub set_ref : Tables → RefName → Option CommitId → ℕ → Result Tables StorageError
unfolding check_target upsert_ref
set_ref t name commit created_at_ms = do
  ms ← millis_param created_at_ms
  check_target t commit
  ok (record t { refs = upsert_ref t.refs name commit ms })

unfoldable pub lookup_ref : Tables → RefName → Option CommitRef
lookup_ref t name = elim (Map.get t.refs name) [
  | none ↦ none
  | some row ↦ some (decode_ref (name, row))
]

-- ORDER BY name
unfoldable pub visit_refs : Tables → List CommitRef
visit_refs t = map decode_ref t.refs

unfoldable pub delete_ref : Tables → RefName → Result (Tables × Bool) StorageError
delete_ref t name = elim (Map.get t.refs name) [
  | none ↦ ok (t, false)
  | some row ↦
      if row.active
      then err (active_ref_protected name)
      else ok (record t { refs = Map.erase name t.refs }, true)
]

-- the first row with the flag, when there is one
unfoldable pub find_active : List (RefName × RefRow) → Option (RefName × RefRow)
find_active [] = none
find_active ((name, row) ∷ rows) = if row.active then some (name, row) else find_active rows

unfoldable pub active_ref : Tables → Result (Option CommitRef) StorageError
unfolding find_active check_target
active_ref t = elim (find_active t.refs) [
  | none ↦ ok none
  | some found ↦ do check_target t found.1.commit; ok (some (decode_ref found))
]

-- UPDATE refs SET active = 0 WHERE active = 1
unfoldable pub clear_active : List (RefName × RefRow) → List (RefName × RefRow)
clear_active [] = []
clear_active ((name, row) ∷ rows) = (name, record row { active = false }) ∷ clear_active rows

-- UPDATE refs SET active = 1 WHERE name = ?
unfoldable pub mark_active : RefName → List (RefName × RefRow) → List (RefName × RefRow)
mark_active name [] = []
mark_active name ((other, row) ∷ rows) =
    (other, if other == name then record row { active = true } else row) ∷ mark_active name rows

unfoldable pub activate_ref : Tables → RefName → Result Tables StorageError
unfolding check_target clear_active mark_active
activate_ref t name = do
  row ← ok_or (Map.get t.refs name) (unknown_ref name)
  check_target t row.commit
  ok (record t { refs = mark_active name (clear_active t.refs) })
