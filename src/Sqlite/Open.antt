-- ===== src/Sqlite/Open.antt =====
-- crates/storage-sqlite/src/meta.rs: `SqliteMeta::open` on a path without a store.
use sekai.Base.{ℕ, none, true, [], ◌∷◌}
use sekai.Util.Name.{RefName}
use sekai.Sqlite.{Tables}

-- DEFAULT_REF_NAME of crates/util/src/refs.rs: "main"
abbrev pub default_ref_name : RefName
default_ref_name = record { chars = 109 ∷ 97 ∷ 105 ∷ 110 ∷ [] }

-- the schema, and its one active ref, unborn
unfoldable pub new_store : ℕ → Tables
new_store now_ms = record {
  commits = [];
  edges = [];
  history = [];
  refs = (default_ref_name, record { commit = none; active = true; created_at_ms = now_ms }) ∷ [];
  next_seq = 1;
}
