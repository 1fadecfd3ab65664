-- ===== src/Sqlite/Store.antt =====
-- crates/storage-sqlite/src/meta.rs as a backend of the use cases: `impl MetaStore for SqliteMeta`.
pub mod Visits
pub mod Restore
use sekai.Base.{ℕ, Option, none, some, List}
use sekai.Base.Outcome.{Result, ok, err, ◌>>=◌}
use mathlib.Core.Option
use sekai.Util.Hash.{CommitId}
use sekai.Util.Commit.{CommitEntry}
use sekai.Core.Port.{MetaStore}
use sekai.Sqlite.{Tables, StorageError}
use sekai.Sqlite.Reads.{
  commit_parents, latest_commit, visit_fresh_rows, visit_commits, visit_commit_chunks,
  lookup_commit,
}
use sekai.Sqlite.Writes.{apply_commit_incremental}
use sekai.Sqlite.Retire.{retire_commit}
use sekai.Sqlite.Refs.{CommitRef, active_ref, lookup_ref}

-- a transaction that fails leaves the tables as they were
unfoldable pub committed :
    {A : Type 0} → Tables → Result (Tables × A) StorageError → Tables × Result A StorageError
committed t (ok (after, out)) = (after, ok out)
committed t (err e) = (t, err e)

module _ (hash_bytes : List ℕ → List ℕ) where
  abbrev pub sqlite_meta : MetaStore Tables StorageError
  sqlite_meta = record {
    commit_parents = λ t commit. ok (commit_parents t commit);
    latest_commit = λ t. ok (latest_commit t);
    visit_fresh_rows = λ t commit. ok (visit_fresh_rows t commit);
    visit_commits = λ t. ok (visit_commits t);
    visit_commit_chunks = λ t commit. ok (visit_commit_chunks t commit);
    lookup_commit = λ t commit. ok (lookup_commit t commit);
    active_ref = λ t. do
      active ← active_ref t
      ok (Option.map (λ (ref : CommitRef). ref.commit) active);
    lookup_ref = λ t name. ok (Option.map (λ (ref : CommitRef). ref.commit) (lookup_ref t name));
    apply_commit_incremental = λ t created_at_ms parents entries.
        committed t (apply_commit_incremental hash_bytes t created_at_ms parents entries);
    retire_commit = λ t from into. committed t (retire_commit t from into);
  }
