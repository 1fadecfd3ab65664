-- ===== src/Lib.antt =====
-- Verification of sekai, a version control system for Minecraft worlds.
--
-- A world is a set of chunks. Each lies in a region file, one of 32 by 32 chunks, which the crate
-- `anvil` reads and writes. A commit records, for the chunks of a scope, the hash of a chunk's content
-- or a tombstone, as a delta over the commit it continues. The crate `core` plans and records commits
-- and collects unreferenced blobs, and it walks the graph of the commits; it reaches its stores through two traits, for metadata and for
-- blobs. The crate `util` has the values that all share: coordinates, scopes, hashes, commits.
--
-- Files, and the sources (from the repository's root) that they model:
--
-- - Base and its children: what the models share, no source of their own. Lists, byte strings with
--   big-endian words, Rust's `i32` as an integer with a range (Base/Int), `Result` with the `?`
--   operator as `do` blocks (Base/Outcome), `BTreeSet` and `BTreeMap` as lists in key order.
-- - Util/Coord: crates/util/src/dimension.rs, region_kind.rs, chunk_coord.rs and region.rs.
-- - Util/Scope: crates/util/src/scope.rs. `Area::covers_region` is `area_covers`, `Scope::contains` is
--   `scope_contains`, and so on. Util/Scope/Regions has the theorems.
-- - Util/Hash and Util/Commit: the identifiers and records of crates/util/src/hash.rs, commit.rs,
--   history.rs, gc.rs and region.rs. An array of 32 bytes is the list of its bytes.
-- - Util/Hex: `hex32_into` and `hex32_from` of crates/util/src/hash.rs, as `hex_into` and `hex_from`.
--   Util/Hex/Trip has the theorems.
-- - Anvil/Region: crates/anvil/src/region.rs. Anvil/Region/Slots has the theorems.
-- - Anvil/Reader: crates/anvil/src/reader.rs. An image is its list of bytes; `usize` has 64 bits. The
--   iterator is a record with its two fields, `next` returns the item and the next iterator.
--   Anvil/Reader/Lookup and Anvil/Reader/Walk have the theorems.
-- - Anvil/Writer: crates/anvil/src/writer.rs. The builder is a record, an operation returns the next
--   one or an error. `binary_search_by_key` is `search_slot`, which is its contract on a list in slot
--   order. Anvil/Writer/Staging, Layout and Placement, and Anvil/RoundTrip, have the theorems.
-- - Anvil/Codec: crates/anvil/src/codec.rs. Anvil/Codec/Gzip has the gzip container, Anvil/Codec/Lz4 the framing of
--   LZ4 blocks; Anvil/Codec/Libraries is what the code calls of miniz_oxide, lz4_flex, crc32fast and twox_hash, with
--   what these document (`DecoderLaws`). Anvil/Codec/Blocks frames LZ4 blocks, and Bounds, Limit and Frames have the theorems.
-- - Core/Port: crates/core/src/port. A trait is a record of operations over a state of the backend. The
--   operations are those that the modelled use cases call; a visit whose visitor never stops stands for
--   the list of what is visited. What the blob trait documents is the record `BlobLaws`.
-- - Core/Gc: crates/core/src/usecase/gc.rs. Core/Gc/Orphans and Core/Gc/Apply have the theorems.
-- - Core/Commit: crates/core/src/usecase/commit.rs. Core/Commit/BaseState, Delta, Planned and Minimal have the
--   theorems.
-- - Examples: concrete data, and each theorem with hypotheses or parameters applied to it.
--
-- - Core/Graph: crates/core/src/usecase/graph.rs. Core/Graph/Resolve has the resolution of
--   references, Core/Graph/Level, Walk, Ancestors and History have the theorems.
-- - Core/Prune: crates/core/src/usecase/prune.rs. The module itself has `fold_target`, Core/Prune/Ancestry
--   `retained_ancestry`, Core/Prune/Run the rest. Core/Prune/Target, Core/Prune/Ancestry/Table and
--   Core/Prune/Run/Planned have the theorems, and Sqlite/Prune those about the SQLite store.
--
-- - Core/Identity: crates/core/src/commit.rs, the encoding that is hashed. Blake3 is the parameter
--   `hash_bytes`.
-- - Util/Name: the names of refs of crates/util/src/refs.rs, as lists of characters. Util/Name/Grammar: `check` of
--   crates/util/src/name.rs and `RefName::parse` (`parse_ref_name`), with the errors of crates/util/src/error.rs;
--   Util/Name/Grammar/Segments and Exact have the theorems.
-- - Util/NamedScope: crates/util/src/named_scope.rs. `sort_unstable` is insertion sort (Base/Sorted), which gives the
--   same list, since equal areas are the same. Util/NamedScope/Normal has the theorem.
-- - Sqlite and its children: crates/storage-sqlite/src/meta.rs. A table is the list of its rows, decoded, and a
--   statement is a function on the tables. Sqlite/Reads has the queries, Sqlite/Writes the recording of
--   commits, Sqlite/Retire `retire_commit`, Sqlite/Refs the refs, Sqlite/Open the new store. Sqlite/Store
--   makes them a backend of the use cases, the operations of `MetaStore`. Sqlite/WellFormed states what
--   holds of the tables between two transactions, Sqlite/Refs/Steps the operations as a step relation,
--   in which commits are new, and Sqlite/Refs/Life every change, commits that are recorded again included.
--   Sqlite/Scopes has the named scopes: two tables that no other statement touches, so they are a state of
--   their own. A query without ORDER BY returns its rows in an order that is a parameter.
--   The theorems are in the children of these, and in Sqlite/Closure, which is about the recursive query.
--
-- - Core/Checkout: crates/core/src/usecase/checkout.rs. Core/Checkout/Grouped has the theorem.
-- - App/World: the traits of crates/world/src/tree.rs and region.rs, as a record of operations over the state of
--   the file system, what they document as laws (`WorldLaws`), and the errors of crates/app/src/error.rs.
--   App/Regions: crates/app/src/regions.rs. App/Checkout: the policies, the staging and the merging of
--   crates/app/src/checkout.rs; App/Checkout/Run: the step of one region file, the pass over all, the checkout.
--   App/Checkout/Staged, Rebuilt, Restored and Exact have the theorems.
--
-- Fuel: `visit_loop` takes one unit for each item of the iterator. The table has 1024 entries and the
-- loop gets 1025 units. `visit_levels` and `history_levels` take one for each level of the graph. A level brings a commit
-- that was not seen, or it is the last but one, so that two units more than there are commits do. `close` takes one unit for each row of the queue; each link is
-- followed once, so two units more than there are links do. `walk_levels` takes one for each level; a level that
-- brings another saw a commit with an entry for the first time, so one unit more than there are entries does.
--
-- `inflate_loop` takes one unit for each round; a round fills 64 KiB of the limit of 64 MiB, so 1025 units do.
-- `lz4_loop` takes one for each block; a block takes more than a byte, so one unit more than the body has bytes does.
--
-- Asynchronous functions are modelled as the sequence of their steps. The callers hold the lock of
-- the world over a use case, so no other writer comes in between.
--
-- A foreign key or a key constraint that a statement breaks is the error `backend` of the store. SQLite's
-- transactions are taken to be atomic and isolated. A column that does not decode is not modelled: the
-- tables hold decoded rows.
--
-- Not modelled: NBT and the normalized hash of a chunk (a third-party library parses), hashing, connections and the version of
-- the schema, the blob store, the file system, the progress and the timings of a checkout, the command line, and those use cases of `core` that are not named above.
pub mod Base
pub mod Util
pub mod Anvil
pub mod Core
pub mod Sqlite
pub mod App
pub mod Examples
