-- ===== src/Examples.antt =====
-- The theorems at concrete data, and runs of the definitions.
mod Images
mod Scopes
mod Stores
mod Checkouts
mod Codecs
mod Names
mod Named
mod Commits
mod Collection
mod Graphs
mod Histories
mod Sqlite
mod Merge
mod Pruned
