-- ===== src/Core/Checkout.antt =====
-- crates/core/src/usecase/checkout.rs: the plan that restores a commit, its rows grouped by region.
pub mod Grouped
use sekai.Base.{ℕ, ◌≡◌, Option, none, some, List, [], ◌∷◌, ◌++◌, Ord}
use sekai.Base.Outcome.{Result, ok, err, map_err, ok_or, ◌>>=◌}
use sekai.Base.Map
use sekai.Util.Coord.{ChunkCoord, RegionKey, region_of, key_ord}
use sekai.Util.Hash.{ChunkHash, CommitId}
use sekai.Util.Commit.{ChunkHistoryEntry}
use sekai.Core.Port.{MetaStore}

pub record CheckoutReport : Type 0 where
  pub files_written : ℕ
  pub files_deleted : ℕ
  pub chunks_restored : ℕ

-- Maps are lists of entries in key order.
abbrev pub Groups : Type 0
Groups = List (RegionKey × List (ChunkCoord × ChunkHash))

abbrev pub Tombstones : Type 0
Tombstones = List (RegionKey × List ChunkCoord)

pub record CheckoutPlan : Type 0 where
  pub created_at_ms : ℕ
  pub groups : Groups
  pub tombstones : Tombstones

pub data CheckoutError (M : Type 0) : Type 0 where
  meta : M → CheckoutError M
  unknown_commit : CommitId → CheckoutError M

abbrev pub or_default {ℓ} : {A : Type ℓ} → Option (List A) → List A
or_default none = []
or_default (some xs) = xs

-- `map.entry(key).or_default().push(value)`
unfoldable pub push_at {ℓ κ} :
    {K : Type ℓ} {V : Type κ} ⦃o : Ord K⦄ → K → V → List (K × List V) → List (K × List V)
push_at k v m = Map.insert k (or_default (Map.get m k) ++ v ∷ []) m

-- the visitor of `plan_checkout`, on one row
unfoldable pub group_row : ChunkHistoryEntry → Groups × Tombstones → Groups × Tombstones
unfolding push_at
group_row row (groups, tombstones) = elim row.blob [
  | some blob ↦ (push_at (region_of row.coord) (row.coord, blob) groups, tombstones)
  | none ↦ (groups, push_at (region_of row.coord) row.coord tombstones)
]

unfoldable pub group_rows : List ChunkHistoryEntry → Groups × Tombstones → Groups × Tombstones
unfolding group_row
group_rows [] maps = maps
group_rows (row ∷ rows) maps = group_rows rows (group_row row maps)

module _ {Store M : Type 0} (m : MetaStore Store M) where
  unfoldable pub plan_checkout : Store → CommitId → Result CheckoutPlan (CheckoutError M)
  unfolding group_rows
  plan_checkout store commit = do
    found ← map_err meta (m.lookup_commit store commit)
    record_ ← ok_or found (unknown_commit commit)
    rows ← map_err meta (m.visit_commit_chunks store commit)
    let maps = group_rows rows ([], [])
    ok (record { created_at_ms = record_.created_at_ms; groups = maps.0; tombstones = maps.1 })
