-- ===== src/Core/Prune/Run.antt =====
-- crates/core/src/usecase/prune.rs: selecting, planning and applying.
pub mod Planned
use sekai.Base.{
  ℕ, zero, suc, ◌+◌, ◌-◌, Bool, true, false, not, ◌&&◌, Option, none, some, List, [], ◌∷◌, map,
  filter, contains, length, drop, if◌then◌else◌, ◌==◌,
}
use sekai.Base.Outcome.{Result, ok, err, map_err, refuse, ◌>>=◌, ◌>>◌}
use sekai.Base.Set
use sekai.Util.Hash.{CommitId, commit_id_ord}
use sekai.Util.Commit.{Commit, FoldOutcome}
use sekai.Core.Port.{MetaStore}
use sekai.Core.Prune.{FoldError, no_successor, split_branches, Ancestry, find, fold_target}
use sekai.Core.Prune.Ancestry.{retained_ancestry}

pub record PrunePlan : Type 0 where
  pub delete : List CommitId
  pub retained : List CommitId

pub record PruneReport : Type 0 where
  pub pruned : ℕ
  pub rows_folded : ℕ
  pub rows_dropped : ℕ

-- the errors, over the error of the metadata backend
pub data PruneError (M : Type 0) : Type 0 where
  prune_meta : M → PruneError M
  nothing_retained : PruneError M
  unknown_retained : CommitId → PruneError M
  without_successor : CommitId → PruneError M
  on_split_branches : CommitId → PruneError M
  overlapping_plan : CommitId → PruneError M

unfoldable pub fold_failure : {M : Type 0} → FoldError → CommitId → PruneError M
fold_failure no_successor id = without_successor id
fold_failure split_branches id = on_split_branches id

abbrev pub ids_of : List Commit → List CommitId
ids_of commits = map (λ (commit : Commit). commit.id) commits

-- the commits from the one of `before` on
unfoldable pub from_position : List CommitId → CommitId → List CommitId
from_position [] before = []
from_position (id ∷ ids) before = if id == before then id ∷ ids else from_position ids before

-- `ids.split_off(ids.len().saturating_sub(n))`
abbrev pub newest : Option ℕ → List CommitId → List CommitId
newest none ids = ids
newest (some n) ids = drop (length ids - n) ids

unfoldable pub select_retained : List Commit → Option ℕ → Option CommitId → List CommitId
unfolding from_position
select_retained commits keep_last none = Set.from (newest keep_last (ids_of commits))
select_retained commits keep_last (some before) =
    Set.from (newest keep_last (from_position (ids_of commits) before))

-- the first element that a test refuses
unfoldable pub refuse_found :
    {M : Type 0} → Option CommitId → (CommitId → PruneError M) → Result (Unit {0}) (PruneError M)
refuse_found none e = ok tt
refuse_found (some id) e = err (e id)

unfoldable pub check_folds :
    {M : Type 0} → Ancestry → List CommitId → List CommitId → Result (Unit {0}) (PruneError M)
unfolding fold_failure
check_folds ancestry retained [] = ok tt
check_folds ancestry retained (id ∷ ids) = elim (fold_target ancestry retained id) [
  | err e ↦ err (fold_failure e id)
  | ok _ ↦ check_folds ancestry retained ids
]

abbrev pub is_empty {ℓ} : {A : Type ℓ} → List A → Bool
is_empty [] = true
is_empty (_ ∷ _) = false

-- `retained` is a set: in order, without duplicates
module _ {Store M : Type 0} (m : MetaStore Store M) where
  unfoldable pub prune_plan : Store → List CommitId → Result PrunePlan (PruneError M)
  unfolding refuse_found check_folds find
  prune_plan store retained = do
    commits ← map_err prune_meta (m.visit_commits store)
    refuse (not (is_empty commits) && is_empty retained) nothing_retained
    refuse_found (find (λ id. not (contains (ids_of commits) id)) retained) unknown_retained
    let delete = filter (λ id. not (contains retained id)) (ids_of commits)
    check_folds (retained_ancestry commits retained) retained delete
    ok (record { delete = delete; retained = filter (contains retained) (ids_of commits) })

  module _ {P : Type 0} (progress : P → ℕ → ℕ → P) (total : ℕ) (ancestry : Ancestry)
      (retained : List CommitId) where
    -- the loop over the deletions: the store, the state of the callback, the result
    unfoldable pub prune_loop :
        List CommitId → PruneReport → Store → P → Store × P × Result PruneReport (PruneError M)
    unfolding fold_failure
    prune_loop [] report store p = (store, p, ok report)
    prune_loop (id ∷ ids) report store p = elim (fold_target ancestry retained id) [
      | err e ↦ (store, p, err (fold_failure e id))
      | ok target ↦
          let out = m.retire_commit store id target in
          elim out.1 [
            | err e ↦ (out.0, p, err (prune_meta e))
            | ok folded ↦
                prune_loop ids
                  (record {
                    pruned = report.pruned + 1;
                    rows_folded = report.rows_folded + folded.folded;
                    rows_dropped = report.rows_dropped + folded.dropped;
                  })
                  out.0 (progress p (report.pruned + 1) total)
          ]
    ]

  unfoldable pub prune_apply :
      {P : Type 0}
      → (P → ℕ → ℕ → P)
      → Store
      → PrunePlan
      → P
      → Store × P × Result PruneReport (PruneError M)
  unfolding prune_loop find
  prune_apply progress store plan p = elim (find (contains (Set.from plan.retained)) plan.delete) [
    | some id ↦ (store, p, err (overlapping_plan id))
    | none ↦ elim (m.visit_commits store) [
      | err e ↦ (store, p, err (prune_meta e))
      | ok commits ↦
          prune_loop progress (length plan.delete)
            (retained_ancestry commits (Set.from plan.retained)) (Set.from plan.retained)
            plan.delete (record { pruned = 0; rows_folded = 0; rows_dropped = 0 }) store p
    ]
  ]
