-- ===== src/Core/Prune.antt =====
-- crates/core/src/usecase/prune.rs: the commit that a retired commit's rows move to.
pub mod Target
pub mod Ancestry
pub mod Run
use sekai.Base.{
  Bool, true, false, ◌||◌, Option, none, some, List, [], ◌∷◌, all, contains, filter, ◌==◌,
}
use sekai.Base.Outcome.{Result, ok, err}
use sekai.Base.Map
use sekai.Util.Hash.{CommitId, commit_id_ord}

pub data FoldError : Type 0 where
  no_successor split_branches : FoldError

-- the type of `retained_ancestry`: the ancestors of each retained commit
abbrev pub Ancestry : Type 0
Ancestry = List (CommitId × List CommitId)

-- `ancestry.get(&other).is_some_and(|ancestors| ancestors.contains(&commit))`
unfoldable pub continues : Ancestry → CommitId → CommitId → Bool
continues ancestry commit other = elim (Map.get ancestry other) [
  | none ↦ false
  | some ancestors ↦ contains ancestors commit
]

-- whether every other commit of the list continues the target
unfoldable pub continued_by_all : Ancestry → List CommitId → CommitId → Bool
unfolding continues
continued_by_all ancestry descendants target =
    all (λ other. other == target || continues ancestry target other) descendants

-- `Iterator::find`
unfoldable pub find : (CommitId → Bool) → List CommitId → Option CommitId
find p [] = none
find p (x ∷ xs) = let rest = find p xs in elim (p x) [ true ↦ some x | false ↦ rest ]

-- the end of `fold_target`, on the descendants
unfoldable pub choose_target : Ancestry → List CommitId → Result CommitId FoldError
unfolding continued_by_all find
choose_target ancestry descendants =
    elim (find (continued_by_all ancestry descendants) descendants) [
      | some target ↦ ok target
      | none ↦ elim descendants [ [] ↦ err no_successor | _ ∷ _ ↦ err split_branches ]
    ]

unfoldable pub fold_target : Ancestry → List CommitId → CommitId → Result CommitId FoldError
unfolding choose_target
fold_target ancestry retained commit =
    choose_target ancestry (filter (continues ancestry commit) retained)
