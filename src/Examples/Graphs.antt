-- ===== src/Examples/Graphs.antt =====
-- A history of three commits, the last of them a merge, and a commit identifier as text.
use sekai.Base.{
  ℕ, zero, suc, Bool-cases, inl, inr, ◌⊎◌, filter, ◌≡◌, refl, ◌↔◌, true, none, some, List, [], ◌∷◌,
  map, contains, length, replicate, if◌then◌else◌, ◌==◌, arith,
}
use sekai.Base.Outcome.{ok, err}
use sekai.Base.Bytes.{AllBytes}
use sekai.Util.Hash.{CommitId, commit_id_ord}
use sekai.Util.Commit.{Commit}
use sekai.Util.Hex.{hex_into, hex_from}
use sekai.Util.Hex.Trip.{lower, hex_from_exact}
use sekai.Base.Map.{get}
use sekai.Core.Prune.{Ancestry, no_successor, split_branches, continues, fold_target}
use sekai.Core.Prune.Target.{IsHeir, IsTarget, fold_target_exact}
use sekai.Core.Port.{MetaStore}
use sekai.Core.Graph.{commit_ancestors}
use sekai.Core.Graph.Level.{Distinct, Ancestor}
use sekai.Core.Graph.Ancestors.{CanWalk, commit_ancestors_exact}

abbrev pub root : CommitId
root = record { bytes = 1 ∷ [] }

abbrev branch : CommitId
branch = record { bytes = 2 ∷ [] }

abbrev pub merge : CommitId
merge = record { bytes = 3 ∷ [] }

abbrev pub history : CommitId → List CommitId
history id = if id == merge then branch ∷ root ∷ [] else if id == branch then root ∷ [] else []

abbrev pub all_commits : List CommitId
all_commits = root ∷ branch ∷ merge ∷ []

abbrev merge_commit : Commit
merge_commit = record { id = merge; created_at_ms = 3000; parents = branch ∷ root ∷ [] }

abbrev graph_meta : MetaStore (List CommitId) ℕ
graph_meta = record {
  commit_parents = λ s id. ok (history id);
  latest_commit = λ s. ok (some merge_commit);
  visit_fresh_rows = λ s id. ok [];
  visit_commits = λ s. ok (merge_commit ∷ []);
  visit_commit_chunks = λ s id. ok [];
  lookup_commit = λ s id. ok (if id == merge then some merge_commit else none);
  active_ref = λ s. ok none;
  lookup_ref = λ s name. ok none;
  apply_commit_incremental = λ s ms parents rows. (s, ok merge);
  retire_commit = λ s from into. (s, ok (record { folded = 0; dropped = 0 }));
}

pub merge_known : contains all_commits merge ≡ true
unfolding contains
merge_known = refl

pub whole_here :
    (a p : CommitId)
    → contains all_commits a ≡ true
    → contains (history a) p ≡ true
    → contains all_commits p ≡ true
unfolding contains
whole_here a p h k = elim (Bool-cases (a == merge)) [
  | inl e ↦ ground (arith, rw e at k)
  | inr e ↦ elim (Bool-cases (a == branch)) [
    | inl f ↦ ground (arith, rw (e, f) at k)
    | inr f ↦ absurd (cc (rw (e, f) at k))
  ]
]

graph_meta-CanWalk : CanWalk graph_meta history all_commits all_commits
graph_meta-CanWalk = record { readable = λ a here. refl; whole = whole_here }

commit_ancestors_exact_example :
    (order : List CommitId) × (commit_ancestors graph_meta all_commits 5 merge ≡ some (ok order))
    × Distinct order
    × ((a : CommitId) → (contains order a ≡ true) ↔ Ancestor history merge a)
commit_ancestors_exact_example =
    commit_ancestors_exact graph_meta history all_commits all_commits 5 merge_commit
      graph_meta-CanWalk refl refl merge_known (omega arith)

abbrev raw : List ℕ
raw = 171 ∷ replicate 31 7

-- the digits of that many bytes 7
abbrev pairs : ℕ → List ℕ
pairs zero = []
pairs (suc n) = 48 ∷ 55 ∷ pairs n

-- the same value, its first byte in capitals
abbrev text : List ℕ
text = 65 ∷ 66 ∷ pairs 31

text-read : hex_from text ≡ ok raw
unfolding hex_from replicate
text-read = refl

hex_from_exact_example :
    (hex_from text ≡ ok raw)
    ↔ ((length text ≡ 64) × (length raw ≡ 32) × AllBytes raw × (hex_into raw ≡ map lower text))
hex_from_exact_example = hex_from_exact text raw

-- the ancestors of the two commits that are kept when `root` is retired
abbrev kept_ancestry : Ancestry
kept_ancestry = (branch, root ∷ []) ∷ (merge, branch ∷ root ∷ []) ∷ []

abbrev kept_commits : List CommitId
kept_commits = branch ∷ merge ∷ []

fold_target_exact_example :
    ((t : CommitId) × (fold_target kept_ancestry kept_commits root ≡ ok t)
      × IsTarget kept_ancestry kept_commits root t)
    ⊎ (((fold_target kept_ancestry kept_commits root ≡ err no_successor)
          × ((o : CommitId) → ¬ IsHeir kept_ancestry kept_commits root o))
        ⊎ ((fold_target kept_ancestry kept_commits root ≡ err split_branches)
            × ((o : CommitId) × IsHeir kept_ancestry kept_commits root o)
            × ((t : CommitId) → ¬ IsTarget kept_ancestry kept_commits root t)))
fold_target_exact_example = fold_target_exact kept_ancestry kept_commits root

-- a run of the code: the nearest of the two is the target
fold_target_run : fold_target kept_ancestry kept_commits root ≡ ok branch
unfolding fold_target continues contains filter get
fold_target_run = refl
