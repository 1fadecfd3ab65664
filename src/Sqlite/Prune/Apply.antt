-- ===== src/Sqlite/Prune/Apply.antt =====
-- `prune_apply` of crates/core/src/usecase/prune.rs on the SQLite store.
use sekai.Base.{ℕ, ◌≡◌, refl, ◌∙◌, inl, inr, true, List, contains}
use sekai.Base.Set
use sekai.Base.Set.{contains-from}
use sekai.Util.Coord.{ChunkCoord}
use sekai.Util.Hash.{CommitId, commit_id_ord}
use sekai.Core.Prune.Target.{find_cases}
use sekai.Core.Prune.Run.{PrunePlan, prune_apply}
use sekai.Sqlite.{Tables}
use sekai.Sqlite.Latest.{inherited}
use sekai.Sqlite.WellFormed.{WellFormed}
use sekai.Sqlite.Retire.Linear.{Linear}
use sekai.Sqlite.Store.{sqlite_meta}
use sekai.Sqlite.Prune.Kept.{Underway, loop-keeps}

Underway-start :
    (t : Tables) (wf : WellFormed t) (retained : List CommitId)
    → Linear t
    → Underway t wf retained t
Underway-start t wf retained linear = record {
  sound = wf;
  linear = linear;
  fewer = λ k a h up. up;
  between = λ k a h i up. up;
}

-- On well-formed tables without merges, a run of `prune_apply` for any plan, however it ends, changes
-- nothing of what a commit that the plan retains inherits.
pub prune_apply-retained :
    (hash_bytes : List ℕ → List ℕ) {P : Type 0} (progress : P → ℕ → ℕ → P) (t : Tables)
    (plan : PrunePlan) (p : P)
    → WellFormed t
    → Linear t
    → (k : CommitId) → contains plan.retained k ≡ true
    → (coord : ChunkCoord)
    → inherited (prune_apply (sqlite_meta hash_bytes) progress t plan p).0 k coord
      ≡ inherited t k coord
unfolding prune_apply
prune_apply-retained hash_bytes progress t plan p wf linear k kept coord =
    let retained = Set.from plan.retained in
    elim (find_cases (contains retained) plan.delete) [
      | inl (a, e, _, _) ↦ rw (prune_apply, e) refl
      | inr (e, apart) ↦
          rw (prune_apply, e)
            (loop-keeps t wf retained hash_bytes progress _ k (contains-from k plan.retained ∙ kept)
              coord plan.delete _ t p (Underway-start t wf retained linear) apart)
    ]
