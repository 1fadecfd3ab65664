-- ===== src/Core/Prune/Ancestry/Table.antt =====
-- The table of the ancestors of the retained commits.
use sekai.Base.{
  ◌≡◌, refl, ap, ◌∙◌, inl, inr, ◌↔◌, true, none, some, List, [], ◌∷◌, contains, Bool-cases,
  if◌then◌else◌, ◌==◌,
}
use sekai.Base.Map
use sekai.Base.Map.{get-insert}
use sekai.Util.Hash.{CommitId, commit_id_ord, commit_id_beq_iff}
use sekai.Util.Commit.{Commit}
use sekai.Core.Graph.Level.{Ancestor}
use sekai.Core.Prune.{continues}
use sekai.Core.Prune.Ancestry.{
  Links, parent_map, parents_at, ancestors_of, ancestry_of, retained_ancestry,
}
use sekai.Core.Prune.Ancestry.Exact.{ancestors_of-exact}

get-ancestry_of :
    (m : Links) (retained : List CommitId) (k : CommitId)
    → Map.get (ancestry_of m retained) k
      ≡ (if contains retained k then some (ancestors_of m k) else none)
unfolding ancestry_of contains Map.get
get-ancestry_of m [] k = refl
get-ancestry_of m (keep ∷ retained) k = elim (Bool-cases (keep == k)) [
  | inl t ↦
      get-insert keep k (ancestors_of m keep) (ancestry_of m retained)
      ∙ rw (t) (ap (λ z. some (ancestors_of m z)) ((commit_id_beq_iff keep k).0 t))
  | inr f ↦
      get-insert keep k (ancestors_of m keep) (ancestry_of m retained)
      ∙ rw (f) (get-ancestry_of m retained k)
]

-- The table says of a retained commit exactly what it continues through the parents of the commits.
pub retained_ancestry-exact :
    (commits : List Commit) (retained : List CommitId) (k a : CommitId)
    → contains retained k ≡ true
    → (continues (retained_ancestry commits retained) a k ≡ true)
      ↔ Ancestor (parents_at (parent_map commits [])) k a
unfolding retained_ancestry continues
retained_ancestry-exact commits retained k a here =
    let m = parent_map commits [] in
    rw (continues, get-ancestry_of m retained k, here) (ancestors_of-exact m k a)
