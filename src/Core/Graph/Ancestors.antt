-- ===== src/Core/Graph/Ancestors.antt =====
-- The walk over the ancestors of a commit ends and finds them all.
use sekai.Base.{
  ℕ, zero, suc, ◌+◌, ◌≤◌, ◌≡◌, ap, ◌∙◌, inl, inr, ◌↔◌, true, some, List, [], ◌∷◌, contains, length,
}
use sekai.Base.Outcome.{ok}
use sekai.Base.Set
use sekai.Base.Set.{contains-from}
use sekai.Util.Hash.{CommitId, commit_id_ord}
use sekai.Util.Commit.{Commit}
use sekai.Core.Port.{MetaStore}
use sekai.Core.Graph.{Walk, visit_level, visit_levels, lookup_record, commit_ancestors}
use sekai.Core.Graph.Level.{Distinct, Ancestor, direct, further, Reach, start_here, onward}
use sekai.Core.Graph.Walk.{Visits, Walks, walk_from}

lookup_record-ok :
    {Store M : Type 0} (m : MetaStore Store M) (store : Store) (commit : Commit)
    → m.lookup_commit store commit.id ≡ ok (some commit)
    → lookup_record m store commit.id ≡ ok commit
unfolding lookup_record
lookup_record-ok m store commit found = rw found

-- What a walk from the parents of a commit reaches are its ancestors.
Reach-Ancestor :
    (parents : CommitId → List CommitId) (c a : CommitId)
    → Reach parents (parents c) a ↔ Ancestor parents c a
Reach-Ancestor parents c a = (there, back)
  where
    there : {b : CommitId} → Reach parents (parents c) b → Ancestor parents c b
    there (start_here h) = direct h
    there (onward up h) = further (there up) h

    back : {b : CommitId} → Ancestor parents c b → Reach parents (parents c) b
    back (direct h) = start_here h
    back (further up h) = onward (back up) h

-- A walk in a store whose commits `universe` can be read, with all their parents.
module _ {Store M : Type 0} (m : MetaStore Store M) (parents : CommitId → List CommitId)
    (universe : List CommitId) where
  pub record CanWalk (store : Store) : Type 0 where
    pub readable :
        (a : CommitId) → contains universe a ≡ true → m.commit_parents store a ≡ ok (parents a)
    pub whole :
        (a p : CommitId)
        → contains universe a ≡ true
        → contains (parents a) p ≡ true
        → contains universe p ≡ true

  Visits-visit_level :
      (store : Store)
      → CanWalk store
      → (ids : List CommitId) (walk after : Walk) → Visits parents universe ids walk after
      → visit_level m store ids walk ≡ ok after
  unfolding visit_level Visits
  Visits-visit_level store can [] walk after h = ap ok h
  Visits-visit_level store can (id ∷ ids) (seen, order, next) after (inl (old, h)) =
      rw (visit_level, old) (Visits-visit_level store can ids _ after h)
  Visits-visit_level store can (id ∷ ids) (seen, order, next) after (inr (new, here, h)) =
      rw (visit_level, new, can.readable id here) (Visits-visit_level store can ids _ after h)

  Walks-visit_levels :
      (store : Store)
      → CanWalk store
      → (fuel : ℕ) (seen order level found : List CommitId)
      → Walks parents universe fuel seen order level found
      → visit_levels m store fuel seen order level ≡ some (ok found)
  unfolding visit_levels Walks
  Walks-visit_levels store can zero seen order level found h = absurd h
  Walks-visit_levels store can (suc fuel) seen order [] found h = ap (λ o. some (ok o)) h
  Walks-visit_levels store can (suc fuel) seen order (id ∷ ids) found (after, e, h) =
      rw (visit_levels, Visits-visit_level store can (id ∷ ids) (seen, order, []) after e)
        (Walks-visit_levels store can fuel after.0 after.1 after.2 found h)

  -- The walk from a commit that is recorded, in a store whose commits `universe` can be read with
  -- all their parents, ends with a list once its fuel exceeds the number of those commits by two.
  -- The list holds exactly the ancestors of the commit, each once.
  pub commit_ancestors_exact :
      (store : Store) (fuel : ℕ) (commit : Commit)
      → CanWalk store
      → m.lookup_commit store commit.id ≡ ok (some commit)
      → commit.parents ≡ parents commit.id
      → contains universe commit.id ≡ true
      → length universe + 2 ≤ fuel
      → (order : List CommitId) × (commit_ancestors m store fuel commit.id ≡ some (ok order))
        × Distinct order
        × ((a : CommitId) → (contains order a ≡ true) ↔ Ancestor parents commit.id a)
  unfolding commit_ancestors
  commit_ancestors_exact store fuel commit can found links here enough =
      let (order, run, (distinct, all)) =
        walk_from parents universe (parents commit.id) can.whole fuel (Set.from commit.parents)
          (λ a. contains-from a commit.parents ∙ ap (λ ps. contains ps a) links)
          (λ a h. can.whole commit.id a here h) enough in
      (
        order,
        rw (commit_ancestors, lookup_record-ok m store commit found)
            (Walks-visit_levels store can fuel [] [] (Set.from commit.parents) order run),
        distinct,
        λ a. (
          λ h. (Reach-Ancestor parents commit.id a).0 ((all a).0 h),
          λ up. (all a).1 ((Reach-Ancestor parents commit.id a).1 up),
        ),
      )
