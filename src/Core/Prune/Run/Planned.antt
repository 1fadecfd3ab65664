-- ===== src/Core/Prune/Run/Planned.antt =====
-- What `prune_plan` gives, on every path.
use sekai.Base.{
  ◌≡◌, ◌≢◌, refl, ap, ◌∙◌, ◌⊎◌, inl, inr, Bool, true, false, not, ◌&&◌, none, some, List, [], ◌∷◌,
  ◌++◌, All, filter, contains, contains-filter, arith, Bool-cases,
}
use sekai.Base.Outcome.{Result, ok, err}
use sekai.Util.Hash.{CommitId, commit_id_ord}
use sekai.Util.Commit.{Commit}
use sekai.Core.Port.{MetaStore}
use sekai.Core.Prune.{Ancestry, find}
use sekai.Core.Prune.Ancestry.{retained_ancestry}
use sekai.Core.Prune.Target.{IsHeir, IsTarget, find_cases, fold_target_exact}
use sekai.Core.Prune.Run.{
  PrunePlan, PruneError, nothing_retained, unknown_retained, without_successor, on_split_branches,
  ids_of, refuse_found, fold_failure, check_folds, is_empty, prune_plan,
}

-- The first element of a list that is bad, behind good ones.
abbrev pub First : (CommitId → Type 0) → (CommitId → Type 0) → List CommitId → CommitId → Type 0
First Good Bad xs id =
    (before after : List CommitId) × (xs ≡ before ++ id ∷ after) × All Good before × Bad id

First-later :
    (Good Bad : CommitId → Type 0) (x : CommitId) (xs : List CommitId) (id : CommitId)
    → Good x
    → First Good Bad xs id
    → First Good Bad (x ∷ xs) id
First-later Good Bad x xs id good (before, after, e, goods, bad) =
    (x ∷ before, after, ap (λ l. x ∷ l) e, (good, goods), bad)

-- the first element that a test refuses
find-First :
    (q : CommitId → Bool) (xs : List CommitId)
    → ((a : CommitId) × (find (λ x. not (q x)) xs ≡ some a)
        × First (λ x. q x ≡ true) (λ x. q x ≡ false) xs a)
      ⊎ ((find (λ x. not (q x)) xs ≡ none) × All (λ x. q x ≡ true) xs)
unfolding find
find-First q [] = inr (refl, tt)
find-First q (x ∷ xs) = elim (Bool-cases (q x)) [
  | inr out ↦ inl (x, rw (find, out) refl, ([], xs, refl, tt, out))
  | inl here ↦ elim (find-First q xs) [
    | inl (a, e, first) ↦
        inl
          (a, rw (find, here) e, First-later (λ y. q y ≡ true) (λ y. q y ≡ false) x xs a here first)
    | inr (e, known) ↦ inr (rw (find, here) e, (here, known))
  ]
]

module _ (ancestry : Ancestry) (retained : List CommitId) where
  -- A retained commit continues it that all others continue.
  abbrev pub Retirable : CommitId → Type 0
  Retirable id = (t : CommitId) × IsTarget ancestry retained id t

  -- No retained commit continues it.
  abbrev pub Childless : CommitId → Type 0
  Childless id = (o : CommitId) → ¬ IsHeir ancestry retained id o

  -- Retained commits continue it, on branches that differ.
  abbrev pub Split : CommitId → Type 0
  Split id =
      ((o : CommitId) × IsHeir ancestry retained id o)
      × ((t : CommitId) → ¬ IsTarget ancestry retained id t)

  check_folds-cases :
      {M : Type 0} (ids : List CommitId)
      → ((check_folds {M = M} ancestry retained ids ≡ ok tt) × All Retirable ids)
        ⊎ (((id : CommitId) × (check_folds {M = M} ancestry retained ids
                ≡ err (without_successor id))
              × First Retirable Childless ids id)
            ⊎ ((id : CommitId) × (check_folds {M = M} ancestry retained ids
                  ≡ err (on_split_branches id))
                × First Retirable Split ids id))
  unfolding check_folds fold_failure
  check_folds-cases {M = M} [] = inl (refl, tt)
  check_folds-cases {M = M} (x ∷ xs) = elim (fold_target_exact ancestry retained x) [
    | inr (inl (run, none_left)) ↦
        inr (inl (x, rw (check_folds, run) refl, ([], xs, refl, tt, none_left)))
    | inr (inr (run, heir, split)) ↦
        inr (inr (x, rw (check_folds, run) refl, ([], xs, refl, tt, (heir, split))))
    | inl (t, run, at) ↦ elim (check_folds-cases {M = M} xs) [
      | inl (e, all) ↦ inl (rw (check_folds, run) e, ((t, at), all))
      | inr (inl (id, e, first)) ↦
          inr (
            inl
              (id, rw (check_folds, run) e, First-later Retirable Childless x xs id (t, at) first))
      | inr (inr (id, e, first)) ↦
          inr (inr (id, rw (check_folds, run) e, First-later Retirable Split x xs id (t, at) first))
    ]
  ]

all_known : (k e : Bool) → (k ≡ true → not e ≡ false) → (e && k) ≡ k
all_known k e h = ground (arith, h)

-- whether the first check passes
empty_cases :
    (commits : List Commit) (retained : List CommitId)
    → ((not (is_empty commits) && is_empty retained) ≡ false) × ((commits ≡ []) ⊎ (retained ≢ []))
      ⊎ ((not (is_empty commits) && is_empty retained) ≡ true) × ((commits ≢ []) × (retained ≡ []))
empty_cases [] retained = inl (refl, inl refl)
empty_cases (c ∷ cs) [] = inr (refl, (λ e. cc e, refl))
empty_cases (c ∷ cs) (r ∷ rs) = inl (refl, inr (λ e. cc e))

-- The commits that a plan deletes, and those that it keeps.
abbrev pub deletions : List Commit → List CommitId → List CommitId
deletions commits retained = filter (λ id. not (contains retained id)) (ids_of commits)

abbrev pub kept_ids : List Commit → List CommitId → List CommitId
kept_ids commits retained = filter (contains retained) (ids_of commits)

kept_ids-contains :
    (commits : List Commit) (retained : List CommitId)
    → find (λ id. not (contains (ids_of commits) id)) retained ≡ none
    → (id : CommitId) → contains (kept_ids commits retained) id ≡ contains retained id
kept_ids-contains commits retained e id =
    contains-filter (contains retained) (ids_of commits) id
    ∙ all_known (contains retained id) (contains (ids_of commits) id) (λ here.
      elim (find_cases (λ i. not (contains (ids_of commits) i)) retained) [
        | inl (a, f, _, _) ↦ absurd (cc (e, f))
        | inr (_, nowhere) ↦ nowhere id here
      ])

-- The five ways in which planning ends, for the commits that were visited.
abbrev pub Outcome :
    {M : Type 0} → List Commit → List CommitId → Result PrunePlan (PruneError M) → Type 0
Outcome commits retained result =
    ((commits ≢ []) × (retained ≡ []) × (result ≡ err nothing_retained))
    ⊎ (((commits ≡ []) ⊎ (retained ≢ []))
        × (((id : CommitId) × (result ≡ err (unknown_retained id))
              × First (λ i. contains (ids_of commits) i ≡ true)
                  (λ i. contains (ids_of commits) i ≡ false) retained id)
            ⊎ (All (λ i. contains (ids_of commits) i ≡ true) retained
                × (((id : CommitId) × (result ≡ err (without_successor id))
                      × First (Retirable (retained_ancestry commits retained) retained)
                          (Childless (retained_ancestry commits retained) retained)
                          (deletions commits retained) id)
                    ⊎ (((id : CommitId) × (result ≡ err (on_split_branches id))
                          × First (Retirable (retained_ancestry commits retained) retained)
                              (Split (retained_ancestry commits retained) retained)
                              (deletions commits retained) id)
                        ⊎ (All (Retirable (retained_ancestry commits retained) retained)
                              (deletions commits retained)
                            × (result
                                ≡ ok (record {
                                  delete = deletions commits retained;
                                  retained = kept_ids commits retained;
                                }))
                            × ((id : CommitId)
                                → contains (kept_ids commits retained) id
                                  ≡ contains retained id)))))))

module _ {Store M : Type 0} (m : MetaStore Store M) where
  -- Where the commits can be visited, `prune_plan` ends in one of five ways. With commits and
  -- nothing to retain it says so. Else, if a commit to be retained is not recorded, it names the
  -- first. Else, if a recorded commit that is not to be retained has no commit to move its rows to,
  -- it names the first in the order of the visit, as without a successor if no retained commit
  -- continues it, and as on split branches if some do, but none that all the others continue. Else
  -- it gives the plan that deletes, in the order of the visit, the recorded commits that are not to
  -- be retained, and that retains exactly those that are.
  pub prune_plan-exact :
      (store : Store) (retained : List CommitId) (commits : List Commit)
      → m.visit_commits store ≡ ok commits
      → Outcome commits retained (prune_plan m store retained)
  unfolding prune_plan refuse_found
  prune_plan-exact store retained commits read =
      let folds =
        check_folds-cases (retained_ancestry commits retained) retained {M = M}
          (deletions commits retained) in
      elim (empty_cases commits retained) [
        | inr (guard, (some_commits, nothing)) ↦
            inl (some_commits, nothing, rw (prune_plan, read, guard) refl)
        | inl (guard, full) ↦ inr (
          full,
          elim (find-First (contains (ids_of commits)) retained) [
            | inl (id, e, first) ↦ inl (id, rw (prune_plan, read, guard, e) refl, first)
            | inr (e, known) ↦ inr (
              known,
              elim folds [
                | inl (run, all) ↦ inr (
                    inr (
                      all,
                      rw (prune_plan, read, guard, e, run) refl,
                      kept_ids-contains commits retained e,
                    ))
                | inr (inl (id, run, first)) ↦
                    inl (id, rw (prune_plan, read, guard, e, run) refl, first)
                | inr (inr (id, run, first)) ↦
                    inr (inl (id, rw (prune_plan, read, guard, e, run) refl, first))
              ],
            )
          ],
        )
      ]
