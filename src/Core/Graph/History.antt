-- ===== src/Core/Graph/History.antt =====
-- The history of a commit holds the records of the commit and of its ancestors.
use mathlib.Core.Path.{subst}
use mathlib.Core.List.{append_assoc, append-nil, map-append}
use sekai.Base.{
  ℕ, zero, suc, ◌+◌, ◌≤◌, ◌≡◌, refl, sym, ap, ◌∙◌, ◌⊎◌, inl, inr, ◌↔◌, true, some, List, [], ◌∷◌,
  ◌++◌, map, contains, length, beq_refl, arith,
}
use sekai.Base.Outcome.{ok}
use sekai.Util.Hash.{CommitId, commit_id_ord, commit_id_beq_iff}
use sekai.Util.Commit.{Commit}
use sekai.Core.Port.{MetaStore}
use sekai.Core.Graph.{Walk, lookup_record, history_level, history_levels, commit_history}
use sekai.Core.Graph.Level.{Distinct, Ancestor, direct, further, Reach, start_here, onward}
use sekai.Core.Graph.Walk.{Visits, Walks, walk_from}

singleton : (c a : CommitId) → contains (c ∷ []) a ≡ true → a ≡ c
unfolding contains
singleton c a h = sym ((commit_id_beq_iff c a).0 (ground (arith, h)))

-- What a walk from one commit reaches are the commit and its ancestors.
Reach-Ancestor :
    (parents : CommitId → List CommitId) (c a : CommitId)
    → Reach parents (c ∷ []) a ↔ ((a ≡ c) ⊎ Ancestor parents c a)
unfolding contains
Reach-Ancestor parents c a = (there, λ found. elim found [ inl e ↦ here e | inr up ↦ back up ])
  where
    here : {b : CommitId} → b ≡ c → Reach parents (c ∷ []) b
    here {b} e = start_here (rw (e, beq_refl c))

    there : {k : CommitId} → Reach parents (c ∷ []) k → (k ≡ c) ⊎ Ancestor parents c k
    there {k} (start_here h) = inl (singleton c k h)
    there {k} (onward {b} up h) = elim (there up) [
      | inl e ↦ inr (direct (ap (λ q. contains (parents q) k) (sym e) ∙ h))
      | inr up' ↦ inr (further up' h)
    ]

    back : {b : CommitId} → Ancestor parents c b → Reach parents (c ∷ []) b
    back (direct h) = onward (here refl) h
    back (further up h) = onward (back up) h

-- A walk only adds to its order.
module _ (parents : CommitId → List CommitId) (universe : List CommitId) where
  Visits-extends :
      (ids : List CommitId) (walk after : Walk)
      → Visits parents universe ids walk after
      → (more : List CommitId) × (after.1 ≡ walk.1 ++ more)
  unfolding Visits
  Visits-extends [] walk after h = ([], ap (λ w. w.1) (sym h) ∙ sym (append-nil walk.1))
  Visits-extends (id ∷ ids) (seen, order, next) after (inl (old, h)) =
      Visits-extends ids (seen, order, next) after h
  Visits-extends (id ∷ ids) (seen, order, next) after (inr (new, here, h)) =
      let (more, e) = Visits-extends ids _ after h in
      (id ∷ more, e ∙ append_assoc order (id ∷ []) more)

  Walks-extends :
      (fuel : ℕ) (seen order level found : List CommitId)
      → Walks parents universe fuel seen order level found
      → (more : List CommitId) × (found ≡ order ++ more)
  unfolding Walks
  Walks-extends zero seen order level found h = absurd h
  Walks-extends (suc fuel) seen order [] found h = ([], sym h ∙ sym (append-nil order))
  Walks-extends (suc fuel) seen order (id ∷ ids) found (after, e, h) =
      let (more, f) = Visits-extends (id ∷ ids) (seen, order, []) after e in
      let (rest, g) = Walks-extends fuel after.0 after.1 after.2 found h in
      (more ++ rest, g ∙ ap (λ o. o ++ rest) f ∙ append_assoc order more rest)

  -- The walk from one commit starts its order with the commit.
  Walks-first :
      (fuel : ℕ) (c : CommitId) (found : List CommitId)
      → Walks parents universe fuel [] [] (c ∷ []) found
      → (rest : List CommitId) × (found ≡ c ∷ rest)
  unfolding Walks Visits contains
  Walks-first zero c found h = absurd h
  Walks-first (suc fuel) c found (after, inl (old, e), h) = absurd (cc old)
  Walks-first (suc fuel) c found (after, inr (new, here, e), h) =
      let (rest, g) = Walks-extends fuel after.0 after.1 after.2 found h in
      (rest, g ∙ ap (λ o. o ++ rest) (ap (λ (w : Walk). w.1) (sym e)))

-- A store that holds the records of the commits `universe`, and with them their parents'.
module _ {Store M : Type 0} (m : MetaStore Store M) (record_of : CommitId → Commit)
    (universe : List CommitId) where
  abbrev pub recorded_parents : CommitId → List CommitId
  recorded_parents a = (record_of a).parents

  pub record HasRecords (store : Store) : Type 0 where
    pub stored :
        (a : CommitId)
        → contains universe a ≡ true
        → m.lookup_commit store a ≡ ok (some (record_of a))
    pub whole :
        (a p : CommitId)
        → contains universe a ≡ true
        → contains (recorded_parents a) p ≡ true
        → contains universe p ≡ true

  lookup_record-stored :
      (store : Store)
      → HasRecords store
      → (a : CommitId) → contains universe a ≡ true
      → lookup_record m store a ≡ ok (record_of a)
  unfolding lookup_record
  lookup_record-stored store has a here = rw (has.stored a here)

  Visits-history_level :
      (store : Store)
      → HasRecords store
      → (ids : List CommitId) (walk after : Walk) → Visits recorded_parents universe ids walk after
      → history_level m store ids (walk.0, map record_of walk.1, walk.2)
        ≡ ok (after.0, map record_of after.1, after.2)
  unfolding history_level Visits
  Visits-history_level store has [] walk after h =
      ap (λ (w : Walk). ok (w.0, map record_of w.1, w.2)) h
  Visits-history_level store has (id ∷ ids) (seen, order, next) after (inl (old, h)) =
      rw (history_level, old) (Visits-history_level store has ids _ after h)
  Visits-history_level store has (id ∷ ids) (seen, order, next) after (inr (new, here, h)) =
      rw
        (
          history_level,
          new,
          lookup_record-stored store has id here,
          sym (map-append record_of order (id ∷ [])),
        )
        (Visits-history_level store has ids _ after h)

  Walks-history_levels :
      (store : Store)
      → HasRecords store
      → (fuel : ℕ) (seen order level found : List CommitId)
      → Walks recorded_parents universe fuel seen order level found
      → history_levels m store fuel seen (map record_of order) level
        ≡ some (ok (map record_of found))
  unfolding history_levels Walks
  Walks-history_levels store has zero seen order level found h = absurd h
  Walks-history_levels store has (suc fuel) seen order [] found h =
      ap (λ o. some (ok (map record_of o))) h
  Walks-history_levels store has (suc fuel) seen order (id ∷ ids) found (after, e, h) =
      rw (history_levels, Visits-history_level store has (id ∷ ids) (seen, order, []) after e)
        (Walks-history_levels store has fuel after.0 after.1 after.2 found h)

  -- The history of a commit, in a store that holds the records of some commits with all their
  -- parents, this commit among them, ends once the fuel exceeds the number of those commits by two.
  -- It holds the record of the commit first, then the records of exactly its ancestors, no record
  -- twice.
  pub commit_history_exact :
      (store : Store) (fuel : ℕ) (c : CommitId)
      → HasRecords store
      → contains universe c ≡ true
      → length universe + 2 ≤ fuel
      → (rest : List CommitId) × (commit_history m store fuel c
          ≡ some (ok (map record_of (c ∷ rest))))
        × Distinct (c ∷ rest)
        × ((a : CommitId)
            → (contains (c ∷ rest) a ≡ true) ↔ ((a ≡ c) ⊎ Ancestor recorded_parents c a))
  unfolding commit_history
  commit_history_exact store fuel c has here enough =
      let (order, run, (distinct, all)) =
        walk_from recorded_parents universe (c ∷ []) has.whole fuel (c ∷ []) (λ a. refl)
          (λ a h. ap (contains universe) (singleton c a h) ∙ here) enough in
      let (rest, first) = Walks-first recorded_parents universe fuel c order run in
      (
        rest,
        Walks-history_levels store has fuel [] [] (c ∷ []) order run
            ∙ ap (λ o. some (ok (map record_of o))) first,
        subst Distinct first distinct,
        λ a. (
          λ h.
              (Reach-Ancestor recorded_parents c a).0
                ((all a).0 (ap (λ o. contains o a) first ∙ h)),
          λ up.
              ap (λ o. contains o a) (sym first)
              ∙ (all a).1 ((Reach-Ancestor recorded_parents c a).1 up),
        ),
      )
