-- ===== src/Core/Graph/Walk.antt =====
-- The walk that `commit_ancestors` and `commit_history` take, apart from the store it reads: it ends
-- and meets exactly the commits that can be reached.
use mathlib.Core.Path.{subst}
use mathlib.Core.List.{append-nil}
use sekai.Base.{
  or_nothing, or_left, ℕ, zero, suc, ◌+◌, ◌≤◌, ◌<◌, ◌≡◌, refl, sym, ap, ◌∙◌, ◌⊎◌, inl, inr, ◌↔◌,
  Bool, true, false, ◌||◌, List, [], ◌∷◌, ◌++◌, contains, length, arith, Bool-cases, if◌then◌else◌,
  ◌==◌, beq_refl,
}
use sekai.Base.Set
use sekai.Base.Set.{contains-insert, contains-from}
use sekai.Util.Hash.{CommitId, commit_id_ord, commit_id_beq_iff}
use sekai.Core.Graph.{Walk, add_parents}
use sekai.Core.Graph.Level.{Distinct, Reach, start_here, onward, Inv, Inv-skip, Inv-visit}

-- how many commits of a list were not seen
unseen : List CommitId → List CommitId → ℕ
unseen seen [] = 0
unseen seen (u ∷ us) = let rest = unseen seen us in if contains seen u then rest else suc rest

unseen-le : (seen us : List CommitId) → unseen seen us ≤ length us
unfolding unseen
unseen-le seen [] = omega arith
unseen-le seen (u ∷ us) = ground (arith, unseen-le seen us)

fewer : (e s : Bool) (a b : ℕ) → a ≤ b → (if e || s then a else suc a) ≤ (if s then b else suc b)
fewer e s a b h = ground arith

fewer_lt : (e s : Bool) (a b : ℕ) → a < b → (if e || s then a else suc a) < (if s then b else suc b)
fewer_lt e s a b h = ground arith

head_found : (id : CommitId) (ids : List CommitId) → contains (id ∷ ids) id ≡ true
unfolding contains
head_found id ids = rw (beq_refl id)

unseen-insert-le :
    (id : CommitId) (seen us : List CommitId) → unseen (Set.insert id seen) us ≤ unseen seen us
unfolding unseen
unseen-insert-le id seen [] = omega arith
unseen-insert-le id seen (u ∷ us) =
    rw (contains-insert id u seen)
      (fewer (id == u) (contains seen u) _ _ (unseen-insert-le id seen us))

unseen-insert-lt :
    (id : CommitId) (seen us : List CommitId)
    → contains us id ≡ true
    → contains seen id ≡ false
    → unseen (Set.insert id seen) us < unseen seen us
unfolding unseen contains
unseen-insert-lt id seen [] h new = absurd (cc h)
unseen-insert-lt id seen (u ∷ us) h new = elim (Bool-cases (u == id)) [
  | inl e ↦
      let at : u ≡ id = (commit_id_beq_iff u id).0 e in
      let old : contains seen u ≡ false = ap (contains seen) at ∙ new in
      let now : contains (Set.insert id seen) u ≡ true =
        contains-insert id u seen ∙ ground (arith, (commit_id_beq_iff id u).1 (sym at)) in
      rw (old, now) (omega (arith, unseen-insert-le id seen us))
  | inr e ↦
      rw (contains-insert id u seen)
        (fewer_lt (id == u) (contains seen u) _ _ (unseen-insert-lt id seen us (rw e at h) new))
]

module _ (parents : CommitId → List CommitId) (universe : List CommitId) where
  -- Visiting one level takes a walk to another; every commit whose parents are read is known.
  unfoldable pub Visits : List CommitId → Walk → Walk → Type 0
  Visits [] walk after = walk ≡ after
  Visits (id ∷ ids) (seen, order, next) after =
      ((contains seen id ≡ true) × Visits ids (seen, order, next) after)
      ⊎ ((contains seen id ≡ false)
          × (contains universe id ≡ true)
          × Visits ids
              (
                Set.insert id seen,
                order ++ id ∷ [],
                add_parents (Set.insert id seen) (parents id) next,
              )
              after)

  -- The walk over the levels ends with an order within the fuel.
  unfoldable pub Walks : ℕ → List CommitId → List CommitId → List CommitId → List CommitId → Type 0
  Walks zero seen order level found = ⊥
  Walks (suc fuel) seen order [] found = order ≡ found
  Walks (suc fuel) seen order (id ∷ ids) found =
      (after : Walk) × Visits (id ∷ ids) (seen, order, []) after
      × Walks fuel after.0 after.1 after.2 found

  -- With a commit also its parents are known.
  abbrev pub IsWhole : Type 0
  IsWhole =
      (a p : CommitId)
      → contains universe a ≡ true
      → contains (parents a) p ≡ true
      → contains universe p ≡ true

  module _ (start : List CommitId) (whole : IsWhole) where
    abbrev Progress : List CommitId → List CommitId → List CommitId → List CommitId → Type 0
    Progress seen next seen' next' =
        (unseen seen' universe < unseen seen universe)
        ⊎ ((unseen seen' universe ≡ unseen seen universe) × (next' ≡ next))

    level_visited :
        (ids seen order next : List CommitId)
        → Inv parents universe start seen order (ids ++ next)
        → (seen' : List CommitId) × (order' : List CommitId) × (next' : List CommitId) × Visits ids
            (seen, order, next)
            (seen', order', next')
          × Inv parents universe start seen' order' next'
          × Progress seen next seen' next'
    unfolding Visits
    level_visited [] seen order next inv = (seen, order, next, refl, inv, inr (refl, refl))
    level_visited (id ∷ ids) seen order next inv = elim (Bool-cases (contains seen id)) [
      | inl old ↦
          let (s, o, n, e, i, p) =
            level_visited ids seen order next
              (Inv-skip parents universe start seen order ids next id old inv) in
          (s, o, n, inl (old, e), i, p)
      | inr new ↦
          let here : contains universe id ≡ true = inv.known id (head_found id (ids ++ next)) in
          let seen_id = Set.insert id seen in
          let (s, o, n, e, i, p) =
            level_visited ids seen_id (order ++ id ∷ []) (add_parents seen_id (parents id) next)
              (Inv-visit parents universe start seen order ids next id whole new inv) in
          let less = unseen-insert-lt id seen universe here new in
          (
            s,
            o,
            n,
            inr (new, here, e),
            i,
            elim p [
              | inl lt ↦ inl (omega (arith, lt, less))
              | inr (same, _) ↦ inl (omega (arith, same, less))
            ],
          )
    ]

    -- The commits of an order are the ones that are reached, each once.
    abbrev AllReached : List CommitId → Type 0
    AllReached order =
        Distinct order × ((a : CommitId) → (contains order a ≡ true) ↔ Reach parents start a)

    all_found :
        (seen order : List CommitId)
        → Inv parents universe start seen order []
        → (a : CommitId) → Reach parents start a
        → contains seen a ≡ true
    unfolding contains
    all_found seen order inv a (start_here h) = or_nothing _ (inv.first a h)
    all_found seen order inv a (onward {b} up h) =
        or_nothing _ (inv.closed b a (all_found seen order inv b up) h)

    Inv-AllReached :
        (seen order : List CommitId) → Inv parents universe start seen order [] → AllReached order
    Inv-AllReached seen order inv = (
      inv.distinct,
      λ a. (
        λ h. inv.sound a (or_left _ _ (sym (inv.same a) ∙ h)),
        λ up. inv.same a ∙ all_found seen order inv a up,
      ),
    )

    levels_walked :
        (fuel : ℕ) (seen order level : List CommitId)
        → Inv parents universe start seen order level
        → (unseen seen universe + 2 ≤ fuel) ⊎ ((level ≡ []) × (1 ≤ fuel))
        → (found : List CommitId) × Walks fuel seen order level found × AllReached found
    unfolding Walks
    levels_walked zero seen order level inv (inl h) = absurd (omega arith)
    levels_walked zero seen order level inv (inr (_, h)) = absurd (omega arith)
    levels_walked (suc fuel) seen order [] inv enough = (order, refl, Inv-AllReached seen order inv)
    levels_walked (suc fuel) seen order (id ∷ ids) inv (inr (h, _)) = absurd (cc h)
    levels_walked (suc fuel) seen order (id ∷ ids) inv (inl enough) =
        let (s, o, n, e, i, p) =
          level_visited (id ∷ ids) seen order []
            (subst (Inv parents universe start seen order) (sym (append-nil (id ∷ ids))) inv) in
        let left : (unseen s universe + 2 ≤ fuel) ⊎ ((n ≡ []) × (1 ≤ fuel)) = elim p [
          | inl lt ↦ inl (omega (arith, enough, lt))
          | inr (_, stop) ↦ inr (stop, omega (arith, enough))
        ] in
        let (found, run, all) = levels_walked fuel s o n i left in (found, ((s, o, n), e, run), all)

    -- the walk at its start: its first level holds the commits it starts from
    Inv-start :
        (level : List CommitId)
        → ((a : CommitId) → contains level a ≡ contains start a)
        → ((a : CommitId) → contains start a ≡ true → contains universe a ≡ true)
        → Inv parents universe start [] [] level
    unfolding contains Distinct
    Inv-start level same here = record {
      same = λ a. refl;
      sound = λ a r. start_here (sym (same a) ∙ r);
      known = λ a r. here a (sym (same a) ∙ r);
      first = λ p h. same p ∙ h;
      closed = λ a p s h. absurd (cc s);
      distinct = tt;
    }

    pub walk_from :
        (fuel : ℕ) (level : List CommitId)
        → ((a : CommitId) → contains level a ≡ contains start a)
        → ((a : CommitId) → contains start a ≡ true → contains universe a ≡ true)
        → length universe + 2 ≤ fuel
        → (found : List CommitId) × Walks fuel [] [] level found × AllReached found
    walk_from fuel level same here enough =
        levels_walked fuel [] [] level (Inv-start level same here)
          (inl (omega (arith, unseen-le [] universe, enough)))
