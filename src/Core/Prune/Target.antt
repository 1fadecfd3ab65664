-- ===== src/Core/Prune/Target.antt =====
-- When a commit can be retired, and into which commit.
use sekai.Base.{
  and_left, and_right, or_left, or_right, ◌≡◌, ◌≢◌, refl, sym, ap, ◌∙◌, ◌⊎◌, inl, inr, ◌↔◌, Bool,
  true, false, ◌&&◌, ◌||◌, none, some, List, [], ◌∷◌, all, contains, contains-filter, filter, arith,
  Bool-cases, ◌==◌, beq_refl,
}
use sekai.Base.Outcome.{ok, err}
use sekai.Util.Hash.{CommitId, commit_id_ord, commit_id_beq_iff}
use sekai.Core.Prune.{
  no_successor, split_branches, Ancestry, continues, continued_by_all, find, choose_target,
  fold_target,
}

and_both : (a b : Bool) → a ≡ true → b ≡ true → (a && b) ≡ true
and_both a b h k = ground (arith, h, k)

or_other : (a b : Bool) → (a || b) ≡ true → ¬ (a ≡ true) → b ≡ true
or_other true b h k = absurd (k refl)
or_other false b h k = h

clash {ℓ} : {A : Type ℓ} (b : Bool) → b ≡ true → b ≡ false → A
clash b h k = absurd (cc (h, k))

all_iff :
    (p : CommitId → Bool) (xs : List CommitId)
    → (all p xs ≡ true) ↔ ((a : CommitId) → contains xs a ≡ true → p a ≡ true)
unfolding contains
all_iff p [] = (λ h a i. absurd (cc i), λ h. refl)
all_iff p (x ∷ xs) = (
  λ h a i. elim (Bool-cases (x == a)) [
    | inl e ↦ ap p (sym ((commit_id_beq_iff x a).0 e)) ∙ and_left (p x) (all p xs) h
    | inr e ↦ (all_iff p xs).0 (and_right (p x) (all p xs) h) a (rw e at i)
  ],
  λ h.
      and_both (p x) (all p xs) (h x (or_left _ _ (beq_refl x)))
        ((all_iff p xs).1 (λ a i. h a (or_right (x == a) _ i))),
)

pub find_cases :
    (p : CommitId → Bool) (xs : List CommitId)
    → ((a : CommitId) × (find p xs ≡ some a) × (contains xs a ≡ true) × (p a ≡ true))
      ⊎ ((find p xs ≡ none) × ((a : CommitId) → contains xs a ≡ true → p a ≡ false))
unfolding find contains
find_cases p [] = inr (refl, λ a i. absurd (cc i))
find_cases p (x ∷ xs) = elim (Bool-cases (p x)) [
  | inl here ↦ inl (x, rw (find, here), or_left _ _ (beq_refl x), here)
  | inr out ↦ elim (find_cases p xs) [
    | inl (a, e, i, h) ↦ inl (a, rw (find, out) e, or_right (x == a) _ i, h)
    | inr (e, nowhere) ↦ inr (
      rw (find, out) e,
      λ a i. elim (Bool-cases (x == a)) [
        | inl same ↦ ap p (sym ((commit_id_beq_iff x a).0 same)) ∙ out
        | inr other ↦ nowhere a (rw other at i)
      ],
    )
  ]
]

continued_by_all_iff :
    (ancestry : Ancestry) (ds : List CommitId) (t : CommitId)
    → (continued_by_all ancestry ds t ≡ true)
      ↔ ((o : CommitId) → contains ds o ≡ true → o ≢ t → continues ancestry t o ≡ true)
unfolding continued_by_all
continued_by_all_iff ancestry ds t =
    let test = λ (o : CommitId). o == t || continues ancestry t o in
    (
      λ h o i differ.
          or_other (o == t) _ ((all_iff test ds).0 h o i)
            (λ e. differ ((commit_id_beq_iff o t).0 e)),
      λ h. (all_iff test ds).1 (λ o i. elim (Bool-cases (o == t)) [
        | inl e ↦ or_left _ _ e
        | inr e ↦ or_right (o == t) _ (h o i (λ same. clash _ ((commit_id_beq_iff o t).1 same) e))
      ]),
    )

target_found :
    (ancestry : Ancestry) (ds : List CommitId) (t : CommitId)
    → find (continued_by_all ancestry ds) ds ≡ some t
    → choose_target ancestry ds ≡ ok t
unfolding choose_target
target_found ancestry ds t h = rw (choose_target, h)

-- what an empty list, and one that is not, makes of a failed search
no_target :
    (ancestry : Ancestry) (ds : List CommitId)
    → find (continued_by_all ancestry ds) ds ≡ none
    → ((choose_target ancestry ds ≡ err no_successor) × ((o : CommitId) → contains ds o ≡ false))
      ⊎ ((choose_target ancestry ds ≡ err split_branches)
          × ((o : CommitId) × (contains ds o ≡ true)))
unfolding choose_target contains
no_target ancestry [] h = inl (refl, λ o. refl)
no_target ancestry (d ∷ ds) h = inr (rw (choose_target, h), (d, or_left _ _ (beq_refl d)))

module _ (ancestry : Ancestry) (retained : List CommitId) (commit : CommitId) where
  -- A retained commit that continues the retired one.
  abbrev pub IsHeir : CommitId → Type 0
  IsHeir o = (contains retained o ≡ true) × (continues ancestry commit o ≡ true)

  -- One that every other such commit continues.
  abbrev pub IsTarget : CommitId → Type 0
  IsTarget t = IsHeir t × ((o : CommitId) → IsHeir o → o ≢ t → continues ancestry t o ≡ true)

  abbrev descendants : List CommitId
  descendants = filter (continues ancestry commit) retained

  descends : (o : CommitId) → (contains descendants o ≡ true) ↔ IsHeir o
  descends o =
      let e = contains-filter (continues ancestry commit) retained o in
      (
        λ h. (and_left _ _ (sym e ∙ h), and_right (contains retained o) _ (sym e ∙ h)),
        λ (r, k). e ∙ and_both _ _ r k,
      )

  -- Retiring a commit folds it into a retained commit that continues it and that every other
  -- retained commit which continues it continues too. It is refused as without a successor exactly
  -- when no retained commit continues it, and as split when some does but none is such a target.
  pub fold_target_exact :
      ((t : CommitId) × (fold_target ancestry retained commit ≡ ok t) × IsTarget t)
      ⊎ (((fold_target ancestry retained commit ≡ err no_successor) × ((o : CommitId) → ¬ IsHeir o))
          ⊎ ((fold_target ancestry retained commit ≡ err split_branches)
              × ((o : CommitId) × IsHeir o)
              × ((t : CommitId) → ¬ IsTarget t)))
  unfolding fold_target
  fold_target_exact = elim (find_cases (continued_by_all ancestry descendants) descendants) [
    | inl (t, e, i, h) ↦ inl (
      t,
      target_found ancestry descendants t e,
      (
        (descends t).0 i,
        λ o heir differ.
            (continued_by_all_iff ancestry descendants t).0 h o ((descends o).1 heir) differ,
      ),
    )
    | inr (e, nowhere) ↦ elim (no_target ancestry descendants e) [
      | inl (run, none_left) ↦
          inr (inl (run, λ o heir. clash _ ((descends o).1 heir) (none_left o)))
      | inr (run, (o, i)) ↦ inr (
          inr (
            run,
            (o, (descends o).0 i),
            λ t (heir, over).
                clash _
                  ((continued_by_all_iff ancestry descendants t).1
                    (λ u j differ. over u ((descends u).0 j) differ))
                  (nowhere t ((descends t).1 heir)),
          ))
    ]
  ]
