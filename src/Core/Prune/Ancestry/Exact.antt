-- ===== src/Core/Prune/Ancestry/Exact.antt =====
-- The walk from a retained commit ends with exactly its ancestors.
use mathlib.Core.List.{append-nil}
use sekai.Base.{
  or_left, or_right, ℕ, zero, suc, ◌+◌, ◌≤◌, ◌<◌, ◌≡◌, refl, sym, ap, ◌∙◌, ◌⊎◌, inl, inr, ◌↔◌, Bool,
  true, false, ◌||◌, some, List, [], ◌∷◌, ◌++◌, contains, contains-append, length, arith,
  Bool-cases, Option-cases, if◌then◌else◌, ◌==◌, beq_refl,
}
use mathlib.Core.Path.{subst}
use sekai.Base.Map
use sekai.Base.Map.{keys, contains-keys, get-insert}
use sekai.Util.Hash.{CommitId, commit_id_ord, commit_id_beq_iff}
use sekai.Core.Graph.Level.{Ancestor, direct, further}
use sekai.Core.Prune.Ancestry.{Links, parents_at, walk_level, walk_levels, ancestors_of}

-- the links whose commit was not seen
unseen : List CommitId → Links → ℕ
unseen seen [] = 0
unseen seen ((id, ps) ∷ m) = let rest = unseen seen m in if contains seen id then rest else suc rest

unseen-le : (seen : List CommitId) (m : Links) → unseen seen m ≤ length m
unfolding unseen
unseen-le seen [] = omega arith
unseen-le seen ((id, ps) ∷ m) = ground (arith, unseen-le seen m)

unseen-cons :
    (a : CommitId) (seen : List CommitId) (m : Links) → unseen (a ∷ seen) m ≤ unseen seen m
unfolding unseen contains
unseen-cons a seen [] = omega arith
unseen-cons a seen ((id, ps) ∷ m) = ground (arith, unseen-cons a seen m)

-- A commit with a link that is seen for the first time counts.
unseen-less :
    (a : CommitId) (seen : List CommitId) (m : Links) (ps : List CommitId)
    → contains seen a ≡ false
    → Map.get m a ≡ some ps
    → unseen (a ∷ seen) m < unseen seen m
unfolding unseen contains Map.get
unseen-less a seen [] ps new h = absurd (ground (arith, h))
unseen-less a seen ((id, qs) ∷ m) ps new h = elim (Bool-cases (id == a)) [
  | inl t ↦
      let fresh : contains seen id ≡ false =
        ap (contains seen) ((commit_id_beq_iff id a).0 t) ∙ new in
      ground (
        arith,
        fresh,
        unseen-cons a seen m,
        (commit_id_beq_iff a id).1 (sym ((commit_id_beq_iff id a).0 t)),
      )
  | inr f ↦ ground (arith, unseen-less a seen m ps new (rw (Map.get, f) at h))
]

or_cases : (a b : Bool) → (a || b) ≡ true → (a ≡ true) ⊎ (b ≡ true)
or_cases a b h = ground (arith, h)

module _ (m : Links) (keep : CommitId) where
  abbrev par : CommitId → List CommitId
  par = parents_at m

  -- seen, or waiting in one of two lists
  abbrev Met : List CommitId → List CommitId → List CommitId → CommitId → Type 0
  Met seen ids next a =
      (contains seen a ≡ true) ⊎ ((contains ids a ≡ true) ⊎ (contains next a ≡ true))

  record Inv (seen ids next : List CommitId) : Type 0 where
    sound : (a : CommitId) → Met seen ids next a → Ancestor par keep a
    first : (p : CommitId) → contains (par keep) p ≡ true → Met seen ids next p
    closed :
        (a p : CommitId) → contains seen a ≡ true → contains (par a) p ≡ true → Met seen ids next p

  Inv-skip :
      (seen ids next : List CommitId) (id : CommitId)
      → contains seen id ≡ true
      → Inv seen (id ∷ ids) next
      → Inv seen ids next
  unfolding contains
  Inv-skip seen ids next id old inv =
      let drop_id : (a : CommitId) → Met seen (id ∷ ids) next a → Met seen ids next a = λ a met.
        elim met [
          | inl s ↦ inl s
          | inr (inl w) ↦ elim (or_cases (id == a) _ w) [
            | inl e ↦ inl (ap (contains seen) (sym ((commit_id_beq_iff id a).0 e)) ∙ old)
            | inr i ↦ inr (inl i)
          ]
          | inr (inr n) ↦ inr (inr n)
        ] in
      record {
        sound = λ a met. inv.sound a (elim met [
          | inl s ↦ inl s
          | inr (inl w) ↦ inr (inl (or_right (id == a) _ w))
          | inr (inr n) ↦ inr (inr n)
        ]);
        first = λ p h. drop_id p (inv.first p h);
        closed = λ a p s h. drop_id p (inv.closed a p s h);
      }

  climb : (a p : CommitId) → Ancestor par keep a → contains (par a) p ≡ true → Ancestor par keep p
  climb a p up h = further up h

  Inv-visit :
      (seen ids next : List CommitId) (id : CommitId)
      → Inv seen (id ∷ ids) next
      → Inv (id ∷ seen) ids (next ++ par id)
  unfolding contains
  Inv-visit seen ids next id inv =
      let here : Ancestor par keep id = inv.sound id (inr (inl (or_left _ _ (beq_refl id)))) in
      let later : (a : CommitId)
          → Met seen (id ∷ ids) next a
          → Met (id ∷ seen) ids (next ++ par id) a =
        λ a met. elim met [
          | inl s ↦ inl (or_right (id == a) _ s)
          | inr (inl w) ↦ elim (or_cases (id == a) _ w) [
            | inl e ↦ inl (or_left _ _ e)
            | inr i ↦ inr (inl i)
          ]
          | inr (inr n) ↦ inr (inr (contains-append next (par id) a ∙ or_left _ _ n))
        ] in
      record {
        sound = λ a met. elim met [
          | inl s ↦ elim (or_cases (id == a) _ s) [
            | inl e ↦ subst (Ancestor par keep) ((commit_id_beq_iff id a).0 e) here
            | inr o ↦ inv.sound a (inl o)
          ]
          | inr (inl w) ↦ inv.sound a (inr (inl (or_right (id == a) _ w)))
          | inr (inr n) ↦
              elim (or_cases (contains next a) (contains (par id) a)
                (sym (contains-append next (par id) a) ∙ n)) [
                  | inl o ↦ inv.sound a (inr (inr o))
                  | inr up ↦ climb id a here up
                ]
        ];
        first = λ p h. later p (inv.first p h);
        closed = λ a p s h. elim (or_cases (id == a) _ s) [
          | inl e ↦ inr (
              inr (
                contains-append next (par id) p
                ∙ or_right _ _ (ap (λ z. contains (par z) p) ((commit_id_beq_iff id a).0 e) ∙ h)))
          | inr o ↦ later p (inv.closed a p o h)
        ];
      }

  -- A level that brings another has seen a commit with a link for the first time.
  abbrev Progress : List CommitId → List CommitId → List CommitId × List CommitId → Type 0
  Progress seen next step =
      (unseen step.0 m < unseen seen m) ⊎ ((unseen step.0 m ≤ unseen seen m) × (step.1 ≡ next))

  visit-Progress :
      (id : CommitId) (seen next : List CommitId) (step : List CommitId × List CommitId)
      → contains seen id ≡ false
      → Progress (id ∷ seen) (next ++ par id) step
      → Progress seen next step
  unfolding parents_at
  visit-Progress id seen next step new (inl less) = inl (omega (arith, less, unseen-cons id seen m))
  visit-Progress id seen next step new (inr (le, e)) = elim (Option-cases (Map.get m id)) [
    | inl none_here ↦ inr (
      omega (arith, le, unseen-cons id seen m),
      e ∙ ap (λ z. next ++ z) (rw (parents_at, none_here) refl) ∙ append-nil next,
    )
    | inr (ps, found) ↦ inl (omega (arith, le, unseen-less id seen m ps new found))
  ]

  walk_level-Inv :
      (ids seen next : List CommitId)
      → Inv seen ids next
      → Inv (walk_level m ids seen next).0 [] (walk_level m ids seen next).1
        × Progress seen next (walk_level m ids seen next)
  unfolding walk_level
  walk_level-Inv [] seen next inv = (inv, inr (omega arith, refl))
  walk_level-Inv (id ∷ ids) seen next inv = elim (Bool-cases (contains seen id)) [
    | inl old ↦
        rw (walk_level, old) (walk_level-Inv ids seen next (Inv-skip seen ids next id old inv))
    | inr new ↦
        let (i, p) =
          walk_level-Inv ids (id ∷ seen) (next ++ par id) (Inv-visit seen ids next id inv) in
        rw (walk_level, new) (i, visit-Progress id seen next _ new p)
  ]

  next_level : (seen next : List CommitId) → Inv seen [] next → Inv seen next []
  unfolding contains
  next_level seen next inv = record {
    sound = λ a met.
        inv.sound a
          (elim met [ inl s ↦ inl s | inr (inl w) ↦ inr (inr w) | inr (inr n) ↦ inr (inl n) ]);
    first = λ p h. flip p (inv.first p h);
    closed = λ a p s h. flip p (inv.closed a p s h);
  }
    where
      flip : (a : CommitId) → Met seen [] next a → Met seen next [] a
      flip a (inl s) = inl s
      flip a (inr (inl w)) = inr (inr w)
      flip a (inr (inr n)) = inr (inl n)

  done_exact :
      (seen : List CommitId)
      → Inv seen [] []
      → (a : CommitId) → (contains seen a ≡ true) ↔ Ancestor par keep a
  unfolding contains
  done_exact seen inv a = (λ h. inv.sound a (inl h), all a)
    where
      met : (a : CommitId) → Met seen [] [] a → contains seen a ≡ true
      met a (inl s) = s
      met a (inr (inl w)) = absurd (ground (arith, w))
      met a (inr (inr n)) = absurd (ground (arith, n))

      all : (a : CommitId) → Ancestor par keep a → contains seen a ≡ true
      all a (direct h) = met a (inv.first a h)
      all a (further {b = b} up h) = met a (inv.closed b a (all b up) h)

  walk_levels-exact :
      (fuel : ℕ) (seen level : List CommitId)
      → unseen seen m < fuel
      → Inv seen level []
      → (a : CommitId) → (contains (walk_levels m fuel seen level) a ≡ true) ↔ Ancestor par keep a
  unfolding walk_levels
  walk_levels-exact zero seen level enough inv a = absurd (omega (arith, enough))
  walk_levels-exact (suc fuel) seen [] enough inv a = done_exact seen inv a
  walk_levels-exact (suc fuel) seen (id ∷ ids) enough inv a =
      let (i, progress) = walk_level-Inv (id ∷ ids) seen [] inv in
      let s = (walk_level m (id ∷ ids) seen []).0 in
      let n = (walk_level m (id ∷ ids) seen []).1 in
      elim progress [
        | inl less ↦ walk_levels-exact fuel s n (omega (arith, enough, less)) (next_level s n i) a
        | inr (_, e) ↦ ended fuel s n e i
      ]
    where
      stopped : (fuel : ℕ) (s : List CommitId) → walk_levels m fuel s [] ≡ s
      stopped zero s = refl
      stopped (suc fuel) s = refl

      ended :
          (fuel : ℕ) (s n : List CommitId)
          → n ≡ []
          → Inv s [] n
          → (contains (walk_levels m fuel s n) a ≡ true) ↔ Ancestor par keep a
      ended fuel s n e i =
          subst (λ z. (contains (walk_levels m fuel s z) a ≡ true) ↔ Ancestor par keep a) (sym e)
            (subst (λ z. (contains z a ≡ true) ↔ Ancestor par keep a) (sym (stopped fuel s))
              (done_exact s (subst (Inv s []) e i) a))

  Inv-start : Inv [] (par keep) []
  unfolding contains
  Inv-start = record {
    sound = λ a met. elim met [
      | inl s ↦ absurd (ground (arith, s))
      | inr (inl w) ↦ direct w
      | inr (inr n) ↦ absurd (ground (arith, n))
    ];
    first = λ p h. inr (inl h);
    closed = λ a p s h. absurd (ground (arith, s));
  }

  -- The walk over the parents of a commit ends with exactly its ancestors, on every graph.
  pub ancestors_of-exact :
      (a : CommitId) → (contains (ancestors_of m keep) a ≡ true) ↔ Ancestor par keep a
  unfolding ancestors_of
  ancestors_of-exact =
      walk_levels-exact (length m + 2) [] (par keep) (omega (arith, unseen-le [] m)) Inv-start
