-- ===== src/Core/Graph/Level.antt =====
-- One level of the walk over the ancestors of a commit.
use sekai.Base.{
  or_left, or_right, ◌≡◌, refl, sym, ap, ◌∙◌, inl, inr, Bool, true, false, not, ◌&&◌, ◌||◌, List,
  [], ◌∷◌, ◌++◌, contains, contains-append, arith, Bool-cases, ◌==◌, beq_refl,
}
use sekai.Base.Set
use sekai.Base.Set.{contains-insert}
use sekai.Util.Hash.{CommitId, commit_id_ord, commit_id_beq_iff}
use sekai.Core.Graph.{add_parents}

contains-add_parents :
    (seen ps next : List CommitId) (a : CommitId)
    → contains (add_parents seen ps next) a
      ≡ (contains next a || contains ps a && not (contains seen a))
unfolding add_parents contains
contains-add_parents seen [] next a = ground arith
contains-add_parents seen (p ∷ ps) next a = elim (Bool-cases (contains seen p)) [
  | inl old ↦
      let same : (p == a) ≡ true → contains seen a ≡ true =
        λ e. ap (contains seen) (sym ((commit_id_beq_iff p a).0 e)) ∙ old in
      rw (old, contains-add_parents seen ps next a) (ground (arith, same))
  | inr new ↦
      let same : (p == a) ≡ true → contains seen a ≡ false =
        λ e. ap (contains seen) (sym ((commit_id_beq_iff p a).0 e)) ∙ new in
      rw (new, contains-add_parents seen ps (Set.insert p next) a, contains-insert p a next)
        (ground (arith, same))
]

-- No commit stands twice in the list.
unfoldable pub Distinct : List CommitId → Type 0
Distinct [] = Unit
Distinct (x ∷ xs) = (contains xs x ≡ false) × Distinct xs

Distinct-snoc :
    (xs : List CommitId) (a : CommitId)
    → Distinct xs
    → contains xs a ≡ false
    → Distinct (xs ++ a ∷ [])
unfolding Distinct contains
Distinct-snoc [] a h out = (refl, tt)
Distinct-snoc (x ∷ xs) a (h, hs) out = (
  contains-append xs (a ∷ []) x
      ∙ ground (arith, h, out, commit_id_beq_iff a x, commit_id_beq_iff x a),
  Distinct-snoc xs a hs (ground (arith, out)),
)

-- An ancestor of a commit: one of its parents, or a parent of an ancestor.
module _ (parents : CommitId → List CommitId) where
  pub data Ancestor (c : CommitId) : CommitId → Type 0 where
    direct : {a : CommitId} → contains (parents c) a ≡ true → Ancestor c a
    further : {a b : CommitId} → Ancestor c b → contains (parents b) a ≡ true → Ancestor c a

  -- A commit that a walk from some commits meets.
  pub data Reach (start : List CommitId) : CommitId → Type 0 where
    start_here : {a : CommitId} → contains start a ≡ true → Reach start a
    onward : {a b : CommitId} → Reach start b → contains (parents b) a ≡ true → Reach start a

swap : (s e r : Bool) → (s || (e || r)) ≡ (e || (s || r))
swap s e r = ground arith

absorb :
    (e s i n p : Bool)
    → ((e || s) || (i || (n || p && not (e || s)))) ≡ ((e || (s || (i || n))) || p)
absorb e s i n p = ground arith

assoc : (a b c : Bool) → (a || (b || c)) ≡ ((a || b) || c)
assoc a b c = ground arith

or_false : (a b : Bool) → (a || b) ≡ true → b ≡ false → a ≡ true
or_false a b h k = ground (arith, h, k)

or_and_false : (a b d : Bool) → (a || b && d) ≡ true → b ≡ false → a ≡ true
or_and_false a b d h k = ground (arith, h, k)

snoc : (s e : Bool) → (s || (e || false)) ≡ (e || s)
snoc s e = ground arith

pending-visited :
    (seen ps ids next : List CommitId) (a : CommitId)
    → contains (ids ++ add_parents seen ps next) a
      ≡ (contains (ids ++ next) a || contains ps a && not (contains seen a))
pending-visited seen ps ids next a =
    rw
      (
        contains-append ids (add_parents seen ps next) a,
        contains-add_parents seen ps next a,
        contains-append ids next a,
      )
      (assoc (contains ids a) (contains next a) (contains ps a && not (contains seen a)))

-- Whether a commit was reached: it was seen or is pending.
abbrev pub reached : List CommitId → List CommitId → CommitId → Bool
reached seen pending a = contains seen a || contains pending a

module _ (parents : CommitId → List CommitId) (universe start : List CommitId) where
  -- What holds between two steps of the walk.
  pub record Inv (seen order pending : List CommitId) : Type 0 where
    pub same : (a : CommitId) → contains order a ≡ contains seen a
    pub sound : (a : CommitId) → reached seen pending a ≡ true → Reach parents start a
    pub known : (a : CommitId) → contains pending a ≡ true → contains universe a ≡ true
    pub first : (p : CommitId) → contains start p ≡ true → reached seen pending p ≡ true
    pub closed :
        (a p : CommitId)
        → contains seen a ≡ true
        → contains (parents a) p ≡ true
        → reached seen pending p ≡ true
    pub distinct : Distinct order

  -- What is reached, with the first pending commit named, and once it has been visited.
  reached-head :
      (seen ids next : List CommitId) (id a : CommitId)
      → reached seen ((id ∷ ids) ++ next) a ≡ ((id == a) || reached seen (ids ++ next) a)
  unfolding contains
  reached-head seen ids next id a = swap (contains seen a) (id == a) (contains (ids ++ next) a)

  reached-visited :
      (seen ids next : List CommitId) (id a : CommitId)
      → reached (Set.insert id seen) (ids ++ add_parents (Set.insert id seen) (parents id) next) a
        ≡ (((id == a) || reached seen (ids ++ next) a) || contains (parents id) a)
  reached-visited seen ids next id a =
      rw
        (
          contains-append ids (add_parents (Set.insert id seen) (parents id) next) a,
          contains-add_parents (Set.insert id seen) (parents id) next a,
          contains-insert id a seen,
          contains-append ids next a,
        )
        (absorb (id == a) (contains seen a) (contains ids a) (contains next a)
          (contains (parents id) a))

  -- A commit that was seen is passed over.
  pub Inv-skip :
      (seen order ids next : List CommitId) (id : CommitId)
      → contains seen id ≡ true
      → Inv seen order ((id ∷ ids) ++ next)
      → Inv seen order (ids ++ next)
  unfolding contains
  Inv-skip seen order ids next id old inv =
      let still : (a : CommitId)
          → reached seen ((id ∷ ids) ++ next) a ≡ true
          → reached seen (ids ++ next) a ≡ true =
        λ a r. elim (Bool-cases (id == a)) [
          | inl e ↦
              or_left (contains seen a) _
                (ap (contains seen) (sym ((commit_id_beq_iff id a).0 e)) ∙ old)
          | inr e ↦ rw e at (sym (reached-head seen ids next id a) ∙ r)
        ] in
      record {
        same = inv.same;
        sound = λ a r. inv.sound a (reached-head seen ids next id a ∙ or_right (id == a) _ r);
        known = λ a r. inv.known a (or_right (id == a) _ r);
        first = λ p h. still p (inv.first p h);
        closed = λ a p s h. still p (inv.closed a p s h);
        distinct = inv.distinct;
      }

  -- A commit that was not seen is put in the order, and its parents become pending.
  pub Inv-visit :
      (seen order ids next : List CommitId) (id : CommitId)
      → ((a p : CommitId)
          → contains universe a ≡ true
          → contains (parents a) p ≡ true
          → contains universe p ≡ true)
      → contains seen id ≡ false
      → Inv seen order ((id ∷ ids) ++ next)
      → Inv
          (Set.insert id seen)
          (order ++ id ∷ [])
          (ids ++ add_parents (Set.insert id seen) (parents id) next)
  unfolding contains
  Inv-visit seen order ids next id whole new inv =
      let here : reached seen ((id ∷ ids) ++ next) id ≡ true =
        reached-head seen ids next id id ∙ or_left (id == id) _ (beq_refl id) in
      let known_id : contains universe id ≡ true =
        inv.known id (or_left (id == id) _ (beq_refl id)) in
      record {
        same = λ a.
            contains-append order (id ∷ []) a
            ∙ rw (inv.same a, contains-insert id a seen) (snoc (contains seen a) (id == a));
        sound = λ a r. elim (Bool-cases (contains (parents id) a)) [
          | inl h ↦ onward (inv.sound id here) h
          | inr h ↦ inv.sound a (
              reached-head seen ids next id a
              ∙ or_false _ _ (sym (reached-visited seen ids next id a) ∙ r) h)
        ];
        known = λ a r. elim (Bool-cases (contains (parents id) a)) [
          | inl h ↦ whole id a known_id h
          | inr h ↦ inv.known a (
              or_right (id == a) _ (
                or_and_false _ _ _
                  (sym (pending-visited (Set.insert id seen) (parents id) ids next a) ∙ r) h))
        ];
        first = λ p h.
            reached-visited seen ids next id p
            ∙ or_left _ _ (sym (reached-head seen ids next id p) ∙ inv.first p h);
        closed = λ a p s h. elim (Bool-cases (id == a)) [
          | inl e ↦
              reached-visited seen ids next id p
              ∙ or_right _ _ (ap (λ b. contains (parents b) p) ((commit_id_beq_iff id a).0 e) ∙ h)
          | inr e ↦
              let old : contains seen a ≡ true = rw e at (sym (contains-insert id a seen) ∙ s) in
              reached-visited seen ids next id p
              ∙ or_left _ _ (sym (reached-head seen ids next id p) ∙ inv.closed a p old h)
        ];
        distinct = Distinct-snoc order id inv.distinct (inv.same id ∙ new);
      }
