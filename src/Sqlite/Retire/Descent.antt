-- ===== src/Sqlite/Retire/Descent.antt =====
-- The history of a commit once another commit was taken out of the graph.
use sekai.Base.{
  both, same_truth, ◌≡◌, ◌≢◌, refl, sym, ap, ◌∙◌, ◌⊎◌, inl, inr, Bool, true, false, not, ◌&&◌, ◌||◌,
  List, contains, arith, Bool-cases, ◌==◌,
}
use sekai.Util.Hash.{CommitId, commit_id_ord, commit_id_beq_iff}
use sekai.Core.Graph.Level.{Ancestor, direct, further}
use sekai.Sqlite.{Edge, parents_in, ancestors}
use sekai.Sqlite.Retire.{adopt, cut}
use sekai.Sqlite.Edges.{contains-parents_in, has_edge-adopt, has_edge-cut}
use sekai.Sqlite.Closure.{ancestors_exact}

-- the links that are left
abbrev pub spliced : List Edge → CommitId → List Edge
spliced edges from = cut (adopt edges from edges) from

bridged : (b : Bool) → ((b || true) && true) ≡ true
bridged b = ground arith

step_cases :
    (a b c e f : Bool)
    → ((a || b && c) && not (e || f)) ≡ true
    → ((a ≡ true) ⊎ ((b ≡ true) × (c ≡ true))) × (e ≡ false) × (f ≡ false)
step_cases a b c e f h = ground (arith, h)

both_cases : (a b : Bool) → (a && not b) ≡ true → (a ≡ true) × (b ≡ false)
both_cases a b h = ground (arith, h)

pub same_not : (a b : CommitId) → (a == b) ≡ false → a ≢ b
same_not a b f e = ground (arith, commit_id_beq_iff a b)

pub differ : (a b : CommitId) → a ≢ b → (a == b) ≡ false
differ a b h = ground (arith, h, commit_id_beq_iff a b)

module _ (edges : List Edge) (from : CommitId) where
  abbrev before : CommitId → CommitId → Bool
  before c p = contains (parents_in edges c) p

  abbrev after : CommitId → CommitId → Bool
  after c p = contains (parents_in (spliced edges from) c) p

  parents_after :
      (c p : CommitId)
      → after c p ≡ ((before c p || before c from && before from p) && not (c == from || p == from))
  parents_after c p =
      rw
        (
          contains-parents_in (spliced edges from) c p,
          contains-parents_in edges c p,
          contains-parents_in edges c from,
          contains-parents_in edges from p,
          has_edge-cut (adopt edges from edges) from c p,
          has_edge-adopt edges from edges c p,
        )
        refl

  keep : (c p : CommitId) → c ≢ from → p ≢ from → before c p ≡ true → after c p ≡ true
  keep c p hc hp h = rw (parents_after, differ c from hc, differ p from hp, h) refl

  bridge :
      (c p : CommitId)
      → c ≢ from
      → p ≢ from
      → before c from ≡ true
      → before from p ≡ true
      → after c p ≡ true
  bridge c p hc hp h k =
      rw (parents_after, differ c from hc, differ p from hp, h, k) (bridged (before c p))

  abbrev Old : CommitId → CommitId → Type 0
  Old = Ancestor (parents_in edges)

  abbrev New : CommitId → CommitId → Type 0
  New = Ancestor (parents_in (spliced edges from))

  -- What a former ancestor is now: an ancestor, or the commit taken out, whose parents are.
  New-of_Old :
      (c a : CommitId)
      → c ≢ from
      → Old c a
      → (a ≢ from → New c a)
        × (a ≡ from → (p : CommitId) → p ≢ from → before from p ≡ true → New c p)
  New-of_Old c a hc (direct h) = (
    λ ha. direct (keep c a hc ha h),
    λ e p hp k. direct (bridge c p hc hp (ap (before c) (sym e) ∙ h) k),
  )
  New-of_Old c a hc (further {b} up h) = elim (Bool-cases (b == from)) [
    | inl t ↦
        let e : b ≡ from = (commit_id_beq_iff b from).0 t in
        let rest = (New-of_Old c b hc up).1 e in
        let k : before from a ≡ true = ap (λ z. before z a) (sym e) ∙ h in
        (λ ha. rest a ha k, λ _. rest)
    | inr f ↦
        let hb : b ≢ from = λ e. same_not b from f e in
        let at_b = (New-of_Old c b hc up).0 hb in
        (
          λ ha. further at_b (keep b a hb ha h),
          λ e p hp k. further at_b (bridge b p hb hp (ap (before b) (sym e) ∙ h) k),
        )
  ]

  pub new_step :
      (c p : CommitId)
      → after c p ≡ true
      → (before c p ≡ true ⊎ ((before c from ≡ true) × (before from p ≡ true)))
        × (c ≢ from)
        × (p ≢ from)
  new_step c p h =
      let (way, e, f) = step_cases _ _ _ _ _ (sym (parents_after c p) ∙ h) in
      (way, same_not c from e, same_not p from f)

  Old-of_New : (c a : CommitId) → New c a → Old c a × (a ≢ from)
  Old-of_New c a (direct h) =
      let (way, _, ha) = new_step c a h in
      (elim way [ inl k ↦ direct k | inr k ↦ further (direct k.0) k.1 ], ha)
  Old-of_New c a (further {b} up h) =
      let (way, _, ha) = new_step b a h in
      let old = (Old-of_New c b up).0 in
      (elim way [ inl k ↦ further old k | inr k ↦ further (further old k.0) k.1 ], ha)

  fewer :
      (c a : CommitId)
      → c ≢ from
      → contains (ancestors (spliced edges from) c) a ≡ true
      → (contains (ancestors edges c) a && not (a == from)) ≡ true
  fewer c a hc h = elim ((ancestors_exact (spliced edges from) c a).0 h) [
    | inl e ↦ both _ _ ((ancestors_exact edges c a).1 (inl e)) (differ a from (λ k. hc (sym e ∙ k)))
    | inr up ↦
        let (old, ha) = Old-of_New c a up in
        both _ _ ((ancestors_exact edges c a).1 (inr old)) (differ a from ha)
  ]

  as_many :
      (c a : CommitId)
      → c ≢ from
      → (contains (ancestors edges c) a && not (a == from)) ≡ true
      → contains (ancestors (spliced edges from) c) a ≡ true
  as_many c a hc h =
      let (old, f) = both_cases _ _ h in
      (ancestors_exact (spliced edges from) c a).1 (elim ((ancestors_exact edges c a).0 old) [
        | inl e ↦ inl e
        | inr up ↦ inr ((New-of_Old c a hc up).0 (same_not a from f))
      ])

  -- Taking a commit out of the graph leaves every other commit with the history that it had, less the
  -- commit taken out.
  pub ancestors-spliced :
      (c a : CommitId)
      → c ≢ from
      → contains (ancestors (spliced edges from) c) a
        ≡ (contains (ancestors edges c) a && not (a == from))
  ancestors-spliced c a hc = same_truth _ _ (fewer c a hc) (as_many c a hc)
