-- ===== src/Sqlite/Retire/Linear.antt =====
-- `retire_commit` on a graph without merges.
use sekai.Base.{◌≡◌, ◌≢◌, refl, sym, ap, ◌∙◌, ◌⊎◌, inl, inr, true, not, ◌&&◌, List, contains, ◌==◌}
use mathlib.Core.Path.{subst}
use sekai.Base.Outcome.{ok}
use sekai.Util.Coord.{ChunkCoord}
use sekai.Util.Hash.{CommitId, commit_id_ord}
use sekai.Core.Graph.Level.{Ancestor, direct, further}
use sekai.Sqlite.{Tables, Edge, parents_in, ancestors}
use sekai.Sqlite.Reads.{effective_row}
use sekai.Sqlite.Retire.{retire_commit, fold_commit}
use sekai.Util.Commit.{FoldOutcome}
use sekai.Sqlite.Retire.Descent.{ancestors-spliced}
use sekai.Sqlite.Retire.Effective.{retire_commit-Foldable}
use sekai.Sqlite.Retire.Retained.{retained}
use sekai.Sqlite.Closure.{ancestors_exact}
use sekai.Sqlite.Latest.{inherited, inherited-effective}
use sekai.Sqlite.WellFormed.{WellFormed, Continues}

-- no commit has two parents
abbrev pub Linear : Tables → Type 0
Linear t =
    (c p q : CommitId)
    → contains (parents_in t.edges c) p ≡ true
    → contains (parents_in t.edges c) q ≡ true
    → p ≡ q

module _ (edges : List Edge) where
  abbrev Up : CommitId → CommitId → Type 0
  Up = Ancestor (parents_in edges)

  abbrev Below : CommitId → CommitId → Type 0
  Below a b = (a ≡ b) ⊎ Up a b

  -- the first step of a way up
  first_step :
      (c a : CommitId)
      → Up c a
      → (p : CommitId) × (contains (parents_in edges c) p ≡ true) × Below p a
  first_step c a (direct h) = (a, h, inl refl)
  first_step c a (further {b} up h) =
      let (p, k, way) = first_step c b up in
      (
        p,
        k,
        inr (elim way [
          | inl e ↦ direct (ap (λ z. contains (parents_in edges z) a) e ∙ h)
          | inr over ↦ further over h
        ]),
      )

  Below-trans : (c a b : CommitId) → Up c a → Below a b → Up c b
  Below-trans c a b up (inl e) = subst (Up c) e up
  Below-trans c a b up (inr (direct h)) = further up h
  Below-trans c a b up (inr (further over h)) = further (Below-trans c a _ up (inr over)) h

module _ (t : Tables) (linear : Linear t) where
  abbrev Aligned : CommitId → CommitId → Type 0
  Aligned a b = Below t.edges a b ⊎ Up t.edges b a

  to_below : (a b : CommitId) → Continues t a b → Below t.edges a b
  to_below a b h = elim ((ancestors_exact t.edges a b).0 h) [
    | inl e ↦ inl (sym e)
    | inr up ↦ inr up
  ]

  of_below : (a b : CommitId) → Below t.edges a b → Continues t a b
  of_below a b (inl e) = (ancestors_exact t.edges a b).1 (inl (sym e))
  of_below a b (inr up) = (ancestors_exact t.edges a b).1 (inr up)

  -- Of two commits that a commit continues, one continues the other.
  Aligned-step :
      (c a b : CommitId)
      → contains (parents_in t.edges c) a ≡ true
      → Below t.edges c b ⊎ Up t.edges b c
      → Aligned a b
  Aligned-step c a b h (inl (inl e)) =
      inr (direct (ap (λ z. contains (parents_in t.edges z) a) (sym e) ∙ h))
  Aligned-step c a b h (inl (inr up)) =
      let (p, k, way) = first_step t.edges c b up in
      inl (subst (λ z. Below t.edges z b) (linear c p a k h) way)
  Aligned-step c a b h (inr over) = inr (further over h)

  aligned : (c a b : CommitId) → Up t.edges c a → Below t.edges c b → Aligned a b
  aligned c a b (direct h) way = Aligned-step c a b h (inl way)
  aligned c a b (further {b = d} up h) way = Aligned-step d a b h (aligned c d b up way)

  Continues-aligned :
      (c a b : CommitId) → Continues t c a → Continues t c b → Continues t a b ⊎ Continues t b a
  Continues-aligned c a b h k = elim ((ancestors_exact t.edges c a).0 h) [
    | inl e ↦ inl (subst (λ z. Continues t z b) (sym e) k)
    | inr up ↦ elim (aligned c a b up (to_below c b k)) [
      | inl way ↦ inl (of_below a b way)
      | inr over ↦ inr (of_below b a (inr over))
    ]
  ]

-- Retiring a commit leaves every other commit with the history that it had, less the retired commit.
pub retire_commit-history :
    (t : Tables) (from into : CommitId) (after : Tables) (out : FoldOutcome)
    → retire_commit t from into ≡ ok (after, out)
    → (k : CommitId) → k ≢ from
    → (a : CommitId)
    → contains (ancestors after.edges k) a ≡ (contains (ancestors t.edges k) a && not (a == from))
unfolding fold_commit
retire_commit-history t from into after out h k hk a =
    let (_, _, _, e) = retire_commit-Foldable t from into after out h in
    ap (λ (z : Tables). contains (ancestors z.edges k) a) (sym e)
    ∙ ancestors-spliced t.edges from k a hk

-- On well-formed tables whose graph has no merges, once a commit was retired into another, every other
-- commit that continues the successor or does not continue the retired commit inherits for every chunk
-- what it inherited before.
pub retire_commit-retained :
    (t : Tables)
    → WellFormed t
    → Linear t
    → (from into : CommitId) (after : Tables) (out : FoldOutcome)
    → retire_commit t from into ≡ ok (after, out)
    → (k : CommitId) → k ≢ from
    → (Continues t k from → Continues t k into)
    → (coord : ChunkCoord) → inherited after k coord ≡ inherited t k coord
unfolding effective_row
retire_commit-retained t wf linear from into after out h k hk meets coord =
    let (i, j, fo, e) = retire_commit-Foldable t from into after out h in
    let at_into = λ (s : CommitId) (up : Continues t k into) (way : Continues t k s).
      Continues-aligned t linear k into s up way in
    ap (λ (z : Tables). inherited z k coord) (sym e)
    ∙ inherited-effective (fold_commit t from i into j) k coord
    ∙ retained t wf from into i j fo k hk coord meets at_into
    ∙ sym (inherited-effective t k coord)
