-- ===== src/Sqlite/Visible.antt =====
-- The rows that a commit inherits for a chunk, on well-formed tables: of one age there is one.
use sekai.Base.{◌≡◌, sym, ap, ◌∙◌, inl, inr, List, Option-cases}
use mathlib.Core.Path.{subst}
use sekai.Base.Member.{In}
use sekai.Util.Coord.{ChunkCoord, coord_ord}
use sekai.Util.Hash.{CommitId}
use sekai.Sqlite.{HistoryRow, Tables}
use sekai.Sqlite.Reads.{visible, latest}
use sekai.Sqlite.Latest.{blob_of, latest-Newest, latest-none, blob_of-latest, In-of_visible}
use sekai.Sqlite.WellFormed.{WellFormed, Known}

module _ (t : Tables) (wf : WellFormed t) (k : CommitId) (coord : ChunkCoord) where
  pub coords :
      (r s : HistoryRow) → In r (visible t k coord) → In s (visible t k coord) → r.coord ≡ s.coord
  coords r s v w =
      let (_, c, _) = In-of_visible t k coord r v in
      let (_, d, _) = In-of_visible t k coord s w in
      (coord_ord.beq_iff r.coord coord).0 c ∙ sym ((coord_ord.beq_iff s.coord coord).0 d)

  pub same_age :
      (r s : HistoryRow)
      → In r (visible t k coord)
      → In s (visible t k coord)
      → s.seq ≡ r.seq
      → s.blob ≡ r.blob
  same_age r s v w e =
      let (a, _, _) = In-of_visible t k coord r v in
      let (b, _, _) = In-of_visible t k coord s w in
      let one : r.commit ≡ s.commit =
        wf.seq_unique r.commit s.commit r.seq (wf.row_known r a)
          (subst (λ n. Known t s.commit n) e (wf.row_known s b)) in
      ap (λ (z : HistoryRow). z.blob) (sym (wf.row_unique r s a b one (coords r s v w)))

-- Lists with the same rows, of which those of one age say the same, have latest rows that say the same.
pub latest-same :
    (xs ys : List HistoryRow)
    → ((r : HistoryRow) → In r xs → In r ys)
    → ((r : HistoryRow) → In r ys → In r xs)
    → ((r s : HistoryRow) → In r ys → In s ys → s.seq ≡ r.seq → s.blob ≡ r.blob)
    → blob_of (latest xs) ≡ blob_of (latest ys)
latest-same xs ys to back age = elim (Option-cases (latest ys)) [
  | inl e ↦ elim (Option-cases (latest xs)) [
    | inl f ↦ ap blob_of f ∙ sym (ap blob_of e)
    | inr (r, f) ↦ absurd (latest-none ys e r (to r (latest-Newest xs r f).0))
  ]
  | inr (r, e) ↦
      let (i, most) = latest-Newest ys r e in
      blob_of-latest xs r (back r i, λ s j. most s (to s j)) (λ s j. age r s i (to s j))
      ∙ sym (ap blob_of e)
]
