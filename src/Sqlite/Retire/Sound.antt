-- ===== src/Sqlite/Retire/Sound.antt =====
-- Retiring a commit keeps the tables well-formed.
use sekai.Base.{
  ℕ, ◌≡◌, ◌≢◌, sym, ap, ◌∙◌, inl, inr, true, false, not, none, List, [], ◌∷◌, filter, contains,
  arith, Bool-cases, if◌then◌else◌, ◌==◌,
}
use mathlib.Core.Path.{subst}
use sekai.Base.Outcome.{ok}
use sekai.Base.Member.{In}
use sekai.Util.Coord.{coord_ord}
use sekai.Util.Hash.{CommitId, commit_id_ord, commit_id_beq_iff}
use sekai.Sqlite.{CommitRow, HistoryRow, Tables, seq_in, parents_in, ancestors}
use sekai.Sqlite.Retire.{is_superseded, restamp, fold_commit, retire_commit}
use sekai.Util.Commit.{FoldOutcome}
use sekai.Sqlite.Retire.Descent.{new_step, same_not, differ}
use sekai.Sqlite.Retire.Rows.{
  restamp-other, restamp-from, restamp-coord, kept-newest, In-of_fold_rows,
}
use sekai.Sqlite.Retire.Effective.{Foldable, retire_commit-Foldable, into-ne-from}
use sekai.Sqlite.WellFormed.{WellFormed, Known, Known-unique, Upward, ancestors_refl}

pub seq_in-filter :
    (rows : List CommitRow) (from x : CommitId)
    → seq_in (filter (λ (row : CommitRow). not (row.id == from)) rows) x
      ≡ (if from == x then none else seq_in rows x)
unfolding seq_in filter
seq_in-filter [] from x = ground arith
seq_in-filter (r ∷ rs) from x = ground (
  arith,
  seq_in-filter rs from x,
  commit_id_beq_iff r.id from,
  commit_id_beq_iff r.id x,
  commit_id_beq_iff from x,
)

module _ (t : Tables) (wf : WellFormed t) (from into : CommitId) (i j : ℕ)
    (fo : Foldable t from into i j) where
  abbrev done : Tables
  done = fold_commit t from i into j

  abbrev moved : HistoryRow → HistoryRow
  moved = restamp from into j

  Known-after : (x : CommitId) (n : ℕ) → x ≢ from → Known t x n → Known done x n
  unfolding fold_commit
  Known-after x n hx h = rw (seq_in-filter t.commits from x, differ from x (λ e. hx (sym e))) h

  Known-before : (x : CommitId) (n : ℕ) → Known done x n → Known t x n
  unfolding fold_commit
  Known-before x n h = elim (Bool-cases (from == x)) [
    | inl e ↦ absurd (ground (arith, rw (seq_in-filter t.commits from x, e) at h))
    | inr f ↦ rw (seq_in-filter t.commits from x, f) at h
  ]

  -- A row is a former one of another commit, or one of the retired commit that was not superseded.
  row_origin :
      (s : HistoryRow)
      → In s done.history
      → (r : HistoryRow) × In r t.history
        × (is_superseded t.history (ancestors t.edges into) from i r ≡ false)
        × (moved r ≡ s)
  unfolding fold_commit
  row_origin s v = In-of_fold_rows t.history (ancestors t.edges into) from i into j s v

  moved-Known : (r : HistoryRow) → In r t.history → Known done (moved r).commit (moved r).seq
  moved-Known r a = elim (Bool-cases (r.commit == from)) [
    | inl own ↦
        subst (λ (z : HistoryRow). Known done z.commit z.seq) (sym (restamp-from from into j r own))
          (Known-after into j (into-ne-from t wf from into i j fo) fo.into_known)
    | inr other ↦
        subst (λ (z : HistoryRow). Known done z.commit z.seq)
          (sym (restamp-other from into j r other))
          (Known-after r.commit r.seq (same_not r.commit from other) (wf.row_known r a))
  ]

  -- a row of the successor would have superseded it
  no_clash :
      (r s : HistoryRow)
      → In s t.history
      → is_superseded t.history (ancestors t.edges into) from i r ≡ false
      → (r.commit == from) ≡ true
      → s.commit ≡ into
      → s.coord ≡ r.coord
      → ⊥
  no_clash r s b kept own at same =
      let key : s.seq ≡ j =
        Known-unique t into s.seq j (subst (λ z. Known t z s.seq) at (wf.row_known s b))
          fo.into_known in
      let low =
        kept-newest t.history (ancestors t.edges into) from i r s kept own b
          ((coord_ord.beq_iff s.coord r.coord).1 same)
          (ap (contains (ancestors t.edges into)) at ∙ ancestors_refl t.edges into) in
      omega (arith, key, low, fo.later)

  commit_of : (r z : HistoryRow) → r ≡ z → r.commit ≡ z.commit
  commit_of r z e = ap (λ (y : HistoryRow). y.commit) e

  moved_unique :
      (r s : HistoryRow)
      → In r t.history
      → In s t.history
      → is_superseded t.history (ancestors t.edges into) from i r ≡ false
      → is_superseded t.history (ancestors t.edges into) from i s ≡ false
      → (moved r).commit ≡ (moved s).commit
      → r.coord ≡ s.coord
      → moved r ≡ moved s
  moved_unique r s a b hr hs c d = elim (Bool-cases (r.commit == from)) [
    | inl own ↦ elim (Bool-cases (s.commit == from)) [
      | inl too ↦ ap moved (
          wf.row_unique r s a b
            ((commit_id_beq_iff r.commit from).0 own
              ∙ sym ((commit_id_beq_iff s.commit from).0 too))
            d)
      | inr other ↦ absurd (
          no_clash r s b hr own
            (sym (commit_of _ _ (restamp-other from into j s other))
              ∙ sym c
              ∙ commit_of _ _ (restamp-from from into j r own))
            (sym d))
    ]
    | inr stays ↦ elim (Bool-cases (s.commit == from)) [
      | inl own ↦ absurd (
          no_clash s r a hs own
            (sym (commit_of _ _ (restamp-other from into j r stays))
              ∙ c
              ∙ commit_of _ _ (restamp-from from into j s own))
            d)
      | inr other ↦ ap moved (
          wf.row_unique r s a b
            (sym (commit_of _ _ (restamp-other from into j r stays))
              ∙ c
              ∙ commit_of _ _ (restamp-other from into j s other))
            d)
    ]
  ]

  link_up : (c p : CommitId) → contains (parents_in done.edges c) p ≡ true → Upward done c p
  unfolding fold_commit
  link_up c p h =
      let (way, hc, hp) = new_step t.edges from c p h in
      elim way [
        | inl k ↦
            let (m, n, kc, kp, lt) = wf.upward c p k in
            (m, n, Known-after c m hc kc, Known-after p n hp kp, lt)
        | inr k ↦
            let (m, n, kc, kf, lt) = wf.upward c from k.0 in
            let (n2, l, kf2, kp, lt2) = wf.upward from p k.1 in
            (
              m,
              l,
              Known-after c m hc kc,
              Known-after p l hp kp,
              omega (arith, lt, lt2, Known-unique t from n n2 kf kf2),
            )
      ]

  done-WellFormed : WellFormed done
  unfolding fold_commit
  done-WellFormed = record {
    row_known = λ s v.
        let (r, a, _, e) = row_origin s v in
        subst (λ (z : HistoryRow). Known done z.commit z.seq) e (moved-Known r a);
    row_unique = λ r s v w c d.
        let (x, a, hx, e) = row_origin r v in
        let (y, b, hy, f) = row_origin s w in
        sym e
        ∙ moved_unique x y a b hx hy (commit_of _ _ e ∙ c ∙ sym (commit_of _ _ f)) (
            sym (restamp-coord from into j x)
            ∙ ap (λ (z : HistoryRow). z.coord) e
            ∙ d
            ∙ sym (ap (λ (z : HistoryRow). z.coord) f)
            ∙ restamp-coord from into j y)
        ∙ f;
    upward = link_up;
    seq_below = λ x n h. wf.seq_below x n (Known-before x n h);
    seq_unique = λ a b n h k. wf.seq_unique a b n (Known-before a n h) (Known-before b n k);
  }

-- Retiring a commit leaves well-formed tables well-formed, merges or not.
pub retire_commit-WellFormed :
    (t : Tables) (from into : CommitId) (after : Tables) (out : FoldOutcome)
    → WellFormed t
    → retire_commit t from into ≡ ok (after, out)
    → WellFormed after
retire_commit-WellFormed t from into after out wf h =
    let (i, j, fo, e) = retire_commit-Foldable t from into after out h in
    subst WellFormed e (done-WellFormed t wf from into i j fo)
