-- ===== src/Sqlite/Retire/Effective.antt =====
-- The effective state of a commit once another commit was folded into a later one.
use sekai.Base.{
  both, ℕ, ◌<◌, ◌≡◌, ◌≢◌, sym, ap, ◌∙◌, inl, inr, Bool, true, false, not, ◌&&◌, contains, leb,
  arith, Bool-cases, ◌==◌,
}
use mathlib.Core.Path.{subst}
use sekai.Base.Outcome.{ok, ok_or, >>=-eq-ok, refuse-eq-ok, ok_or-eq-ok, ok-injective}
use sekai.Base.Member.{In}
use sekai.Util.Coord.{ChunkCoord, coord_ord}
use sekai.Util.Hash.{CommitId, commit_id_ord, commit_id_beq_iff}
use sekai.Sqlite.{
  HistoryRow, Tables, unknown_commit, invalid_retirement, unrelated_retirement, seq_in, ancestors,
}
use sekai.Sqlite.Reads.{visible}
use sekai.Sqlite.Retire.{is_superseded, restamp, fold_commit, retire_commit}
use sekai.Util.Commit.{FoldOutcome}
use sekai.Sqlite.Retire.Descent.{ancestors-spliced, differ, same_not}
use sekai.Sqlite.Retire.Rows.{
  restamp-coord, restamp-other, restamp-from, In-of_fold_rows, In-fold_rows,
}
use sekai.Sqlite.Latest.{In-visible, In-of_visible}
use sekai.Sqlite.WellFormed.{WellFormed, Known, Continues, ancestors_trans}

lt-of_leb : (a b : ℕ) → leb a b ≡ false → b < a
lt-of_leb a b h = ground (arith, h)

true-of_not : (b : Bool) → not b ≡ false → b ≡ true
true-of_not b h = ground (arith, h)

left_true : (a b : Bool) → (a && not b) ≡ true → a ≡ true
left_true a b h = ground (arith, h)

-- the checks of `retire_commit` have passed
pub record Foldable (t : Tables) (from into : CommitId) (from_seq into_seq : ℕ) : Type 0 where
  pub from_known : Known t from from_seq
  pub into_known : Known t into into_seq
  pub later : from_seq < into_seq
  pub continues : Continues t into from

pub retire_commit-Foldable :
    (t : Tables) (from into : CommitId) (after : Tables) (out : FoldOutcome)
    → retire_commit t from into ≡ ok (after, out)
    → (i j : ℕ) × Foldable t from into i j × (fold_commit t from i into j ≡ after)
unfolding retire_commit
retire_commit-Foldable t from into after out h =
    let (i, e, h1) = >>=-eq-ok (ok_or (seq_in t.commits from) (unknown_commit from)) _ h in
    let (j, f, h2) = >>=-eq-ok (ok_or (seq_in t.commits into) (unknown_commit into)) _ h1 in
    let (g, h3) = refuse-eq-ok (leb j i) (invalid_retirement from into) _ h2 in
    let (d, h4) =
      refuse-eq-ok (not (contains (ancestors t.edges into) from)) (unrelated_retirement from into) _
        h3 in
    (
      i,
      j,
      record {
        from_known = ok_or-eq-ok _ (unknown_commit from) e;
        into_known = ok_or-eq-ok _ (unknown_commit into) f;
        later = lt-of_leb j i g;
        continues = true-of_not _ d;
      },
      ap (λ (o : Tables × FoldOutcome). o.0) (ok-injective h4),
    )

module _ (t : Tables) (wf : WellFormed t) (from into : CommitId) (i j : ℕ)
    (fo : Foldable t from into i j) where
  abbrev pub done : Tables
  done = fold_commit t from i into j

  abbrev pub is_dropped : HistoryRow → Bool
  is_dropped = is_superseded t.history (ancestors t.edges into) from i

  abbrev pub moved : HistoryRow → HistoryRow
  moved = restamp from into j

  pub into-ne-from : into ≢ from
  into-ne-from e = ground (arith, ap (seq_in t.commits) e, fo.into_known, fo.from_known, fo.later)

  same_coord : (r s : HistoryRow) → moved r ≡ s → r.coord ≡ s.coord
  same_coord r s e = sym (restamp-coord from into j r) ∙ ap (λ (z : HistoryRow). z.coord) e

  module _ (k : CommitId) (hk : k ≢ from) (coord : ChunkCoord) where
    anc_after :
        (a : CommitId)
        → contains (ancestors done.edges k) a
          ≡ (contains (ancestors t.edges k) a && not (a == from))
    unfolding fold_commit
    anc_after a = ancestors-spliced t.edges from k a hk

    anc_before : (a : CommitId) → contains (ancestors done.edges k) a ≡ true → Continues t k a
    anc_before a h = left_true _ (a == from) (sym (anc_after a) ∙ h)

    seen_before :
        (r s : HistoryRow)
        → moved r ≡ s
        → contains (ancestors done.edges k) s.commit ≡ true
        → Continues t k r.commit
    seen_before r s e m = elim (Bool-cases (r.commit == from)) [
      | inl own ↦
          let at_into : s.commit ≡ into =
            sym (ap (λ (z : HistoryRow). z.commit) (sym (restamp-from from into j r own) ∙ e)) in
          let up : Continues t k into = subst (Continues t k) at_into (anc_before s.commit m) in
          subst (Continues t k) (sym ((commit_id_beq_iff r.commit from).0 own))
            (ancestors_trans t.edges k into from up fo.continues)
      | inr other ↦
          subst (Continues t k)
            (sym (ap (λ (z : HistoryRow). z.commit) (sym (restamp-other from into j r other) ∙ e)))
            (anc_before s.commit m)
    ]

    pub row_before :
        (s : HistoryRow)
        → In s (visible done k coord)
        → (r : HistoryRow) × In r (visible t k coord) × (is_dropped r ≡ false) × (moved r ≡ s)
    unfolding fold_commit
    row_before s v =
        let (a, c, m) = In-of_visible done k coord s v in
        let (r, b, d, e) = In-of_fold_rows t.history (ancestors t.edges into) from i into j s a in
        (
          r,
          In-visible t k coord r b (ap (λ z. z == coord) (same_coord r s e) ∙ c)
              (seen_before r s e m),
          d,
          e,
        )

    module _ (meets : Continues t k from → Continues t k into) where
      anc_kept :
          (a : CommitId) → a ≢ from → Continues t k a → contains (ancestors done.edges k) a ≡ true
      anc_kept a ha h = anc_after a ∙ both _ _ h (differ a from ha)

      seen_after :
          (r : HistoryRow)
          → Continues t k r.commit
          → contains (ancestors done.edges k) (moved r).commit ≡ true
      seen_after r m = elim (Bool-cases (r.commit == from)) [
        | inl own ↦
            let up = meets (subst (Continues t k) ((commit_id_beq_iff r.commit from).0 own) m) in
            ap (λ (z : HistoryRow). contains (ancestors done.edges k) z.commit)
              (restamp-from from into j r own)
            ∙ anc_kept into into-ne-from up
        | inr other ↦
            ap (λ (z : HistoryRow). contains (ancestors done.edges k) z.commit)
              (restamp-other from into j r other)
            ∙ anc_kept r.commit (same_not r.commit from other) m
      ]

      pub kept_row :
          (r : HistoryRow)
          → In r (visible t k coord)
          → is_dropped r ≡ false
          → In (moved r) (visible done k coord)
      unfolding fold_commit
      kept_row r v d =
          let (a, c, m) = In-of_visible t k coord r v in
          In-visible done k coord (moved r)
            (In-fold_rows t.history (ancestors t.edges into) from i into j r a d)
            (ap (λ z. z == coord) (restamp-coord from into j r) ∙ c) (seen_after r m)
