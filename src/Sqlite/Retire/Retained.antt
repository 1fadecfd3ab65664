-- ===== src/Sqlite/Retire/Retained.antt =====
-- Retiring a commit does not change what a retained commit says of a chunk.
use sekai.Base.{
  ℕ, ◌≤◌, ◌<◌, ◌≡◌, ◌≢◌, refl, sym, ap, ◌∙◌, ◌⊎◌, inl, inr, Bool, true, false, some, List, arith,
  Bool-cases, Option-cases, ◌==◌,
}
use mathlib.Core.Path.{subst}
use sekai.Base.Member.{In}
use sekai.Util.Coord.{ChunkCoord, coord_ord}
use sekai.Util.Hash.{CommitId, commit_id_ord, commit_id_beq_iff}
use sekai.Sqlite.{HistoryRow, Tables, ancestors}
use sekai.Sqlite.Reads.{latest, visible}
use sekai.Sqlite.Retire.Descent.{same_not}
use sekai.Sqlite.Retire.Rows.{
  restamp-other, restamp-from, restamp-blob, superseded-from, superseded-later, kept-newest,
}
use sekai.Sqlite.Retire.Effective.{Foldable, done, is_dropped, moved, kept_row, row_before}
use sekai.Sqlite.Latest.{
  blob_of, Newest, latest-Newest, latest-none, blob_of-latest, In-visible, In-of_visible,
}
use sekai.Sqlite.Visible.{coords, same_age}
use sekai.Sqlite.WellFormed.{
  WellFormed, Known, Known-unique, Continues, Continues-le, ancestors_refl, ancestors_trans,
}

module _ (t : Tables) (wf : WellFormed t) (from into : CommitId) (i j : ℕ)
    (fo : Foldable t from into i j) (k : CommitId) (hk : k ≢ from) (coord : ChunkCoord)
    (meets : Continues t k from → Continues t k into)
    (aligned : (s : CommitId)
      → Continues t k into
      → Continues t k s
      → Continues t into s ⊎ Continues t s into) where
  abbrev old : List HistoryRow
  old = visible t k coord

  abbrev new : List HistoryRow
  new = visible (done t wf from into i j fo) k coord

  abbrev dropped : HistoryRow → Bool
  dropped = is_dropped t wf from into i j fo

  abbrev shift : HistoryRow → HistoryRow
  shift = moved t wf from into i j fo

  from-seq : (r : HistoryRow) → In r old → (r.commit == from) ≡ true → r.seq ≡ i
  from-seq r v own =
      let (a, _, _) = In-of_visible t k coord r v in
      Known-unique t from r.seq i
        (subst (λ z. Known t z r.seq) ((commit_id_beq_iff r.commit from).0 own) (wf.row_known r a))
        fo.from_known

  through : (r : HistoryRow) → In r old → (r.commit == from) ≡ true → Continues t k into
  through r v own =
      let (_, _, m) = In-of_visible t k coord r v in
      meets (subst (Continues t k) ((commit_id_beq_iff r.commit from).0 own) m)

  -- The effective row is kept.
  is_dropped-Newest : (r : HistoryRow) → Newest old r → dropped r ≡ false
  is_dropped-Newest r (v, most) = elim (Bool-cases (dropped r)) [
    | inr f ↦ f
    | inl h ↦
        let own = superseded-from t.history (ancestors t.edges into) from i r h in
        let (s, a, c, l, m) = superseded-later t.history (ancestors t.edges into) from i r h in
        let (_, d, _) = In-of_visible t k coord r v in
        let same : s.coord ≡ r.coord = (coord_ord.beq_iff s.coord r.coord).0 c in
        let w =
          In-visible t k coord s a (ap (λ z. z == coord) same ∙ d)
            (ancestors_trans t.edges k into s.commit (through r v own) m) in
        absurd (omega (arith, most s w, l, from-seq r v own))
  ]

  -- A row of the retired commit that is kept goes below an effective row that was above it.
  overtaken :
      (r s : HistoryRow)
      → Newest old r
      → (r.commit == from) ≡ false
      → In s old
      → (s.commit == from) ≡ true
      → dropped s ≡ false
      → j < r.seq
  overtaken r s (v, most) other w own kept =
      let (a, _, m) = In-of_visible t k coord r v in
      let known = wf.row_known r a in
      let below : r.seq ≢ i = λ e.
        same_not r.commit from other
          (wf.seq_unique r.commit from i (subst (λ n. Known t r.commit n) e known) fo.from_known) in
      let (_, d, _) = In-of_visible t k coord s w in
      let outside : Continues t into r.commit → ⊥ = λ up. below (
        omega (
          arith,
          most s w,
          from-seq s w own,
          kept-newest t.history (ancestors t.edges into) from i s r kept own a
              (ap (λ z. z == s.coord) (coords t wf k coord r s v w)
                ∙ (coord_ord.beq_iff s.coord s.coord).1 refl)
              up,
        )) in
      let into_self : r.seq ≢ j = λ e. outside (
        subst (Continues t into)
          (wf.seq_unique into r.commit j fo.into_known (subst (λ n. Known t r.commit n) e known))
          (ancestors_refl t.edges into)) in
      elim (aligned r.commit (through s w own) m) [
        | inl up ↦ absurd (outside up)
        | inr over ↦
            omega
              (arith, into_self, Continues-le t wf r.commit into r.seq j over known fo.into_known)
      ]

  seq_stays : (r : HistoryRow) → (r.commit == from) ≡ false → (shift r).seq ≡ r.seq
  seq_stays r h = ap (λ (z : HistoryRow). z.seq) (restamp-other from into j r h)

  seq_moves : (r : HistoryRow) → (r.commit == from) ≡ true → (shift r).seq ≡ j
  seq_moves r h = ap (λ (z : HistoryRow). z.seq) (restamp-from from into j r h)

  -- A former row, in the place that it has now, is not above the effective one, and of its age says the same.
  retained_row :
      (r s : HistoryRow)
      → Newest old r
      → In s old
      → dropped s ≡ false
      → ((shift s).seq ≤ (shift r).seq) × ((shift s).seq ≡ (shift r).seq → s.blob ≡ r.blob)
  retained_row r s (v, most) w kept = elim (Bool-cases (r.commit == from)) [
    | inl own ↦ elim (Bool-cases (s.commit == from)) [
      | inl both ↦ (
        omega (arith, seq_moves r own, seq_moves s both),
        λ _. same_age t wf k coord r s v w (from-seq s w both ∙ sym (from-seq r v own)),
      )
      | inr other ↦
          let low : s.seq < j = omega (arith, most s w, from-seq r v own, fo.later) in
          (
            omega (arith, seq_moves r own, seq_stays s other, low),
            λ e. absurd (omega (arith, e, seq_moves r own, seq_stays s other, low)),
          )
    ]
    | inr stays ↦ elim (Bool-cases (s.commit == from)) [
      | inl own ↦
          let low = overtaken r s (v, most) stays w own kept in
          (
            omega (arith, seq_stays r stays, seq_moves s own, low),
            λ e. absurd (omega (arith, e, seq_stays r stays, seq_moves s own, low)),
          )
      | inr other ↦ (
        omega (arith, most s w, seq_stays r stays, seq_stays s other),
        λ e. same_age t wf k coord r s v w (sym (seq_stays s other) ∙ e ∙ seq_stays r stays),
      )
    ]
  ]

  blob-eq : (s z : HistoryRow) → shift s ≡ z → z.blob ≡ s.blob
  blob-eq s z e = ap (λ (y : HistoryRow). y.blob) (sym e) ∙ restamp-blob from into j s

  seq-eq : (s z : HistoryRow) → shift s ≡ z → (shift s).seq ≡ z.seq
  seq-eq s z e = ap (λ (y : HistoryRow). y.seq) e

  row_back :
      (z : HistoryRow)
      → In z new
      → (s : HistoryRow) × In s old × (dropped s ≡ false) × (shift s ≡ z)
  row_back = row_before t wf from into i j fo k hk coord

  new-Newest : (r : HistoryRow) → Newest old r → Newest new (shift r)
  new-Newest r (v, most) = (
    kept_row t wf from into i j fo k hk coord meets r v (is_dropped-Newest r (v, most)),
    λ z m.
        let (s, w, kept, e) = row_back z m in
        omega (arith, seq-eq s z e, (retained_row r s (v, most) w kept).0),
  )

  -- what the latest rows say
  pub retained : blob_of (latest new) ≡ blob_of (latest old)
  retained = elim (Option-cases (latest old)) [
    | inl e ↦ elim (Option-cases (latest new)) [
      | inl f ↦ cc
      | inr (z, f) ↦
          let (s, w, _, _) = row_back z (latest-Newest new z f).0 in absurd (latest-none old e s w)
    ]
    | inr (r, e) ↦
        let top = latest-Newest old r e in
        blob_of-latest new (shift r) (new-Newest r top) (λ z m h.
          let (s, w, kept, f) = row_back z m in
          blob-eq s z f
          ∙ (retained_row r s top w kept).1 (seq-eq s z f ∙ h)
          ∙ sym (restamp-blob from into j r))
        ∙ ap some (restamp-blob from into j r)
        ∙ sym (ap blob_of e)
  ]
