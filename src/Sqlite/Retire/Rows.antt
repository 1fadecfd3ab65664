-- ===== src/Sqlite/Retire/Rows.antt =====
-- The rows of the history once a commit was folded into a later one.
use sekai.Base.{
  ℕ, ◌≤◌, ◌<◌, ◌≡◌, refl, ap, inl, inr, Bool, true, false, not, ◌&&◌, List, contains, ltb, arith,
  Bool-cases, ◌==◌,
}
use sekai.Base.Member.{In, In-filter, In-of_filter, In-map, In-of_map, In-any, any-false}
use sekai.Util.Coord.{coord_ord}
use sekai.Util.Hash.{CommitId, commit_id_ord}
use sekai.Sqlite.{HistoryRow}
use sekai.Sqlite.Retire.{is_superseded, restamp, fold_rows}

module _ (from into : CommitId) (into_seq : ℕ) where
  pub restamp-other :
      (r : HistoryRow) → (r.commit == from) ≡ false → restamp from into into_seq r ≡ r
  restamp-other r h = rw (h) refl

  pub restamp-from :
      (r : HistoryRow)
      → (r.commit == from) ≡ true
      → restamp from into into_seq r ≡ record r { commit = into; seq = into_seq }
  restamp-from r h = rw (h) refl

  pub restamp-coord : (r : HistoryRow) → (restamp from into into_seq r).coord ≡ r.coord
  restamp-coord r = elim (Bool-cases (r.commit == from)) [
    | inl h ↦ rw (h) refl
    | inr h ↦ rw (h) refl
  ]

  pub restamp-blob : (r : HistoryRow) → (restamp from into into_seq r).blob ≡ r.blob
  restamp-blob r = elim (Bool-cases (r.commit == from)) [
    | inl h ↦ rw (h) refl
    | inr h ↦ rw (h) refl
  ]

module _ (history : List HistoryRow) (ids : List CommitId) (from : CommitId) (from_seq : ℕ) where
  abbrev newer_row : HistoryRow → HistoryRow → Bool
  newer_row row r = r.coord == row.coord && (ltb from_seq r.seq && contains ids r.commit)

  pub superseded-from :
      (r : HistoryRow)
      → is_superseded history ids from from_seq r ≡ true
      → (r.commit == from) ≡ true
  unfolding is_superseded
  superseded-from r h = left_true _ _ h
    where
      left_true : (a b : Bool) → (a && b) ≡ true → a ≡ true
      left_true a b k = ground (arith, k)

  pub superseded-other :
      (r : HistoryRow)
      → (r.commit == from) ≡ false
      → is_superseded history ids from from_seq r ≡ false
  unfolding is_superseded
  superseded-other r h = rw (h) refl

  -- A row that is superseded has a later one of its chunk along the history.
  pub superseded-later :
      (r : HistoryRow)
      → is_superseded history ids from from_seq r ≡ true
      → (s : HistoryRow) × In s history
        × (s.coord == r.coord) ≡ true
        × (from_seq < s.seq)
        × (contains ids s.commit ≡ true)
  unfolding is_superseded
  superseded-later r h =
      let (s, i, k) = In-any (newer_row r) history (right_true _ _ h) in
      let (c, l, m) = parts s.seq _ _ k in (s, i, c, l, m)
    where
      right_true : (a b : Bool) → (a && b) ≡ true → b ≡ true
      right_true a b k = ground (arith, k)

      parts :
          (n : ℕ) (a c : Bool)
          → (a && (ltb from_seq n && c)) ≡ true
          → (a ≡ true) × (from_seq < n) × (c ≡ true)
      parts n a c k = ground (arith, k)

  -- A row that is kept has none.
  pub kept-newest :
      (r s : HistoryRow)
      → is_superseded history ids from from_seq r ≡ false
      → (r.commit == from) ≡ true
      → In s history
      → (s.coord == r.coord) ≡ true
      → contains ids s.commit ≡ true
      → s.seq ≤ from_seq
  unfolding is_superseded
  kept-newest r s h e i c m =
      bound s.seq _ _ (any-false (newer_row r) history s (right_false _ _ h e) i) c m
    where
      right_false : (a b : Bool) → (a && b) ≡ false → a ≡ true → b ≡ false
      right_false a b k e = ground (arith, k, e)

      bound :
          (n : ℕ) (a c : Bool)
          → (a && (ltb from_seq n && c)) ≡ false
          → a ≡ true
          → c ≡ true
          → n ≤ from_seq
      bound n a c k h m = ground (arith, k, h, m)

  module _ (into : CommitId) (into_seq : ℕ) where
    pub In-of_fold_rows :
        (s : HistoryRow)
        → In s (fold_rows history ids from from_seq into into_seq)
        → (r : HistoryRow) × In r history
          × (is_superseded history ids from from_seq r ≡ false)
          × (restamp from into into_seq r ≡ s)
    unfolding fold_rows
    In-of_fold_rows s i =
        let (r, j, e) = In-of_map (restamp from into into_seq) _ s i in
        let (k, h) =
          In-of_filter (λ row. not (is_superseded history ids from from_seq row)) history r j in
        (r, k, ground (arith, h), e)

    pub In-fold_rows :
        (r : HistoryRow)
        → In r history
        → is_superseded history ids from from_seq r ≡ false
        → In (restamp from into into_seq r) (fold_rows history ids from from_seq into into_seq)
    unfolding fold_rows
    In-fold_rows r i h = In-map (restamp from into into_seq) _ r (
        In-filter (λ row. not (is_superseded history ids from from_seq row)) history r i (ap not h))
