-- ===== src/Sqlite/Writes/State.antt =====
-- What the commits inherit once a new one was recorded.
use sekai.Base.{
  ℕ, ◌≡◌, ◌≢◌, refl, sym, ap, ◌∙◌, inl, inr, true, Option, none, some, List, [], ◌∷◌, ◌++◌, map,
  contains, arith, Bool-cases, ◌==◌,
}
use mathlib.Core.Option.{some-injective}
use mathlib.Core.Path.{subst}
use sekai.Base.Member.{In, In-append_left, In-append_right, In-map}
use sekai.Util.Coord.{ChunkCoord, coord_ord}
use sekai.Util.Hash.{ChunkHash, CommitId, commit_id_ord}
use sekai.Util.Commit.{CommitEntry}
use sekai.Core.Commit.Delta.{row_of}
use sekai.Sqlite.{HistoryRow, Tables, seq_in}
use sekai.Sqlite.Closure.{ancestors_exact}
use sekai.Sqlite.Reads.{visible, latest}
use sekai.Sqlite.Latest.{blob_of, blob_of-latest, In-visible, In-of_visible}
use sekai.Sqlite.Visible.{same_age, latest-same}
use sekai.Sqlite.Writes.Fresh.{own, insert_chunks-rows, Recorded}
use sekai.Sqlite.Writes.Sound.{tables, row_cases, tables-WellFormed}
use sekai.Sqlite.Writes.History.{
  ancestors-other, ancestors-new, ancestors-through, end-Known, unknown,
}
use sekai.Sqlite.WellFormed.{WellFormed}

-- the row of a chunk is that of an entry
pub row_of-In :
    (es : List CommitEntry) (c : ChunkCoord) (b : Option ChunkHash)
    → row_of es c ≡ some b
    → (e : CommitEntry) × In e es × (e.coord ≡ c) × (e.blob ≡ b)
unfolding row_of
row_of-In [] c b h = absurd (ground (arith, h))
row_of-In (e ∷ es) c b h = elim (Bool-cases (e.coord == c)) [
  | inl t ↦
      (e, inl refl, (coord_ord.beq_iff e.coord c).0 t, some-injective _ _ (rw (row_of, t) at h))
  | inr f ↦ let (d, i, at, same) = row_of-In es c b (rw (row_of, f) at h) in (d, inr i, at, same)
]

pub row_of-none :
    (es : List CommitEntry) (c : ChunkCoord)
    → row_of es c ≡ none
    → (e : CommitEntry) → In e es
    → e.coord ≢ c
unfolding row_of
row_of-none [] c h e i = absurd i
row_of-none (d ∷ es) c h e i = elim (Bool-cases (d.coord == c)) [
  | inl t ↦ absurd (ground (arith, rw (row_of, t) at h))
  | inr f ↦ elim i [
    | inl at ↦ λ k.
        ground
          (arith, f, (coord_ord.beq_iff d.coord c).1 (ap (λ (z : CommitEntry). z.coord) at ∙ k))
    | inr j ↦ row_of-none es c (rw (row_of, f) at h) e j
  ]
]

module _ (t : Tables) (wf : WellFormed t) (id : CommitId) (ms : ℕ) (parents : List CommitId)
    (entries : List CommitEntry) (after : Tables) (new : seq_in t.commits id ≡ none)
    (done : Recorded t id ms parents entries after) where
  abbrev pub new_tables : Tables
  new_tables = tables t wf id ms parents entries after new done

  sound : WellFormed new_tables
  sound = tables-WellFormed t wf id ms parents entries after new done

  rows : t.history ++ map (own id t.next_seq) entries ≡ new_tables.history
  rows = insert_chunks-rows t.history id t.next_seq entries done.history done.inserted

  old_row : (r : HistoryRow) → In r t.history → In r new_tables.history
  old_row r i = subst (In r) rows (In-append_left t.history _ r i)

  own_row : (e : CommitEntry) → In e entries → In (own id t.next_seq e) new_tables.history
  own_row e i =
      subst (In (own id t.next_seq e)) rows
        (In-append_right t.history _ _ (In-map (own id t.next_seq) entries e i))

  -- An entry is what the new commit inherits for its chunk.
  pub own_state :
      (e : CommitEntry)
      → In e entries
      → blob_of (latest (visible new_tables id e.coord)) ≡ some e.blob
  own_state e i =
      let r = own id t.next_seq e in
      let v =
        In-visible new_tables id e.coord r (own_row e i)
          ((coord_ord.beq_iff e.coord e.coord).1 refl)
          ((ancestors_exact new_tables.edges id id).1 (inl refl)) in
      blob_of-latest (visible new_tables id e.coord) r
        (
          v,
          λ s w.
              let (a, _, _) = In-of_visible new_tables id e.coord s w in
              omega (arith, sound.seq_below s.commit s.seq (sound.row_known s a)),
        )
        (λ s w h. same_age new_tables sound id e.coord r s v w h)

  -- the rows of other commits
  old_commit : (r : HistoryRow) → In r t.history → r.commit ≢ id
  old_commit r i =
      unknown t wf id ms parents entries after new done r.commit r.seq (wf.row_known r i)

  -- Another commit inherits what it inherited.
  pub other_state :
      (k : CommitId)
      → k ≢ id
      → (c : ChunkCoord)
      → blob_of (latest (visible new_tables k c)) ≡ blob_of (latest (visible t k c))
  other_state k hk c =
      let anc =
        λ (a : CommitId). ancestors-other t wf id ms parents entries after new done k a hk in
      latest-same (visible new_tables k c) (visible t k c)
        (λ r i.
          let (a, d, m) = In-of_visible new_tables k c r i in
          elim (row_cases t wf id ms parents entries after new done r a) [
            | inl old ↦ In-visible t k c r old d (sym (anc r.commit) ∙ m)
            | inr (e, _, at) ↦
                absurd (elim ((ancestors_exact t.edges k r.commit).0 (sym (anc r.commit) ∙ m)) [
                  | inl same ↦ hk (sym same ∙ sym (ap (λ (z : HistoryRow). z.commit) at))
                  | inr up ↦
                      end-Known t wf id ms parents entries after new done k r.commit up
                        (sym (ap (λ (z : HistoryRow). z.commit) at))
                ])
          ])
        (λ r i.
          let (a, d, m) = In-of_visible t k c r i in
          In-visible new_tables k c r (old_row r a) d (anc r.commit ∙ m))
        (same_age t wf k c)

  no_own :
      (c : ChunkCoord)
      → row_of entries c ≡ none
      → (r : HistoryRow) → In r (visible new_tables id c)
      → In r t.history
  no_own c none_here r i =
      let (a, d, m) = In-of_visible new_tables id c r i in
      elim (row_cases t wf id ms parents entries after new done r a) [
        | inl old ↦ old
        | inr (e, j, at) ↦ absurd (
            row_of-none entries c none_here e j
              (ap (λ (z : HistoryRow). z.coord) at ∙ (coord_ord.beq_iff r.coord c).0 d))
      ]

  -- the history of a former row's commit, at the new commit
  pub from_parent :
      (c : ChunkCoord)
      → row_of entries c ≡ none
      → (r : HistoryRow) → In r (visible new_tables id c)
      → (p : CommitId) × (contains parents p ≡ true) × In r (visible t p c)
  from_parent c none_here r i =
      let (a, d, m) = In-of_visible new_tables id c r i in
      let old = no_own c none_here r i in
      elim (ancestors-new t wf id ms parents entries after new done r.commit m) [
        | inl e ↦ absurd (old_commit r old e)
        | inr (p, at, way) ↦ (p, at, In-visible t p c r old d way)
      ]

  pub to_new :
      (c : ChunkCoord) (p : CommitId)
      → contains parents p ≡ true
      → (r : HistoryRow) → In r (visible t p c)
      → In r (visible new_tables id c)
  to_new c p at r i =
      let (a, d, m) = In-of_visible t p c r i in
      In-visible new_tables id c r (old_row r a) d
        (ancestors-through t wf id ms parents entries after new done p r.commit at m)
