-- ===== src/Sqlite/Store/Visits.antt =====
-- The rows that a visit of a commit gives are what the commit inherits.
use sekai.Base.{
  ◌≡◌, refl, sym, ap, ◌∙◌, inl, inr, Bool, true, false, ◌||◌, Option, none, some, List, [], ◌∷◌,
  contains, arith, Option-cases, if◌then◌else◌, ◌==◌,
}
use mathlib.Core.Option
use mathlib.Core.Option.{some-injective}
use sekai.Base.Member.{In, In-contains, In-filter, In-map}
use sekai.Base.Map
use sekai.Base.Map.{get-insert}
use sekai.Base.Set.{contains-from}
use sekai.Util.Coord.{ChunkCoord, coord_ord}
use sekai.Util.Hash.{ChunkHash, CommitId, commit_id_ord}
use sekai.Util.Commit.{ChunkHistoryEntry}
use sekai.Core.Commit.{State, is_some, present_rows}
use sekai.Core.Commit.Delta.{base_blob}
use sekai.Sqlite.{HistoryRow, Tables, ancestors}
use sekai.Sqlite.Reads.{
  decode_history, visible, latest, effective_row, lookup_chunk, known_coords, rows_at,
  visit_commit_chunks,
}
use sekai.Sqlite.Latest.{latest-Newest, In-of_visible, inherited}

-- a chunk that is present, and not a tombstone
abbrev pub present : Option (Option ChunkHash) → Option ChunkHash
present none = none
present (some blob) = blob

-- `Option::or`
abbrev or_else : Option ChunkHash → Option ChunkHash → Option ChunkHash
or_else none b = b
or_else (some a) b = some a

-- two rows of one chunk in a visit, which are equal, count once
collapse :
    (m : Bool) (p b : Option ChunkHash)
    → (if m then or_else p (or_else p b) else or_else p b) ≡ or_else p b
collapse true none b = refl
collapse true (some a) b = refl
collapse false p b = refl

-- one row of the visit
base_blob-step :
    (entry : ChunkHistoryEntry) (state : State) (c : ChunkCoord)
    → base_blob (if is_some entry.blob then Map.insert entry.coord entry state else state) c
      ≡ (if entry.coord == c then or_else entry.blob (base_blob state c) else base_blob state c)
base_blob-step entry state c = go entry.blob refl
  where
    blob_at : Option ChunkHistoryEntry → Option ChunkHash
    blob_at o = elim o [ none ↦ none | some base ↦ base.blob ]

    same : (b : Bool) → base_blob state c ≡ (if b then base_blob state c else base_blob state c)
    same true = refl
    same false = refl

    placed :
        (b : Bool) (h : ChunkHash)
        → some h ≡ entry.blob
        → blob_at (if b then some entry else Map.get state c)
          ≡ (if b then some h else base_blob state c)
    placed true h e = sym e
    placed false h e = refl

    go :
        (o : Option ChunkHash)
        → o ≡ entry.blob
        → base_blob (if is_some o then Map.insert entry.coord entry state else state) c
          ≡ (if entry.coord == c then or_else o (base_blob state c) else base_blob state c)
    go none e = same (entry.coord == c)
    go (some h) e =
        ap blob_at (get-insert entry.coord c entry state) ∙ placed (entry.coord == c) h e

module _ (t : Tables) (k : CommitId) where
  -- the row of an entry
  row_of_entry :
      (coord : ChunkCoord) (entry : ChunkHistoryEntry)
      → lookup_chunk t k coord ≡ some entry
      → (r : HistoryRow) × In r (visible t k coord) × (r.coord ≡ entry.coord)
  unfolding lookup_chunk effective_row
  row_of_entry coord entry h = go (latest (visible t k coord)) refl h
    where
      go :
          (o : Option HistoryRow)
          → latest (visible t k coord) ≡ o
          → Option.map decode_history o ≡ some entry
          → (r : HistoryRow) × In r (visible t k coord) × (r.coord ≡ entry.coord)
      go none e h = absurd (ground (arith, h))
      go (some r) e h = (
        r,
        (latest-Newest (visible t k coord) r e).0,
        ap (λ (z : ChunkHistoryEntry). z.coord) (some-injective _ _ h),
      )

  -- the entry of a chunk is of that chunk
  lookup_chunk-coord :
      (coord : ChunkCoord) (entry : ChunkHistoryEntry)
      → lookup_chunk t k coord ≡ some entry
      → entry.coord ≡ coord
  lookup_chunk-coord coord entry h =
      let (r, i, e) = row_of_entry coord entry h in
      let (_, c, _) = In-of_visible t k coord r i in sym e ∙ (coord_ord.beq_iff r.coord coord).0 c

  known :
      (coord : ChunkCoord) (entry : ChunkHistoryEntry)
      → lookup_chunk t k coord ≡ some entry
      → contains (known_coords t k) coord ≡ true
  unfolding known_coords
  known coord entry h =
      let (r, i, _) = row_of_entry coord entry h in
      let (a, c, m) = In-of_visible t k coord r i in
      let j =
        In-map (λ (row : HistoryRow). row.coord) _ r
          (In-filter (λ (row : HistoryRow). contains (ancestors t.edges k) row.commit) t.history r a
            m) in
      contains-from coord _
      ∙ ap (contains _) (sym ((coord_ord.beq_iff r.coord coord).0 c))
      ∙ In-contains _ r.coord j

  rows_at-none :
      (coord : ChunkCoord) (coords : List ChunkCoord)
      → lookup_chunk t k coord ≡ none
      → rows_at t k (coord ∷ coords) ≡ rows_at t k coords
  unfolding rows_at
  rows_at-none coord coords e = rw (rows_at, e) refl

  rows_at-some :
      (coord : ChunkCoord) (coords : List ChunkCoord) (entry : ChunkHistoryEntry)
      → lookup_chunk t k coord ≡ some entry
      → rows_at t k (coord ∷ coords) ≡ entry ∷ rows_at t k coords
  unfolding rows_at
  rows_at-some coord coords entry e = rw (rows_at, e) refl

  abbrev told : ChunkCoord → Option ChunkHash
  told c = present (inherited t k c)

  told-some :
      (coord : ChunkCoord) (entry : ChunkHistoryEntry)
      → lookup_chunk t k coord ≡ some entry
      → told coord ≡ entry.blob
  told-some coord entry e = ap (λ o. present (Option.map (λ (z : ChunkHistoryEntry). z.blob) o)) e

  told-none : (coord : ChunkCoord) → lookup_chunk t k coord ≡ none → told coord ≡ none
  told-none coord e = ap (λ o. present (Option.map (λ (z : ChunkHistoryEntry). z.blob) o)) e

  -- how the visit of a list of chunks reads
  abbrev Reads : List ChunkCoord → State → ChunkCoord → Type 0
  Reads coords state c =
      base_blob (present_rows (rows_at t k coords) state) c
      ≡ (if contains coords c then or_else (told c) (base_blob state c) else base_blob state c)

  if_same : (m : Bool) {b : Option ChunkHash} → (if m then b else b) ≡ b
  if_same true = refl
  if_same false = refl

  skip_one :
      (m e : Bool) (p b : Option ChunkHash)
      → (e ≡ true → p ≡ none)
      → (if m then or_else p b else b) ≡ (if e || m then or_else p b else b)
  skip_one m true p b h = rw (h refl) (if_same m)
  skip_one m false p b h = refl

  take_one :
      (m e : Bool) (p q b : Option ChunkHash)
      → (e ≡ true → p ≡ q)
      → (if m then or_else p (if e then or_else q b else b) else if e then or_else q b else b)
        ≡ (if e || m then or_else p b else b)
  take_one m true p q b h = rw (sym (h refl)) (collapse m p b)
  take_one m false p q b h = refl

  present_rows-rows_at :
      (coords : List ChunkCoord) (state : State) (c : ChunkCoord) → Reads coords state c
  unfolding present_rows contains rows_at
  present_rows-rows_at [] state c = refl
  present_rows-rows_at (coord ∷ coords) state c = elim (Option-cases (lookup_chunk t k coord)) [
    | inl e ↦
        ap (λ rows. base_blob (present_rows rows state) c) (rows_at-none coord coords e)
        ∙ present_rows-rows_at coords state c
        ∙ skip_one (contains coords c) (coord == c) (told c) (base_blob state c)
            (λ h. ap told (sym ((coord_ord.beq_iff coord c).0 h)) ∙ told-none coord e)
    | inr (entry, e) ↦
        let at = lookup_chunk-coord coord entry e in
        ap (λ rows. base_blob (present_rows rows state) c) (rows_at-some coord coords entry e)
        ∙ present_rows-rows_at coords
            (if is_some entry.blob then Map.insert entry.coord entry state else state) c
        ∙ ap (λ b. if contains coords c then or_else (told c) b else b)
            (base_blob-step entry state c
              ∙ ap
                  (λ z.
                    if z == c then or_else entry.blob (base_blob state c) else base_blob state c)
                  at)
        ∙ take_one (contains coords c) (coord == c) (told c) entry.blob (base_blob state c)
            (λ h. ap told (sym ((coord_ord.beq_iff coord c).0 h)) ∙ told-some coord entry e)
  ]

  -- The state that a commit is planned on has, for a chunk, what the base inherits.
  pub base_blob-visit :
      (c : ChunkCoord)
      → base_blob (present_rows (visit_commit_chunks t k) []) c ≡ present (inherited t k c)
  unfolding visit_commit_chunks Map.get
  base_blob-visit c =
      present_rows-rows_at (known_coords t k) [] c ∙ elim (Option-cases (lookup_chunk t k c)) [
        | inl e ↦ rw (told-none c e) (if_same (contains (known_coords t k) c))
        | inr (entry, e) ↦ rw (known c entry e) (no_other (told c))
      ]
    where
      no_other : (p : Option ChunkHash) → or_else p none ≡ p
      no_other none = refl
      no_other (some a) = refl
