-- ===== src/Core/Commit/Delta.antt =====
-- What the rows of `assemble` record: applied over the state of the base commit they give the
-- scanned state inside the scope, and the base state outside it.
use sekai.Base.{
  ◌≡◌, ◌≢◌, refl, sym, ap, ◌∙◌, inl, inr, Bool, true, false, not, ◌&&◌, Option, none, some, List,
  [], ◌∷◌, ◌++◌, map, contains, filter, All, arith, Bool-cases, Option-cases, if◌then◌else◌,
  option_beq_iff, ◌==◌, contains-filter,
}
use sekai.Base.Map
use sekai.Base.Map.{keys, contains-keys}
use sekai.Util.Coord.{ChunkCoord, coord_ord, key_ord, coord_beq_iff}
use sekai.Util.Scope.{Scope, scope_contains}
use sekai.Util.Hash.{ChunkHash, chunk_hash_ord}
use sekai.Util.Commit.{CommitEntry}
use sekai.Core.Commit.{
  State, Previous, Plan, Ingested, is_some, is_fresh, vanished, tombstone, assemble,
}

-- The content of a chunk in the state of the base commit.
abbrev pub base_blob : State → ChunkCoord → Option ChunkHash
base_blob state coord = elim (Map.get state coord) [ none ↦ none | some base ↦ base.blob ]

-- `Option::unwrap_or` and `Option::or`
abbrev pub unwrap_or {ℓ} : {A : Type ℓ} → Option A → A → A
unwrap_or none b = b
unwrap_or (some a) b = a

abbrev or_else {ℓ} : {A : Type ℓ} → Option A → Option A → Option A
or_else none b = b
or_else (some a) b = some a

-- The row of a chunk in a commit, when it has one.
unfoldable pub row_of : List CommitEntry → ChunkCoord → Option (Option ChunkHash)
row_of [] coord = none
row_of (entry ∷ entries) coord =
    if entry.coord == coord then some entry.blob else row_of entries coord

-- The content of a chunk at a commit: its own row, and without one that of the base.
unfoldable pub effective : State → List CommitEntry → ChunkCoord → Option ChunkHash
effective state rows coord = unwrap_or (row_of rows coord) (base_blob state coord)

-- What the ingest pass hands over for a world whose chunks in the scope are `scan`: every row is
-- present and of that world, every chunk of it has a row, and `present` is the set of its chunks.
pub record IsScan (scan : ChunkCoord → Option ChunkHash) (scope : Scope) (ingested : Ingested)
    : Type 0 where
  pub rows : All (λ (e : CommitEntry). (e.blob ≢ none) × (scan e.coord ≡ e.blob)) ingested.entries
  pub complete :
      (c : ChunkCoord) (h : ChunkHash) → scan c ≡ some h → row_of ingested.entries c ≡ some (some h)
  pub present-scan : (c : ChunkCoord) → contains ingested.present c ≡ is_some (scan c)
  pub inside : (c : ChunkCoord) → is_some (scan c) ≡ true → scope_contains scope c ≡ true

row_of-append :
    (xs ys : List CommitEntry) (c : ChunkCoord)
    → row_of (xs ++ ys) c ≡ or_else (row_of xs c) (row_of ys c)
unfolding row_of
row_of-append [] ys c = refl
row_of-append (x ∷ xs) ys c = ground (arith, row_of-append xs ys c)

row_of-tombstones :
    (cs : List ChunkCoord) (c : ChunkCoord)
    → row_of (map tombstone cs) c ≡ (if contains cs c then some none else none)
unfolding row_of contains
row_of-tombstones [] c = refl
row_of-tombstones (x ∷ xs) c = ground (arith, row_of-tombstones xs c)

-- one step of a filter, on the row of a chunk
fresh_step :
    (keep : Bool) (x : CommitEntry) (kept xs : List CommitEntry) (c : ChunkCoord) (at : Bool)
    → row_of kept c ≡ (if at then row_of xs c else none)
    → ((x.coord == c) ≡ true → keep ≡ at)
    → row_of (elim keep [ true ↦ x ∷ kept | false ↦ kept ]) c
      ≡ (if at then row_of (x ∷ xs) c else none)
unfolding row_of
fresh_step keep x kept xs c at h same = ground (arith, h, same)

-- among rows that agree on their chunks, the filter keeps or drops the row of a chunk as a whole
row_of-fresh :
    (state : State) (scan : ChunkCoord → Option ChunkHash) (rows : List CommitEntry)
    (c : ChunkCoord)
    → All (λ (e : CommitEntry). (e.blob ≢ none) × (scan e.coord ≡ e.blob)) rows
    → row_of (filter (is_fresh state) rows) c
      ≡ (if is_fresh state (record { coord = c; blob = scan c }) then row_of rows c else none)
unfolding row_of filter
row_of-fresh state scan [] c h = ground arith
row_of-fresh state scan (x ∷ xs) c ((_, at), rest) =
    let same : (x.coord == c) ≡ true
        → is_fresh state x ≡ is_fresh state (record { coord = c; blob = scan c }) =
      λ e.
        ap (λ b. is_fresh state (record { coord = x.coord; blob = b })) (sym at)
        ∙ ap (λ d. is_fresh state (record { coord = d; blob = scan d }))
            ((coord_beq_iff x.coord c).0 e) in
    fresh_step (is_fresh state x) x (filter (is_fresh state) xs) xs c _
      (row_of-fresh state scan xs c rest) same

row_of-absent :
    (scan : ChunkCoord → Option ChunkHash) (rows : List CommitEntry) (c : ChunkCoord)
    → All (λ (e : CommitEntry). (e.blob ≢ none) × (scan e.coord ≡ e.blob)) rows
    → scan c ≡ none
    → row_of rows c ≡ none
unfolding row_of
row_of-absent scan [] c h e = refl
row_of-absent scan (x ∷ xs) c ((full, at), rest) e = elim (Bool-cases (x.coord == c)) [
  | inl same ↦ absurd (full (sym at ∙ ap scan ((coord_beq_iff x.coord c).0 same) ∙ e))
  | inr other ↦ rw other (row_of-absent scan xs c rest e)
]

pub contains-vanished :
    (scope : Scope) (present : List ChunkCoord) (state : State) (c : ChunkCoord)
    → contains (vanished scope present (keys state)) c
      ≡ (is_some (Map.get state c) && (scope_contains scope c && not (contains present c)))
unfolding vanished
contains-vanished scope present state c =
    rw
      (
        contains-filter (λ d. scope_contains scope d && not (contains present d)) (keys state) c,
        contains-keys state c,
      )
      (ground arith)

-- the content of a chunk from its row, and the row from what was dropped and what vanished
row_of-assemble :
    (plan : Plan) (previous : Previous) (ingested : Ingested) (scope : Scope)
    (scan : ChunkCoord → Option ChunkHash) (c : ChunkCoord)
    → IsScan scan scope ingested
    → row_of (assemble plan previous ingested scope).entries c
      ≡ or_else
          (if is_fresh previous.state (record { coord = c; blob = scan c })
            then row_of ingested.entries c
            else none)
          (if is_some (Map.get previous.state c)
              && (scope_contains scope c && not (is_some (scan c)))
            then some none
            else none)
unfolding assemble
row_of-assemble plan previous ingested scope scan c is =
    let state = previous.state in
    let gone = vanished scope ingested.present (keys state) in
    row_of-append (filter (is_fresh state) ingested.entries) (map tombstone gone) c
    ∙ rw (
      row_of-fresh state scan ingested.entries c is.rows,
      row_of-tombstones gone c,
      contains-vanished scope ingested.present state c,
      is.present-scan c,
    )

kept_row :
    (state : State) (c : ChunkCoord) (h : ChunkHash)
    → (if is_fresh state (record { coord = c; blob = some h }) then some h else base_blob state c)
      ≡ some h
unfolding is_fresh
kept_row state c h = elim (Option-cases (Map.get state c)) [
  | inl e ↦ rw (is_fresh, e)
  | inr (base, e) ↦ rw (is_fresh, e) (ground (arith, option_beq_iff base.blob (some h)))
]

-- The rows that `assemble` records for a scan of the scope, applied over the state of the base
-- commit, give the scanned content to every chunk of the scope and leave every other chunk as it
-- was at the base. This holds whatever the base holds, tombstones included.
pub assemble_restores :
    (plan : Plan) (previous : Previous) (ingested : Ingested) (scope : Scope)
    (scan : ChunkCoord → Option ChunkHash)
    → IsScan scan scope ingested
    → (c : ChunkCoord)
    → effective previous.state (assemble plan previous ingested scope).entries c
      ≡ (if scope_contains scope c then scan c else base_blob previous.state c)
unfolding effective
assemble_restores plan previous ingested scope scan is c =
    let row = row_of-assemble plan previous ingested scope scan c is in
    elim (Option-cases (scan c)) [
      | inl absent ↦
          rw (effective, row, row_of-absent scan ingested.entries c is.rows absent, absent)
            (ground arith)
      | inr (h, found) ↦
          rw (effective, row, is.complete c h found, found, is.inside c (rw found))
            (ground (arith, kept_row previous.state c h))
    ]
