-- ===== src/Sqlite/Latest.antt =====
-- The latest row of a list, as the queries choose it.
use sekai.Base.{
  ℕ, ◌≤◌, ◌≡◌, refl, ap, inl, inr, Bool, true, false, Option, none, some, List, [], ◌∷◌, leb,
  contains, ◌&&◌, ◌==◌, arith, Bool-cases,
}
use mathlib.Core.Option
use mathlib.Core.Option.{some-injective}
use mathlib.Core.Path.{subst}
use sekai.Base.Member.{In, In-filter, In-of_filter}
use sekai.Util.Coord.{ChunkCoord, coord_ord}
use sekai.Util.Hash.{ChunkHash, CommitId, commit_id_ord}
use sekai.Util.Commit.{ChunkHistoryEntry}
use sekai.Sqlite.{HistoryRow, Tables, ancestors}
use sekai.Sqlite.Reads.{
  newer, latest, is_visible, visible, decode_history, lookup_chunk, effective_row,
}

-- what the effective row says of its coordinate
abbrev pub blob_of : Option HistoryRow → Option (Option ChunkHash)
blob_of = Option.map (λ (row : HistoryRow). row.blob)

-- a row that no other outlives
abbrev pub Newest : List HistoryRow → HistoryRow → Type 0
Newest rows r = In r rows × ((s : HistoryRow) → In s rows → s.seq ≤ r.seq)

pub latest-none : (rows : List HistoryRow) → latest rows ≡ none → (s : HistoryRow) → In s rows → ⊥
unfolding latest
latest-none [] e s i = i
latest-none (x ∷ xs) e s i = ground (arith, e)

pub latest-some :
    (rows : List HistoryRow) (s : HistoryRow)
    → In s rows
    → (r : HistoryRow) × (latest rows ≡ some r)
unfolding latest
latest-some [] s i = absurd i
latest-some (x ∷ xs) s i = (newer x (latest xs), refl)

leb-le : (a b : ℕ) → leb a b ≡ true → a ≤ b
leb-le a b h = ground (arith, h)

ge-of_leb : (a b : ℕ) → leb a b ≡ false → b ≤ a
ge-of_leb a b h = ground (arith, h)

newer_here : (x r : HistoryRow) → leb r.seq x.seq ≡ true → x ≡ newer x (some r)
newer_here x r h = rw (h) refl

newer_there : (x r : HistoryRow) → leb r.seq x.seq ≡ false → r ≡ newer x (some r)
newer_there x r h = rw (h) refl

over_all :
    (x : HistoryRow) (xs : List HistoryRow)
    → ((s : HistoryRow) → In s xs → s.seq ≤ x.seq)
    → Newest (x ∷ xs) x
over_all x xs most = (inl refl, bound)
  where
    bound : (s : HistoryRow) → In s (x ∷ xs) → s.seq ≤ x.seq
    bound s (inl k) = omega (arith, ap (λ (z : HistoryRow). z.seq) k)
    bound s (inr i) = most s i

under_one :
    (x : HistoryRow) (xs : List HistoryRow) (r : HistoryRow)
    → Newest xs r
    → x.seq ≤ r.seq
    → Newest (x ∷ xs) r
under_one x xs r (i, most) le = (inr i, bound)
  where
    bound : (s : HistoryRow) → In s (x ∷ xs) → s.seq ≤ r.seq
    bound s (inl k) = omega (arith, le, ap (λ (z : HistoryRow). z.seq) k)
    bound s (inr j) = most s j

newer-Newest :
    (x : HistoryRow) (xs : List HistoryRow) (o : Option HistoryRow)
    → latest xs ≡ o
    → ((r : HistoryRow) → o ≡ some r → Newest xs r)
    → Newest (x ∷ xs) (newer x o)
newer-Newest x xs none e h = over_all x xs (λ s i. absurd (latest-none xs e s i))
newer-Newest x xs (some r) e h =
    let (i, most) = h r refl in
    elim (Bool-cases (leb r.seq x.seq)) [
      | inl t ↦
          subst (Newest (x ∷ xs)) (newer_here x r t)
            (over_all x xs (λ s j. omega (arith, most s j, leb-le r.seq x.seq t)))
      | inr f ↦
          subst (Newest (x ∷ xs)) (newer_there x r f)
            (under_one x xs r (i, most) (omega (arith, ge-of_leb r.seq x.seq f)))
    ]

pub latest-Newest : (rows : List HistoryRow) (r : HistoryRow) → latest rows ≡ some r → Newest rows r
unfolding latest
latest-Newest [] r e = absurd (ground (arith, e))
latest-Newest (x ∷ xs) r e =
    subst (Newest (x ∷ xs)) (some-injective (newer x (latest xs)) r e)
      (newer-Newest x xs (latest xs) refl (latest-Newest xs))

-- A list that has a row outlived by none, and of that age only rows that say the same, gives what this row says.
pub blob_of-latest :
    (rows : List HistoryRow) (r : HistoryRow)
    → Newest rows r
    → ((s : HistoryRow) → In s rows → s.seq ≡ r.seq → s.blob ≡ r.blob)
    → blob_of (latest rows) ≡ some r.blob
blob_of-latest rows r (i, most) same =
    let (s, e) = latest-some rows r i in
    let (j, top) = latest-Newest rows s e in
    let eq : s.seq ≡ r.seq = omega (arith, most s j, top r i) in rw (e) (ap some (same s j eq))

-- The rows that the queries choose from.
pub In-of_visible :
    (t : Tables) (k : CommitId) (coord : ChunkCoord) (r : HistoryRow)
    → In r (visible t k coord)
    → In r t.history
      × ((r.coord == coord) ≡ true)
      × (contains (ancestors t.edges k) r.commit ≡ true)
unfolding visible
In-of_visible t k coord r i =
    let (j, h) = In-of_filter (is_visible (ancestors t.edges k) coord) t.history r i in
    let (c, a) = and_parts _ _ h in (j, c, a)
  where
    and_parts : (a b : Bool) → (a && b) ≡ true → (a ≡ true) × (b ≡ true)
    and_parts a b h = ground (arith, h)

pub In-visible :
    (t : Tables) (k : CommitId) (coord : ChunkCoord) (r : HistoryRow)
    → In r t.history
    → (r.coord == coord) ≡ true
    → contains (ancestors t.edges k) r.commit ≡ true
    → In r (visible t k coord)
unfolding visible
In-visible t k coord r i c a =
    In-filter (is_visible (ancestors t.edges k) coord) t.history r i (and_both _ _ c a)
  where
    and_both : (a b : Bool) → a ≡ true → b ≡ true → (a && b) ≡ true
    and_both a b h k = ground (arith, h, k)

-- what a commit inherits for a chunk
abbrev pub inherited : Tables → CommitId → ChunkCoord → Option (Option ChunkHash)
inherited t k coord =
    Option.map (λ (entry : ChunkHistoryEntry). entry.blob) (lookup_chunk t k coord)

pub inherited-effective :
    (t : Tables) (k : CommitId) (coord : ChunkCoord)
    → inherited t k coord ≡ blob_of (effective_row t k coord)
unfolding lookup_chunk
inherited-effective t k coord = go (effective_row t k coord)
  where
    go :
        (o : Option HistoryRow)
        → Option.map (λ (entry : ChunkHistoryEntry). entry.blob) (Option.map decode_history o)
          ≡ blob_of o
    go none = refl
    go (some r) = refl
