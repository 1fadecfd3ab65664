-- ===== src/Core/Checkout/Grouped.antt =====
-- crates/core/src/usecase/checkout.rs: what the plan of a checkout holds for each region.
use sekai.Base.{
  ◌≡◌, refl, ◌∙◌, Option, none, some, List, [], ◌∷◌, ◌++◌, arith, if◌then◌else◌, Ord, ◌==◌,
  Bool-cases, inl, inr, Option-cases,
}
use mathlib.Core.List.{append_assoc, append-nil}
use sekai.Base.Outcome.{ok}
use sekai.Base.Map
use sekai.Util.Coord.{ChunkCoord, RegionKey, region_of, key_ord}
use sekai.Util.Hash.{ChunkHash, CommitId}
use sekai.Util.Commit.{Commit, ChunkHistoryEntry}
use sekai.Core.Port.{MetaStore}
use sekai.Core.Checkout.{
  CheckoutPlan, Groups, Tombstones, or_default, push_at, group_row, group_rows, plan_checkout,
}

-- what a map of lists holds at a key, where an entry is never empty
abbrev pub entry_of {ℓ} : {A : Type ℓ} → List A → Option (List A)
entry_of [] = none
entry_of (x ∷ xs) = some (x ∷ xs)

pub or_default-entry_of {ℓ} : {A : Type ℓ} (xs : List A) → or_default (entry_of xs) ≡ xs
or_default-entry_of [] = refl
or_default-entry_of (x ∷ xs) = refl

entry_of-snoc {ℓ} :
    {A : Type ℓ} (xs : List A) (x : A) → some (xs ++ x ∷ []) ≡ entry_of (xs ++ x ∷ [])
entry_of-snoc [] x = refl
entry_of-snoc (y ∷ ys) x = refl

module _ {K V : Type 0} ⦃o : Ord K⦄ where
  get-push_at :
      (k i : K) (v : V) (m : List (K × List V))
      → Map.get (push_at k v m) i
        ≡ (if k == i then some (or_default (Map.get m i) ++ v ∷ []) else Map.get m i)
  unfolding push_at
  get-push_at k i v m = elim (Bool-cases (k == i)) [
    | inl e ↦ Map.get-insert k i _ m ∙ rw (e, (o.beq_iff k i).0 e)
    | inr e ↦ Map.get-insert k i _ m ∙ rw (e)
  ]

module _ (key : RegionKey) where
  -- the present rows and the tombstones of a region, in the order of the visit
  unfoldable pub present_in : List ChunkHistoryEntry → List (ChunkCoord × ChunkHash)
  present_in [] = []
  present_in (row ∷ rows) =
      let rest = present_in rows in
      elim row.blob [
        | some blob ↦ if region_of row.coord == key then (row.coord, blob) ∷ rest else rest
        | none ↦ rest
      ]

  unfoldable pub tombs_in : List ChunkHistoryEntry → List ChunkCoord
  tombs_in [] = []
  tombs_in (row ∷ rows) =
      let rest = tombs_in rows in
      elim row.blob [
        | some blob ↦ rest
        | none ↦ if region_of row.coord == key then row.coord ∷ rest else rest
      ]

module _ (key : RegionKey) (maps : Groups × Tombstones) (row : ChunkHistoryEntry) where
  group_row-present :
      (xs : List (ChunkCoord × ChunkHash))
      → Map.get maps.0 key ≡ entry_of xs
      → Map.get (group_row row maps).0 key ≡ entry_of (xs ++ present_in key (row ∷ []))
  unfolding group_row present_in
  group_row-present xs h = elim (Option-cases row.blob) [
    | inl gone ↦ rw (gone, append-nil) h
    | inr (blob, present) ↦ elim (Bool-cases (region_of row.coord == key)) [
      | inl here ↦ rw (present, get-push_at, here, h, or_default-entry_of) (entry_of-snoc xs _)
      | inr apart ↦ rw (present, get-push_at, apart, append-nil) h
    ]
  ]

  group_row-tombs :
      (cs : List ChunkCoord)
      → Map.get maps.1 key ≡ entry_of cs
      → Map.get (group_row row maps).1 key ≡ entry_of (cs ++ tombs_in key (row ∷ []))
  unfolding group_row tombs_in
  group_row-tombs cs h = elim (Option-cases row.blob) [
    | inr (blob, present) ↦ rw (present, append-nil) h
    | inl gone ↦ elim (Bool-cases (region_of row.coord == key)) [
      | inl here ↦ rw (gone, get-push_at, here, h, or_default-entry_of) (entry_of-snoc cs _)
      | inr apart ↦ rw (gone, get-push_at, apart, append-nil) h
    ]
  ]

module _ (key : RegionKey) where
  present_in-cons :
      (row : ChunkHistoryEntry) (rows : List ChunkHistoryEntry)
      → present_in key (row ∷ rows) ≡ present_in key (row ∷ []) ++ present_in key rows
  unfolding present_in
  present_in-cons row rows = ground arith

  tombs_in-cons :
      (row : ChunkHistoryEntry) (rows : List ChunkHistoryEntry)
      → tombs_in key (row ∷ rows) ≡ tombs_in key (row ∷ []) ++ tombs_in key rows
  unfolding tombs_in
  tombs_in-cons row rows = ground arith

  group_rows-present :
      (rows : List ChunkHistoryEntry) (maps : Groups × Tombstones)
      (xs : List (ChunkCoord × ChunkHash))
      → Map.get maps.0 key ≡ entry_of xs
      → Map.get (group_rows rows maps).0 key ≡ entry_of (xs ++ present_in key rows)
  unfolding group_rows
  group_rows-present [] maps xs h = unfold present_in in rw append-nil h
  group_rows-present (row ∷ rows) maps xs h =
      rw (present_in-cons row rows, ← append_assoc)
        (group_rows-present rows (group_row row maps) (xs ++ present_in key (row ∷ []))
          (group_row-present key maps row xs h))

  group_rows-tombs :
      (rows : List ChunkHistoryEntry) (maps : Groups × Tombstones) (cs : List ChunkCoord)
      → Map.get maps.1 key ≡ entry_of cs
      → Map.get (group_rows rows maps).1 key ≡ entry_of (cs ++ tombs_in key rows)
  unfolding group_rows
  group_rows-tombs [] maps cs h = unfold tombs_in in rw append-nil h
  group_rows-tombs (row ∷ rows) maps cs h =
      rw (tombs_in-cons row rows, ← append_assoc)
        (group_rows-tombs rows (group_row row maps) (cs ++ tombs_in key (row ∷ []))
          (group_row-tombs key maps row cs h))

module _ {Store M : Type 0} (m : MetaStore Store M) (store : Store) (id : CommitId) where
  -- Of a recorded commit whose rows can be read, the plan exists and has the commit's time. Under
  -- each region it holds the present rows of that region, in the order of the visit, and its
  -- tombstones likewise; a region without any has no entry.
  pub plan_checkout_exact :
      (commit : Commit) (rows : List ChunkHistoryEntry)
      → m.lookup_commit store id ≡ ok (some commit)
      → m.visit_commit_chunks store id ≡ ok rows
      → (plan : CheckoutPlan) × (plan_checkout m store id ≡ ok plan)
        × (plan.created_at_ms ≡ commit.created_at_ms)
        × ((key : RegionKey)
            → (Map.get plan.groups key ≡ entry_of (present_in key rows))
              × (Map.get plan.tombstones key ≡ entry_of (tombs_in key rows)))
  unfolding plan_checkout
  plan_checkout_exact commit rows found read = (
    record {
      created_at_ms = commit.created_at_ms;
      groups = (group_rows rows ([], [])).0;
      tombstones = (group_rows rows ([], [])).1;
    },
    rw (found, read),
    refl,
    λ key. (
      group_rows-present key rows ([], []) [] (unfold Map.get in refl),
      group_rows-tombs key rows ([], []) [] (unfold Map.get in refl),
    ),
  )
