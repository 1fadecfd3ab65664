-- ===== src/App/Checkout/Staged.antt =====
-- crates/app/src/checkout.rs: what the builder of a region holds once the rows are staged.
use mathlib.Core.Path.{subst}
use sekai.Base.{
  ℕ, ◌+◌, ◌<◌, ◌≡◌, refl, sym, ap, ◌∙◌, Option, some, List, [], ◌∷◌, if◌then◌else◌, nat_beq,
  nat_beq_iff, same_truth, All, ◌==◌, inl, inr,
}
use sekai.Base.Int.{ℤ, int_ord}
use sekai.Base.Outcome.{Result, ok}
use sekai.Base.Set
use sekai.Util.Coord.{ChunkCoord}
use sekai.Util.Hash.{ChunkHash}
use sekai.Anvil.Region.{slot_of, coord_at, table_entries}
use sekai.Anvil.Region.Slots.{loc_at, slot_of_exact, slot_of-coord_at}
use sekai.Anvil.Writer.Staging.{
  IsStaged, Accepts, staged_at, stage_chunk_correct, stage_chunk-Accepts,
}
use sekai.Sqlite.{StorageError}
use sekai.App.Checkout.{
  MissingBlobPolicy, Column, column_ord, column_beq_iff, Staging, fetch_or_skip, stage_rows,
}

module _ (payload : ChunkHash → List ℕ) (column : Column) where
  -- the payload of the last row of a column, or what was there before
  pub row_at : List (ChunkCoord × ChunkHash) → Option (List ℕ) → Option (List ℕ)
  row_at [] old = old
  row_at ((coord, hash) ∷ rows) old =
      row_at rows (if (coord.x, coord.z) == column then some (payload hash) else old)

-- the blob of a row is stored, and it fits into the region
abbrev pub IsStored :
    (ChunkHash → Result (List ℕ) StorageError)
    → (ChunkHash → List ℕ)
    → ℤ
    → ℤ
    → ChunkCoord × ChunkHash
    → Type 0
IsStored fetch payload rx rz (coord, hash) =
    (fetch hash ≡ ok (payload hash)) × Accepts rx rz coord.x coord.z (payload hash)

slot-coord_at :
    (rx rz x z : ℤ) (s : ℕ) → slot_of (loc_at rx rz) x z ≡ ok s → coord_at (loc_at rx rz) s ≡ (x, z)
slot-coord_at rx rz x z s at = elim (slot_of_exact rx rz x z) [
  | inl (_, _, (t, e, _, back)) ↦ subst (λ k. coord_at (loc_at rx rz) k ≡ (x, z)) (cc (e, at)) back
  | inr (_, e) ↦ absurd (cc (e, at))
]

-- a slot is that of a chunk exactly when it is the slot of its column
slot-column :
    (rx rz x z : ℤ) (s j : ℕ)
    → slot_of (loc_at rx rz) x z ≡ ok s
    → j < table_entries
    → nat_beq s j ≡ ((x, z) == coord_at (loc_at rx rz) j)
slot-column rx rz x z s j at lt =
    let same : (x, z) ≡ coord_at (loc_at rx rz) j → s ≡ j = λ e. cc (
      at,
      subst (λ (c : ℤ × ℤ). slot_of (loc_at rx rz) c.0 c.1 ≡ ok j) (sym e)
          (slot_of-coord_at rx rz j lt),
    ) in
    same_truth (nat_beq s j) ((x, z) == coord_at (loc_at rx rz) j)
      (λ h.
        (column_beq_iff (x, z) (coord_at (loc_at rx rz) j)).1 (
          sym (slot-coord_at rx rz x z s at)
          ∙ ap (coord_at (loc_at rx rz)) ((nat_beq_iff s j).0 h)))
      (λ h. (nat_beq_iff s j).1 (same ((column_beq_iff (x, z) (coord_at (loc_at rx rz) j)).0 h)))

module _ {E : Type 0} (fetch : ChunkHash → Result (List ℕ) StorageError)
    (payload : ChunkHash → List ℕ) (rx rz : ℤ) (policy : MissingBlobPolicy) where
  -- Rows whose blobs are stored and fit are all staged, and each slot then holds the payload of
  -- the last row at its column.
  pub stage_rows-staged :
      (rows : List (ChunkCoord × ChunkHash)) (st : Staging)
      → All (IsStored fetch payload rx rz) rows
      → st.writer.loc ≡ loc_at rx rz
      → IsStaged st.writer.staged
      → (st' : Staging) × (stage_rows {E = E} fetch policy rows st ≡ ok st')
        × (st'.writer.loc ≡ loc_at rx rz)
        × IsStaged st'.writer.staged
        × ((j : ℕ)
            → j < table_entries
            → staged_at st'.writer.staged j
              ≡ row_at payload (coord_at (loc_at rx rz) j) rows (staged_at st.writer.staged j))
  unfolding stage_rows row_at
  stage_rows-staged [] st stored loc valid = (st, refl, loc, valid, λ j lt. refl)
  stage_rows-staged ((coord, hash) ∷ rows) st ((fetched, fits), stored) loc valid =
      let (writer, done) =
        (stage_chunk-Accepts rx rz st.writer coord.x coord.z (payload hash) loc).1 fits in
      let (valid', loc', _, (s, at, slots)) =
        stage_chunk_correct rx rz st.writer writer coord.x coord.z (payload hash) loc valid done in
      let next : Staging = record {
        writer = writer;
        restored = Set.insert (coord.x, coord.z) st.restored;
        chunks_restored = st.chunks_restored + 1;
      } in
      let (st', run, loc'', valid'', held) =
        stage_rows-staged rows next stored (loc' ∙ loc) valid' in
      (
        st',
        rw (fetched, fetch_or_skip, done) run,
        loc'',
        valid'',
        λ j lt.
            held j lt
            ∙ ap (row_at payload (coord_at (loc_at rx rz) j) rows) (
                slots j
                ∙ ap (λ b. if b then some (payload hash) else staged_at st.writer.staged j)
                    (slot-column rx rz coord.x coord.z s j
                      (subst (λ l. slot_of l coord.x coord.z ≡ ok s) loc at) lt)),
      )
