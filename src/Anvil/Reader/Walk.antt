-- ===== src/Anvil/Reader/Walk.antt =====
-- The iterator over the chunks of an image, and the visitor that drives it.
use sekai.Base.{
  ℕ, zero, suc, ◌+◌, ◌-◌, ◌≤◌, ◌≡◌, refl, inl, inr, Bool, true, false, none, some, arith,
  Bool-cases,
}
use sekai.Base.Outcome.{Result, ok, err, Result-cases}
use sekai.Anvil.Error.{AnvilError}
use sekai.Anvil.Region.{table_entries}
use sekai.Anvil.Reader.Lookup.{empty-payload_at}
use sekai.Anvil.Reader.{
  Chunk, RegionImage, start, is_empty, chunk_at, next_chunk, next, visit_item, visit_loop,
  visit_chunks,
}

module _ {ℓ} {S : Type ℓ} (image : RegionImage) (visit : S → Chunk → S × Bool) where
  -- The slots from `index` on, in the order of the table: absent slots are passed over, a corrupt
  -- one ends the walk with its error, and so does the visitor with its state when it says stop.
  unfoldable pub walk : ℕ → ℕ → S → Result S AnvilError
  walk zero index s = ok s
  walk (suc left) index s = elim (chunk_at image index) [
    | err e ↦ err e
    | ok found ↦ elim found [
      | none ↦ walk left (index + 1) s
      | some chunk ↦ elim (visit s chunk).1 [
        | true ↦ walk left (index + 1) (visit s chunk).0
        | false ↦ ok (visit s chunk).0
      ]
    ]
  ]

  next-left :
      (left index : ℕ)
      → left + index ≡ table_entries
      → is_empty image.bytes ≡ false
      → next image (record { next_index = index; done = false }) ≡ next_chunk image left index
  unfolding next
  next-left left index h full = let e : table_entries - index ≡ left = omega arith in rw (full, e)

  visit_item-walk :
      (left fuel index : ℕ) (s : S)
      → left ≤ fuel
      → left + index ≡ table_entries
      → is_empty image.bytes ≡ false
      → visit_item image visit (visit_loop image visit fuel) (next_chunk image left index) s
        ≡ some (walk left index s)
  unfolding walk next_chunk visit_item visit_loop
  visit_item-walk zero fuel index s enough h full = refl
  visit_item-walk (suc left) zero index s enough h full = absurd (omega arith)
  visit_item-walk (suc left) (suc fuel) index s enough h full =
      elim (Result-cases (chunk_at image index)) [
        | inr (x, e) ↦ rw (e, next_chunk, walk)
        | inl (none, e) ↦
            rw (e, next_chunk, walk)
              (visit_item-walk left (suc fuel) (index + 1) s (omega arith) (omega arith) full)
        | inl (some chunk, e) ↦ elim (Bool-cases (visit s chunk).1) [
          | inl go ↦
              rw
                (
                  e,
                  next_chunk,
                  walk,
                  go,
                  visit_item,
                  visit_loop,
                  next-left left (index + 1) (omega arith) full,
                )
                (visit_item-walk left fuel (index + 1) (visit s chunk).0 (omega arith) (omega arith)
                  full)
          | inr stop ↦ rw (e, next_chunk, walk, visit_item, stop)
        ]
      ]

  walk-empty : (left index : ℕ) (s : S) → is_empty image.bytes ≡ true → walk left index s ≡ ok s
  unfolding walk chunk_at
  walk-empty zero index s h = refl
  walk-empty (suc left) index s h =
      rw (walk, empty-payload_at image.bytes index h) (walk-empty left (index + 1) s h)

  next-empty : is_empty image.bytes ≡ true → next image start ≡ (none, record start { done = true })
  unfolding next
  next-empty h = rw h

  visit_loop-walk :
      (left fuel : ℕ) (s : S)
      → left ≤ fuel
      → left + 0 ≡ table_entries
      → visit_loop image visit (suc fuel) start s ≡ some (walk left 0 s)
  unfolding visit_loop
  visit_loop-walk left fuel s enough h = elim (Bool-cases (is_empty image.bytes)) [
    | inl empty ↦ rw (visit_loop, next-empty empty, visit_item, walk-empty left 0 s empty)
    | inr full ↦
        rw (visit_loop, next-left left 0 h full) (visit_item-walk left fuel 0 s enough h full)
  ]

  -- Visiting the chunks of an image ends, and is the walk over all slots of the location table in
  -- table order: absent slots are passed over, the first corrupt entry ends it with its error, and
  -- a visitor that says stop ends it with the visitor's state.
  pub visit_chunks-eq-walk : (s : S) → visit_chunks image visit s ≡ some (walk table_entries 0 s)
  unfolding visit_chunks
  visit_chunks-eq-walk s = visit_loop-walk table_entries table_entries s (omega arith) refl
