-- ===== src/Anvil/Reader/Lookup.antt =====
-- The lookup of one chunk agrees with the walk over the location table.
use mathlib.Core.Option
use mathlib.Core.Path.{subst}
use sekai.Base.{
  ℕ, ◌<◌, ◌≡◌, sym, ◌⊎◌, inl, inr, true, false, Option, none, List, [], ◌∷◌, arith, Bool-cases,
}
use sekai.Base.Int.{ℤ, div_euclid}
use sekai.Base.Outcome.{ok, err, ◌>>=◌}
use sekai.Anvil.Error.{AnvilError, wrong_region}
use sekai.Anvil.Region.{loc_new, slot_of, table_entries}
use sekai.Anvil.Region.Slots.{slot_of_exact, loc_new-eq-ok}
use sekai.Anvil.Reader.{
  Chunk, RegionImage, is_empty, payload_at, chunk_at, payload_of_slot, chunk_payload,
}

same_slot :
    (b : ℕ) (bytes : List ℕ) (index : ℕ)
    → payload_of_slot (b ∷ bytes) index ≡ payload_at (b ∷ bytes) index
unfolding payload_of_slot payload_at
same_slot b bytes index = ground arith

pub empty-payload_at :
    (bytes : List ℕ) (j : ℕ) → is_empty bytes ≡ true → payload_at bytes j ≡ ok none
unfolding payload_at
empty-payload_at bytes j h = rw h

payload_of_slot-eq-payload_at :
    (bytes : List ℕ) (index : ℕ)
    → is_empty bytes ≡ false
    → payload_of_slot bytes index ≡ payload_at bytes index
payload_of_slot-eq-payload_at [] index h = absurd (cc h)
payload_of_slot-eq-payload_at (b ∷ bytes) index h = same_slot b bytes index

-- the payload of a chunk that was found
abbrev pub payload_found : Option Chunk → Option (List ℕ)
payload_found = Option.map (λ (c : Chunk). c.payload)

payload_found-chunk_at :
    (image : RegionImage) (index : ℕ)
    → payload_at image.bytes index ≡ (chunk_at image index >>= λ found. ok (payload_found found))
unfolding chunk_at
payload_found-chunk_at image index = ground arith

chunk_payload-found :
    (image : RegionImage) (x z : ℤ) (s : ℕ)
    → slot_of image.loc x z ≡ ok s
    → chunk_payload image x z ≡ (chunk_at image s >>= λ found. ok (payload_found found))
unfolding chunk_payload
chunk_payload-found image x z s h = elim (Bool-cases (is_empty image.bytes)) [
  | inl empty ↦ rw (empty, ← payload_found-chunk_at image s, empty-payload_at image.bytes s empty)
  | inr full ↦
      rw (full, h, payload_of_slot-eq-payload_at image.bytes s full)
        (payload_found-chunk_at image s)
]

chunk_payload-outside :
    (image : RegionImage) (x z : ℤ) {e : AnvilError}
    → slot_of image.loc x z ≡ err e
    → chunk_payload image x z ≡ ok none
unfolding chunk_payload
chunk_payload-outside image x z h = elim (Bool-cases (is_empty image.bytes)) [
  | inl empty ↦ rw empty
  | inr full ↦ rw (full, h)
]

-- For a chunk of the image's region, the lookup by coordinates returns the payload, the absence or
-- the error that the walk over the location table returns at the slot of the chunk. For any other
-- chunk it returns absence.
pub chunk_payload_agrees :
    (rx rz x z : ℤ) (image : RegionImage)
    → loc_new rx rz ≡ ok image.loc
    → ((div_euclid x 32 ≡ rx)
        × (div_euclid z 32 ≡ rz)
        × ((s : ℕ) × (slot_of image.loc x z ≡ ok s)
            × (s < table_entries)
            × (chunk_payload image x z ≡ (chunk_at image s >>= λ found. ok (payload_found found)))))
      ⊎ ((¬ ((div_euclid x 32 ≡ rx) × (div_euclid z 32 ≡ rz)))
          × (chunk_payload image x z ≡ ok none))
chunk_payload_agrees rx rz x z image h =
    let (_, _, at) = loc_new-eq-ok rx rz h in
    elim (slot_of_exact rx rz x z) [
      | inl (ex, ez, (s, e, lt, _)) ↦
          let here = subst (λ l. slot_of l x z ≡ ok s) (sym at) e in
          inl (ex, ez, (s, here, lt, chunk_payload-found image x z s here))
      | inr (out, e) ↦ inr (
        out,
        chunk_payload-outside image x z
            (subst (λ l. slot_of l x z ≡ err (wrong_region rx rz x z)) (sym at) e),
      )
    ]
