-- ===== src/Anvil/Writer/Staging.antt =====
-- The staged chunks of a builder are a map from slots to payloads, kept in slot order.
use mathlib.Core.Path.{subst}
use sekai.Base.{
  ℕ, suc, ◌+◌, ◌*◌, ◌≤◌, ◌<◌, ◌≡◌, refl, Option, none, some, List, [], ◌∷◌, length, arith,
  if◌then◌else◌, ltb, nat_beq, All, ◌↔◌, inl, inr,
}
use sekai.Base.Int.{ℤ, div_euclid}
use sekai.Base.Outcome.{ok, >>=-eq-ok}
use sekai.Anvil.Region.{slot_of, sectors_for, sector_len, table_entries, max_sectors_per_chunk}
use sekai.Anvil.Region.Slots.{loc_at, slot_of_exact, sectors_for_exact}
use sekai.Anvil.Writer.{
  StagedChunk, RegionBuilder, place_chunk, drop_chunk, stage_chunk, remove_chunk,
}

-- Slots strictly increase, from k on.
abbrev pub Above : ℕ → List StagedChunk → Type 0
Above k [] = Unit
Above k (c ∷ cs) = (k ≤ c.slot) × Above (suc c.slot) cs

-- A staged chunk has a slot of the table, and a payload that is not empty and not too large.
abbrev pub Fits : StagedChunk → Type 0
Fits c =
    (c.slot < table_entries)
    × (0 < length c.payload)
    × (length c.payload + 4 ≤ max_sectors_per_chunk * sector_len)

pub record IsStaged (cs : List StagedChunk) : Type 0 where
  pub ordered : Above 0 cs
  pub fits : All Fits cs

-- the payload staged for a slot
unfoldable pub staged_at : List StagedChunk → ℕ → Option (List ℕ)
staged_at [] slot = none
staged_at (c ∷ cs) slot = if nat_beq c.slot slot then some c.payload else staged_at cs slot

place_chunk-cons :
    (c : StagedChunk) (cs : List StagedChunk) (slot : ℕ) (payload : List ℕ)
    → place_chunk (c ∷ cs) slot payload ≡ (
        if nat_beq c.slot slot
        then record c { payload = payload } ∷ cs
        else if ltb slot c.slot
        then record { slot = slot; payload = payload } ∷ c ∷ cs
        else c ∷ place_chunk cs slot payload)
unfolding place_chunk
place_chunk-cons c cs slot payload = ground arith

drop_chunk-cons :
    (c : StagedChunk) (cs : List StagedChunk) (slot : ℕ)
    → drop_chunk (c ∷ cs) slot ≡ (
        if nat_beq c.slot slot
        then cs
        else if ltb slot c.slot
        then c ∷ cs
        else c ∷ drop_chunk cs slot)
unfolding drop_chunk
drop_chunk-cons c cs slot = ground arith

staged_at-place :
    (cs : List StagedChunk) (slot j : ℕ) (payload : List ℕ)
    → staged_at (place_chunk cs slot payload) j
      ≡ (if nat_beq slot j then some payload else staged_at cs j)
unfolding staged_at
staged_at-place [] slot j payload = unfold place_chunk in refl
staged_at-place (c ∷ cs) slot j payload =
    rw place_chunk-cons (ground (arith, staged_at-place cs slot j payload))

pub staged_at-Above :
    (k : ℕ) (cs : List StagedChunk) (j : ℕ) → Above k cs → j < k → staged_at cs j ≡ none
unfolding staged_at
staged_at-Above k [] j a h = refl
staged_at-Above k (c ∷ cs) j a h = ground (arith, staged_at-Above (suc c.slot) cs j)

staged_at-drop :
    (k : ℕ) (cs : List StagedChunk) (slot j : ℕ)
    → Above k cs
    → staged_at (drop_chunk cs slot) j ≡ (if nat_beq slot j then none else staged_at cs j)
unfolding staged_at
staged_at-drop k [] slot j a = unfold drop_chunk in ground arith
staged_at-drop k (c ∷ cs) slot j a = rw drop_chunk-cons (
    ground
      (arith, staged_at-drop (suc c.slot) cs slot j a.1, staged_at-Above (suc c.slot) cs j a.1))

Above-place :
    (k : ℕ) (cs : List StagedChunk) (slot : ℕ) (payload : List ℕ)
    → Above k cs
    → k ≤ slot
    → Above k (place_chunk cs slot payload)
Above-place k [] slot payload a h = unfold place_chunk in omega arith
Above-place k (c ∷ cs) slot payload a h =
    rw place_chunk-cons (ground (arith, Above-place (suc c.slot) cs slot payload a.1))

Above-weaken : (k l : ℕ) (cs : List StagedChunk) → l ≤ k → Above k cs → Above l cs
Above-weaken k l [] h a = a
Above-weaken k l (c ∷ cs) h a = (omega arith, a.1)

Above-drop : (k : ℕ) (cs : List StagedChunk) (slot : ℕ) → Above k cs → Above k (drop_chunk cs slot)
Above-drop k [] slot a = unfold drop_chunk in a
Above-drop k (c ∷ cs) slot a =
    rw drop_chunk-cons
      (ground (arith, Above-drop (suc c.slot) cs slot a.1, Above-weaken (suc c.slot) k cs))

All-place :
    (cs : List StagedChunk) (slot : ℕ) (payload : List ℕ)
    → All Fits cs
    → Fits (record { slot = slot; payload = payload })
    → All Fits (place_chunk cs slot payload)
All-place [] slot payload a h = unfold place_chunk in (h, tt)
All-place (c ∷ cs) slot payload a h =
    rw place_chunk-cons (ground (arith, All-place cs slot payload a.1 h))

All-drop : (cs : List StagedChunk) (slot : ℕ) → All Fits cs → All Fits (drop_chunk cs slot)
All-drop [] slot a = unfold drop_chunk in a
All-drop (c ∷ cs) slot a = rw drop_chunk-cons (ground (arith, All-drop cs slot a.1))

abbrev pub Accepts : ℤ → ℤ → ℤ → ℤ → List ℕ → Type 0
Accepts rx rz x z payload =
    (0 < length payload)
    × (length payload + 4 ≤ max_sectors_per_chunk * sector_len)
    × (div_euclid x 32 ≡ rx)
    × (div_euclid z 32 ≡ rz)

slot_of-lt : (rx rz x z : ℤ) (s : ℕ) → slot_of (loc_at rx rz) x z ≡ ok s → s < table_entries
slot_of-lt rx rz x z s h = elim (slot_of_exact rx rz x z) [
  | inl (_, _, (t, e, lt, _)) ↦ ground arith
  | inr (_, e) ↦ cc
]

sectors_for-le : (n s : ℕ) → sectors_for n ≡ ok s → n + 4 ≤ max_sectors_per_chunk * sector_len
sectors_for-le n s h = elim (sectors_for_exact n) [
  | inl (t, e, _, le, fit, _) ↦ omega arith
  | inr (e, _) ↦ absurd (cc (h, e))
]

slot_of_inside :
    (rx rz x z : ℤ) (s : ℕ)
    → slot_of (loc_at rx rz) x z ≡ ok s
    → (div_euclid x 32 ≡ rx) × (div_euclid z 32 ≡ rz)
slot_of_inside rx rz x z s h = elim (slot_of_exact rx rz x z) [
  | inl (ex, ez, _) ↦ (ex, ez)
  | inr (_, e) ↦ absurd (cc (h, e))
]

pub slot_of_inside_ok :
    (rx rz x z : ℤ)
    → div_euclid x 32 ≡ rx
    → div_euclid z 32 ≡ rz
    → (s : ℕ) × (slot_of (loc_at rx rz) x z ≡ ok s) × (s < table_entries)
slot_of_inside_ok rx rz x z ex ez = elim (slot_of_exact rx rz x z) [
  | inl (_, _, (s, e, lt, _)) ↦ (s, e, lt)
  | inr (out, _) ↦ absurd (out (ex, ez))
]

accept :
    (rx rz : ℤ) (b : RegionBuilder) (x z : ℤ) (payload : List ℕ)
    → b.loc ≡ loc_at rx rz
    → Accepts rx rz x z payload
    → (b' : RegionBuilder) × (stage_chunk b x z payload ≡ ok b')
unfolding stage_chunk
accept rx rz b x z [] loc (full, _, _, _) = absurd (omega arith)
accept rx rz b x z (p ∷ ps) loc (full, fit, ex, ez) =
    let (s, at, lt) = slot_of_inside_ok rx rz x z ex ez in
    elim (sectors_for_exact (length (p ∷ ps))) [
      | inl (n, e, _, _, _, _) ↦
          (record b { staged = place_chunk b.staged s (p ∷ ps) }, rw (e, loc, at))
      | inr (_, big) ↦ absurd (omega arith)
    ]

stage_chunk-eq-ok :
    (b b' : RegionBuilder) (x z : ℤ) (payload : List ℕ)
    → stage_chunk b x z payload ≡ ok b'
    → (s : ℕ) × (n : ℕ) × (slot_of b.loc x z ≡ ok s)
      × (sectors_for (length payload) ≡ ok n)
      × (0 < length payload)
      × (b' ≡ record b { staged = place_chunk b.staged s payload })
unfolding stage_chunk
stage_chunk-eq-ok b b' x z [] h = cc
stage_chunk-eq-ok b b' x z (p ∷ ps) h =
    let (n, size, h1) = >>=-eq-ok (sectors_for (length (p ∷ ps))) _ h in
    let (s, at, h2) = >>=-eq-ok (slot_of b.loc x z) _ h1 in (s, n, at, size, omega arith, cc h2)

-- Staging a chunk on a builder of a region keeps the staged chunks in slot order and within the
-- limits of the format, keeps the location and the timestamp, makes the payload the one that is
-- staged for the chunk's slot and leaves every other slot as it was.
pub stage_chunk_correct :
    (rx rz : ℤ) (b b' : RegionBuilder) (x z : ℤ) (payload : List ℕ)
    → b.loc ≡ loc_at rx rz
    → IsStaged b.staged
    → stage_chunk b x z payload ≡ ok b'
    → IsStaged b'.staged
      × (b'.loc ≡ b.loc)
      × (b'.timestamp ≡ b.timestamp)
      × ((s : ℕ) × (slot_of b.loc x z ≡ ok s)
          × ((j : ℕ)
              → staged_at b'.staged j
                ≡ (if nat_beq s j then some payload else staged_at b.staged j)))
stage_chunk_correct rx rz b b' x z payload loc valid h =
    let (s, n, at, size, full, e) = stage_chunk-eq-ok b b' x z payload h in
    let here = subst (λ l. slot_of l x z ≡ ok s) loc at in
    let fits =
      All-place b.staged s payload valid.fits
        (slot_of-lt rx rz x z s here, full, sectors_for-le (length payload) n size) in
    rw e (
      record {
        ordered = Above-place 0 b.staged s payload valid.ordered (omega arith);
        fits = fits;
      },
      refl,
      refl,
      (s, at, λ j. staged_at-place b.staged s j payload),
    )

-- A builder of a region accepts a chunk exactly when its payload is not empty and fits 255 sectors
-- with its length prefix, and the chunk belongs to the region.
pub stage_chunk-Accepts :
    (rx rz : ℤ) (b : RegionBuilder) (x z : ℤ) (payload : List ℕ)
    → b.loc ≡ loc_at rx rz
    → ((b' : RegionBuilder) × (stage_chunk b x z payload ≡ ok b')) ↔ Accepts rx rz x z payload
stage_chunk-Accepts rx rz b x z payload loc = (
  λ (b', h).
      let (s, n, at, size, full, e) = stage_chunk-eq-ok b b' x z payload h in
      let (ex, ez) = slot_of_inside rx rz x z s (subst (λ l. slot_of l x z ≡ ok s) loc at) in
      (full, sectors_for-le (length payload) n size, ex, ez),
  accept rx rz b x z payload loc,
)

-- Removing a chunk on a builder of a region succeeds for the chunks of the region, keeps the staged
-- chunks in slot order and within the limits of the format, empties the chunk's slot and leaves
-- every other slot as it was.
pub remove_chunk_correct :
    (rx rz : ℤ) (b : RegionBuilder) (x z : ℤ)
    → b.loc ≡ loc_at rx rz
    → IsStaged b.staged
    → div_euclid x 32 ≡ rx
    → div_euclid z 32 ≡ rz
    → (b' : RegionBuilder) × (s : ℕ) × (remove_chunk b x z ≡ ok b')
      × (slot_of b.loc x z ≡ ok s)
      × IsStaged b'.staged
      × (b'.loc ≡ b.loc)
      × (b'.timestamp ≡ b.timestamp)
      × ((j : ℕ) → staged_at b'.staged j ≡ (if nat_beq s j then none else staged_at b.staged j))
remove_chunk_correct rx rz b x z loc valid ex ez =
    let (s, at, lt) = slot_of_inside_ok rx rz x z ex ez in
    (
      record b { staged = drop_chunk b.staged s },
      s,
      unfold remove_chunk in rw (loc, at),
      rw loc at,
      record {
        ordered = Above-drop 0 b.staged s valid.ordered;
        fits = All-drop b.staged s valid.fits;
      },
      refl,
      refl,
      λ j. staged_at-drop 0 b.staged s j valid.ordered,
    )
