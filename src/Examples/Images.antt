-- ===== src/Examples/Images.antt =====
-- Region files: a builder of the region (-1, 2) with two staged chunks.
use mathlib.Core.Option
use sekai.Base.{
  ℕ, ◌+◌, ◌*◌, ◌%◌, ◌≤◌, ◌<◌, ◌≡◌, refl, ◌⊎◌, ◌↔◌, Bool, none, some, List, [], ◌∷◌, ◌++◌, length,
  arith, if◌then◌else◌, nat_beq,
}
use sekai.Base.Int.{ℤ, pos, negsuc, div_euclid}
use sekai.Base.Outcome.{ok, err, ◌>>=◌}
use sekai.Base.Bytes.{write, to_be_bytes}
use sekai.Util.Coord.{region}
use sekai.Util.Scope.{clamp_region}
use sekai.Anvil.Error.{coordinate_overflow, wrong_region, chunk_too_large}
use sekai.Anvil.Region.{
  RegionLoc, base, loc_new, slot_of, coord_at, sectors_for, sector_len, table_entries,
  max_sectors_per_chunk,
}
use sekai.Anvil.Region.Slots.{loc_at, loc_new_exact, slot_of_exact, sectors_for_exact}
use sekai.Anvil.Reader.{
  Chunk, RegionImage, from_bytes_with_kind, chunk_at, at_slot, chunk_payload, visit_chunks,
}
use sekai.Anvil.Reader.Lookup.{payload_found, chunk_payload_agrees}
use sekai.Anvil.Reader.Walk.{walk, visit_chunks-eq-walk}
use sekai.Anvil.Writer.{
  StagedChunk, RegionBuilder, image, blank_header, entry_word, stage_chunk, remove_chunk,
}
use sekai.Anvil.Writer.Staging.{
  IsStaged, staged_at, Accepts, stage_chunk_correct, stage_chunk-Accepts, remove_chunk_correct,
}
use sekai.Anvil.RoundTrip.{image_roundtrip}

abbrev rx : ℤ
rx = negsuc 0

abbrev rz : ℤ
rz = pos 2

abbrev here : RegionLoc
here = loc_at rx rz

abbrev two_staged : List StagedChunk
two_staged = record { slot = 0; payload = 2 ∷ 7 ∷ [] } ∷ record { slot = 33; payload = 1 ∷ [] } ∷ []

abbrev two_chunks : RegionBuilder
two_chunks = record { loc = here; timestamp = 5; staged = two_staged }

abbrev three_staged : List StagedChunk
three_staged =
    record { slot = 0; payload = 2 ∷ 7 ∷ [] }
    ∷ record { slot = 32; payload = 9 ∷ [] }
    ∷ record { slot = 33; payload = 1 ∷ [] }
    ∷ []

abbrev three_chunks : RegionBuilder
three_chunks = record { loc = here; timestamp = 5; staged = three_staged }

loc_new-here : loc_new rx rz ≡ ok here
unfolding loc_new base
loc_new-here = refl

two_staged-IsStaged : IsStaged two_staged
two_staged-IsStaged = record { ordered = omega arith; fits = omega arith }

stage_chunk_here : stage_chunk two_chunks (negsuc 31) (pos 65) (9 ∷ []) ≡ ok three_chunks
unfolding stage_chunk slot_of sectors_for
stage_chunk_here = refl

image_roundtrip_example :
    (bytes : List ℕ) × (read : RegionImage) × (image two_chunks ≡ ok bytes)
    × (length bytes % sector_len ≡ 0)
    × (from_bytes_with_kind bytes rx rz region ≡ ok read)
    × ((j : ℕ)
        → j < table_entries
        → chunk_at read j ≡ ok (Option.map (at_slot read j) (staged_at two_staged j)))
image_roundtrip_example = image_roundtrip rx rz region two_chunks loc_new-here two_staged-IsStaged

stage_chunk_correct_example :
    IsStaged three_staged
    × (three_chunks.loc ≡ two_chunks.loc)
    × (three_chunks.timestamp ≡ two_chunks.timestamp)
    × ((s : ℕ) × (slot_of here (negsuc 31) (pos 65) ≡ ok s)
        × ((j : ℕ)
            → staged_at three_staged j
              ≡ (if nat_beq s j then some (9 ∷ []) else staged_at two_staged j)))
stage_chunk_correct_example =
    stage_chunk_correct rx rz two_chunks three_chunks (negsuc 31) (pos 65) (9 ∷ []) refl
      two_staged-IsStaged stage_chunk_here

stage_chunk-Accepts_example :
    ((b : RegionBuilder) × (stage_chunk two_chunks (negsuc 31) (pos 65) (9 ∷ []) ≡ ok b))
    ↔ Accepts rx rz (negsuc 31) (pos 65) (9 ∷ [])
stage_chunk-Accepts_example =
    stage_chunk-Accepts rx rz two_chunks (negsuc 31) (pos 65) (9 ∷ []) refl

remove_chunk_correct_example :
    (b : RegionBuilder) × (s : ℕ) × (remove_chunk two_chunks (negsuc 30) (pos 65) ≡ ok b)
    × (slot_of here (negsuc 30) (pos 65) ≡ ok s)
    × IsStaged b.staged
    × (b.loc ≡ here)
    × (b.timestamp ≡ 5)
    × ((j : ℕ) → staged_at b.staged j ≡ (if nat_beq s j then none else staged_at two_staged j))
remove_chunk_correct_example =
    remove_chunk_correct rx rz two_chunks (negsuc 30) (pos 65) refl two_staged-IsStaged refl refl

loc_new_exact_example :
    ((clamp_region rx ≡ rx) × (clamp_region rz ≡ rz) × (loc_new rx rz ≡ ok here))
    ⊎ ((¬ ((clamp_region rx ≡ rx) × (clamp_region rz ≡ rz)))
        × (loc_new rx rz ≡ err (coordinate_overflow rx rz)))
loc_new_exact_example = loc_new_exact rx rz

slot_of_exact_example :
    ((div_euclid (negsuc 30) 32 ≡ rx)
      × (div_euclid (pos 65) 32 ≡ rz)
      × ((s : ℕ) × (slot_of here (negsuc 30) (pos 65) ≡ ok s)
          × (s < table_entries)
          × (coord_at here s ≡ (negsuc 30, pos 65))))
    ⊎ ((¬ ((div_euclid (negsuc 30) 32 ≡ rx) × (div_euclid (pos 65) 32 ≡ rz)))
        × (slot_of here (negsuc 30) (pos 65) ≡ err (wrong_region rx rz (negsuc 30) (pos 65))))
slot_of_exact_example = slot_of_exact rx rz (negsuc 30) (pos 65)

sectors_for_exact_example :
    ((s : ℕ) × (sectors_for 4093 ≡ ok s)
      × (1 ≤ s)
      × (s ≤ max_sectors_per_chunk)
      × (4093 + 4 ≤ s * sector_len)
      × (s * sector_len < 4093 + 4 + sector_len))
    ⊎ ((sectors_for 4093 ≡ err (chunk_too_large 4093))
        × (max_sectors_per_chunk * sector_len < 4093 + 4))
sectors_for_exact_example = sectors_for_exact 4093

-- an image that holds one chunk, of slot 0, with a payload of three bytes
abbrev one_chunk : RegionImage
one_chunk = record {
  loc = here;
  kind = region;
  bytes =
      write blank_header 0 (to_be_bytes (entry_word 2 1)) ++ (to_be_bytes 3 ++ (2 ∷ 7 ∷ 7 ∷ []));
}

chunk_payload_agrees_example :
    ((div_euclid (negsuc 31) 32 ≡ rx)
      × (div_euclid (pos 64) 32 ≡ rz)
      × ((s : ℕ) × (slot_of here (negsuc 31) (pos 64) ≡ ok s)
          × (s < table_entries)
          × (chunk_payload one_chunk (negsuc 31) (pos 64)
              ≡ (chunk_at one_chunk s >>= λ found. ok (payload_found found)))))
    ⊎ ((¬ ((div_euclid (negsuc 31) 32 ≡ rx) × (div_euclid (pos 64) 32 ≡ rz)))
        × (chunk_payload one_chunk (negsuc 31) (pos 64) ≡ ok none))
chunk_payload_agrees_example =
    chunk_payload_agrees rx rz (negsuc 31) (pos 64) one_chunk loc_new-here

-- a visitor that counts the chunks and stops at the second
abbrev count_two : ℕ → Chunk → ℕ × Bool
count_two n c = (n + 1, nat_beq n 0)

visit_chunks-eq-walk_example :
    visit_chunks one_chunk count_two 0 ≡ some (walk one_chunk count_two table_entries 0 0)
visit_chunks-eq-walk_example = visit_chunks-eq-walk one_chunk count_two 0
