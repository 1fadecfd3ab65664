-- ===== src/Anvil/Writer/Layout.antt =====
-- One round of the loop of `image`, and the whole loop: where the tables and the sectors of the
-- staged chunks lie in the image.
use native.Mathlib.Nat.{add-zero}
use sekai.Base.{
  ℕ, zero, ◌+◌, ◌-◌, ◌*◌, ◌%◌, ◌^◌, ◌≤◌, ◌<◌, ◌≡◌, ◌≢◌, ◌∙◌, ◌⊎◌, inl, inr, List, ◌++◌, length,
  replicate, arith, length-append, length-replicate,
}
use sekai.Base.Outcome.{ok}
use sekai.Base.Bytes.{
  slice, write, to_be_bytes, length-to_be_bytes, length-write, slice-append_left,
  slice-append_right, slice_all, slice_whole, slice-write_self, slice-write_apart, bit_or_byte,
}
use sekai.Anvil.Region.{
  sectors_for, sector_len, header_len, table_entries, max_sector_offset, max_sectors_per_chunk,
}
use sekai.Anvil.Region.Slots.{sectors_for_exact}
use sekai.Anvil.Writer.{StagedChunk, put_chunk, entry_word}
use sekai.Anvil.Writer.Staging.{Fits}

-- The sectors that a payload needs.
pub record IsSize (len n : ℕ) : Type 0 where
  pub size : sectors_for len ≡ ok n
  pub some_sector : 1 ≤ n
  pub few : n ≤ max_sectors_per_chunk
  pub room : len + 4 ≤ n * sector_len

pub Fits-IsSize : (c : StagedChunk) → Fits c → (n : ℕ) × IsSize (length c.payload) n
Fits-IsSize c (_, _, fit) = elim (sectors_for_exact (length c.payload)) [
  | inl (n, e, one, few, room, _) ↦
      (n, record { size = e; some_sector = one; few = few; room = room })
  | inr (_, big) ↦ absurd (omega arith)
]

pub entry_word_lem :
    (o n : ℕ) → o ≤ max_sector_offset → n ≤ max_sectors_per_chunk → entry_word o n ≡ o * 256 + n
entry_word_lem o n ho hn =
    let e : o * 256 % 2 ^ 32 ≡ o * 256 = omega arith in rw e (bit_or_byte o n (omega arith))

module _ (timestamp : ℕ) (image : List ℕ) (o n : ℕ) (c : StagedChunk) where
  pub located : List ℕ
  located = write image (c.slot * 4) (to_be_bytes (entry_word o n))

  pub stamped : List ℕ
  unfolding located
  stamped = write located (sector_len + c.slot * 4) (to_be_bytes timestamp)

  pub stored : List ℕ
  stored =
      (to_be_bytes (length c.payload) ++ c.payload)
      ++ replicate (n * sector_len - (length c.payload + 4)) 0

  pub grown : List ℕ
  grown = stamped ++ stored

  pub put_chunk-ok :
      Fits c
      → IsSize (length c.payload) n
      → o + n ≤ max_sector_offset
      → put_chunk timestamp (image, o) c ≡ ok (grown, o + n)
  unfolding put_chunk grown stamped located stored
  put_chunk-ok fits size room = rw (size.size) (ground arith)

  length-stamped : length stamped ≡ length image
  unfolding stamped located
  length-stamped = length-write _ _ _ ∙ length-write _ _ _

  length-stored : IsSize (length c.payload) n → length stored ≡ n * sector_len
  unfolding stored
  length-stored size =
      let head = length-append (to_be_bytes (length c.payload)) c.payload in
      let all =
        length-append (to_be_bytes (length c.payload) ++ c.payload)
          (replicate (n * sector_len - (length c.payload + 4)) 0) in
      let word = length-to_be_bytes (length c.payload) in
      let pad = length-replicate (n * sector_len - (length c.payload + 4)) (zero) in
      omega (arith, size.room)

  pub length-grown : IsSize (length c.payload) n → length grown ≡ length image + n * sector_len
  unfolding grown
  length-grown size =
      omega (arith, length-append stamped stored, length-stamped, length-stored size)

  -- Below the old end, the grown image is the stamped one.
  slice-grown_low : (a m : ℕ) → a + m ≤ length image → slice grown a m ≡ slice stamped a m
  unfolding grown
  slice-grown_low a m h = slice-append_left stamped stored a m (omega (arith, length-stamped))

  slice-stamped_apart :
      (a m : ℕ)
      → (a + m ≤ sector_len + c.slot * 4) ⊎ (sector_len + c.slot * 4 + 4 ≤ a)
      → slice stamped a m ≡ slice located a m
  unfolding stamped
  slice-stamped_apart a m h =
      slice-write_apart located (sector_len + c.slot * 4) (to_be_bytes timestamp) a m
        (rw (length-to_be_bytes timestamp) h)

  slice-located_apart :
      (a m : ℕ) → (a + m ≤ c.slot * 4) ⊎ (c.slot * 4 + 4 ≤ a) → slice located a m ≡ slice image a m
  unfolding located
  slice-located_apart a m h =
      slice-write_apart image (c.slot * 4) (to_be_bytes (entry_word o n)) a m
        (rw (length-to_be_bytes (entry_word o n)) h)

  slice-located_self :
      c.slot * 4 + 4 ≤ length image → slice located (c.slot * 4) 4 ≡ to_be_bytes (entry_word o n)
  unfolding located
  slice-located_self h =
      let four = length-to_be_bytes (entry_word o n) in
      rw four at (slice-write_self image (c.slot * 4) (to_be_bytes (entry_word o n)) (omega arith))

  pub slice-grown_entry :
      c.slot < table_entries
      → header_len ≤ length image
      → slice grown (c.slot * 4) 4 ≡ to_be_bytes (entry_word o n)
  slice-grown_entry lt h =
      slice-grown_low (c.slot * 4) 4 (omega arith)
      ∙ slice-stamped_apart (c.slot * 4) 4 (inl (omega arith))
      ∙ slice-located_self (omega arith)

  pub slice-grown_other :
      (j : ℕ)
      → j ≢ c.slot
      → j < table_entries
      → header_len ≤ length image
      → slice grown (j * 4) 4 ≡ slice image (j * 4) 4
  slice-grown_other j ne lt h =
      slice-grown_low (j * 4) 4 (omega arith)
      ∙ slice-stamped_apart (j * 4) 4 (inl (omega arith))
      ∙ slice-located_apart (j * 4) 4 (omega arith)

  pub slice-grown_old :
      (a m : ℕ)
      → c.slot < table_entries
      → header_len ≤ a
      → a + m ≤ length image
      → slice grown a m ≡ slice image a m
  slice-grown_old a m lt h fit =
      slice-grown_low a m fit
      ∙ slice-stamped_apart a m (inr (omega arith))
      ∙ slice-located_apart a m (inr (omega arith))

  slice-grown_new : (a m : ℕ) → slice grown (length image + a) m ≡ slice stored a m
  unfolding grown
  slice-grown_new a m = rw (← length-stamped) (slice-append_right stamped stored a m)

  -- the length prefix and the payload
  framed : List ℕ
  framed = to_be_bytes (length c.payload) ++ c.payload

  length-framed : length framed ≡ 4 + length c.payload
  unfolding framed
  length-framed = omega (
    arith,
    length-append (to_be_bytes (length c.payload)) c.payload,
    length-to_be_bytes (length c.payload),
  )

  slice-stored : (a m : ℕ) → a + m ≤ 4 + length c.payload → slice stored a m ≡ slice framed a m
  unfolding stored framed
  slice-stored a m h = slice-append_left framed _ a m (omega (arith, length-framed))

  pub slice-grown-length : slice grown (length image) 4 ≡ to_be_bytes (length c.payload)
  unfolding framed
  slice-grown-length =
      let four = length-to_be_bytes (length c.payload) in
      rw add-zero at (slice-grown_new 0 4)
      ∙ slice-stored 0 4 (omega arith)
      ∙ (rw four at (slice_all (to_be_bytes (length c.payload)) c.payload))

  pub slice-grown_payload : slice grown (length image + 4) (length c.payload) ≡ c.payload
  unfolding framed
  slice-grown_payload =
      let four = length-to_be_bytes (length c.payload) in
      slice-grown_new 4 (length c.payload)
      ∙ slice-stored 4 (length c.payload) (omega arith)
      ∙ (rw four at
          (slice-append_right (to_be_bytes (length c.payload)) c.payload 0 (length c.payload)))
      ∙ slice_whole c.payload
