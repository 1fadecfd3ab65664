-- ===== src/Anvil/Writer/Placement.antt =====
-- The whole loop of `image`: it never fails on a well-formed list of staged chunks, and every staged
-- chunk can be found through the location table of the image that it builds.
use mathlib.Core.Path.{subst₂}
use sekai.Base.{
  nat_beq_iff, length-replicate, ℕ, suc, ◌+◌, ◌*◌, ◌%◌, ◌≤◌, ◌<◌, ◌≡◌, refl, ap, ◌∙◌, inl, inr,
  none, some, List, [], ◌∷◌, length, arith, nat_beq, All, Bool-cases,
}
use sekai.Base.Outcome.{ok}
use sekai.Base.Bytes.{slice, to_be_bytes}
use sekai.Anvil.Region.{
  sector_len, header_len, table_entries, max_sector_offset, max_sectors_per_chunk,
  first_data_sector,
}
use sekai.Anvil.Writer.{StagedChunk, RegionBuilder, put_all, blank_header, image}
use sekai.Anvil.Writer.Staging.{Above, Fits, IsStaged, staged_at, staged_at-Above}
use sekai.Anvil.Writer.Layout.{
  IsSize, Fits-IsSize, entry_word_lem, grown, put_chunk-ok, length-grown, slice-grown_entry,
  slice-grown_other, slice-grown_old, slice-grown-length, slice-grown_payload,
}

-- The location table leads from slot j to `n` sectors from `offset`, which hold the payload.
pub record IsLocated (bytes : List ℕ) (j : ℕ) (payload : List ℕ) (offset n : ℕ) : Type 0 where
  pub after_header : first_data_sector ≤ offset
  pub some_sector : 1 ≤ n
  pub few : n ≤ max_sectors_per_chunk
  pub addressable : offset + n ≤ max_sector_offset
  pub inside : offset * sector_len + n * sector_len ≤ length bytes
  pub full : 0 < length payload
  pub room : length payload + 4 ≤ n * sector_len
  pub entry : slice bytes (j * 4) 4 ≡ to_be_bytes (offset * 256 + n)
  pub prefix : slice bytes (offset * sector_len) 4 ≡ to_be_bytes (length payload)
  pub body : slice bytes (offset * sector_len + 4) (length payload) ≡ payload

abbrev pub Located : List ℕ → ℕ → List ℕ → Type 0
Located bytes j payload = (offset : ℕ) × (n : ℕ) × IsLocated bytes j payload offset n

-- What the rounds for `cs` make of an image.
pub record IsLaid (before : List ℕ) (cs : List StagedChunk) (bytes : List ℕ) : Type 0 where
  pub longer : length before ≤ length bytes
  pub whole : length bytes % sector_len ≡ 0
  pub others :
      (j : ℕ)
      → staged_at cs j ≡ none
      → j < table_entries
      → slice bytes (j * 4) 4 ≡ slice before (j * 4) 4
  pub old : (a m : ℕ) → header_len ≤ a → a + m ≤ length before → slice bytes a m ≡ slice before a m
  pub found : (j : ℕ) (payload : List ℕ) → staged_at cs j ≡ some payload → Located bytes j payload

module _ (timestamp : ℕ) (before : List ℕ) (o n : ℕ) (c : StagedChunk) (cs : List StagedChunk)
    (bytes : List ℕ) (fits : Fits c) (size : IsSize (length c.payload) n)
    (above : Above (suc c.slot) cs) (len : length before ≡ o * sector_len) (lo : 2 ≤ o)
    (hi : o + n ≤ max_sector_offset) (laid : IsLaid (grown timestamp before o n c) cs bytes) where
  others-cons :
      (j : ℕ)
      → staged_at (c ∷ cs) j ≡ none
      → j < table_entries
      → slice bytes (j * 4) 4 ≡ slice before (j * 4) 4
  unfolding staged_at
  others-cons j h lt =
      laid.others j (ground arith) lt
      ∙ slice-grown_other timestamp before o n c j (λ e. ground arith) lt (omega arith)

  old-cons : (a m : ℕ) → header_len ≤ a → a + m ≤ length before → slice bytes a m ≡ slice before a m
  old-cons a m h fit =
      laid.old a m h (omega (arith, length-grown timestamp before o n c size))
      ∙ slice-grown_old timestamp before o n c a m fits.0 h fit

  Located-head : Located bytes c.slot c.payload
  Located-head =
      let longer = length-grown timestamp before o n c size in
      let none_there = staged_at-Above (suc c.slot) cs c.slot above (omega arith) in
      (
        o,
        n,
        record {
          after_header = lo;
          some_sector = size.some_sector;
          few = size.few;
          addressable = hi;
          inside = omega (arith, laid.longer);
          full = fits.1;
          room = size.room;
          entry =
              laid.others c.slot none_there fits.0
              ∙ slice-grown_entry timestamp before o n c fits.0 (omega arith)
              ∙ ap to_be_bytes (entry_word_lem o n (omega arith) size.few);
          prefix =
              laid.old (o * sector_len) 4 (omega arith) (omega (arith, size.room, size.some_sector))
              ∙ rw (← len) (slice-grown-length timestamp before o n c);
          body =
              laid.old (o * sector_len + 4) (length c.payload) (omega arith)
                (omega (arith, size.room))
              ∙ rw (← len) (slice-grown_payload timestamp before o n c);
        },
      )

  found-cons :
      (j : ℕ) (payload : List ℕ) → staged_at (c ∷ cs) j ≡ some payload → Located bytes j payload
  unfolding staged_at
  found-cons j payload h = elim (Bool-cases (nat_beq c.slot j)) [
    | inl same ↦
        let e : c.payload ≡ payload = cc (rw same at h) in
        subst₂ (Located bytes) ((nat_beq_iff c.slot j).0 same) e Located-head
    | inr other ↦ laid.found j payload (rw other at h)
  ]

  IsLaid-cons : IsLaid before (c ∷ cs) bytes
  IsLaid-cons = record {
    longer = omega (arith, laid.longer, length-grown timestamp before o n c size);
    whole = laid.whole;
    others = others-cons;
    old = old-cons;
    found = found-cons;
  }

-- From an image that ends at sector `o`, with room in the table's offsets for the largest chunks.
put_all-ok :
    (timestamp : ℕ) (before : List ℕ) (o k : ℕ) (cs : List StagedChunk)
    → Above k cs
    → All Fits cs
    → length before ≡ o * sector_len
    → 2 ≤ o
    → o + max_sectors_per_chunk * length cs ≤ max_sector_offset
    → (bytes : List ℕ) × (put_all timestamp (before, o) cs ≡ ok bytes) × IsLaid before cs bytes
unfolding put_all
put_all-ok timestamp before o k [] above fits len lo hi = (
  before,
  refl,
  record {
    longer = omega arith;
    whole = omega arith;
    others = λ j _ _. refl;
    old = λ a m _ _. refl;
    found = λ j p h. unfold staged_at in absurd (cc h);
  },
)
put_all-ok timestamp before o k (c ∷ cs) above fits len lo hi =
    let (n, size) = Fits-IsSize c fits.0 in
    let room : o + n ≤ max_sector_offset = omega (arith, size.few) in
    let (bytes, e, laid) =
      put_all-ok timestamp (grown timestamp before o n c) (o + n) (suc c.slot) cs above.1 fits.1
        (omega (arith, length-grown timestamp before o n c size)) (omega arith)
        (omega (arith, size.few)) in
    (
      bytes,
      rw (put_chunk-ok timestamp before o n c fits.0 size room) e,
      IsLaid-cons timestamp before o n c cs bytes fits.0 size above.1 len lo room laid,
    )

-- A list in slot order has at most one chunk for each slot of the table.
length-Above :
    (k : ℕ) (cs : List StagedChunk)
    → k ≤ table_entries
    → Above k cs
    → All Fits cs
    → length cs + k ≤ table_entries
length-Above k [] h above fits = omega arith
length-Above k (c ∷ cs) h above fits =
    omega (arith, length-Above (suc c.slot) cs (fits.0).0 above.1 fits.1)

-- Building the image of a well-formed builder never fails.
pub image-ok :
    (b : RegionBuilder)
    → IsStaged b.staged
    → (bytes : List ℕ) × (image b ≡ ok bytes) × IsLaid blank_header b.staged bytes
unfolding image
image-ok b valid =
    put_all-ok b.timestamp blank_header first_data_sector 0 b.staged valid.ordered valid.fits
      (unfold blank_header in length-replicate header_len 0) (omega arith)
      (omega (arith, length-Above 0 b.staged (omega arith) valid.ordered valid.fits))
