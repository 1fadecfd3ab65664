-- ===== src/App/Checkout/Rebuilt.antt =====
-- crates/app/src/checkout.rs: what one round of the pass over the region files leaves behind.
use sekai.Base.{
  ℕ, ◌+◌, ◌<◌, ◌≡◌, ◌≢◌, refl, sym, ap, ◌∙◌, inl, inr, Bool, true, false, not, ◌&&◌, Option, none,
  some, List, [], All, Bool-cases, Option-cases,
}
use mathlib.Core.Option
use sekai.Base.Outcome.{Result, ok, err, map_err, Result-cases}
use sekai.Base.Map
use sekai.Util.Coord.{ChunkCoord, RegionKey, key_ord}
use sekai.Util.Hash.{ChunkHash}
use sekai.Anvil.Region.{coord_at, table_entries, loc_new}
use sekai.Anvil.Region.Slots.{loc_at}
use sekai.Anvil.Reader.{RegionImage, from_bytes_with_kind, chunk_at, at_slot}
use sekai.Anvil.Writer.{RegionBuilder, builder_new, image}
use sekai.Anvil.Writer.Staging.{IsStaged, staged_at}
use sekai.Anvil.RoundTrip.{image_roundtrip}
use sekai.Sqlite.{StorageError}
use sekai.Core.Checkout.{CheckoutReport}
use sekai.App.World.{WorldTree, WorldLaws, AppError, anvil}
use sekai.App.Checkout.{CheckoutOptions, CheckoutJob, Staging}
use sekai.App.Checkout.Run.{
  region_file, drop_file, merged_image, write_file, stage_region, checkout_file,
}
use sekai.App.Checkout.Staged.{row_at, IsStored, stage_rows-staged}

-- the policies that keep nothing that the commit does not restore
abbrev pub KeepsNothing : CheckoutOptions → Type 0
KeepsNothing options =
    (options.keep_post_commit_files ≡ false)
    × (options.keep_post_commit_chunks ≡ false)
    × (options.keep_tombstoned_chunks ≡ false)

-- `bytes` is a region file that holds the payloads of the rows, and no other chunk
pub Holds : (ChunkHash → List ℕ) → RegionKey → List (ChunkCoord × ChunkHash) → List ℕ → Type 0
Holds payload key rows bytes =
    (read : RegionImage) × (from_bytes_with_kind bytes key.rx key.rz key.kind ≡ ok read)
    × ((j : ℕ)
        → j < table_entries
        → chunk_at read j
          ≡ ok (
              Option.map (at_slot read j)
                (row_at payload (coord_at (loc_at key.rx key.rz) j) rows none)))

-- files that can be read, written and removed
pub record Faultless {World File E : Type 0} (w : WorldTree World File E)
    (content : World → File → Option (List ℕ)) : Type 0 where
  pub writes : (s : World) (f : File) (bytes : List ℕ) → (w.write s f bytes).1 ≡ ok tt
  pub removes : (s : World) (f : File) → w.exists s f ≡ true → (w.remove s f).1 ≡ ok tt
  pub sees : (s : World) (f : File) → w.exists s f ≡ false → content s f ≡ none

module _ (payload : ChunkHash → List ℕ) (key : RegionKey)
    (rows : List (ChunkCoord × ChunkHash)) where
  image-Holds :
      (b : RegionBuilder)
      → loc_new key.rx key.rz ≡ ok (loc_at key.rx key.rz)
      → b.loc ≡ loc_at key.rx key.rz
      → IsStaged b.staged
      → ((j : ℕ)
          → j < table_entries
          → staged_at b.staged j ≡ row_at payload (coord_at (loc_at key.rx key.rz) j) rows none)
      → (bytes : List ℕ) × (image b ≡ ok bytes) × Holds payload key rows bytes
  unfolding Holds
  image-Holds b here loc valid held =
      let (bytes, read, built, _, parsed, at) =
        image_roundtrip key.rx key.rz key.kind b (here ∙ ap ok (sym loc)) valid in
      (
        bytes,
        built,
        (read, parsed, λ j lt. at j lt ∙ ap (λ o. ok (Option.map (at_slot read j) o)) (held j lt)),
      )

module _ {World File E : Type 0} (w : WorldTree World File E)
    (content : World → File → Option (List ℕ)) (laws : WorldLaws w content) where
  drop_file-others :
      (s : World) (f g : File) (keep : Bool) (report : CheckoutReport)
      → f ≢ g
      → content (drop_file w s f keep report).0 g ≡ content s g
  unfolding drop_file
  drop_file-others s f g keep report apart = elim (Bool-cases (not keep && w.exists s f)) [
    | inl gone ↦ rw (drop_file, gone) (laws.remove-others s f g apart)
    | inr stays ↦ rw (drop_file, stays)
  ]

  write_file-others :
      (s : World) (f g : File) (st : Staging) (report : CheckoutReport)
      (image : Result (List ℕ) (AppError E))
      → f ≢ g
      → content (write_file w s f st report image).0 g ≡ content s g
  unfolding write_file
  write_file-others s f g st report (err e) apart = refl
  write_file-others s f g st report (ok bytes) apart = laws.write-others s f g bytes apart

  module _ (fetch : ChunkHash → Result (List ℕ) StorageError) (job : CheckoutJob File)
      (timestamp : ℕ) where
    -- A round touches no file but that of its region.
    pub checkout_file-others :
        (s : World) (report : CheckoutReport) (key : RegionKey) (g : File)
        → ((f : File) → region_file w s job key ≡ ok (some f) → f ≢ g)
        → content (checkout_file w fetch job timestamp s report key).0 g ≡ content s g
    unfolding checkout_file
    checkout_file-others s report key g apart = elim (Result-cases (region_file w s job key)) [
      | inr (e, h) ↦ rw (checkout_file, h)
      | inl (o, h) ↦ elim (Option-cases o) [
        | inl n ↦ rw (checkout_file, h, n)
        | inr (f, n) ↦
            let away = apart f (h ∙ ap ok n) in
            elim (Option-cases (Map.get job.groups key)) [
              | inl bare ↦ rw (checkout_file, h, n, bare) (drop_file-others s f g _ report away)
              | inr (rows, present) ↦
                  elim (Result-cases (stage_region w fetch job timestamp key rows report)) [
                    | inr (e, bad) ↦ rw (checkout_file, h, n, present, bad)
                    | inl (st, good) ↦
                        rw (checkout_file, h, n, present, good)
                          (write_file-others s f g st report _ away)
                  ]
            ]
      ]
    ]

module _ {World File E : Type 0} (w : WorldTree World File E)
    (fetch : ChunkHash → Result (List ℕ) StorageError) (job : CheckoutJob File) (timestamp : ℕ)
    (payload : ChunkHash → List ℕ) where
  -- the rows of a region that fit give the image that holds them
  stage_region-Holds :
      (key : RegionKey) (rows : List (ChunkCoord × ChunkHash)) (report : CheckoutReport)
      → loc_new key.rx key.rz ≡ ok (loc_at key.rx key.rz)
      → All (IsStored fetch payload key.rx key.rz) rows
      → (st : Staging) × (bytes : List ℕ) × (stage_region w fetch job timestamp key rows report
          ≡ ok st)
        × (image st.writer ≡ ok bytes)
        × Holds payload key rows bytes
  unfolding stage_region builder_new staged_at
  stage_region-Holds key rows report here stored =
      let fresh : Staging = record {
        writer = record { loc = loc_at key.rx key.rz; timestamp = timestamp; staged = [] };
        restored = [];
        chunks_restored = report.chunks_restored;
      } in
      let (st, run, loc, valid, held) =
        stage_rows-staged {E = E} fetch payload key.rx key.rz job.options.on_missing_blob rows fresh
          stored refl (record { ordered = tt; fits = tt }) in
      let (bytes, built, holds) = image-Holds payload key rows st.writer here loc valid held in
      (st, bytes, rw here run, built, holds)

  merged_image-none :
      (s : World) (f : File) (key : RegionKey) (tombs : Option (List ChunkCoord)) (st : Staging)
      → KeepsNothing job.options
      → merged_image w s f key job.options tombs st ≡ map_err anvil (image st.writer)
  unfolding merged_image
  merged_image-none s f key tombs st (_, chunks, dead) = rw (chunks, dead)

  round-rows :
      (s : World) (report : CheckoutReport) (key : RegionKey) (f : File)
      (rows : List (ChunkCoord × ChunkHash)) (st : Staging) (bytes : List ℕ)
      → KeepsNothing job.options
      → region_file w s job key ≡ ok (some f)
      → Map.get job.groups key ≡ some rows
      → stage_region w fetch job timestamp key rows report ≡ ok st
      → image st.writer ≡ ok bytes
      → checkout_file w fetch job timestamp s report key ≡ write_file w s f st report (ok bytes)
  unfolding checkout_file
  round-rows s report key f rows st bytes nothing at present good built =
      let merged = merged_image-none s f key (Map.get job.tombstones key) st nothing in
      rw (checkout_file, at, present, good, merged, built)

  round-bare :
      (s : World) (report : CheckoutReport) (key : RegionKey) (f : File)
      → KeepsNothing job.options
      → region_file w s job key ≡ ok (some f)
      → Map.get job.groups key ≡ none
      → checkout_file w fetch job timestamp s report key ≡ drop_file w s f false report
  unfolding checkout_file
  round-bare s report key f (files, _, dead) at bare =
      elim (Option-cases (Map.get job.tombstones key)) [
        | inl n ↦ rw (checkout_file, at, bare, n, files)
        | inr (tombs, n) ↦ rw (checkout_file, at, bare, n, dead)
      ]

  module _ (content : World → File → Option (List ℕ)) (laws : WorldLaws w content)
      (faultless : Faultless w content) (nothing : KeepsNothing job.options) where
    -- A round rebuilds the file of a region with present rows.
    pub checkout_file-Holds :
        (s : World) (report : CheckoutReport) (key : RegionKey) (f : File)
        (rows : List (ChunkCoord × ChunkHash))
        → region_file w s job key ≡ ok (some f)
        → Map.get job.groups key ≡ some rows
        → loc_new key.rx key.rz ≡ ok (loc_at key.rx key.rz)
        → All (IsStored fetch payload key.rx key.rz) rows
        → (report' : CheckoutReport) × (bytes : List ℕ) × ((checkout_file w fetch job timestamp s
              report key).1
            ≡ ok report')
          × (content (checkout_file w fetch job timestamp s report key).0 f ≡ some bytes)
          × Holds payload key rows bytes
    unfolding write_file
    checkout_file-Holds s report key f rows at present here stored =
        let (st, bytes, good, built, holds) = stage_region-Holds key rows report here stored in
        let written = round-rows s report key f rows st bytes nothing at present good built in
        (
          record report {
            files_written = report.files_written + 1;
            chunks_restored = st.chunks_restored;
          },
          bytes,
          rw (written, faultless.writes s f bytes),
          rw written (laws.write-content s f bytes (faultless.writes s f bytes)),
          holds,
        )

    drop_file-gone :
        (s : World) (report : CheckoutReport) (f : File)
        → (report' : CheckoutReport) × ((drop_file w s f false report).1 ≡ ok report')
          × (content (drop_file w s f false report).0 f ≡ none)
    unfolding drop_file
    drop_file-gone s report f = elim (Bool-cases (w.exists s f)) [
      | inl there ↦ (
        record report { files_deleted = report.files_deleted + 1 },
        rw (there, faultless.removes s f there),
        rw there (laws.remove-content s f (faultless.removes s f there)),
      )
      | inr absent ↦ (report, rw absent, rw absent (faultless.sees s f absent))
    ]

    -- A round removes the file of a region without present rows.
    pub checkout_file-gone :
        (s : World) (report : CheckoutReport) (key : RegionKey) (f : File)
        → region_file w s job key ≡ ok (some f)
        → Map.get job.groups key ≡ none
        → (report' : CheckoutReport) × ((checkout_file w fetch job timestamp s report key).1
            ≡ ok report')
          × (content (checkout_file w fetch job timestamp s report key).0 f ≡ none)
    checkout_file-gone s report key f at bare =
        rw (round-bare s report key f nothing at bare) (drop_file-gone s report f)
