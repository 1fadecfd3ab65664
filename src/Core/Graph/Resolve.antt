-- ===== src/Core/Graph/Resolve.antt =====
-- crates/core/src/usecase/graph.rs: resolving a commit reference. Text is the list of its characters,
-- as code points.
use mathlib.Core.Option
use sekai.Base.{
  ℕ, ◌+◌, ◌/◌, ◌%◌, ◌<◌, ◌≡◌, refl, true, List, [], ◌∷◌, ◌++◌, length, if◌then◌else◌, ltb, arith,
}
use sekai.Base.Outcome.{Result, ok, err, map_err, ok_or, ◌>>=◌}
use sekai.Util.Hash.{CommitId}
use sekai.Base.Bytes.{AllBytes}
use sekai.Util.Hex.{digit, hex_into, hex_from}
use sekai.Util.Hex.Trip.{hex_from-hex_into}
use sekai.Util.Commit.{Commit}
use sekai.Util.Name.{RefName}
use sekai.Util.Name.Grammar.{parse_ref_name}
use sekai.Core.Port.{MetaStore}

pub data ResolveError (M : Type 0) : Type 0 where
  meta : M → ResolveError M
  unknown_commit : CommitId → ResolveError M
  unknown_ref unborn_ref : RefName → ResolveError M
  invalid_ref : List ℕ → ResolveError M

-- `str::as_bytes`: the bytes of a character in UTF-8, and of a text
unfoldable pub utf8 : ℕ → List ℕ
utf8 c =
    if ltb c 128
    then c ∷ []
    else if ltb c 2048
    then (192 + c / 64) ∷ (128 + c % 64) ∷ []
    else if ltb c 65536
    then (224 + c / 4096) ∷ (128 + c / 64 % 64) ∷ (128 + c % 64) ∷ []
    else (240 + c / 262144) ∷ (128 + c / 4096 % 64) ∷ (128 + c / 64 % 64) ∷ (128 + c % 64) ∷ []

unfoldable pub as_bytes : List ℕ → List ℕ
unfolding utf8
as_bytes [] = []
as_bytes (c ∷ cs) = utf8 c ++ as_bytes cs

digit-lt : (n : ℕ) → n < 16 → ltb (digit n) 128 ≡ true
unfolding digit
digit-lt n h = ground arith

as_bytes-hex_into : (bytes : List ℕ) → AllBytes bytes → as_bytes (hex_into bytes) ≡ hex_into bytes
unfolding as_bytes hex_into utf8
as_bytes-hex_into [] h = refl
as_bytes-hex_into (b ∷ bs) (h, hs) =
    rw (digit-lt (b / 16) (omega arith), digit-lt (b % 16) (omega arith), as_bytes-hex_into bs hs)
      refl

module _ {Store M : Type 0} (m : MetaStore Store M) where
  -- the branch of a commit identifier
  unfoldable pub resolve_id : Store → CommitId → Result CommitId (ResolveError M)
  resolve_id store id = do
    found ← map_err meta (m.lookup_commit store id)
    ok_or (Option.map (λ (commit : Commit). commit.id) found) (unknown_commit id)

  -- the branch of a name
  unfoldable pub resolve_name : Store → List ℕ → Result CommitId (ResolveError M)
  unfolding parse_ref_name
  resolve_name store raw = do
    name ← map_err (λ e. invalid_ref raw) (parse_ref_name raw)
    found ← map_err meta (m.lookup_ref store name)
    target ← ok_or found (unknown_ref name)
    ok_or target (unborn_ref name)

  unfoldable pub resolve_commit_ref : Store → List ℕ → Result CommitId (ResolveError M)
  unfolding as_bytes hex_from resolve_id resolve_name
  resolve_commit_ref store raw = elim (hex_from (as_bytes raw)) [
    | ok bytes ↦ resolve_id store (record { bytes = bytes })
    | err e ↦ resolve_name store raw
  ]

  -- The printed form of a commit identifier is resolved as that identifier, whatever the refs are.
  pub resolve_commit_ref-hex_into :
      (store : Store) (id : CommitId)
      → length id.bytes ≡ 32
      → AllBytes id.bytes
      → resolve_commit_ref store (hex_into id.bytes) ≡ resolve_id store id
  unfolding resolve_commit_ref
  resolve_commit_ref-hex_into store id long all =
      rw (resolve_commit_ref, as_bytes-hex_into id.bytes all, hex_from-hex_into id.bytes long all)
        refl
