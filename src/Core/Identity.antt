-- ===== src/Core/Identity.antt =====
-- crates/core/src/commit.rs: the hash that identifies a commit. Blake3 is the parameter `hash_bytes`.
use sekai.Base.{
  ℕ, ◌-◌, ◌/◌, ◌%◌, ◌^◌, ◌≡◌, ◌↔◌, Bool, true, false, ◌&&◌, ◌||◌, Option, none, some, List, [], ◌∷◌,
  ◌++◌, length, arith, Ord, ◌==◌, ◌<?◌, option_beq, option_beq_iff,
}
use sekai.Base.Int.{ℤ, pos, negsuc}
use sekai.Base.Bytes.{to_be_bytes}
use sekai.Base.Set
use sekai.Util.Coord.{coord_ord, coord_beq_iff, kind_code}
use sekai.Util.Hash.{ChunkHash, CommitId, chunk_hash_ord, commit_id_ord}
use sekai.Util.Commit.{CommitEntry}

-- the derived order of `Option<ChunkHash>`: `None` comes first
abbrev pub blob_blt : Option ChunkHash → Option ChunkHash → Bool
blob_blt none none = false
blob_blt none (some b) = true
blob_blt (some a) none = false
blob_blt (some a) (some b) = a <? b

abbrev pub entry_beq : CommitEntry → CommitEntry → Bool
entry_beq a b = a.coord == b.coord && option_beq a.blob b.blob

pub entry_beq_iff : (a b : CommitEntry) → (entry_beq a b ≡ true) ↔ (a ≡ b)
entry_beq_iff a b = ground (arith, coord_beq_iff a.coord b.coord, option_beq_iff a.blob b.blob)

instance abbrev pub entry_ord : Ord CommitEntry
entry_ord = record {
  beq = entry_beq;
  beq_iff = entry_beq_iff;
  blt = λ a b. a.coord <? b.coord || a.coord == b.coord && blob_blt a.blob b.blob;
}

-- `b"sekai-commit-v1\0"`
abbrev pub domain : List ℕ
domain = 115 ∷ 101 ∷ 107 ∷ 97 ∷ 105 ∷ 45 ∷ 99 ∷ 111 ∷ 109 ∷ 109 ∷ 105 ∷ 116 ∷ 45 ∷ 118 ∷ 49 ∷ 0 ∷ []

-- `u64::to_be_bytes`
unfoldable pub u64_bytes : ℕ → List ℕ
u64_bytes n = to_be_bytes (n / 2 ^ 32 % 2 ^ 32) ++ to_be_bytes (n % 2 ^ 32)

-- `i32::to_be_bytes`, in two's complement
unfoldable pub i32_bytes : ℤ → List ℕ
i32_bytes (pos n) = to_be_bytes n
i32_bytes (negsuc n) = to_be_bytes (2 ^ 32 - 1 - n)

-- `push_optional_blob`
unfoldable pub blob_bytes : Option ChunkHash → List ℕ
blob_bytes none = 0 ∷ []
blob_bytes (some hash) = 1 ∷ hash.bytes

unfoldable pub entry_bytes : CommitEntry → List ℕ
unfolding i32_bytes blob_bytes
entry_bytes e =
    i32_bytes e.coord.dim.raw
    ++ (kind_code e.coord.kind
        ∷ (i32_bytes e.coord.x ++ (i32_bytes e.coord.z ++ blob_bytes e.blob)))

unfoldable pub parents_bytes : List CommitId → List ℕ
parents_bytes [] = []
parents_bytes (p ∷ ps) = p.bytes ++ parents_bytes ps

unfoldable pub entries_bytes : List CommitEntry → List ℕ
unfolding entry_bytes
entries_bytes [] = []
entries_bytes (e ∷ es) = entry_bytes e ++ entries_bytes es

-- the input of the hash, of lists that are sorted and without duplicates
unfoldable pub canonical : List CommitId → ℕ → List CommitEntry → List ℕ
unfolding u64_bytes parents_bytes entries_bytes
canonical parents created_at_ms entries =
    domain
    ++ (u64_bytes (length parents)
        ++ (parents_bytes parents
            ++ (u64_bytes created_at_ms ++ (u64_bytes (length entries) ++ entries_bytes entries))))

module _ (hash_bytes : List ℕ → List ℕ) where
  unfoldable pub commit_hash : List CommitId → ℕ → List CommitEntry → CommitId
  unfolding canonical
  commit_hash parents created_at_ms entries = record {
    bytes = hash_bytes (canonical (Set.from parents) created_at_ms (Set.from entries));
  }
