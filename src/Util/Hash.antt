-- ===== src/Util/Hash.antt =====
-- crates/util/src/hash.rs: the keys of blobs and of commits. A `[u8; 32]` is its list of bytes.
use sekai.Base.{
  ℕ, ◌≡◌, ◌↔◌, Bool, true, false, ◌&&◌, ◌||◌, List, [], ◌∷◌, arith, nat_beq, ltb, Ord, nat_ord,
}

-- the derived equality and order of an array of bytes
abbrev pub bytes_beq : List ℕ → List ℕ → Bool
bytes_beq [] [] = true
bytes_beq [] (b ∷ bs) = false
bytes_beq (a ∷ cs) [] = false
bytes_beq (a ∷ cs) (b ∷ bs) = nat_beq a b && bytes_beq cs bs

abbrev pub bytes_blt : List ℕ → List ℕ → Bool
bytes_blt [] [] = false
bytes_blt [] (b ∷ bs) = true
bytes_blt (a ∷ cs) [] = false
bytes_blt (a ∷ cs) (b ∷ bs) = ltb a b || nat_beq a b && bytes_blt cs bs

pub bytes_beq_iff : (a b : List ℕ) → (bytes_beq a b ≡ true) ↔ (a ≡ b)
bytes_beq_iff [] [] = ground arith
bytes_beq_iff [] (b ∷ bs) = ground arith
bytes_beq_iff (a ∷ cs) [] = ground arith
bytes_beq_iff (a ∷ cs) (b ∷ bs) = ground (arith, bytes_beq_iff cs bs)

pub record ChunkHash : Type 0 where
  pub bytes : List ℕ

pub chunk_hash_beq_iff : (a b : ChunkHash) → (bytes_beq a.bytes b.bytes ≡ true) ↔ (a ≡ b)
chunk_hash_beq_iff a b = ground (arith, bytes_beq_iff a.bytes b.bytes)

instance abbrev pub chunk_hash_ord : Ord ChunkHash
chunk_hash_ord = record {
  beq = λ a b. bytes_beq a.bytes b.bytes;
  beq_iff = chunk_hash_beq_iff;
  blt = λ a b. bytes_blt a.bytes b.bytes;
}

-- `CommitId` of commit.rs
pub record CommitId : Type 0 where
  pub bytes : List ℕ

pub commit_id_beq_iff : (a b : CommitId) → (bytes_beq a.bytes b.bytes ≡ true) ↔ (a ≡ b)
commit_id_beq_iff a b = ground (arith, bytes_beq_iff a.bytes b.bytes)

instance abbrev pub commit_id_ord : Ord CommitId
commit_id_ord = record {
  beq = λ a b. bytes_beq a.bytes b.bytes;
  beq_iff = commit_id_beq_iff;
  blt = λ a b. bytes_blt a.bytes b.bytes;
}
