-- ===== src/Util/Name.antt =====
-- crates/util/src/refs.rs and name.rs: the names of refs. A name is the list of its characters.
pub mod Grammar
use sekai.Base.{ℕ, ◌≡◌, ◌↔◌, true, List, arith, Ord}
use sekai.Util.Hash.{bytes_beq, bytes_blt, bytes_beq_iff}

pub record RefName : Type 0 where
  pub chars : List ℕ

pub ref_name_beq_iff : (a b : RefName) → (bytes_beq a.chars b.chars ≡ true) ↔ (a ≡ b)
ref_name_beq_iff a b = ground (arith, bytes_beq_iff a.chars b.chars)

instance abbrev pub ref_name_ord : Ord RefName
ref_name_ord = record {
  beq = λ a b. bytes_beq a.chars b.chars;
  beq_iff = ref_name_beq_iff;
  blt = λ a b. bytes_blt a.chars b.chars;
}
