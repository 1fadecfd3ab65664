-- ===== src/Sqlite/Refs/Active.antt =====
-- The refs of a store: one of them is active, and their targets exist.
use sekai.Base.{
  ℕ, suc, ◌≡◌, refl, sym, ap, ◌∙◌, inl, inr, Option, none, some, List, [], ◌∷◌, arith, Bool-cases,
  if◌then◌else◌, ◌==◌,
}
use sekai.Base.Map
use sekai.Util.Hash.{CommitId, commit_id_ord}
use sekai.Util.Name.{RefName, ref_name_ord}
use sekai.Sqlite.{RefRow, CommitRow, seq_in}
use sekai.Sqlite.Writes.{move_active}
use sekai.Sqlite.Retire.{follow}
use sekai.Sqlite.Refs.{move_ref, clear_active, mark_active}

abbrev pub Rows : Type 0
Rows = List (RefName × RefRow)

-- the number of active refs
unfoldable pub active_count : Rows → ℕ
active_count [] = 0
active_count ((name, row) ∷ rows) =
    let rest = active_count rows in if row.active then suc rest else rest

-- no two refs of one name
unfoldable pub Named : Rows → Type 0
Named [] = Unit
Named ((name, row) ∷ rows) = (Map.get rows name ≡ none) × Named rows

-- a target that is a recorded commit
abbrev pub Target : List CommitRow → Option CommitId → Type 0
Target commits none = Unit
Target commits (some id) = (i : ℕ) × (seq_in commits id ≡ some i)

unfoldable pub Targets : List CommitRow → Rows → Type 0
Targets commits [] = Unit
Targets commits ((name, row) ∷ rows) = Target commits row.commit × Targets commits rows

-- Statements that keep the names.
pub get-clear :
    (rows : Rows) (n : RefName) → Map.get rows n ≡ none → Map.get (clear_active rows) n ≡ none
unfolding clear_active Map.get
get-clear [] n h = refl
get-clear ((m, row) ∷ rows) n h = ground (arith, h, get-clear rows n)

get-mark :
    (k : RefName) (rows : Rows) (n : RefName)
    → Map.get rows n ≡ none
    → Map.get (mark_active k rows) n ≡ none
unfolding mark_active Map.get
get-mark k [] n h = refl
get-mark k ((m, row) ∷ rows) n h = ground (arith, h, get-mark k rows n)

get-move_ref :
    (k : RefName) (c : Option CommitId) (rows : Rows) (n : RefName)
    → Map.get rows n ≡ none
    → Map.get (move_ref k c rows) n ≡ none
unfolding move_ref Map.get
get-move_ref k c [] n h = refl
get-move_ref k c ((m, row) ∷ rows) n h = ground (arith, h, get-move_ref k c rows n)

get-move_active :
    (id : CommitId) (rows : Rows) (n : RefName)
    → Map.get rows n ≡ none
    → Map.get (move_active rows id) n ≡ none
unfolding move_active Map.get
get-move_active id [] n h = refl
get-move_active id ((m, row) ∷ rows) n h = ground (arith, h, get-move_active id rows n)

get-follow :
    (from into : CommitId) (rows : Rows) (n : RefName)
    → Map.get rows n ≡ none
    → Map.get (follow from into rows) n ≡ none
unfolding follow Map.get
get-follow from into [] n h = refl
get-follow from into ((m, row) ∷ rows) n h = ground (arith, h, get-follow from into rows n)

pub Named-clear : (rows : Rows) → Named rows → Named (clear_active rows)
unfolding Named clear_active
Named-clear [] h = tt
Named-clear ((n, row) ∷ rows) (h, hs) = (get-clear rows n h, Named-clear rows hs)

pub Named-mark : (k : RefName) (rows : Rows) → Named rows → Named (mark_active k rows)
unfolding Named mark_active
Named-mark k [] h = tt
Named-mark k ((n, row) ∷ rows) (h, hs) = (get-mark k rows n h, Named-mark k rows hs)

pub Named-move_ref :
    (k : RefName) (c : Option CommitId) (rows : Rows) → Named rows → Named (move_ref k c rows)
unfolding Named move_ref
Named-move_ref k c [] h = tt
Named-move_ref k c ((n, row) ∷ rows) (h, hs) =
    (get-move_ref k c rows n h, Named-move_ref k c rows hs)

pub Named-move_active : (id : CommitId) (rows : Rows) → Named rows → Named (move_active rows id)
unfolding Named move_active
Named-move_active id [] h = tt
Named-move_active id ((n, row) ∷ rows) (h, hs) =
    (get-move_active id rows n h, Named-move_active id rows hs)

pub Named-follow : (from into : CommitId) (rows : Rows) → Named rows → Named (follow from into rows)
unfolding Named follow
Named-follow from into [] h = tt
Named-follow from into ((n, row) ∷ rows) (h, hs) =
    (get-follow from into rows n h, Named-follow from into rows hs)

-- Statements that keep the flags.
pub active_count-move_ref :
    (k : RefName) (c : Option CommitId) (rows : Rows)
    → active_count (move_ref k c rows) ≡ active_count rows
unfolding active_count move_ref
active_count-move_ref k c [] = refl
active_count-move_ref k c ((n, row) ∷ rows) = ground (arith, active_count-move_ref k c rows)

pub active_count-move_active :
    (id : CommitId) (rows : Rows) → active_count (move_active rows id) ≡ active_count rows
unfolding active_count move_active
active_count-move_active id [] = refl
active_count-move_active id ((n, row) ∷ rows) = ground (arith, active_count-move_active id rows)

pub active_count-follow :
    (from into : CommitId) (rows : Rows) → active_count (follow from into rows) ≡ active_count rows
unfolding active_count follow
active_count-follow from into [] = refl
active_count-follow from into ((n, row) ∷ rows) = ground (arith, active_count-follow from into rows)

-- Activation: of the refs that were cleared, the one of the name is marked.
active_count-clear : (rows : Rows) → active_count (clear_active rows) ≡ 0
unfolding active_count clear_active
active_count-clear [] = refl
active_count-clear ((n, row) ∷ rows) = ground (arith, active_count-clear rows)

mark_nothing :
    (k : RefName) (rows : Rows)
    → Map.get rows k ≡ none
    → active_count (mark_active k (clear_active rows)) ≡ 0
unfolding active_count clear_active mark_active Map.get
mark_nothing k [] h = refl
mark_nothing k ((n, row) ∷ rows) h = ground (arith, h, mark_nothing k rows)

pub mark_one :
    (k : RefName) (rows : Rows) (row : RefRow)
    → Named rows
    → Map.get rows k ≡ some row
    → active_count (mark_active k (clear_active rows)) ≡ 1
unfolding active_count clear_active mark_active Map.get Named
mark_one k [] row h e = absurd (ground (arith, e))
mark_one k ((n, x) ∷ rows) row (h, hs) e = elim (Bool-cases (n == k)) [
  | inl t ↦
      let gone : Map.get rows k ≡ none =
        ap (Map.get rows) (sym ((ref_name_ord.beq_iff n k).0 t)) ∙ h in
      rw (active_count, mark_active, t) (ap suc (mark_nothing k rows gone))
  | inr f ↦ rw (active_count, mark_active, f) (mark_one k rows row hs (rw (Map.get, f) at e))
]
