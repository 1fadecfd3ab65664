-- ===== src/Core/Commit/BaseState.antt =====
-- crates/core/src/usecase/commit.rs: where the base of a plan and its state come from.
use sekai.Base.{
  ◌≡◌, refl, sym, ap, ◌∙◌, inl, inr, ◌&&◌, Option, none, some, List, [], ◌∷◌, if◌then◌else◌, arith,
  Bool-cases, ◌==◌,
}
use sekai.Base.Outcome.{ok, >>=-eq-ok, ok-injective}
use sekai.Base.Map
use sekai.Base.Map.{keys, contains-keys, get-insert}
use sekai.Util.Coord.{ChunkCoord, coord_ord, key_ord}
use sekai.Util.Hash.{CommitId, chunk_hash_ord}
use sekai.Util.Commit.{Commit, ChunkHistoryEntry}
use sekai.Core.Port.{MetaStore}
use sekai.Core.Commit.{State, is_some, present_rows, base_of, base_state}

-- The last row of a chunk that is present.
unfoldable pub present_row : List ChunkHistoryEntry → ChunkCoord → Option ChunkHistoryEntry
present_row [] c = none
present_row (e ∷ es) c = elim (present_row es c) [
  | some f ↦ some f
  | none ↦ if e.coord == c && is_some e.blob then some e else none
]

get-present_rows :
    (rows : List ChunkHistoryEntry) (state : State) (c : ChunkCoord)
    → Map.get (present_rows rows state) c
      ≡ (elim (present_row rows c) [ some f ↦ some f | none ↦ Map.get state c ])
unfolding present_rows present_row
get-present_rows [] state c = refl
get-present_rows (e ∷ es) state c = elim (Bool-cases (is_some e.blob)) [
  | inl full ↦
      rw (present_rows, full)
        (get-present_rows es (Map.insert e.coord e state) c
          ∙ ground (arith, get-insert e.coord c e state, full))
  | inr gone ↦ rw (present_rows, gone) (get-present_rows es state c ∙ ground (arith, gone))
]

none_before :
    (o : Option ChunkHistoryEntry) (c : ChunkCoord)
    → (elim o [ some f ↦ some f | none ↦ Map.get {V = ChunkHistoryEntry} [] c ]) ≡ o
unfolding Map.get
none_before none c = refl
none_before (some f) c = refl

module _ {Store M : Type 0} (m : MetaStore Store M) where
  -- The base of a plan is the record of the commit that the active ref names, where it names one.
  unfoldable pub IsBase : Store → Option (Option CommitId) → Option Commit → Type 0
  IsBase store (some (some id)) base = m.lookup_commit store id ≡ ok base
  IsBase store (some none) base = base ≡ none
  IsBase store none base = base ≡ none

  -- The state of a plan has the present rows that a visit of the chunks of the base gives.
  unfoldable pub IsState : Store → Option Commit → State → Type 0
  IsState store none state = state ≡ []
  IsState store (some base) state =
      (rows : List ChunkHistoryEntry) × (m.visit_commit_chunks store base.id ≡ ok rows)
      × ((c : ChunkCoord) → Map.get state c ≡ present_row rows c)

  pub base_of-IsBase :
      (store : Store) (active : Option (Option CommitId)) (base : Option Commit)
      → base_of m store active ≡ ok base
      → IsBase store active base
  unfolding base_of IsBase
  base_of-IsBase store (some (some id)) base h = h
  base_of-IsBase store (some none) base h = sym (ok-injective h)
  base_of-IsBase store none base h = sym (ok-injective h)

  pub base_state-IsState :
      (store : Store) (base : Option Commit) (state : State)
      → base_state m store base ≡ ok state
      → IsState store base state
  unfolding base_state IsState
  base_state-IsState store none state h = sym (ok-injective h)
  base_state-IsState store (some base) state h =
      let (rows, read, at) = >>=-eq-ok (m.visit_commit_chunks store base.id) _ h in
      (
        rows,
        read,
        λ c.
            ap (λ (s : State). Map.get s c) (sym (ok-injective at))
            ∙ get-present_rows rows [] c
            ∙ none_before (present_row rows c) c,
      )
