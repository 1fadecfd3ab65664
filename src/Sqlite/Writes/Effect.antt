-- ===== src/Sqlite/Writes/Effect.antt =====
-- The state of the commits after `apply_commit_incremental` recorded a new one.
use sekai.Base.{
  ℕ, ◌≡◌, ◌≢◌, refl, sym, ap, ◌∙◌, inl, inr, Bool, true, false, ◌||◌, Option, none, some, List, [],
  ◌∷◌, contains, arith, Option-cases,
}
use mathlib.Core.Path.{subst}
use sekai.Base.Outcome.{ok}
use sekai.Base.Member.{In}
use sekai.Util.Coord.{ChunkCoord}
use sekai.Util.Hash.{ChunkHash, CommitId, commit_id_ord, commit_id_beq_iff}
use sekai.Util.Commit.{CommitEntry}
use sekai.Core.Commit.Delta.{row_of}
use sekai.Sqlite.{HistoryRow, Tables, seq_in}
use sekai.Sqlite.Reads.{visible, latest, effective_row}
use sekai.Sqlite.Latest.{blob_of, latest-Newest, inherited, inherited-effective}
use sekai.Sqlite.Visible.{same_age, latest-same}
use sekai.Sqlite.Writes.{apply_commit_incremental}
use sekai.Sqlite.Writes.Fresh.{Recorded, apply_commit_incremental-Recorded}
use sekai.Sqlite.Writes.State.{new_tables, own_state, other_state, from_parent, to_new, row_of-In}
use sekai.Sqlite.WellFormed.{WellFormed}

-- the parents of a commit on a base, and what the base inherits
abbrev pub chain : Option CommitId → List CommitId
chain none = []
chain (some base) = base ∷ []

abbrev pub at_base : Tables → Option CommitId → ChunkCoord → Option (Option ChunkHash)
at_base t none coord = none
at_base t (some base) coord = inherited t base coord

-- a row of the commit itself, or else what the base inherits
abbrev pub given :
    Tables → Option CommitId → ChunkCoord → Option (Option ChunkHash) → Option (Option ChunkHash)
given t base coord none = at_base t base coord
given t base coord (some blob) = some blob

only : (base p : CommitId) → contains (base ∷ []) p ≡ true → base ≡ p
unfolding contains
only base p h = (commit_id_beq_iff base p).0 (or_nothing _ h)
  where
    or_nothing : (b : Bool) → (b || false) ≡ true → b ≡ true
    or_nothing b k = ground (arith, k)

nothing : (p : CommitId) → contains [] p ≡ true → ⊥
unfolding contains
nothing p h = ground (arith, h)

self : (base : CommitId) → contains (base ∷ []) base ≡ true
unfolding contains
self base = left_true _ _ ((commit_id_beq_iff base base).1 refl)
  where
    left_true : (a b : Bool) → a ≡ true → (a || b) ≡ true
    left_true a b k = ground (arith, k)

module _ (t : Tables) (wf : WellFormed t) (id : CommitId) (ms : ℕ) (entries : List CommitEntry)
    (after : Tables) (new : seq_in t.commits id ≡ none) where
  -- what the new commit inherits for a chunk of which it has no row
  base_rows :
      (base : Option CommitId) (done : Recorded t id ms (chain base) entries after) (c : ChunkCoord)
      → row_of entries c ≡ none
      → blob_of (latest (visible (new_tables t wf id ms (chain base) entries after new done) id c))
        ≡ at_base t base c
  unfolding effective_row
  base_rows none done c none_here =
      elim (Option-cases
        (latest (visible (new_tables t wf id ms [] entries after new done) id c))) [
          | inl e ↦ ap blob_of e
          | inr (r, e) ↦ absurd (
              no_parent r (
                from_parent t wf id ms [] entries after new done c none_here r
                  (latest-Newest _ r e).0))
        ]
    where
      no_parent :
          (r : HistoryRow) → (p : CommitId) × (contains [] p ≡ true) × In r (visible t p c) → ⊥
      no_parent r (p, h, _) = nothing p h
  base_rows (some base) done c none_here =
      latest-same (visible (new_tables t wf id ms (base ∷ []) entries after new done) id c)
        (visible t base c)
        (λ r i.
          let (p, at, v) =
            from_parent t wf id ms (base ∷ []) entries after new done c none_here r i in
          subst (λ z. In r (visible t z c)) (sym (only base p at)) v)
        (λ r v. to_new t wf id ms (base ∷ []) entries after new done c base (self base) r v)
        (same_age t wf base c)
      ∙ sym (inherited-effective t base c)

-- On well-formed tables, a new commit that was recorded on a base inherits, for a chunk that an entry names,
-- what the first such entry says, and for every other chunk what the base inherits; without a base, nothing.
pub apply_commit_incremental-state :
    (hash_bytes : List ℕ → List ℕ) (t : Tables) (ms : ℕ) (base : Option CommitId)
    (entries : List CommitEntry) (after : Tables) (id : CommitId)
    → WellFormed t
    → seq_in t.commits id ≡ none
    → apply_commit_incremental hash_bytes t ms (chain base) entries ≡ ok (after, id)
    → (c : ChunkCoord) → inherited after id c ≡ given t base c (row_of entries c)
unfolding effective_row
apply_commit_incremental-state hash_bytes t ms base entries after id wf new h c =
    let done =
      apply_commit_incremental-Recorded hash_bytes t ms (chain base) entries after id new h in
    let made = new_tables t wf id ms (chain base) entries after new done in
    ap (λ z. inherited z id c) (sym done.result)
    ∙ inherited-effective made id c
    ∙ elim (Option-cases (row_of entries c)) [
      | inl e ↦ base_rows t wf id ms entries after new base done c e ∙ ap (given t base c) (sym e)
      | inr (b, e) ↦
          let (f, i, at, same) = row_of-In entries c b e in
          subst (λ d. blob_of (latest (visible made id d)) ≡ some f.blob) at
            (own_state t wf id ms (chain base) entries after new done f i)
          ∙ ap some same
          ∙ ap (given t base c) (sym e)
    ]

-- On well-formed tables, recording a new commit changes nothing of what another commit inherits.
pub apply_commit_incremental-others :
    (hash_bytes : List ℕ → List ℕ) (t : Tables) (ms : ℕ) (parents : List CommitId)
    (entries : List CommitEntry) (after : Tables) (id : CommitId)
    → WellFormed t
    → seq_in t.commits id ≡ none
    → apply_commit_incremental hash_bytes t ms parents entries ≡ ok (after, id)
    → (k : CommitId) → k ≢ id
    → (c : ChunkCoord) → inherited after k c ≡ inherited t k c
unfolding effective_row
apply_commit_incremental-others hash_bytes t ms parents entries after id wf new h k hk c =
    let done = apply_commit_incremental-Recorded hash_bytes t ms parents entries after id new h in
    let made = new_tables t wf id ms parents entries after new done in
    ap (λ z. inherited z k c) (sym done.result)
    ∙ inherited-effective made k c
    ∙ other_state t wf id ms parents entries after new done k hk c
    ∙ sym (inherited-effective t k c)
