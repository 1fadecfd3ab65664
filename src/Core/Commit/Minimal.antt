-- ===== src/Core/Commit/Minimal.antt =====
-- The rows of a commit are changes: nothing that the base commit already says is written again.
use sekai.Base.{
  ◌≡◌, ◌≢◌, refl, sym, ◌∙◌, inl, inr, true, not, ◌&&◌, Option, none, some, List, map, contains,
  filter, All, All-contains, All-append, All-map, All-filter, arith, Option-cases, option_beq,
  option_beq_iff,
}
use sekai.Base.Outcome.{ok}
use sekai.Base.Map
use sekai.Base.Map.{keys}
use sekai.Util.Coord.{ChunkCoord, RegionKey, coord_ord}
use sekai.Util.Scope.{Scope, scope_contains}
use sekai.Util.Hash.{ChunkHash, chunk_hash_ord}
use sekai.Util.Commit.{CommitEntry}
use sekai.Core.Port.{MetaStore}
use sekai.Core.Commit.{
  State, Previous, Plan, Ingested, is_some, plan_commit, is_fresh, vanished, tombstone, assemble,
}
use sekai.Core.Commit.Delta.{base_blob, IsScan, contains-vanished}
use sekai.Core.Commit.Planned.{AllPresent, base_state-AllPresent, plan_commit-eq-ok}

-- A row that says what was scanned of a chunk of the scope, and that the base says otherwise.
abbrev pub IsChange : State → Scope → (ChunkCoord → Option ChunkHash) → CommitEntry → Type 0
IsChange state scope scan e =
    (scan e.coord ≡ e.blob)
    × (scope_contains scope e.coord ≡ true)
    × (base_blob state e.coord ≢ e.blob)

fresh-differs :
    (state : State) (e : CommitEntry)
    → e.blob ≢ none
    → is_fresh state e ≡ true
    → base_blob state e.coord ≢ e.blob
unfolding is_fresh
fresh-differs state e full fresh same = elim (Option-cases (Map.get state e.coord)) [
  | inl out ↦ let b : base_blob state e.coord ≡ none = rw (base_blob, out) in full (sym same ∙ b)
  | inr (base, at) ↦
      let b : base_blob state e.coord ≡ base.blob = rw (base_blob, at) in
      let kept : is_fresh state e ≡ not (option_beq base.blob e.blob) = rw (is_fresh, at) in
      let equal : option_beq base.blob e.blob ≡ true =
        (option_beq_iff base.blob e.blob).1 (sym b ∙ same) in
      absurd (cc (kept, equal, fresh))
]

scanned : (found blob : Option ChunkHash) → found ≡ blob → blob ≢ none → is_some found ≡ true
scanned none blob e full = absurd (full (sym e))
scanned (some h) blob e full = refl

vanished-IsChange :
    (state : State) (scope : Scope) (scan : ChunkCoord → Option ChunkHash)
    (present : List ChunkCoord)
    → AllPresent state
    → ((c : ChunkCoord) → contains present c ≡ is_some (scan c))
    → (c : ChunkCoord) → contains (vanished scope present (keys state)) c ≡ true
    → IsChange state scope scan (tombstone c)
unfolding AllPresent
vanished-IsChange state scope scan present full same c gone =
    let parts : (is_some (Map.get state c) && (scope_contains scope c && not (is_some (scan c))))
        ≡ true =
      rw (← same c) (sym (contains-vanished scope present state c) ∙ gone) in
    elim (Option-cases (Map.get state c)) [
      | inl out ↦ absurd (ground (arith, parts, out))
      | inr (base, at) ↦
          let b : base_blob state c ≡ base.blob = rw (base_blob, at) in
          (
            ground (arith, parts),
            ground (arith, parts),
            λ e. absurd (ground (arith, full c base at, sym b ∙ e)),
          )
    ]

module _ {Store M : Type 0} (m : MetaStore Store M) where
  -- For a plan that `plan_commit` made and a scan of its scope, every row that `assemble` records
  -- is of a chunk of the scope, says what was scanned of it, and differs from what the base commit
  -- says of it: no unchanged chunk is recorded, and no tombstone twice.
  pub assemble_minimal :
      (store : Store) (discovered : List RegionKey) (scope : Scope) (previous : Previous)
      (plan : Plan) (ingested : Ingested) (scan : ChunkCoord → Option ChunkHash)
      → plan_commit m store discovered scope ≡ ok (previous, plan)
      → IsScan scan scope ingested
      → All (IsChange previous.state scope scan) (assemble plan previous ingested scope).entries
  unfolding assemble
  assemble_minimal store discovered scope previous plan ingested scan e is =
      let (read, _) = plan_commit-eq-ok m store discovered scope previous plan e in
      let full = base_state-AllPresent m store previous.commit read in
      let gone = vanished scope ingested.present (keys previous.state) in
      All-append _ (filter (is_fresh previous.state) ingested.entries) (map tombstone gone)
        (All-filter _ (is_fresh previous.state) ingested.entries
          (λ r (row, at) fresh. (
            at,
            is.inside r.coord (scanned (scan r.coord) r.blob at row),
            fresh-differs previous.state r row fresh,
          ))
          is.rows)
        (All-map _ tombstone gone (
          All-contains gone
            (vanished-IsChange previous.state scope scan ingested.present full is.present-scan)))
