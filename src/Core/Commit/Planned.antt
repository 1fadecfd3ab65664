-- ===== src/Core/Commit/Planned.antt =====
-- What `plan_commit` hands to the ingest pass, and what the rows assembled from its plan are.
use sekai.Base.{
  ◌≡◌, refl, sym, ap, ◌∙◌, inl, inr, true, not, ◌&&◌, Option, none, some, List, [], ◌∷◌, map, any,
  contains, filter, arith, Bool-cases, ◌==◌, contains-filter,
}
use mathlib.Core.Path.{subst}
use sekai.Base.Outcome.{ok, >>=-eq-ok, ok-injective}
use sekai.Base.Set
use sekai.Base.Set.{contains-from}
use sekai.Base.Map
use sekai.Base.Map.{keys, contains-keys, get-insert}
use sekai.Util.Coord.{ChunkCoord, RegionKey, region_of, coord_ord, key_ord}
use sekai.Util.Scope.{Scope, scope_matches}
use sekai.Util.Hash.{CommitId, chunk_hash_ord}
use sekai.Util.Commit.{Commit, ChunkHistoryEntry}
use sekai.Core.Port.{MetaStore}
use sekai.Core.Commit.BaseState.{IsBase, IsState, base_of-IsBase, base_state-IsState}
use sekai.Core.Commit.{
  State, Previous, Plan, is_some, present_rows, removed_regions, plan_of, base_of, base_state,
  plan_commit,
}

-- Every row of the state is present.
unfoldable pub AllPresent : State → Type 0
AllPresent state =
    (c : ChunkCoord) (e : ChunkHistoryEntry) → Map.get state c ≡ some e → is_some e.blob ≡ true

AllPresent-insert :
    (k : ChunkCoord) (e : ChunkHistoryEntry) (state : State)
    → is_some e.blob ≡ true
    → AllPresent state
    → AllPresent (Map.insert k e state)
unfolding AllPresent
AllPresent-insert k e state full h c x found =
    ground (arith, get-insert k c e state, h c x, found, full)

AllPresent-present_rows :
    (rows : List ChunkHistoryEntry) (state : State)
    → AllPresent state
    → AllPresent (present_rows rows state)
unfolding present_rows
AllPresent-present_rows [] state h = h
AllPresent-present_rows (e ∷ rows) state h = elim (Bool-cases (is_some e.blob)) [
  | inl full ↦
      rw (present_rows, full)
        (AllPresent-present_rows rows (Map.insert e.coord e state)
          (AllPresent-insert e.coord e state full h))
  | inr gone ↦ rw (present_rows, gone) (AllPresent-present_rows rows state h)
]

AllPresent-empty : AllPresent []
unfolding AllPresent Map.get
AllPresent-empty c x found = absurd (cc found)

module _ {Store M : Type 0} (m : MetaStore Store M) where
  pub base_state-AllPresent :
      (store : Store) (base : Option Commit) {state : State}
      → base_state m store base ≡ ok state
      → AllPresent state
  unfolding base_state
  base_state-AllPresent store none e = subst AllPresent (ok-injective e) AllPresent-empty
  base_state-AllPresent store (some base) e =
      let (rows, _, at) = >>=-eq-ok (m.visit_commit_chunks store base.id) _ e in
      subst AllPresent (ok-injective at) (AllPresent-present_rows rows [] AllPresent-empty)

  -- the parts of a plan that was made
  pub plan_commit-eq-ok :
      (store : Store) (discovered : List RegionKey) (scope : Scope) (previous : Previous)
      (plan : Plan)
      → plan_commit m store discovered scope ≡ ok (previous, plan)
      → (base_state m store previous.commit ≡ ok previous.state)
        × (plan_of discovered scope previous.state ≡ plan)
  unfolding plan_commit
  plan_commit-eq-ok store discovered scope previous plan e =
      let (active, _, e1) = >>=-eq-ok (m.active_ref store) _ e in
      let (base, _, e2) = >>=-eq-ok (base_of m store active) _ e1 in
      let (state, read, e3) = >>=-eq-ok (base_state m store base) _ e2 in
      let both = ok-injective e3 in
      let before = ap (λ (t : Previous × Plan). t.0) both in
      let at : state ≡ previous.state = ap (λ (r : Previous). r.state) before in
      (
        subst (λ c. base_state m store c ≡ ok previous.state)
            (ap (λ (r : Previous). r.commit) before) (read ∙ ap ok at),
        ap (plan_of discovered scope) (sym at) ∙ ap (λ (t : Previous × Plan). t.1) both,
      )

contains-map :
    (cs : List ChunkCoord) (key : RegionKey)
    → contains (map region_of cs) key ≡ any (λ c. region_of c == key) cs
unfolding contains
contains-map [] key = refl
contains-map (c ∷ cs) key = ground (arith, contains-map cs key)

-- The regions of a plan.
plan_of_exact :
    (discovered : List RegionKey) (scope : Scope) (state : State) (key : RegionKey)
    → (contains (plan_of discovered scope state).ingest key
        ≡ (contains discovered key && scope_matches scope key))
      × (contains (plan_of discovered scope state).discovered key
          ≡ (contains discovered key && scope_matches scope key))
      × (contains (plan_of discovered scope state).removed key ≡ (
          any (λ c. region_of c == key) (keys state)
          && (scope_matches scope key && not (contains discovered key))))
unfolding plan_of removed_regions
plan_of_exact discovered scope state key =
    let inside = contains-filter (scope_matches scope) discovered key in
    let found = contains-from key (filter (scope_matches scope) discovered) in
    let gone = λ (k : RegionKey).
      scope_matches scope k
      && not (contains (Set.from (filter (scope_matches scope) discovered)) k) in
    (
      inside,
      found ∙ inside,
      contains-from key (filter gone (map region_of (keys state)))
          ∙ contains-filter gone (map region_of (keys state)) key
          ∙ rw (contains-map (keys state) key, found, inside) (ground arith),
    )

module _ {Store M : Type 0} (m : MetaStore Store M) where
  plan_commit-IsBase :
      (store : Store) (discovered : List RegionKey) (scope : Scope) (previous : Previous)
      (plan : Plan)
      → plan_commit m store discovered scope ≡ ok (previous, plan)
      → (active : Option (Option CommitId)) × (m.active_ref store ≡ ok active)
        × IsBase m store active previous.commit
  unfolding plan_commit
  plan_commit-IsBase store discovered scope previous plan e =
      let (active, named, e1) = >>=-eq-ok (m.active_ref store) _ e in
      let (base, found, e2) = >>=-eq-ok (base_of m store active) _ e1 in
      let (state, _, e3) = >>=-eq-ok (base_state m store base) _ e2 in
      (
        active,
        named,
        subst (IsBase m store active) (ap (λ (t : Previous × Plan). t.0.commit) (ok-injective e3))
            (base_of-IsBase m store active base found),
      )

  -- The base of a plan that was made is the record of the commit that the active ref names, and
  -- there is none where the ref names no commit. The state holds of each chunk the present row that
  -- a visit of the effective rows of the base gives, and none without a base. The plan lists for
  -- ingestion, and holds as discovered, the discovered regions that the scope matches. It reports
  -- as removed the regions that the scope matches, that were not discovered, and that hold a chunk
  -- of the state.
  pub plan_commit_exact :
      (store : Store) (discovered : List RegionKey) (scope : Scope) (previous : Previous)
      (plan : Plan)
      → plan_commit m store discovered scope ≡ ok (previous, plan)
      → ((active : Option (Option CommitId)) × (m.active_ref store ≡ ok active)
          × IsBase m store active previous.commit)
        × IsState m store previous.commit previous.state
        × ((key : RegionKey)
            → (contains plan.ingest key ≡ (contains discovered key && scope_matches scope key))
              × (contains plan.discovered key
                  ≡ (contains discovered key && scope_matches scope key))
              × (contains plan.removed key ≡ (
                  any (λ c. region_of c == key) (keys previous.state)
                  && (scope_matches scope key && not (contains discovered key)))))
  plan_commit_exact store discovered scope previous plan e =
      let (read, at) = plan_commit-eq-ok m store discovered scope previous plan e in
      (
        plan_commit-IsBase store discovered scope previous plan e,
        base_state-IsState m store previous.commit previous.state read,
        λ key.
            subst
              (λ (p : Plan).
                (contains p.ingest key ≡ (contains discovered key && scope_matches scope key))
                × (contains p.discovered key ≡ (contains discovered key && scope_matches scope key))
                × (contains p.removed key ≡ (
                    any (λ c. region_of c == key) (keys previous.state)
                    && (scope_matches scope key && not (contains discovered key)))))
              at (plan_of_exact discovered scope previous.state key),
      )
