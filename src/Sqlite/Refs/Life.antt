-- ===== src/Sqlite/Refs/Life.antt =====
-- The life of a store in full: every operation that changes commits, rows or refs, a commit that is
-- recorded again included.
use sekai.Base.{
  ℕ, ◌≡◌, refl, sym, ap, ◌∙◌, inl, inr, Bool, false, ◌==◌, Option, none, some, List, [], ◌∷◌, arith,
  Bool-cases, Option-cases, if◌then◌else◌,
}
use mathlib.Core.Path.{subst}
use mathlib.Core.Option.{some-injective}
use sekai.Base.Outcome.{ok, ok_or, >>=-eq-ok, ok_or-eq-ok, ok-injective}
use sekai.Util.Coord.{ChunkCoord}
use sekai.Util.Hash.{ChunkHash, CommitId, commit_id_ord}
use sekai.Util.Commit.{CommitEntry, FoldOutcome}
use sekai.Util.Name.{RefName}
use sekai.Core.Identity.{commit_hash}
use sekai.Sqlite.{Tables, CommitRow, backend, unknown_commit, millis_param, seq_in}
use sekai.Sqlite.Writes.{
  check_parents, add_commit, insert_commit, insert_chunk, insert_chunks, record_chunk, move_active,
  check_active, create_commit, apply_commit_incremental,
}
use sekai.Sqlite.Writes.Fresh.{seq_in-snoc}
use sekai.Sqlite.Retire.{retire_commit}
use sekai.Sqlite.Retire.Descent.{differ}
use sekai.Sqlite.Retire.Effective.{Foldable, retire_commit-Foldable}
use sekai.Sqlite.Refs.{set_ref, delete_ref, activate_ref}
use sekai.Sqlite.Refs.Active.{
  Rows, active_count, Named, Target, Targets, Named-move_active, active_count-move_active,
}
use sekai.Sqlite.Refs.Steps.{
  RefsSound, MovesRefs-RefsSound, delete_ref-MovesRefs, activate_ref-MovesRefs, set_ref-MovesRefs,
  retired-Sound,
}

module _ (hash_bytes : List ℕ → List ℕ) where
  -- An operation that succeeded, whether or not the commit that it records was there before.
  pub data Change (t after : Tables) : Type 0 where
    ref_changed :
        (name : RefName) (commit : Option CommitId) (ms : ℕ)
        → set_ref t name commit ms ≡ ok after
        → Change t after
    ref_dropped :
        (name : RefName) (removed : Bool) → delete_ref t name ≡ ok (after, removed) → Change t after
    ref_selected : (name : RefName) → activate_ref t name ≡ ok after → Change t after
    commit_created :
        (ms : ℕ) (parents : List CommitId) (id : CommitId)
        → create_commit hash_bytes t ms parents ≡ ok (after, id)
        → Change t after
    chunk_recorded :
        (commit : CommitId) (coord : ChunkCoord) (blob : Option ChunkHash)
        → record_chunk t commit coord blob ≡ ok after
        → Change t after
    commit_recorded :
        (ms : ℕ) (parents : List CommitId) (entries : List CommitEntry) (id : CommitId)
        → apply_commit_incremental hash_bytes t ms parents entries ≡ ok (after, id)
        → Change t after
    commit_folded :
        (from into : CommitId) (out : FoldOutcome)
        → retire_commit t from into ≡ ok (after, out)
        → Change t after

  pub data Life (t : Tables) : Tables → Type 0 where
    untouched : Life t t
    then_change : {u after : Tables} → Life t u → Change u after → Life t after

-- Every commit of one table is in another.
abbrev Grows : List CommitRow → List CommitRow → Type 0
Grows before after =
    (x : CommitId) (i : ℕ) → seq_in before x ≡ some i → (j : ℕ) × (seq_in after x ≡ some j)

Target-Grows :
    (before after : List CommitRow) (c : Option CommitId)
    → Grows before after
    → Target before c
    → Target after c
Target-Grows before after none grows h = tt
Target-Grows before after (some id) grows (i, h) = grows id i h

Targets-Grows :
    (before after : List CommitRow) (rows : Rows)
    → Grows before after
    → Targets before rows
    → Targets after rows
unfolding Targets
Targets-Grows before after [] grows h = tt
Targets-Grows before after ((n, x) ∷ rows) grows (h, hs) =
    (Target-Grows before after x.commit grows h, Targets-Grows before after rows grows hs)

Targets-moved :
    (commits : List CommitRow) (id : CommitId) (rows : Rows)
    → Target commits (some id)
    → Targets commits rows
    → Targets commits (move_active rows id)
unfolding Targets move_active
Targets-moved commits id [] at h = tt
Targets-moved commits id ((n, x) ∷ rows) at (h, hs) = elim (Bool-cases x.active) [
  | inl t ↦ rw (move_active, t) (at, Targets-moved commits id rows at hs)
  | inr f ↦ rw (move_active, f) (h, Targets-moved commits id rows at hs)
]

-- What inserting a commit, new or not, leaves.
record Grown (t after : Tables) (id : CommitId) : Type 0 where
  refs_same : after.refs ≡ t.refs
  grows : Grows t.commits after.commits
  there : (j : ℕ) × (seq_in after.commits id ≡ some j)

add_commit-refs : (t : Tables) (id : CommitId) (ms : ℕ) → (add_commit t id ms).refs ≡ t.refs
unfolding add_commit
add_commit-refs t id ms = elim (Option-cases (seq_in t.commits id)) [
  | inl e ↦ rw (add_commit, e) refl
  | inr (i, e) ↦ rw (add_commit, e) refl
]

add_commit-Grows :
    (t : Tables) (id : CommitId) (ms : ℕ) → Grows t.commits (add_commit t id ms).commits
unfolding add_commit
add_commit-Grows t id ms x i h = elim (Option-cases (seq_in t.commits id)) [
  | inr (k, e) ↦ (i, rw (add_commit, e) h)
  | inl e ↦ (i, rw (add_commit, e) (seq_in-snoc t.commits _ x ∙ rw h refl))
]

insert_commit-Grown :
    (t : Tables) (id : CommitId) (ms : ℕ) (parents : List CommitId) (out : Tables × ℕ × Bool)
    → insert_commit t id ms parents ≡ ok out
    → Grown t out.0 id
unfolding insert_commit
insert_commit-Grown t id ms parents out h =
    let (_, _, h1) = >>=-eq-ok (check_parents t.commits parents) _ h in
    let (m, _, h2) = >>=-eq-ok (millis_param ms) _ h1 in
    let (seq, e, h3) = >>=-eq-ok (ok_or (seq_in (add_commit t id m).commits id) backend) _ h2 in
    let made = ok-injective h3 in
    subst (λ (o : Tables × ℕ × Bool). Grown t o.0 id) made
      (record {
        refs_same = add_commit-refs t id m;
        grows = add_commit-Grows t id m;
        there = (seq, ok_or-eq-ok _ backend e);
      })

-- The refs are no matter of the rows and the links.
Grown-RefsSound :
    (t after : Tables) (id : CommitId) → Grown t after id → RefsSound t → RefsSound after
Grown-RefsSound t after id grown s = record {
  one_active = ap active_count grown.refs_same ∙ s.one_active;
  named = subst Named (sym grown.refs_same) s.named;
  targets =
      subst (Targets after.commits) (sym grown.refs_same)
        (Targets-Grows t.commits after.commits t.refs grown.grows s.targets);
}

moved-RefsSound :
    (t : Tables) (id : CommitId)
    → Target t.commits (some id)
    → RefsSound t
    → RefsSound (record t { refs = move_active t.refs id })
moved-RefsSound t id there s = record {
  one_active = active_count-move_active id t.refs ∙ s.one_active;
  named = Named-move_active id t.refs s.named;
  targets = Targets-moved t.commits id t.refs there s.targets;
}

with_history : (t : Tables) {history : _} → RefsSound t → RefsSound (record t { history = history })
with_history t s = record { one_active = s.one_active; named = s.named; targets = s.targets }

module _ (hash_bytes : List ℕ → List ℕ) where
  created-RefsSound :
      (t after : Tables) (ms : ℕ) (parents : List CommitId) (id : CommitId)
      → create_commit hash_bytes t ms parents ≡ ok (after, id)
      → RefsSound t
      → RefsSound after
  unfolding create_commit
  created-RefsSound t after ms parents id h s =
      let made = commit_hash hash_bytes parents ms [] in
      let (done, e, h1) = >>=-eq-ok (insert_commit t made ms parents) _ h in
      subst RefsSound (ap (λ (o : Tables × CommitId). o.0) (ok-injective h1))
        (Grown-RefsSound t done.0 made (insert_commit-Grown t made ms parents done e) s)

  recorded-RefsSound :
      (t after : Tables) (ms : ℕ) (parents : List CommitId) (entries : List CommitEntry)
      (id : CommitId)
      → apply_commit_incremental hash_bytes t ms parents entries ≡ ok (after, id)
      → RefsSound t
      → RefsSound after
  unfolding apply_commit_incremental
  recorded-RefsSound t after ms parents entries id h s =
      let made = commit_hash hash_bytes parents ms entries in
      let (_, _, h1) = >>=-eq-ok (check_active t.refs parents) _ h in
      let (done, e, h2) = >>=-eq-ok (insert_commit t made ms parents) _ h1 in
      let (history, _, h3) =
        >>=-eq-ok
          (if done.2 then insert_chunks done.0.history made done.1 entries else ok done.0.history) _
          h2 in
      let grown = insert_commit-Grown t made ms parents done e in
      subst RefsSound (ap (λ (o : Tables × CommitId). o.0) (ok-injective h3)) (
        with_history (record done.0 { refs = move_active done.0.refs made })
          (moved-RefsSound done.0 made grown.there (Grown-RefsSound t done.0 made grown s)))

chunk-RefsSound :
    (t after : Tables) (commit : CommitId) (coord : ChunkCoord) (blob : Option ChunkHash)
    → record_chunk t commit coord blob ≡ ok after
    → RefsSound t
    → RefsSound after
unfolding record_chunk
chunk-RefsSound t after commit coord blob h s =
    let (seq, _, h1) = >>=-eq-ok (ok_or (seq_in t.commits commit) (unknown_commit commit)) _ h in
    let (history, _, h2) = >>=-eq-ok (insert_chunk t.history commit seq coord blob) _ h1 in
    subst RefsSound (ok-injective h2) (with_history t s)

folded-apart :
    (t : Tables) (from into : CommitId) (i j : ℕ)
    → Foldable t from into i j
    → (from == into) ≡ false
folded-apart t from into i j fo = differ from into (λ k.
    let same = some-injective _ _ (sym fo.from_known ∙ ap (seq_in t.commits) k ∙ fo.into_known) in
    absurd (omega (arith, same, fo.later)))

module _ (hash_bytes : List ℕ → List ℕ) where
  Change-RefsSound : (t after : Tables) → Change hash_bytes t after → RefsSound t → RefsSound after
  Change-RefsSound t after (ref_changed name commit ms h) s =
      MovesRefs-RefsSound t after (set_ref-MovesRefs t after name commit ms h s)
  Change-RefsSound t after (ref_dropped name removed h) s =
      MovesRefs-RefsSound t after (delete_ref-MovesRefs t after name removed h s)
  Change-RefsSound t after (ref_selected name h) s =
      MovesRefs-RefsSound t after (activate_ref-MovesRefs t after name h s)
  Change-RefsSound t after (commit_created ms parents id h) s =
      created-RefsSound hash_bytes t after ms parents id h s
  Change-RefsSound t after (chunk_recorded commit coord blob h) s =
      chunk-RefsSound t after commit coord blob h s
  Change-RefsSound t after (commit_recorded ms parents entries id h) s =
      recorded-RefsSound hash_bytes t after ms parents entries id h s
  Change-RefsSound t after (commit_folded from into out h) s =
      let (i, j, fo, e) = retire_commit-Foldable t from into after out h in
      subst RefsSound e
        (retired-Sound t from into i j (folded-apart t from into i j fo) fo.into_known s)

  pub Life-RefsSound : (t after : Tables) → Life hash_bytes t after → RefsSound t → RefsSound after
  Life-RefsSound t after untouched s = s
  Life-RefsSound t after (then_change {u = u} before change) s =
      Change-RefsSound u after change (Life-RefsSound t u before s)
