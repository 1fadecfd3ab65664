-- ===== src/Sqlite/Refs/Steps.antt =====
-- The life of a store: the operations that change it, one after another.
use sekai.Base.{
  ℕ, ◌≡◌, refl, ap, ◌∙◌, inl, inr, Bool, false, Option, none, some, List, arith, Bool-cases,
  Option-cases, ◌==◌,
}
use mathlib.Core.Path.{subst}
use sekai.Base.Outcome.{ok, ok_or, >>=-eq-ok, ok_or-eq-ok, ok-injective}
use sekai.Base.Map
use sekai.Util.Hash.{CommitId, commit_id_ord}
use sekai.Util.Commit.{CommitEntry}
use sekai.Util.Name.{RefName, ref_name_ord}
use sekai.Sqlite.{RefRow, CommitRow, Tables, unknown_ref, millis_param, seq_in}
use sekai.Sqlite.Writes.{apply_commit_incremental}
use sekai.Sqlite.Writes.Fresh.{Recorded}
use sekai.Sqlite.Retire.{fold_commit, retire_commit}
use sekai.Util.Commit.{FoldOutcome}
use sekai.Sqlite.WellFormed.{WellFormed}
use sekai.Sqlite.Refs.{
  check_target, upsert_ref, set_ref, delete_ref, clear_active, mark_active, activate_ref,
}
use sekai.Sqlite.Refs.Active.{
  Rows, active_count, Named, Target, Targets, Named-clear, Named-mark, Named-move_ref,
  Named-move_active, Named-follow, active_count-move_ref, active_count-move_active,
  active_count-follow, mark_one,
}
use sekai.Sqlite.Refs.Rows.{
  active_count-insert, Named-insert, active_count-erase, Named-erase, Targets-insert, Targets-erase,
  Targets-move_ref, Targets-clear, Targets-mark, Targets-move_active, Targets-follow,
}

-- Of the refs exactly one is active, their names differ, and their targets are recorded.
pub record RefsSound (t : Tables) : Type 0 where
  pub one_active : active_count t.refs ≡ 1
  pub named : Named t.refs
  pub targets : Targets t.commits t.refs

module _ (hash_bytes : List ℕ → List ℕ) where
  -- An operation that succeeded. A commit is recorded under an identity that is new.
  pub data Step (t after : Tables) : Type 0 where
    ref_set :
        (name : RefName) (commit : Option CommitId) (ms : ℕ)
        → set_ref t name commit ms ≡ ok after
        → Step t after
    ref_deleted :
        (name : RefName) (removed : Bool) → delete_ref t name ≡ ok (after, removed) → Step t after
    ref_activated : (name : RefName) → activate_ref t name ≡ ok after → Step t after
    commit_applied :
        (ms : ℕ) (parents : List CommitId) (entries : List CommitEntry) (id : CommitId)
        → seq_in t.commits id ≡ none
        → apply_commit_incremental hash_bytes t ms parents entries ≡ ok (after, id)
        → Step t after
    commit_retired :
        (from into : CommitId) (out : FoldOutcome)
        → retire_commit t from into ≡ ok (after, out)
        → Step t after

  pub data Steps (t : Tables) : Tables → Type 0 where
    start : Steps t t
    then_step : {u after : Tables} → Steps t u → Step u after → Steps t after

-- what holds of a store
abbrev pub Healthy : Tables → Type 0
Healthy t = WellFormed t × RefsSound t

-- the refs are no matter of the other tables
refs_only : (t : Tables) (refs : Rows) → WellFormed t → WellFormed (record t { refs = refs })
refs_only t refs wf = record {
  row_known = wf.row_known;
  row_unique = wf.row_unique;
  upward = wf.upward;
  seq_below = wf.seq_below;
  seq_unique = wf.seq_unique;
}

check_target-Target :
    (t : Tables) (c : Option CommitId) → check_target t c ≡ ok tt → Target t.commits c
unfolding check_target
check_target-Target t none h = tt
check_target-Target t (some id) h = elim (Option-cases (seq_in t.commits id)) [
  | inl e ↦ absurd (ground (arith, rw (check_target, e) at h))
  | inr (i, e) ↦ (i, e)
]

set_ref-Sound :
    (t : Tables) (name : RefName) (c : Option CommitId) (ms : ℕ)
    → Target t.commits c
    → RefsSound t
    → RefsSound (record t { refs = upsert_ref t.refs name c ms })
unfolding upsert_ref
set_ref-Sound t name c ms target s = elim (Option-cases (Map.get t.refs name)) [
  | inl e ↦
      let row : RefRow = record { commit = c; active = false; created_at_ms = ms } in
      record {
        one_active = rw (upsert_ref, e) (active_count-insert name row t.refs e refl ∙ s.one_active);
        named = rw (upsert_ref, e) (Named-insert name row t.refs e s.named);
        targets = rw (upsert_ref, e) (Targets-insert t.commits name row t.refs target s.targets);
      }
  | inr (old, e) ↦ record {
    one_active = rw (upsert_ref, e) (active_count-move_ref name c t.refs ∙ s.one_active);
    named = rw (upsert_ref, e) (Named-move_ref name c t.refs s.named);
    targets = rw (upsert_ref, e) (Targets-move_ref t.commits name c t.refs target s.targets);
  }
]

-- An operation on refs that succeeded leaves the other tables, and the refs sound.
pub record MovesRefs (t after : Tables) : Type 0 where
  pub refs : Rows
  pub sound : RefsSound (record t { refs = refs })
  pub result : record t { refs = refs } ≡ after

pub MovesRefs-RefsSound : (t after : Tables) → MovesRefs t after → RefsSound after
MovesRefs-RefsSound t after moves = subst RefsSound moves.result moves.sound

pub MovesRefs-Healthy : (t after : Tables) → MovesRefs t after → WellFormed t → Healthy after
MovesRefs-Healthy t after moves wf =
    subst Healthy moves.result (refs_only t moves.refs wf, moves.sound)

pub delete_ref-MovesRefs :
    (t after : Tables) (name : RefName) (removed : Bool)
    → delete_ref t name ≡ ok (after, removed)
    → RefsSound t
    → MovesRefs t after
unfolding delete_ref
delete_ref-MovesRefs t after name removed h s = elim (Option-cases (Map.get t.refs name)) [
  | inl e ↦ record {
    refs = t.refs;
    sound = s;
    result = ap (λ (o : Tables × Bool). o.0) (ok-injective (rw (delete_ref, e) at h));
  }
  | inr (row, e) ↦ elim (Bool-cases row.active) [
    | inl t ↦ absurd (ground (arith, rw (delete_ref, e, t) at h))
    | inr f ↦ record {
      refs = Map.erase name t.refs;
      sound = record {
        one_active = active_count-erase name row t.refs s.named e f ∙ s.one_active;
        named = Named-erase name t.refs s.named;
        targets = Targets-erase t.commits name t.refs s.targets;
      };
      result = ap (λ (o : Tables × Bool). o.0) (ok-injective (rw (delete_ref, e, f) at h));
    }
  ]
]

pub activate_ref-MovesRefs :
    (t after : Tables) (name : RefName)
    → activate_ref t name ≡ ok after
    → RefsSound t
    → MovesRefs t after
unfolding activate_ref
activate_ref-MovesRefs t after name h s =
    let (row, e, h1) = >>=-eq-ok (ok_or (Map.get t.refs name) (unknown_ref name)) _ h in
    let (_, _, h2) = >>=-eq-ok (check_target t row.commit) _ h1 in
    record {
      refs = mark_active name (clear_active t.refs);
      sound = record {
        one_active = mark_one name t.refs row s.named (ok_or-eq-ok _ (unknown_ref name) e);
        named = Named-mark name (clear_active t.refs) (Named-clear t.refs s.named);
        targets =
            Targets-mark t.commits name (clear_active t.refs)
              (Targets-clear t.commits t.refs s.targets);
      };
      result = ok-injective h2;
    }

pub applied-Sound :
    (t : Tables) (id : CommitId) (ms : ℕ) (parents : List CommitId) (entries : List CommitEntry)
    (after : Tables)
    → seq_in t.commits id ≡ none
    → Recorded t id ms parents entries after
    → RefsSound t
    → RefsSound after
applied-Sound t id ms parents entries after new done s =
    let row : CommitRow = record { seq = t.next_seq; id = id; created_at_ms = ms } in
    subst RefsSound done.result (record {
      one_active = active_count-move_active id t.refs ∙ s.one_active;
      named = Named-move_active id t.refs s.named;
      targets = Targets-move_active t.commits row t.refs new s.targets;
    })

pub retired-Sound :
    (t : Tables) (from into : CommitId) (i j : ℕ)
    → (from == into) ≡ false
    → seq_in t.commits into ≡ some j
    → RefsSound t
    → RefsSound (fold_commit t from i into j)
unfolding fold_commit
retired-Sound t from into i j f e s = record {
  one_active = active_count-follow from into t.refs ∙ s.one_active;
  named = Named-follow from into t.refs s.named;
  targets = Targets-follow t.commits from into j t.refs f e s.targets;
}

pub set_ref-MovesRefs :
    (t after : Tables) (name : RefName) (c : Option CommitId) (ms : ℕ)
    → set_ref t name c ms ≡ ok after
    → RefsSound t
    → MovesRefs t after
unfolding set_ref
set_ref-MovesRefs t after name c ms h s =
    let (m, _, h1) = >>=-eq-ok (millis_param ms) _ h in
    let (_, target, h2) = >>=-eq-ok (check_target t c) _ h1 in
    record {
      refs = upsert_ref t.refs name c m;
      sound = set_ref-Sound t name c m (check_target-Target t c target) s;
      result = ok-injective h2;
    }
