-- ===== src/Sqlite/Refs/Reach.antt =====
-- What holds of every store that operations can bring about.
use sekai.Base.{
  ℕ, ◌≡◌, refl, sym, inl, inr, true, Option, none, some, List, [], ◌∷◌, filter, contains, arith,
  Bool-cases,
}
use mathlib.Core.Path.{subst}
use mathlib.Core.Option.{some-injective}
use sekai.Base.Map
use sekai.Base.Outcome.{ok}
use sekai.Util.Hash.{CommitId, commit_id_ord}
use sekai.Util.Name.{RefName}
use sekai.Sqlite.{RefRow, CommitRow, Tables, seq_in, parents_in}
use sekai.Sqlite.Open.{new_store}
use sekai.Sqlite.Writes.Fresh.{apply_commit_incremental-Recorded}
use sekai.Sqlite.Writes.Sound.{apply_commit_incremental-WellFormed}
use sekai.Sqlite.Retire.Descent.{differ}
use sekai.Sqlite.Retire.Effective.{retire_commit-Foldable, into-ne-from}
use sekai.Sqlite.Retire.Sound.{retire_commit-WellFormed}
use sekai.Sqlite.Refs.{CommitRef, decode_ref, check_target, find_active, active_ref}
use sekai.Sqlite.Refs.Active.{Rows, active_count, Named, Target, Targets}
use sekai.Sqlite.Refs.Life.{Life, Life-RefsSound}
use sekai.Sqlite.Refs.Steps.{
  RefsSound, Healthy, Step, ref_set, ref_deleted, ref_activated, commit_applied, commit_retired,
  Steps, start, then_step, MovesRefs-Healthy, delete_ref-MovesRefs, activate_ref-MovesRefs,
  set_ref-MovesRefs, applied-Sound, retired-Sound,
}

pub new_store-Healthy : (now_ms : ℕ) → Healthy (new_store now_ms)
unfolding new_store active_count Named Targets seq_in parents_in contains filter Map.get
new_store-Healthy now_ms = (
  record {
    row_known = λ r i. absurd i;
    row_unique = λ r s i. absurd i;
    upward = λ c p h. absurd (ground (arith, h));
    seq_below = λ id i h. absurd (ground (arith, h));
    seq_unique = λ a b i h. absurd (ground (arith, h));
  },
  record { one_active = refl; named = (refl, tt); targets = (tt, tt) },
)

module _ (hash_bytes : List ℕ → List ℕ) where
  -- One operation that succeeds keeps what holds.
  pub Step-Healthy : (t after : Tables) → Step hash_bytes t after → Healthy t → Healthy after
  Step-Healthy t after (ref_set name commit ms h) (wf, s) =
      MovesRefs-Healthy t after (set_ref-MovesRefs t after name commit ms h s) wf
  Step-Healthy t after (ref_deleted name removed h) (wf, s) =
      MovesRefs-Healthy t after (delete_ref-MovesRefs t after name removed h s) wf
  Step-Healthy t after (ref_activated name h) (wf, s) =
      MovesRefs-Healthy t after (activate_ref-MovesRefs t after name h s) wf
  Step-Healthy t after (commit_applied ms parents entries id new h) (wf, s) = (
    apply_commit_incremental-WellFormed hash_bytes t ms parents entries after id wf new h,
    applied-Sound t id ms parents entries after new
        (apply_commit_incremental-Recorded hash_bytes t ms parents entries after id new h) s,
  )
  Step-Healthy t after (commit_retired from into out h) (wf, s) =
      let (i, j, fo, e) = retire_commit-Foldable t from into after out h in
      let apart = differ from into (λ k. into-ne-from t wf from into i j fo (sym k)) in
      (
        retire_commit-WellFormed t from into after out wf h,
        subst RefsSound e (retired-Sound t from into i j apart fo.into_known s),
      )

  -- Whatever operations succeed, one after another, on well-formed tables with one active ref, refs
  -- of different names and recorded targets, they leave the tables so.
  pub Steps-Healthy : (t after : Tables) → Steps hash_bytes t after → Healthy t → Healthy after
  Steps-Healthy t after start healthy = healthy
  Steps-Healthy t after (then_step {u = u} before step) healthy =
      Step-Healthy u after step (Steps-Healthy t u before healthy)

-- the row that the flag marks
find_active-one :
    (rows : Rows)
    → active_count rows ≡ 1
    → (found : RefName × RefRow) × (find_active rows ≡ some found) × (found.1.active ≡ true)
unfolding active_count find_active
find_active-one [] h = absurd (omega (arith, h))
find_active-one ((n, row) ∷ rows) h = elim (Bool-cases row.active) [
  | inl t ↦ ((n, row), rw (find_active, t) refl, t)
  | inr f ↦
      let (found, e, k) = find_active-one rows (rw (active_count, f) at h) in
      (found, rw (find_active, f) e, k)
]

find_active-Target :
    (commits : List CommitRow) (rows : Rows) (found : RefName × RefRow)
    → find_active rows ≡ some found
    → Targets commits rows
    → Target commits found.1.commit
unfolding find_active Targets
find_active-Target commits [] found e h = absurd (ground (arith, e))
find_active-Target commits ((n, row) ∷ rows) found e (hn, hs) = elim (Bool-cases row.active) [
  | inl t ↦
      subst (λ (o : RefName × RefRow). Target commits o.1.commit)
        (some-injective _ _ (rw (find_active, t) at e)) hn
  | inr f ↦ find_active-Target commits rows found (rw (find_active, f) at e) hs
]

check_target-ok : (t : Tables) (c : Option CommitId) → Target t.commits c → check_target t c ≡ ok tt
unfolding check_target
check_target-ok t none h = refl
check_target-ok t (some id) (i, h) = rw (check_target, h) refl

-- In every store that successful changes of refs, commits and rows bring about from a new one,
-- whatever their order, a commit that is recorded again included, `active_ref` succeeds with a ref
-- that is active.
pub active_ref-always :
    (hash_bytes : List ℕ → List ℕ) (now_ms : ℕ) (t : Tables)
    → Life hash_bytes (new_store now_ms) t
    → (ref : CommitRef) × (active_ref t ≡ ok (some ref)) × (ref.active ≡ true)
unfolding active_ref
active_ref-always hash_bytes now_ms t life =
    let (_, new) = new_store-Healthy now_ms in
    let s = Life-RefsSound hash_bytes (new_store now_ms) t life new in
    let (found, e, k) = find_active-one t.refs s.one_active in
    (
      decode_ref found,
      rw
          (
            active_ref,
            e,
            check_target-ok t found.1.commit
                (find_active-Target t.commits t.refs found e s.targets),
          )
          refl,
      k,
    )
