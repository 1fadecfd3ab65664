-- ===== src/Examples/Sqlite.antt =====
-- A store in SQLite from its creation: two commits of one chunk, of which the first is retired.
use sekai.Base.{
  ℕ, ◌≡◌, ◌≢◌, refl, sym, true, not, ◌&&◌, Option, none, some, List, [], ◌∷◌, length, ◌↔◌, filter,
  contains, if◌then◌else◌, ◌==◌, arith,
}
use sekai.Base.Map
use sekai.Base.Set
use sekai.Base.Bytes.{to_be_bytes}
use sekai.Base.Map.{keys}
use sekai.Base.Outcome.{ok}
use sekai.Util.Coord.{key_ord}
use sekai.Util.Scope.{world, scope_contains, scope_matches}
use sekai.Util.Hash.{CommitId, commit_id_ord, commit_id_beq_iff}
use sekai.Util.Commit.{CommitEntry}
use sekai.Core.Identity.{commit_hash}
use sekai.Core.Commit.{Previous, CommitReport, plan_commit, assemble, record_commit}
use sekai.Sqlite.{millis_param, Tables, CommitRow, HistoryRow, Edge, seq_in, parents_in, ancestors}
use sekai.Sqlite.Writes.{apply_commit_incremental, add_edges, insert_chunk}
use sekai.Sqlite.Reads.{visit_commit_chunks, lookup_commit}
use sekai.Sqlite.Retire.{retire_commit, fold_commit, count_rows}
use sekai.Util.Commit.{FoldOutcome}
use sekai.Sqlite.Refs.{CommitRef, set_ref, active_ref}
use sekai.Sqlite.Refs.Life.{
  Life, untouched, then_change, ref_changed, commit_recorded, commit_folded,
}
use sekai.Sqlite.Refs.Reach.{new_store-Healthy, Steps-Healthy, active_ref-always}
use sekai.Sqlite.Refs.Steps.{Healthy, Steps, start, then_step, commit_applied, commit_retired}
use sekai.Sqlite.Open.{default_ref_name, new_store}
use sekai.Examples.Stores.{live, orphan, kept}
use sekai.Examples.Commits.{discovered, planned, scan, ingested, ingested-IsScan}
use sekai.Core.Commit.Delta.{row_of}
use sekai.Sqlite.Latest.{inherited}
use sekai.Sqlite.Closure.{IsAncestor, ancestors_exact}
use sekai.Sqlite.WellFormed.{ancestors_refl}
use sekai.Sqlite.Writes.Effect.{
  given, at_base, apply_commit_incremental-state, apply_commit_incremental-others,
}
use sekai.Sqlite.Retire.Linear.{Linear, retire_commit-history, retire_commit-retained}
use sekai.Sqlite.Store.{sqlite_meta, committed}
use sekai.Sqlite.Store.Visits.{present}
use sekai.Sqlite.Store.Restore.{base_id, record_commit-restores}

-- a hash that tells these commits apart
abbrev pub hash_bytes : List ℕ → List ℕ
hash_bytes bytes = length bytes ∷ []

abbrev first_rows : List CommitEntry
first_rows = record { coord = kept; blob = some live } ∷ []

abbrev second_rows : List CommitEntry
second_rows = record { coord = kept; blob = some orphan } ∷ []

abbrev opened : Tables
opened = new_store 5

abbrev pub first_id : CommitId
first_id = record { bytes = 55 ∷ [] }

abbrev pub second_id : CommitId
second_id = record { bytes = 56 ∷ [] }

-- the store with the active ref at a commit
abbrev store_at : Option CommitId → List CommitRow → List Edge → List HistoryRow → ℕ → Tables
store_at target commits edges history next_seq = record {
  commits = commits;
  edges = edges;
  history = history;
  refs = (default_ref_name, record { commit = target; active = true; created_at_ms = 5 }) ∷ [];
  next_seq = next_seq;
}

abbrev first_row : CommitRow
first_row = record { seq = 1; id = first_id; created_at_ms = 10 }

abbrev second_row : CommitRow
second_row = record { seq = 2; id = second_id; created_at_ms = 20 }

abbrev live_row : HistoryRow
live_row = record { commit = first_id; seq = 1; coord = kept; blob = some live }

abbrev orphan_row : HistoryRow
orphan_row = record { commit = second_id; seq = 2; coord = kept; blob = some orphan }

abbrev one : Tables
one = store_at (some first_id) (first_row ∷ []) [] (live_row ∷ []) 2

abbrev pub two : Tables
two =
    store_at (some second_id) (first_row ∷ second_row ∷ []) ((second_id, first_id) ∷ [])
      (live_row ∷ orphan_row ∷ []) 3

abbrev pub folded : Tables
folded = store_at (some second_id) (second_row ∷ []) [] (orphan_row ∷ []) 3

abbrev outcome : FoldOutcome
outcome = record { folded = 0; dropped = 1 }

first_applied : apply_commit_incremental hash_bytes opened 10 [] first_rows ≡ ok (one, first_id)
unfolding new_store apply_commit_incremental commit_hash Set.from Set.insert insert_chunk seq_in
    to_be_bytes
first_applied = refl

second_applied :
    apply_commit_incremental hash_bytes one 20 (first_id ∷ []) second_rows ≡ ok (two, second_id)
unfolding apply_commit_incremental commit_hash Set.from Set.insert insert_chunk seq_in contains
    to_be_bytes
second_applied = refl

first_retired : retire_commit two first_id second_id ≡ ok (folded, outcome)
unfolding retire_commit ancestors fold_commit count_rows seq_in contains filter add_edges
first_retired = refl

first_new : seq_in opened.commits first_id ≡ none
unfolding new_store seq_in
first_new = refl

second_new : seq_in one.commits second_id ≡ none
unfolding seq_in
second_new = refl

to_one : Steps hash_bytes opened one
to_one = then_step start (commit_applied 10 [] first_rows first_id first_new first_applied)

to_two : Steps hash_bytes opened two
to_two =
    then_step to_one
      (commit_applied 20 (first_id ∷ []) second_rows second_id second_new second_applied)

to_folded : Steps hash_bytes opened folded
to_folded = then_step to_two (commit_retired first_id second_id outcome first_retired)

one-Healthy : Healthy one
one-Healthy = Steps-Healthy hash_bytes opened one to_one (new_store-Healthy 5)

pub two-Healthy : Healthy two
two-Healthy = Steps-Healthy hash_bytes opened two to_two (new_store-Healthy 5)

pub two-Linear : Linear two
unfolding parents_in filter contains
two-Linear c p q h k =
    ground (arith, h, k, commit_id_beq_iff first_id p, commit_id_beq_iff first_id q)

apart : second_id ≢ first_id
apart e = ground (arith, e)

Steps-Healthy_example : Healthy folded
Steps-Healthy_example = Steps-Healthy hash_bytes opened folded to_folded (new_store-Healthy 5)

-- the store of one commit after its ref was reset
abbrev reset : Tables
reset = store_at none (first_row ∷ []) [] (live_row ∷ []) 2

ref_unset : set_ref one default_ref_name none 7 ≡ ok reset
unfolding set_ref Map.get millis_param
ref_unset = refl

-- the commit is there, and the ref moves to it
first_again : apply_commit_incremental hash_bytes reset 10 [] first_rows ≡ ok (one, first_id)
unfolding apply_commit_incremental commit_hash Set.from Set.insert seq_in to_be_bytes
first_again = refl

again_to_folded : Life hash_bytes opened folded
again_to_folded =
    then_change
      (then_change
        (then_change
          (then_change
            (then_change untouched (commit_recorded 10 [] first_rows first_id first_applied))
            (ref_changed default_ref_name none 7 ref_unset))
          (commit_recorded 10 [] first_rows first_id first_again))
        (commit_recorded 20 (first_id ∷ []) second_rows second_id second_applied))
      (commit_folded first_id second_id outcome first_retired)

active_ref-always_example :
    (ref : CommitRef) × (active_ref folded ≡ ok (some ref)) × (ref.active ≡ true)
active_ref-always_example = active_ref-always hash_bytes 5 folded again_to_folded

ancestors_exact_example :
    (contains (ancestors ((second_id, first_id) ∷ []) second_id) first_id ≡ true)
    ↔ IsAncestor ((second_id, first_id) ∷ []) second_id first_id
ancestors_exact_example = ancestors_exact ((second_id, first_id) ∷ []) second_id first_id

apply_commit_incremental-state_example :
    inherited two second_id kept ≡ given one (some first_id) kept (row_of second_rows kept)
apply_commit_incremental-state_example =
    apply_commit_incremental-state hash_bytes one 20 (some first_id) second_rows two second_id
      one-Healthy.0 second_new second_applied kept

apply_commit_incremental-others_example : inherited two first_id kept ≡ inherited one first_id kept
apply_commit_incremental-others_example =
    apply_commit_incremental-others hash_bytes one 20 (first_id ∷ []) second_rows two second_id
      one-Healthy.0 second_new second_applied first_id (λ e. apart (sym e)) kept

retire_commit-history_example :
    contains (ancestors folded.edges second_id) first_id
    ≡ (contains (ancestors two.edges second_id) first_id && not (first_id == first_id))
retire_commit-history_example =
    retire_commit-history two first_id second_id folded outcome first_retired second_id apart
      first_id

retire_commit-retained_example : inherited folded second_id kept ≡ inherited two second_id kept
retire_commit-retained_example =
    retire_commit-retained two two-Healthy.0 two-Linear first_id second_id folded outcome
      first_retired second_id apart (λ _. ancestors_refl two.edges second_id) kept

-- the whole world scanned, with the first commit as the base
abbrev scanned : Previous
scanned = record {
  commit = some (record { id = first_id; created_at_ms = 10; parents = [] });
  state = (kept, record { coord = kept; commit = first_id; blob = some live }) ∷ [];
}

abbrev report : CommitReport
report = record { commit = second_id; chunks = 1; new_blobs = 1; tombstones = 0 }

planned_here : plan_commit (sqlite_meta hash_bytes) one discovered world ≡ ok (scanned, planned)
unfolding plan_commit active_ref seq_in lookup_commit Set.from visit_commit_chunks filter parents_in
    contains scope_matches keys ancestors Map.insert
planned_here = refl

recorded_here :
    record_commit (sqlite_meta hash_bytes) one scanned (assemble planned scanned ingested world) 20
    ≡ (two, ok report)
unfolding record_commit committed apply_commit_incremental contains commit_hash to_be_bytes Set.from
    assemble filter Map.get keys scope_contains
recorded_here = refl

record_commit-restores_example : present (inherited two second_id kept) ≡ (
    if scope_contains world kept
    then scan kept
    else present (at_base one (base_id scanned.commit) kept))
record_commit-restores_example =
    record_commit-restores hash_bytes one discovered world scanned planned scan ingested 20 two
      report one-Healthy.0 planned_here ingested-IsScan recorded_here second_new kept
