-- ===== src/Examples/Merge.antt =====
-- A history with a merge, before and after one of its commits is retired: `left` follows `old`, `side` stands
-- apart, and `merged` continues both.
use sekai.Base.{◌≡◌, refl, some, [], ◌∷◌, filter, contains}
use sekai.Base.Outcome.{ok}
use sekai.Util.Coord.{coord_ord}
use sekai.Util.Hash.{CommitId}
use sekai.Sqlite.{Tables, seq_in, ancestors}
use sekai.Sqlite.Writes.{add_edges}
use sekai.Sqlite.Reads.{latest, visible}
use sekai.Sqlite.Retire.{retire_commit, fold_commit, count_rows}
use sekai.Sqlite.Latest.{blob_of}
use sekai.Examples.Stores.{live, orphan, kept}

abbrev old : CommitId
old = record { bytes = 1 ∷ [] }

abbrev side : CommitId
side = record { bytes = 2 ∷ [] }

abbrev left : CommitId
left = record { bytes = 3 ∷ [] }

abbrev merged : CommitId
merged = record { bytes = 4 ∷ [] }

abbrev history : Tables
history = record {
  commits =
      record { seq = 1; id = old; created_at_ms = 1 }
      ∷ record { seq = 2; id = side; created_at_ms = 2 }
      ∷ record { seq = 3; id = left; created_at_ms = 3 }
      ∷ record { seq = 4; id = merged; created_at_ms = 4 }
      ∷ [];
  edges = (left, old) ∷ (merged, left) ∷ (merged, side) ∷ [];
  history =
      record { commit = old; seq = 1; coord = kept; blob = some live }
      ∷ record { commit = side; seq = 2; coord = kept; blob = some orphan }
      ∷ [];
  refs = [];
  next_seq = 5;
}

abbrev retired : Tables
retired = record {
  commits =
      record { seq = 2; id = side; created_at_ms = 2 }
      ∷ record { seq = 3; id = left; created_at_ms = 3 }
      ∷ record { seq = 4; id = merged; created_at_ms = 4 }
      ∷ [];
  edges = (merged, left) ∷ (merged, side) ∷ [];
  history =
      record { commit = left; seq = 3; coord = kept; blob = some live }
      ∷ record { commit = side; seq = 2; coord = kept; blob = some orphan }
      ∷ [];
  refs = [];
  next_seq = 5;
}

before_retirement : blob_of (latest (visible history merged kept)) ≡ some (some orphan)
unfolding visible latest ancestors filter contains
before_retirement = refl

retire_old : retire_commit history old left ≡ ok (retired, record { folded = 1; dropped = 0 })
unfolding retire_commit ancestors fold_commit count_rows seq_in contains filter add_edges
retire_old = refl

after_retirement : blob_of (latest (visible retired merged kept)) ≡ some (some live)
unfolding visible latest ancestors filter contains
after_retirement = refl
