-- ===== src/Sqlite/Writes/Fresh.antt =====
-- What recording a commit does to the tables when its identity is new.
use mathlib.Core.List.{append-nil}
use sekai.Base.{
  ℕ, ◌+◌, ◌≡◌, refl, sym, ap, ◌∙◌, inl, inr, Bool, true, false, ◌&&◌, none, some, List, [], ◌∷◌,
  ◌++◌, map, any, contains, arith, Bool-cases, Option-cases, if◌then◌else◌, ◌==◌, beq_refl,
}
use mathlib.Core.Path.{subst}
use mathlib.Core.List.{append_assoc}
use sekai.Base.Outcome.{ok, err, >>=-eq-ok, ok-injective}
use sekai.Base.Member.{In, In-of_append, any-false}
use sekai.Util.Coord.{coord_ord}
use sekai.Util.Hash.{CommitId, commit_id_ord, commit_id_beq_iff}
use sekai.Util.Commit.{CommitEntry}
use sekai.Core.Identity.{commit_hash}
use sekai.Sqlite.{CommitRow, HistoryRow, Tables, backend, millis_param, seq_in}
use sekai.Sqlite.Writes.{
  check_parents, add_commit, add_edges, insert_commit, insert_chunk, insert_chunks, move_active,
  check_active, apply_commit_incremental,
}

-- the tables with the commit and its links
abbrev pub extended : Tables → CommitId → ℕ → List CommitId → Tables
extended t id ms parents = record t {
  commits = t.commits ++ record { seq = t.next_seq; id = id; created_at_ms = ms } ∷ [];
  next_seq = t.next_seq + 1;
  edges = add_edges t.edges id parents;
}

abbrev pub own : CommitId → ℕ → CommitEntry → HistoryRow
own id seq e = record { commit = id; seq = seq; coord = e.coord; blob = e.blob }

-- The key of a commit after a row was appended.
pub seq_in-snoc :
    (rows : List CommitRow) (row : CommitRow) (x : CommitId)
    → seq_in (rows ++ row ∷ []) x ≡ (elim (seq_in rows x) [
      | some i ↦ some i
      | none ↦ if row.id == x then some row.seq else none
    ])
unfolding seq_in
seq_in-snoc [] row x = refl
seq_in-snoc (r ∷ rs) row x = ground (arith, seq_in-snoc rs row x)

pub check_parents-known :
    (rows : List CommitRow) (ps : List CommitId)
    → check_parents rows ps ≡ ok tt
    → (p : CommitId) → contains ps p ≡ true
    → (i : ℕ) × (seq_in rows p ≡ some i)
unfolding check_parents contains
check_parents-known rows [] h p m = absurd (ground (arith, m))
check_parents-known rows (q ∷ ps) h p m = elim (Option-cases (seq_in rows q)) [
  | inl e ↦ absurd (ground (arith, rw (check_parents, e) at h))
  | inr (i, e) ↦ elim (Bool-cases (q == p)) [
    | inl t ↦ (i, ap (seq_in rows) (sym ((commit_id_beq_iff q p).0 t)) ∙ e)
    | inr f ↦ check_parents-known rows ps (rw (check_parents, e) at h) p (rw (contains, f) at m)
  ]
]

millis_param-ok : (ms m : ℕ) → millis_param ms ≡ ok m → m ≡ ms
unfolding millis_param
millis_param-ok ms m h = ground (arith, h)

-- the tables with the row of the commit
abbrev with_row : Tables → CommitId → ℕ → Tables
with_row t id ms = record t {
  commits = t.commits ++ record { seq = t.next_seq; id = id; created_at_ms = ms } ∷ [];
  next_seq = t.next_seq + 1;
}

add_commit-new :
    (t : Tables) (id : CommitId) (ms : ℕ)
    → seq_in t.commits id ≡ none
    → add_commit t id ms ≡ with_row t id ms
unfolding add_commit
add_commit-new t id ms new = rw (add_commit, new) refl

seq_in-new :
    (t : Tables) (id : CommitId) (ms : ℕ)
    → seq_in t.commits id ≡ none
    → seq_in (with_row t id ms).commits id ≡ some t.next_seq
seq_in-new t id ms new =
    rw
      (
        seq_in-snoc t.commits (record { seq = t.next_seq; id = id; created_at_ms = ms }) id,
        new,
        beq_refl id,
      )
      refl

-- The checks that pass decide the result.
insert_commit-value :
    (t : Tables) (id : CommitId) (ms : ℕ) (parents : List CommitId)
    → seq_in t.commits id ≡ none
    → check_parents t.commits parents ≡ ok tt
    → millis_param ms ≡ ok ms
    → insert_commit t id ms parents ≡ ok (extended t id ms parents, t.next_seq, true)
unfolding insert_commit
insert_commit-value t id ms parents new c m =
    rw (insert_commit, c, m, add_commit-new t id ms new, seq_in-new t id ms new, new) refl

pub insert_commit-new :
    (t : Tables) (id : CommitId) (ms : ℕ) (parents : List CommitId) (out : Tables × ℕ × Bool)
    → seq_in t.commits id ≡ none
    → insert_commit t id ms parents ≡ ok out
    → (check_parents t.commits parents ≡ ok tt)
      × ((extended t id ms parents, t.next_seq, true) ≡ out)
unfolding insert_commit
insert_commit-new t id ms parents out new h =
    let (u, c, h1) = >>=-eq-ok (check_parents t.commits parents) _ h in
    let (m, e, _) = >>=-eq-ok (millis_param ms) _ h1 in
    let fits : millis_param ms ≡ ok ms = e ∙ ap ok (millis_param-ok ms m e) in
    (c, ok-injective (sym (insert_commit-value t id ms parents new c fits) ∙ h))

if_ok :
    (b : Bool) (x y : List HistoryRow)
    → (if b then err backend else ok x) ≡ ok y
    → (b ≡ false) × (x ≡ y)
if_ok true x y h = absurd (cc h)
if_ok false x y h = (refl, ok-injective h)

insert_chunk-rows :
    (history : List HistoryRow) (id : CommitId) (seq : ℕ) (e : CommitEntry) (next : List HistoryRow)
    → insert_chunk history id seq e.coord e.blob ≡ ok next
    → (any (λ (r : HistoryRow). r.commit == id && r.coord == e.coord) history ≡ false)
      × (history ++ own id seq e ∷ [] ≡ next)
unfolding insert_chunk
insert_chunk-rows history id seq e next h = if_ok _ _ _ h

-- The rows of the entries are appended, unless two are of one chunk.
pub insert_chunks-rows :
    (history : List HistoryRow) (id : CommitId) (seq : ℕ) (es : List CommitEntry)
    (after : List HistoryRow)
    → insert_chunks history id seq es ≡ ok after
    → history ++ map (own id seq) es ≡ after
unfolding insert_chunks insert_chunk
insert_chunks-rows history id seq [] after h = append-nil history ∙ ok-injective h
insert_chunks-rows history id seq (e ∷ es) after h =
    let (next, g, h1) = >>=-eq-ok (insert_chunk history id seq e.coord e.blob) _ h in
    let (_, rows) = insert_chunk-rows history id seq e next g in
    sym (append_assoc history (own id seq e ∷ []) (map (own id seq) es))
    ∙ ap (λ z. z ++ map (own id seq) es) rows
    ∙ insert_chunks-rows next id seq es after h1

-- no two rows of a commit are of one chunk
abbrev pub RowsUnique : List HistoryRow → Type 0
RowsUnique rows =
    (r s : HistoryRow) → In r rows → In s rows → r.commit ≡ s.commit → r.coord ≡ s.coord → r ≡ s

snoc-RowsUnique :
    (rows : List HistoryRow) (x : HistoryRow)
    → RowsUnique rows
    → any (λ (r : HistoryRow). r.commit == x.commit && r.coord == x.coord) rows ≡ false
    → RowsUnique (rows ++ x ∷ [])
snoc-RowsUnique rows x unique fresh r s i j c d = elim (In-of_append rows (x ∷ []) r i) [
  | inl ir ↦ elim (In-of_append rows (x ∷ []) s j) [
    | inl is ↦ unique r s ir is c d
    | inr at ↦ absurd (
        clash r ir (c ∙ sym (ap (λ (z : HistoryRow). z.commit) (last s at)))
          (d ∙ sym (ap (λ (z : HistoryRow). z.coord) (last s at))))
  ]
  | inr at ↦ elim (In-of_append rows (x ∷ []) s j) [
    | inl is ↦ absurd (
        clash s is (sym c ∙ sym (ap (λ (z : HistoryRow). z.commit) (last r at)))
          (sym d ∙ sym (ap (λ (z : HistoryRow). z.coord) (last r at))))
    | inr here ↦ sym (last r at) ∙ last s here
  ]
]
  where
    last : (z : HistoryRow) → In z (x ∷ []) → x ≡ z
    last z (inl e) = e
    last z (inr no_row) = absurd no_row

    both_false : (a b : Bool) → (a && b) ≡ false → a ≡ true → b ≡ true → ⊥
    both_false a b h k l = ground (arith, h, k, l)

    clash : (z : HistoryRow) → In z rows → z.commit ≡ x.commit → z.coord ≡ x.coord → ⊥
    clash z i c d =
        both_false _ _
          (any-false (λ (r : HistoryRow). r.commit == x.commit && r.coord == x.coord) rows z fresh
            i)
          ((commit_id_beq_iff z.commit x.commit).1 c) ((coord_ord.beq_iff z.coord x.coord).1 d)

pub insert_chunks-RowsUnique :
    (history : List HistoryRow) (id : CommitId) (seq : ℕ) (es : List CommitEntry)
    (after : List HistoryRow)
    → RowsUnique history
    → insert_chunks history id seq es ≡ ok after
    → RowsUnique after
unfolding insert_chunks insert_chunk
insert_chunks-RowsUnique history id seq [] after unique h = subst RowsUnique (ok-injective h) unique
insert_chunks-RowsUnique history id seq (e ∷ es) after unique h =
    let (next, g, h1) = >>=-eq-ok (insert_chunk history id seq e.coord e.blob) _ h in
    let (fresh, rows) = insert_chunk-rows history id seq e next g in
    insert_chunks-RowsUnique next id seq es after
      (subst RowsUnique rows (snoc-RowsUnique history (own id seq e) unique fresh)) h1

-- the tables after the recording of a new commit
abbrev pub built : Tables → CommitId → ℕ → List CommitId → List HistoryRow → Tables
built t id ms parents history = record (extended t id ms parents) {
  history = history;
  refs = move_active t.refs id;
}

-- what a successful recording of a new commit did
pub record Recorded (t : Tables) (id : CommitId) (ms : ℕ) (parents : List CommitId)
    (entries : List CommitEntry) (after : Tables) : Type 0 where
  pub checked : check_parents t.commits parents ≡ ok tt
  pub history : List HistoryRow
  pub inserted : insert_chunks t.history id t.next_seq entries ≡ ok history
  pub result : built t id ms parents history ≡ after

module _ (hash_bytes : List ℕ → List ℕ) where
  pub apply_commit_incremental-Recorded :
      (t : Tables) (ms : ℕ) (parents : List CommitId) (entries : List CommitEntry) (after : Tables)
      (id : CommitId)
      → seq_in t.commits id ≡ none
      → apply_commit_incremental hash_bytes t ms parents entries ≡ ok (after, id)
      → Recorded t id ms parents entries after
  unfolding apply_commit_incremental
  apply_commit_incremental-Recorded t ms parents entries after id new h =
      let name = commit_hash hash_bytes parents ms entries in
      let (_, _, h1) = >>=-eq-ok (check_active t.refs parents) _ h in
      let (out, e, h2) = >>=-eq-ok (insert_commit t name ms parents) _ h1 in
      let (history, g, h3) =
        >>=-eq-ok
          (if out.2 then insert_chunks out.0.history name out.1 entries else ok out.0.history) _
          h2 in
      let given : name ≡ id = ap (λ (o : Tables × CommitId). o.1) (ok-injective h3) in
      let (c, made) =
        insert_commit-new t name ms parents out (ap (seq_in t.commits) given ∙ new) e in
      let rows : insert_chunks t.history name t.next_seq entries ≡ ok history =
        subst
          (λ (o : Tables × ℕ × Bool).
            (if o.2 then insert_chunks o.0.history name o.1 entries else ok o.0.history)
            ≡ ok history)
          (sym made) g in
      let tables : record (extended t name ms parents) {
        history = history;
        refs = move_active t.refs name;
      }
          ≡ after =
        subst
          (λ (o : Tables × ℕ × Bool).
            record o.0 { history = history; refs = move_active o.0.refs name } ≡ after)
          (sym made) (ap (λ (o : Tables × CommitId). o.0) (ok-injective h3)) in
      subst (λ z. Recorded t z ms parents entries after) given
        (record { checked = c; history = history; inserted = rows; result = tables })
