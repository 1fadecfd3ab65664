-- ===== src/Sqlite/Writes/Sound.antt =====
-- Recording a new commit keeps the tables well-formed.
use sekai.Base.{
  ℕ, ◌≡◌, refl, sym, ◌∙◌, ◌⊎◌, inl, inr, Bool, true, ◌&&◌, ◌||◌, Option, none, some, List, contains,
  arith, if◌then◌else◌, ◌==◌, beq_refl,
}
use mathlib.Core.Path.{subst}
use sekai.Base.Outcome.{ok}
use sekai.Base.Member.{In, In-of_append, In-of_map}
use sekai.Util.Hash.{CommitId, commit_id_ord, commit_id_beq_iff}
use sekai.Util.Commit.{CommitEntry}
use sekai.Sqlite.{CommitRow, HistoryRow, Tables, seq_in, parents_in}
use sekai.Sqlite.Edges.{contains-parents_in, has_edge-add_edges}
use sekai.Sqlite.Writes.{has_edge, apply_commit_incremental}
use sekai.Sqlite.Writes.Fresh.{
  built, own, seq_in-snoc, check_parents-known, insert_chunks-rows, insert_chunks-RowsUnique,
  Recorded, apply_commit_incremental-Recorded,
}
use sekai.Sqlite.WellFormed.{WellFormed, Known}

snoc_some :
    (o : Option ℕ) (i : ℕ) (b : Bool) (n : ℕ)
    → o ≡ some i
    → (elim o [ some j ↦ some j | none ↦ if b then some n else none ]) ≡ some i
snoc_some o i b n e = rw (e) refl

snoc_cases :
    (o : Option ℕ) (i : ℕ) (b : Bool) (n : ℕ)
    → (elim o [ some j ↦ some j | none ↦ if b then some n else none ]) ≡ some i
    → (o ≡ some i) ⊎ ((b ≡ true) × (i ≡ n))
snoc_cases none i b n h = ground (arith, h)
snoc_cases (some j) i b n h = inl h

or_cases : (a b c : Bool) → (a || (b && c)) ≡ true → (a ≡ true) ⊎ ((b ≡ true) × (c ≡ true))
or_cases a b c h = ground (arith, h)

module _ (t : Tables) (wf : WellFormed t) (id : CommitId) (ms : ℕ) (parents : List CommitId)
    (entries : List CommitEntry) (after : Tables) (new : seq_in t.commits id ≡ none)
    (done : Recorded t id ms parents entries after) where
  abbrev pub tables : Tables
  tables = built t id ms parents done.history

  row : CommitRow
  row = record { seq = t.next_seq; id = id; created_at_ms = ms }

  pub Known-after : (x : CommitId) (i : ℕ) → Known t x i → Known tables x i
  unfolding row
  Known-after x i h = seq_in-snoc t.commits row x ∙ snoc_some _ i _ _ h

  pub Known-id : Known tables id t.next_seq
  unfolding row
  Known-id = rw (seq_in-snoc t.commits row id, new, beq_refl id) refl

  pub Known-before :
      (x : CommitId) (i : ℕ) → Known tables x i → Known t x i ⊎ ((id ≡ x) × (i ≡ t.next_seq))
  unfolding row
  Known-before x i h = elim (snoc_cases _ i _ _ (sym (seq_in-snoc t.commits row x) ∙ h)) [
    | inl old ↦ inl old
    | inr (b, e) ↦ inr ((commit_id_beq_iff id x).0 b, e)
  ]

  -- A row is a former one or that of an entry.
  pub row_cases :
      (r : HistoryRow)
      → In r tables.history
      → In r t.history ⊎ ((e : CommitEntry) × In e entries × (own id t.next_seq e ≡ r))
  row_cases r i =
      elim (In-of_append t.history _ r (
        subst (In r)
          (sym (insert_chunks-rows t.history id t.next_seq entries done.history done.inserted))
          i)) [ inl old ↦ inl old | inr j ↦ inr (In-of_map (own id t.next_seq) entries r j) ]

  -- A link is a former one or leads from the new commit to a parent.
  pub link_cases :
      (c p : CommitId)
      → contains (parents_in tables.edges c) p ≡ true
      → (contains (parents_in t.edges c) p ≡ true) ⊎ ((id ≡ c) × (contains parents p ≡ true))
  link_cases c p h =
      elim (or_cases (has_edge t.edges c p) (id == c) (contains parents p) (
        sym (contains-parents_in tables.edges c p ∙ has_edge-add_edges t.edges id parents c p)
        ∙ h)) [
          | inl old ↦ inl (contains-parents_in t.edges c p ∙ old)
          | inr (b, m) ↦ inr ((commit_id_beq_iff id c).0 b, m)
        ]

  pub tables-WellFormed : WellFormed tables
  tables-WellFormed = record {
    row_known = λ r i. elim (row_cases r i) [
      | inl old ↦ Known-after r.commit r.seq (wf.row_known r old)
      | inr (e, _, at) ↦ subst (λ (z : HistoryRow). Known tables z.commit z.seq) at Known-id
    ];
    row_unique =
        insert_chunks-RowsUnique t.history id t.next_seq entries done.history wf.row_unique
          done.inserted;
    upward = λ c p h. elim (link_cases c p h) [
      | inl old ↦
          let (i, j, hc, hp, lt) = wf.upward c p old in
          (i, j, Known-after c i hc, Known-after p j hp, lt)
      | inr (e, m) ↦
          let (j, hp) = check_parents-known t.commits parents done.checked p m in
          (
            t.next_seq,
            j,
            subst (λ z. Known tables z t.next_seq) e Known-id,
            Known-after p j hp,
            wf.seq_below p j hp,
          )
    ];
    seq_below = λ x i h. elim (Known-before x i h) [
      | inl old ↦ omega (arith, wf.seq_below x i old)
      | inr (_, e) ↦ omega (arith, e)
    ];
    seq_unique = λ a b i h k. elim (Known-before a i h) [
      | inl old ↦ elim (Known-before b i k) [
        | inl too ↦ wf.seq_unique a b i old too
        | inr (_, e) ↦ absurd (omega (arith, e, wf.seq_below a i old))
      ]
      | inr (f, e) ↦ elim (Known-before b i k) [
        | inl too ↦ absurd (omega (arith, e, wf.seq_below b i too))
        | inr (g, _) ↦ sym f ∙ g
      ]
    ];
  }

  pub after-WellFormed : WellFormed after
  after-WellFormed = subst WellFormed done.result tables-WellFormed

-- A commit whose identity is new, recorded on well-formed tables, leaves them well-formed.
pub apply_commit_incremental-WellFormed :
    (hash_bytes : List ℕ → List ℕ) (t : Tables) (ms : ℕ) (parents : List CommitId)
    (entries : List CommitEntry) (after : Tables) (id : CommitId)
    → WellFormed t
    → seq_in t.commits id ≡ none
    → apply_commit_incremental hash_bytes t ms parents entries ≡ ok (after, id)
    → WellFormed after
apply_commit_incremental-WellFormed hash_bytes t ms parents entries after id wf new h =
    after-WellFormed t wf id ms parents entries after new
      (apply_commit_incremental-Recorded hash_bytes t ms parents entries after id new h)
