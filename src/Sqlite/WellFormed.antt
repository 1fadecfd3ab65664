-- ===== src/Sqlite/WellFormed.antt =====
-- What holds of the tables of crates/storage-sqlite/src/meta.rs between two transactions, beyond the
-- constraints of schema/sqlite.sql: rows carry the key of their commit, and links lead to older commits.
use sekai.Base.{ℕ, ◌≤◌, ◌<◌, ◌≡◌, refl, sym, ap, ◌∙◌, inl, inr, true, some, List, contains, arith}
use sekai.Base.Member.{In}
use sekai.Util.Hash.{CommitId, commit_id_ord}
use sekai.Core.Graph.Level.{Ancestor, direct, further}
use sekai.Sqlite.{HistoryRow, Edge, Tables, seq_in, parents_in, ancestors}
use sekai.Sqlite.Closure.{ancestors_exact}

abbrev pub Known : Tables → CommitId → ℕ → Type 0
Known t id seq = seq_in t.commits id ≡ some seq

-- a link from a commit to one recorded before it
abbrev pub Upward : Tables → CommitId → CommitId → Type 0
Upward t c p = (i j : ℕ) × Known t c i × Known t p j × (j < i)

pub record WellFormed (t : Tables) : Type 0 where
  pub row_known : (r : HistoryRow) → In r t.history → Known t r.commit r.seq
  pub row_unique :
      (r s : HistoryRow)
      → In r t.history
      → In s t.history
      → r.commit ≡ s.commit
      → r.coord ≡ s.coord
      → r ≡ s
  pub upward : (c p : CommitId) → contains (parents_in t.edges c) p ≡ true → Upward t c p
  pub seq_below : (id : CommitId) (i : ℕ) → Known t id i → i < t.next_seq
  pub seq_unique : (a b : CommitId) (i : ℕ) → Known t a i → Known t b i → a ≡ b

-- whether a commit is another one or continues it
abbrev pub Continues : Tables → CommitId → CommitId → Type 0
Continues t k a = contains (ancestors t.edges k) a ≡ true

pub Known-unique : (t : Tables) (id : CommitId) (i j : ℕ) → Known t id i → Known t id j → i ≡ j
Known-unique t id i j h k = ground (arith, h, k)

module _ (t : Tables) (wf : WellFormed t) where
  pub Upward-Ancestor : (c a : CommitId) → Ancestor (parents_in t.edges) c a → Upward t c a
  Upward-Ancestor c a (direct h) = wf.upward c a h
  Upward-Ancestor c a (further {b} up h) =
      let (i, j, hc, hb, lt) = Upward-Ancestor c b up in
      let (k, l, hb2, ha, lt2) = wf.upward b a h in
      (i, l, hc, ha, omega (arith, lt, lt2, Known-unique t b j k hb hb2))

  -- A commit is not older than one that it continues.
  pub Continues-le :
      (k a : CommitId) (i j : ℕ) → Continues t k a → Known t k i → Known t a j → j ≤ i
  Continues-le k a i j h hk ha = elim ((ancestors_exact t.edges k a).0 h) [
    | inl e ↦ omega (arith, Known-unique t k i j hk (ap (seq_in t.commits) (sym e) ∙ ha))
    | inr up ↦
        let (m, n, hk2, ha2, lt) = Upward-Ancestor k a up in
        omega (arith, lt, Known-unique t k i m hk hk2, Known-unique t a j n ha ha2)
  ]

module _ (edges : List Edge) where
  Ancestor-trans :
      (a b c : CommitId)
      → Ancestor (parents_in edges) a b
      → Ancestor (parents_in edges) b c
      → Ancestor (parents_in edges) a c
  Ancestor-trans a b c up (direct h) = further up h
  Ancestor-trans a b c up (further over h) = further (Ancestor-trans a b _ up over) h

  pub ancestors_refl : (k : CommitId) → contains (ancestors edges k) k ≡ true
  ancestors_refl k = (ancestors_exact edges k k).1 (inl refl)

  pub ancestors_trans :
      (a b c : CommitId)
      → contains (ancestors edges a) b ≡ true
      → contains (ancestors edges b) c ≡ true
      → contains (ancestors edges a) c ≡ true
  ancestors_trans a b c h k = elim ((ancestors_exact edges a b).0 h) [
    | inl e ↦ ap (λ z. contains (ancestors edges z) c) (sym e) ∙ k
    | inr up ↦ elim ((ancestors_exact edges b c).0 k) [
      | inl e ↦ ap (contains (ancestors edges a)) e ∙ h
      | inr over ↦ (ancestors_exact edges a c).1 (inr (Ancestor-trans a b c up over))
    ]
  ]
