-- ===== src/Sqlite/Refs/Rows.antt =====
-- Rows that come and go in the table of refs, and the targets of the rows.
use sekai.Base.{
  ℕ, suc, ◌≡◌, refl, sym, ap, ◌∙◌, inl, inr, false, not, Option, none, some, List, [], ◌∷◌, ◌++◌,
  filter, arith, Bool-cases, if◌then◌else◌, ◌==◌, ◌<?◌,
}
use mathlib.Core.Option.{some-injective}
use sekai.Base.Map
use sekai.Base.Map.{get-insert}
use sekai.Util.Hash.{CommitId, commit_id_ord, commit_id_beq_iff}
use sekai.Util.Name.{RefName, ref_name_ord}
use sekai.Sqlite.{RefRow, CommitRow, seq_in}
use sekai.Sqlite.Writes.{move_active}
use sekai.Sqlite.Writes.Fresh.{seq_in-snoc}
use sekai.Sqlite.Retire.{follow, retarget}
use sekai.Sqlite.Retire.Sound.{seq_in-filter}
use sekai.Sqlite.Refs.{move_ref, clear_active, mark_active}
use sekai.Sqlite.Refs.Active.{Rows, active_count, Named, Target, Targets}

-- A row is added under a name that has none.
pub active_count-insert :
    (k : RefName) (v : RefRow) (rows : Rows)
    → Map.get rows k ≡ none
    → v.active ≡ false
    → active_count (Map.insert k v rows) ≡ active_count rows
unfolding active_count Map.insert Map.get
active_count-insert k v [] h f = ground (arith, f)
active_count-insert k v ((n, row) ∷ rows) h f =
    ground (
      arith,
      h,
      f,
      active_count-insert k v rows,
      ref_name_ord.beq_iff n k,
      ref_name_ord.beq_iff k n,
    )

pub Named-insert :
    (k : RefName) (v : RefRow) (rows : Rows)
    → Map.get rows k ≡ none
    → Named rows
    → Named (Map.insert k v rows)
unfolding Named Map.insert Map.get
Named-insert k v [] h hs = (refl, tt)
Named-insert k v ((n, row) ∷ rows) h (hn, hs) = elim (Bool-cases (k == n)) [
  | inl t ↦ absurd (ground (arith, h, t, ref_name_ord.beq_iff n k, ref_name_ord.beq_iff k n))
  | inr f ↦ elim (Bool-cases (k <? n)) [
    | inl t ↦ rw (Map.insert, f, t) (h, (hn, hs))
    | inr g ↦
        let rest : Map.get rows k ≡ none =
          ground (arith, h, f, ref_name_ord.beq_iff n k, ref_name_ord.beq_iff k n) in
        rw (Map.insert, f, g) (get-insert k n v rows ∙ rw (f) hn, Named-insert k v rows rest hs)
  ]
]

-- A row is removed.
erase-absent : (k : RefName) (rows : Rows) → Map.get rows k ≡ none → Map.erase k rows ≡ rows
unfolding Map.erase Map.get
erase-absent k [] h = refl
erase-absent k ((n, row) ∷ rows) h = ground (arith, h, erase-absent k rows)

pub active_count-erase :
    (k : RefName) (row : RefRow) (rows : Rows)
    → Named rows
    → Map.get rows k ≡ some row
    → row.active ≡ false
    → active_count (Map.erase k rows) ≡ active_count rows
unfolding active_count Map.erase Map.get Named
active_count-erase k row [] hs e f = refl
active_count-erase k row ((n, x) ∷ rows) (h, hs) e f = elim (Bool-cases (n == k)) [
  | inl t ↦
      let gone : Map.get rows k ≡ none =
        ap (Map.get rows) (sym ((ref_name_ord.beq_iff n k).0 t)) ∙ h in
      let same : x ≡ row = some-injective _ _ (rw (Map.get, t) at e) in
      let off : x.active ≡ false = ap (λ (z : RefRow). z.active) same ∙ f in
      rw (Map.erase, t, off, erase-absent k rows gone) refl
  | inr g ↦
      let rest = active_count-erase k row rows hs (rw (Map.get, g) at e) f in
      rw (Map.erase, g) (ap (λ z. if x.active then suc z else z) rest)
]

get-erase-none :
    (k : RefName) (rows : Rows) (n : RefName)
    → Map.get rows n ≡ none
    → Map.get (Map.erase k rows) n ≡ none
unfolding Map.erase Map.get
get-erase-none k [] n h = refl
get-erase-none k ((m, row) ∷ rows) n h = ground (arith, h, get-erase-none k rows n)

pub Named-erase : (k : RefName) (rows : Rows) → Named rows → Named (Map.erase k rows)
unfolding Map.erase Named
Named-erase k [] h = tt
Named-erase k ((n, row) ∷ rows) (h, hs) = elim (Bool-cases (n == k)) [
  | inl t ↦ rw (Map.erase, t) (Named-erase k rows hs)
  | inr f ↦ rw (Map.erase, f) (get-erase-none k rows n h, Named-erase k rows hs)
]

module _ (commits : List CommitRow) where
  pub Targets-insert :
      (k : RefName) (v : RefRow) (rows : Rows)
      → Target commits v.commit
      → Targets commits rows
      → Targets commits (Map.insert k v rows)
  unfolding Targets Map.insert
  Targets-insert k v [] h hs = (h, tt)
  Targets-insert k v ((n, row) ∷ rows) h (hn, hs) = elim (Bool-cases (k == n)) [
    | inl t ↦ rw (Map.insert, t) (h, hs)
    | inr f ↦ elim (Bool-cases (k <? n)) [
      | inl t ↦ rw (Map.insert, f, t) (h, (hn, hs))
      | inr g ↦ rw (Map.insert, f, g) (hn, Targets-insert k v rows h hs)
    ]
  ]

  pub Targets-erase :
      (k : RefName) (rows : Rows) → Targets commits rows → Targets commits (Map.erase k rows)
  unfolding Targets Map.erase
  Targets-erase k [] h = tt
  Targets-erase k ((n, row) ∷ rows) (hn, hs) = elim (Bool-cases (n == k)) [
    | inl t ↦ rw (Map.erase, t) (Targets-erase k rows hs)
    | inr f ↦ rw (Map.erase, f) (hn, Targets-erase k rows hs)
  ]

  pub Targets-move_ref :
      (k : RefName) (c : Option CommitId) (rows : Rows)
      → Target commits c
      → Targets commits rows
      → Targets commits (move_ref k c rows)
  unfolding Targets move_ref
  Targets-move_ref k c [] h hs = tt
  Targets-move_ref k c ((n, row) ∷ rows) h (hn, hs) = elim (Bool-cases (n == k)) [
    | inl t ↦ rw (move_ref, t) (h, Targets-move_ref k c rows h hs)
    | inr f ↦ rw (move_ref, f) (hn, Targets-move_ref k c rows h hs)
  ]

  pub Targets-clear : (rows : Rows) → Targets commits rows → Targets commits (clear_active rows)
  unfolding Targets clear_active
  Targets-clear [] h = tt
  Targets-clear ((n, row) ∷ rows) (hn, hs) = (hn, Targets-clear rows hs)

  pub Targets-mark :
      (k : RefName) (rows : Rows) → Targets commits rows → Targets commits (mark_active k rows)
  unfolding Targets mark_active
  Targets-mark k [] h = tt
  Targets-mark k ((n, row) ∷ rows) (hn, hs) = elim (Bool-cases (n == k)) [
    | inl t ↦ rw (mark_active, t) (hn, Targets-mark k rows hs)
    | inr f ↦ rw (mark_active, f) (hn, Targets-mark k rows hs)
  ]

-- The targets after the recording of a commit.
pub Targets-move_active :
    (commits : List CommitRow) (row : CommitRow) (rows : Rows)
    → seq_in commits row.id ≡ none
    → Targets commits rows
    → Targets (commits ++ row ∷ []) (move_active rows row.id)
unfolding Targets move_active
Targets-move_active commits row [] new h = tt
Targets-move_active commits row ((n, x) ∷ rows) new (hn, hs) =
    let rest = Targets-move_active commits row rows new hs in
    elim (Bool-cases x.active) [
      | inl t ↦
          rw (move_active, t)
            (
              (
                row.seq,
                seq_in-snoc commits row row.id
                    ∙ rw (new, (commit_id_beq_iff row.id row.id).1 refl) refl,
              ),
              rest,
            )
      | inr f ↦ rw (move_active, f) (grown x.commit hn, rest)
    ]
  where
    grown : (c : Option CommitId) → Target commits c → Target (commits ++ row ∷ []) c
    grown none h = tt
    grown (some id) (i, h) = (i, seq_in-snoc commits row id ∙ rw (h) refl)

-- The targets after a commit was retired into another.
pub Targets-follow :
    (commits : List CommitRow) (from into : CommitId) (j : ℕ) (rows : Rows)
    → (from == into) ≡ false
    → seq_in commits into ≡ some j
    → Targets commits rows
    → Targets (filter (λ (row : CommitRow). not (row.id == from)) commits) (follow from into rows)
unfolding Targets follow
Targets-follow commits from into j [] hi e h = tt
Targets-follow commits from into j ((n, x) ∷ rows) hi e (hn, hs) =
    (moved x.commit hn, Targets-follow commits from into j rows hi e hs)
  where
    kept : List CommitRow
    kept = filter (λ (row : CommitRow). not (row.id == from)) commits

    turned : (id : CommitId) → (id == from) ≡ false → (from == id) ≡ false
    turned id f = ground (arith, f, commit_id_beq_iff id from, commit_id_beq_iff from id)

    moved : (c : Option CommitId) → Target commits c → Target kept (retarget from into c)
    moved none h = tt
    moved (some id) (i, h) = elim (Bool-cases (id == from)) [
      | inl t ↦ rw (t) (j, seq_in-filter commits from into ∙ rw (hi) e)
      | inr f ↦ rw (f) (i, seq_in-filter commits from id ∙ rw (turned id f) h)
    ]
