-- ===== src/Sqlite/Prune.antt =====
-- crates/core/src/usecase/prune.rs on the store of crates/storage-sqlite/src/meta.rs.
pub mod Kept
pub mod Apply
use sekai.Base.{
  ℕ, ◌≡◌, ◌≢◌, refl, sym, ap, ◌∙◌, ◌⊎◌, inl, inr, ◌↔◌, Bool, true, false, not, ◌&&◌, Option, none,
  some, List, [], ◌∷◌, map, filter, contains, arith, Bool-cases, Option-cases, if◌then◌else◌, ◌==◌,
}
use sekai.Base.Map
use sekai.Base.Map.{get-insert}
use sekai.Base.Set
use sekai.Base.Set.{contains-from}
use sekai.Util.Hash.{CommitId, commit_id_ord, commit_id_beq_iff}
use sekai.Core.Graph.Level.{Ancestor, direct, further}
use sekai.Core.Prune.{Ancestry, continues}
use sekai.Core.Prune.Ancestry.{Links, parent_map, parents_at, retained_ancestry}
use sekai.Core.Prune.Ancestry.Table.{retained_ancestry-exact}
use sekai.Sqlite.{CommitRow, Tables, seq_in, parents_in}
use sekai.Sqlite.Reads.{commit_parents, decode_commit, visit_commits}
use sekai.Sqlite.WellFormed.{WellFormed, Known}

abbrev pick : Option ℕ → Option (List CommitId) → Option (List CommitId) → Option (List CommitId)
pick none x y = y
pick (some _) x y = x

pick-step :
    (b : Bool) (s : ℕ) (o : Option ℕ) (x z y : Option (List CommitId))
    → (b ≡ true → z ≡ x)
    → pick o x (if b then z else y) ≡ pick (if b then some s else o) x y
pick-step true s none x z y h = h refl
pick-step true s (some i) x z y h = refl
pick-step false s o x z y h = refl

-- the parents that a visit of the commits tells
get-parent_map :
    (t : Tables) (rows : List CommitRow) (m : Links) (id : CommitId)
    → Map.get (parent_map (map (decode_commit t) rows) m) id
      ≡ pick (seq_in rows id) (some (commit_parents t id)) (Map.get m id)
unfolding parent_map seq_in
get-parent_map t [] m id = refl
get-parent_map t (row ∷ rows) m id =
    get-parent_map t rows (Map.insert row.id (commit_parents t row.id) m) id
    ∙ ap (pick (seq_in rows id) (some (commit_parents t id)))
        (get-insert row.id id (commit_parents t row.id) m)
    ∙ pick-step (row.id == id) row.seq (seq_in rows id) (some (commit_parents t id))
        (some (commit_parents t row.id)) (Map.get m id)
        (λ e. ap (λ z. some (commit_parents t z)) ((commit_id_beq_iff row.id id).0 e))

Ancestor-same :
    (f g : CommitId → List CommitId)
    → ((c p : CommitId) → contains (f c) p ≡ true → contains (g c) p ≡ true)
    → (k a : CommitId) → Ancestor f k a
    → Ancestor g k a
Ancestor-same f g h k a (direct i) = direct (h k a i)
Ancestor-same f g h k a (further {b = b} up i) = further (Ancestor-same f g h k b up) (h b a i)

contains-commit_parents :
    (t : Tables) (c p : CommitId)
    → contains (commit_parents t c) p ≡ contains (parents_in t.edges c) p
unfolding commit_parents
contains-commit_parents t c p = contains-from p (parents_in t.edges c)

module _ (t : Tables) (wf : WellFormed t) where
  abbrev told : CommitId → List CommitId
  told = parents_at (parent_map (visit_commits t) [])

  told-parents :
      (c p : CommitId) → (contains (told c) p ≡ true) ↔ (contains (parents_in t.edges c) p ≡ true)
  unfolding visit_commits parents_at Map.get contains
  told-parents c p =
      let at = get-parent_map t t.commits [] c in
      elim (Option-cases (seq_in t.commits c)) [
        | inl f ↦
            let nothing : Map.get (parent_map (visit_commits t) []) c ≡ none = at ∙ rw (f) refl in
            (
              λ h. absurd (ground (arith, rw (parents_at, nothing) at h)),
              λ h. let (i, _, known, _, _) = wf.upward c p h in absurd (ground (arith, f, known)),
            )
        | inr (i, f) ↦
            let same : contains (told c) p ≡ contains (parents_in t.edges c) p =
              rw (parents_at, at, f) (contains-commit_parents t c p) in
            (λ h. sym same ∙ h, λ h. same ∙ h)
      ]

  -- The table of the retained commits says what they continue in the store.
  pub continues-Ancestor :
      (retained : List CommitId) (k a : CommitId)
      → contains retained k ≡ true
      → (continues (retained_ancestry (visit_commits t) retained) a k ≡ true)
        ↔ Ancestor (parents_in t.edges) k a
  continues-Ancestor retained k a here =
      let table = retained_ancestry-exact (visit_commits t) retained k a here in
      (
        λ h. Ancestor-same told (parents_in t.edges) (λ c p. (told-parents c p).0) k a (table.0 h),
        λ up.
            table.1 (Ancestor-same (parents_in t.edges) told (λ c p. (told-parents c p).1) k a up),
      )
