-- ===== src/Sqlite/Prune/Kept.antt =====
-- A run of `prune_apply` keeps what the retained commits hold.
use sekai.Base.{
  and_left, both, or_left, or_right, ℕ, ◌+◌, ◌≡◌, ◌≢◌, refl, sym, ap, ◌∙◌, inl, inr, true, false,
  List, [], ◌∷◌, contains, arith, Bool-cases, ◌==◌, beq_refl,
}
use mathlib.Core.Path.{subst}
use sekai.Base.Outcome.{Result, ok, err, Result-cases, ok-injective}
use sekai.Util.Coord.{ChunkCoord}
use sekai.Util.Hash.{CommitId, commit_id_ord, commit_id_beq_iff}
use sekai.Util.Commit.{FoldOutcome}
use sekai.Core.Prune.{Ancestry, continues, fold_target}
use sekai.Core.Prune.Ancestry.{retained_ancestry}
use sekai.Core.Prune.Target.{IsTarget, fold_target_exact}
use sekai.Core.Prune.Run.{prune_meta, PruneReport, PruneError, prune_loop}
use sekai.Sqlite.{Tables, StorageError, parents_in}
use sekai.Sqlite.Reads.{visit_commits}
use sekai.Sqlite.Closure.{ancestors_exact}
use sekai.Sqlite.Latest.{inherited}
use sekai.Sqlite.WellFormed.{WellFormed, Continues, ancestors_refl}
use sekai.Sqlite.Retire.{retire_commit, fold_commit}
use sekai.Sqlite.Retire.Descent.{spliced, new_step, same_not, differ}
use sekai.Sqlite.Retire.Effective.{retire_commit-Foldable}
use sekai.Sqlite.Retire.Sound.{retire_commit-WellFormed}
use sekai.Sqlite.Retire.Linear.{Linear, retire_commit-history, retire_commit-retained}
use sekai.Sqlite.Store.{committed, sqlite_meta}
use sekai.Sqlite.Prune.{continues-Ancestor}

-- Taking a commit out of a graph without merges makes none.
spliced_unique :
    (t : Tables) (from c p q : CommitId)
    → Linear t
    → contains (parents_in (spliced t.edges from) c) p ≡ true
    → contains (parents_in (spliced t.edges from) c) q ≡ true
    → p ≡ q
spliced_unique t from c p q linear h k =
    let (way, _, hp) = new_step t.edges from c p h in
    let (other, _, hq) = new_step t.edges from c q k in
    elim way [
      | inl i ↦ elim other [
        | inl j ↦ linear c p q i j
        | inr j ↦ absurd (hp (linear c p from i j.0))
      ]
      | inr i ↦ elim other [
        | inl j ↦ absurd (hq (linear c q from j i.0))
        | inr j ↦ linear from p q i.1 j.1
      ]
    ]

retire_commit-Linear :
    (t : Tables) (from into : CommitId) (after : Tables) (out : FoldOutcome)
    → retire_commit t from into ≡ ok (after, out)
    → Linear t
    → Linear after
unfolding fold_commit
retire_commit-Linear t from into after out h linear =
    let (_, _, _, e) = retire_commit-Foldable t from into after out h in
    subst Linear e (λ c p q i j. spliced_unique t from c p q linear i j)

fold_target-IsTarget :
    (ancestry : Ancestry) (retained : List CommitId) (id target : CommitId)
    → fold_target ancestry retained id ≡ ok target
    → IsTarget ancestry retained id target
fold_target-IsTarget ancestry retained id target h = elim (fold_target_exact ancestry retained id) [
  | inl (t, e, is) ↦ subst (IsTarget ancestry retained id) (ok-injective (sym e ∙ h)) is
  | inr (inl (e, _)) ↦ absurd (cc (h, e))
  | inr (inr (e, _, _)) ↦ absurd (cc (h, e))
]

apart :
    (retained : List CommitId) (k id : CommitId)
    → contains retained k ≡ true
    → contains retained id ≡ false
    → k ≢ id
apart retained k id h f e = ground (arith, h, f, ap (contains retained) e)

module _ (t : Tables) (wf : WellFormed t) (retained : List CommitId) where
  abbrev ancestry : Ancestry
  ancestry = retained_ancestry (visit_commits t) retained

  -- the store after some commits of the plan were retired
  pub record Underway (u : Tables) : Type 0 where
    pub sound : WellFormed u
    pub linear : Linear u
    pub fewer : (k a : CommitId) → contains retained k ≡ true → Continues u k a → Continues t k a
    pub between :
        (k a : CommitId)
        → contains retained k ≡ true
        → contains retained a ≡ true
        → Continues t k a
        → Continues u k a

  -- A retained commit that continues a commit to be retired continues the target.
  meets :
      (u : Tables) (id target k : CommitId)
      → Underway u
      → contains retained id ≡ false
      → IsTarget ancestry retained id target
      → contains retained k ≡ true
      → Continues u k id
      → Continues u k target
  meets u id target k run out ((here, _), over) kept up = elim (Bool-cases (k == target)) [
    | inl e ↦ subst (Continues u k) ((commit_id_beq_iff k target).0 e) (ancestors_refl u.edges k)
    | inr f ↦
        let heir : continues ancestry id k ≡ true =
          elim ((ancestors_exact t.edges k id).0 (run.fewer k id kept up)) [
            | inl e ↦ absurd (apart retained k id kept out (sym e))
            | inr way ↦ (continues-Ancestor t wf retained k id kept).1 way
          ] in
        let way =
          (continues-Ancestor t wf retained k target kept).0
            (over k (kept, heir) (same_not k target f)) in
        run.between k target kept here ((ancestors_exact t.edges k target).1 (inr way))
  ]

  Underway-retired :
      (u : Tables) (id target : CommitId) (next : Tables) (out : FoldOutcome)
      → Underway u
      → contains retained id ≡ false
      → retire_commit u id target ≡ ok (next, out)
      → Underway next
  Underway-retired u id target next out run gone h =
      let seen = λ (k a : CommitId) (kept : contains retained k ≡ true).
        retire_commit-history u id target next out h k (apart retained k id kept gone) a in
      record {
        sound = retire_commit-WellFormed u id target next out run.sound h;
        linear = retire_commit-Linear u id target next out h run.linear;
        fewer = λ k a kept up. run.fewer k a kept (and_left _ _ (sym (seen k a kept) ∙ up));
        between = λ k a kept too up.
            seen k a kept
            ∙ both _ _ (run.between k a kept too up) (differ a id (apart retained a id too gone));
      }

  module _ (hash_bytes : List ℕ → List ℕ) {P : Type 0} (progress : P → ℕ → ℕ → P) (total : ℕ)
      (k : CommitId) (kept : contains retained k ≡ true) (coord : ChunkCoord) where
    abbrev loop :
        List CommitId
        → PruneReport
        → Tables
        → P
        → Tables × P × Result PruneReport (PruneError StorageError)
    loop = prune_loop (sqlite_meta hash_bytes) progress total ancestry retained

    -- what the loop does with the result of one retirement
    abbrev proceed :
        List CommitId
        → PruneReport
        → Tables
        → P
        → Tables × Result FoldOutcome StorageError
        → Tables × P × Result PruneReport (PruneError StorageError)
    proceed ids report u p out = elim out.1 [
      | err e ↦ (out.0, p, err (prune_meta e))
      | ok folded ↦
          loop ids
            (record {
              pruned = report.pruned + 1;
              rows_folded = report.rows_folded + folded.folded;
              rows_dropped = report.rows_dropped + folded.dropped;
            })
            out.0 (progress p (report.pruned + 1) total)
    ]

    loop-step :
        (id target : CommitId) (ids : List CommitId) (report : PruneReport) (u : Tables) (p : P)
        → fold_target ancestry retained id ≡ ok target
        → loop (id ∷ ids) report u p
          ≡ proceed ids report u p (committed u (retire_commit u id target))
    unfolding prune_loop
    loop-step id target ids report u p f = rw (prune_loop, f) refl

    pub loop-keeps :
        (ids : List CommitId) (report : PruneReport) (u : Tables) (p : P)
        → Underway u
        → ((id : CommitId) → contains ids id ≡ true → contains retained id ≡ false)
        → inherited (loop ids report u p).0 k coord ≡ inherited u k coord
    unfolding prune_loop committed contains
    loop-keeps [] report u p run gone = refl
    loop-keeps (id ∷ ids) report u p run gone =
        let out_id : contains retained id ≡ false = gone id (or_left _ _ (beq_refl id)) in
        let rest = λ (x : CommitId) (h : contains ids x ≡ true). gone x (or_right (id == x) _ h) in
        elim (Result-cases (fold_target ancestry retained id)) [
          | inr (e, f) ↦ rw (prune_loop, f) refl
          | inl (target, f) ↦
              let is = fold_target-IsTarget ancestry retained id target f in
              ap
                (λ (o : Tables × P × Result PruneReport (PruneError StorageError)).
                  inherited o.0 k coord)
                (loop-step id target ids report u p f)
              ∙ elim (Result-cases (retire_commit u id target)) [
                | inr (e, g) ↦
                    ap (λ o. inherited (proceed ids report u p (committed u o)).0 k coord) g
                | inl ((next, out), g) ↦
                    let run2 = Underway-retired u id target next out run out_id g in
                    ap (λ o. inherited (proceed ids report u p (committed u o)).0 k coord) g
                    ∙ loop-keeps ids _ next _ run2 rest
                    ∙ retire_commit-retained u run.sound run.linear id target next out g k
                        (apart retained k id kept out_id) (meets u id target k run out_id is kept)
                        coord
              ]
        ]
