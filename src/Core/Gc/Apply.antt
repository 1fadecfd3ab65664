-- ===== src/Core/Gc/Apply.antt =====
-- What `gc_apply` removes, for a blob store that keeps its contract.
use sekai.Base.{
  ℕ, ◌+◌, ◌≤◌, ◌≡◌, refl, sym, ap, ◌∙◌, inl, inr, Bool, true, false, not, ◌&&◌, List, [], ◌∷◌,
  contains, length, arith, Bool-cases, if◌then◌else◌, ◌==◌,
}
use sekai.Base.Outcome.{Result, ok, err, Result-cases}
use sekai.Base.Set
use sekai.Base.Set.{contains-from}
use sekai.Util.Hash.{ChunkHash, CommitId, chunk_hash_ord, chunk_hash_beq_iff}
use sekai.Util.Commit.{Commit, ChunkHistoryEntry, GcPlan}
use sekai.Core.Port.{MetaStore, BlobStore, BlobLaws}
use sekai.Core.Gc.{GcError, GcReport, apply_loop, gc_apply, gc_plan}
use sekai.Core.Gc.Orphans.{commits_name, CanRead, gc_plan_exact}

module _ {Blobs Store B M P : Type 0} (b : BlobStore Blobs B) (m : MetaStore Store M)
    (stored : Blobs → List ChunkHash) (laws : BlobLaws b stored) (progress : P → ℕ → ℕ → P) where
  -- What is left of a run: its blobs and its report.
  abbrev left : Blobs × P × Result GcReport (GcError B M) → Blobs
  left r = r.0

  remove-stored :
      (s : Blobs) (h i : ChunkHash) {gone : Bool}
      → (b.remove s h).1 ≡ ok gone
      → contains (stored (b.remove s h).0) i ≡ (contains (stored s) i && not (h == i))
  remove-stored s h i e = elim (Bool-cases (h == i)) [
    | inl same ↦
        let at : h ≡ i = (chunk_hash_beq_iff h i).0 same in
        rw (same, ← at, (laws.remove-gone s h e).0) (ground arith)
    | inr other ↦ rw (other, laws.remove-others s h i other) (ground arith)
  ]

  module _ (total : ℕ) (still : List ChunkHash) where
    abbrev loop : List ChunkHash → ℕ → ℕ → ℕ → Blobs → P → Blobs × P × Result GcReport (GcError B M)
    loop = apply_loop b m progress total still

    -- one round of the loop, for each of its three outcomes
    loop-stays :
        (k : ChunkHash) (ks : List ChunkHash) (done orphans removed : ℕ) (s : Blobs) (p : P)
        → contains still k ≡ false
        → loop (k ∷ ks) done orphans removed s p
          ≡ loop ks (done + 1) orphans removed s (progress p (done + 1) total)
    unfolding apply_loop
    loop-stays k ks done orphans removed s p h = rw (apply_loop, h)

    loop-removes :
        (k : ChunkHash) (ks : List ChunkHash) (done orphans removed : ℕ) (s : Blobs) (p : P)
        {gone : Bool}
        → contains still k ≡ true
        → (b.remove s k).1 ≡ ok gone
        → loop (k ∷ ks) done orphans removed s p
          ≡ loop ks
              (done + 1)
              (orphans + 1)
              (if gone then removed + 1 else removed)
              (b.remove s k).0
              (progress p (done + 1) total)
    unfolding apply_loop
    loop-removes k ks done orphans removed s p h e = rw (apply_loop, h, e)

    loop-fails :
        (k : ChunkHash) (ks : List ChunkHash) (done orphans removed : ℕ) (s : Blobs) (p : P) {e : B}
        → contains still k ≡ true
        → (b.remove s k).1 ≡ err e
        → loop (k ∷ ks) done orphans removed s p ≡ ((b.remove s k).0, p, err (GcError.blob e))
    unfolding apply_loop
    loop-fails k ks done orphans removed s p h e = rw (apply_loop, h, e)

    loop-end :
        (done orphans removed : ℕ) (s : Blobs) (p : P) (h : ChunkHash)
        → contains (stored (left (loop [] done orphans removed s p))) h ≡ contains (stored s) h
    unfolding apply_loop
    loop-end done orphans removed s p h = refl

    loop-end-report :
        (done orphans removed : ℕ) (s : Blobs) (p : P) {report : GcReport}
        → (loop [] done orphans removed s p).2 ≡ ok report
        → record { candidates = total; orphans = orphans; removed = removed } ≡ report
    unfolding apply_loop
    loop-end-report done orphans removed s p e = cc e

    without :
        (k : ChunkHash) (ks : List ChunkHash) (s : Blobs) (h : ChunkHash)
        → contains still k ≡ false
        → (contains (stored s) h && not (contains ks h && contains still h))
          ≡ (contains (stored s) h && not (contains (k ∷ ks) h && contains still h))
    unfolding contains
    without k ks s h stays =
        let same : (k == h) ≡ true → contains still k ≡ contains still h =
          λ e. ap (contains still) ((chunk_hash_beq_iff k h).0 e) in
        ground (arith, same)

    with_head :
        (k : ChunkHash) (ks : List ChunkHash) (s : Blobs) (h : ChunkHash)
        → contains still k ≡ true
        → ((contains (stored s) h && not (k == h)) && not (contains ks h && contains still h))
          ≡ (contains (stored s) h && not (contains (k ∷ ks) h && contains still h))
    unfolding contains
    with_head k ks s h goes =
        let same : (k == h) ≡ true → contains still k ≡ contains still h =
          λ e. ap (contains still) ((chunk_hash_beq_iff k h).0 e) in
        ground (arith, same)

    differ :
        (k h : ChunkHash) → contains still k ≡ true → contains still h ≡ false → (k == h) ≡ false
    differ k h holds lacks = elim (Bool-cases (k == h)) [
      | inl same ↦
          let at : k ≡ h = (chunk_hash_beq_iff k h).0 same in absurd (cc (holds, lacks, at))
      | inr other ↦ other
    ]

    loop-keeps :
        (hs : List ChunkHash) (done orphans removed : ℕ) (s : Blobs) (p : P) (h : ChunkHash)
        → contains still h ≡ false
        → contains (stored (left (loop hs done orphans removed s p))) h ≡ contains (stored s) h
    loop-keeps [] done orphans removed s p h keep = loop-end done orphans removed s p h
    loop-keeps (k ∷ ks) done orphans removed s p h keep = elim (Bool-cases (contains still k)) [
      | inr stays ↦
          rw (loop-stays k ks done orphans removed s p stays)
            (loop-keeps ks (done + 1) orphans removed s (progress p (done + 1) total) h keep)
      | inl goes ↦
          let other : (k == h) ≡ false = differ k h goes keep in
          elim (Result-cases (b.remove s k).1) [
            | inr (e, failed) ↦
                rw (loop-fails k ks done orphans removed s p goes failed)
                  (laws.remove-others s k h other)
            | inl (gone, removes) ↦ rw (loop-removes k ks done orphans removed s p goes removes) (
                loop-keeps ks (done + 1) (orphans + 1) (if gone then removed + 1 else removed)
                  (b.remove s k).0 (progress p (done + 1) total) h keep
                ∙ laws.remove-others s k h other)
          ]
    ]

    -- what a loop that ends well removes and counts
    loop-ok :
        (hs : List ChunkHash) (done orphans removed : ℕ) (s : Blobs) (p : P) (report : GcReport)
        → (loop hs done orphans removed s p).2 ≡ ok report
        → removed ≤ orphans
        → (report.candidates ≡ total)
          × (report.removed ≤ report.orphans)
          × (report.orphans ≤ orphans + length hs)
          × ((h : ChunkHash)
              → contains (stored (left (loop hs done orphans removed s p))) h
                ≡ (contains (stored s) h && not (contains hs h && contains still h)))
    unfolding contains
    loop-ok [] done orphans removed s p report e le =
        let at = loop-end-report done orphans removed s p e in
        let same_orphans : orphans ≡ report.orphans = ap (λ (r : GcReport). r.orphans) at in
        let same_removed : removed ≡ report.removed = ap (λ (r : GcReport). r.removed) at in
        (
          sym (ap (λ (r : GcReport). r.candidates) at),
          omega (arith, le, same_orphans, same_removed),
          omega (arith, same_orphans),
          λ h. loop-end done orphans removed s p h ∙ ground arith,
        )
    loop-ok (k ∷ ks) done orphans removed s p report e le = elim (Bool-cases (contains still k)) [
      | inr stays ↦
          let next = loop-stays k ks done orphans removed s p stays in
          let (c, r, o, has) =
            loop-ok ks (done + 1) orphans removed s (progress p (done + 1) total) report
              (ap (λ t. t.2) (sym next) ∙ e) le in
          (c, r, omega (arith, o), λ h. rw (next, has h) (without k ks s h stays))
      | inl goes ↦ elim (Result-cases (b.remove s k).1) [
        | inr (x, failed) ↦
            let next = loop-fails k ks done orphans removed s p goes failed in
            absurd (cc (ap (λ t. t.2) next, e))
        | inl (gone, removes) ↦
            let next = loop-removes k ks done orphans removed s p goes removes in
            let (c, r, o, has) =
              loop-ok ks (done + 1) (orphans + 1) (if gone then removed + 1 else removed)
                (b.remove s k).0 (progress p (done + 1) total) report (ap (λ t. t.2) (sym next) ∙ e)
                (ground (arith, le)) in
            (
              c,
              r,
              omega (arith, o),
              λ h. rw (next, has h, remove-stored s k h removes) (with_head k ks s h goes),
            )
      ]
    ]

  gc_apply-fresh :
      (blobs : Blobs) (store : Store) (plan fresh : GcPlan) (p : P)
      → gc_plan b m blobs store ≡ ok fresh
      → gc_apply b m progress blobs store plan p
        ≡ loop (length plan.orphans) (Set.from fresh.orphans) plan.orphans 0 0 0 blobs p
  unfolding gc_apply
  gc_apply-fresh blobs store plan fresh p e = rw (gc_apply, e)

  -- With a blob store that keeps its documented contract, on a metadata store whose commits and rows
  -- can be read, a run of `gc_apply` for any plan, however it ends, leaves every blob that a row
  -- names as it was. When it reports, it has removed exactly the candidates that no row names, and it
  -- counts at most as many removals as orphans and at most as many orphans as candidates, which are
  -- those of the plan. The listing of the blobs must succeed.
  pub gc_apply_safe :
      (blobs : Blobs) (store : Store) (commits : List Commit)
      (rows : CommitId → List ChunkHistoryEntry) (plan : GcPlan) (p : P)
      → CanRead m store commits rows
      → b.visit_blobs blobs ≡ ok (stored blobs)
      → ((h : ChunkHash)
          → commits_name rows commits h ≡ true
          → contains (stored (left (gc_apply b m progress blobs store plan p))) h
            ≡ contains (stored blobs) h)
        × ((report : GcReport)
            → (gc_apply b m progress blobs store plan p).2 ≡ ok report
            → (report.candidates ≡ length plan.orphans)
              × (report.removed ≤ report.orphans)
              × (report.orphans ≤ length plan.orphans)
              × ((h : ChunkHash)
                  → contains (stored (left (gc_apply b m progress blobs store plan p))) h ≡ (
                      contains (stored blobs) h
                      && not (contains plan.orphans h && not (commits_name rows commits h)))))
  gc_apply_safe blobs store commits rows plan p read visited =
      let (fresh, e, _, has) =
        gc_plan_exact b m blobs store commits rows (stored blobs) read visited in
      let run = gc_apply-fresh blobs store plan fresh p e in
      let still = Set.from fresh.orphans in
      let total = length plan.orphans in
      let in_still : (h : ChunkHash)
          → contains still h ≡ (contains (stored blobs) h && not (commits_name rows commits h)) =
        λ h. contains-from h fresh.orphans ∙ has h in
      (
        λ h named. rw run (
            loop-keeps total still plan.orphans 0 0 0 blobs p h
              (rw (in_still h, named) (ground arith))),
        λ report ended.
            let (c, r, o, kept) =
              loop-ok total still plan.orphans 0 0 0 blobs p report
                (ap (λ t. t.2) (sym run) ∙ ended) (omega arith) in
            (c, r, omega (arith, o), λ h. rw (run, kept h, in_still h) (ground arith)),
      )
