-- ===== src/Sqlite/Writes/History.antt =====
-- The history of the commits once a new one was recorded.
use sekai.Base.{
  same_truth, ℕ, ◌≡◌, ◌≢◌, refl, sym, ap, ◌∙◌, ◌⊎◌, inl, inr, Bool, true, none, List, contains,
  arith, ◌==◌, ◌||◌, ◌&&◌,
}
use sekai.Util.Hash.{CommitId, commit_id_ord, commit_id_beq_iff}
use sekai.Util.Commit.{CommitEntry}
use sekai.Core.Graph.Level.{Ancestor, direct, further}
use sekai.Sqlite.{Tables, seq_in, parents_in, ancestors}
use sekai.Sqlite.Closure.{ancestors_exact}
use sekai.Sqlite.Edges.{contains-parents_in, has_edge-add_edges}
use sekai.Sqlite.Writes.{has_edge}
use sekai.Sqlite.Writes.Fresh.{Recorded, check_parents-known}
use sekai.Sqlite.Writes.Sound.{tables, link_cases}
use sekai.Sqlite.WellFormed.{WellFormed, Known, Continues, Upward-Ancestor}

or_left : (a b c : Bool) → a ≡ true → (a || (b && c)) ≡ true
or_left a b c h = ground (arith, h)

or_right : (a b c : Bool) → b ≡ true → c ≡ true → (a || (b && c)) ≡ true
or_right a b c h k = ground (arith, h, k)

module _ (t : Tables) (wf : WellFormed t) (id : CommitId) (ms : ℕ) (parents : List CommitId)
    (entries : List CommitEntry) (after : Tables) (new : seq_in t.commits id ≡ none)
    (done : Recorded t id ms parents entries after) where
  abbrev built : Tables
  built = tables t wf id ms parents entries after new done

  abbrev Old : CommitId → CommitId → Type 0
  Old = Ancestor (parents_in t.edges)

  abbrev New : CommitId → CommitId → Type 0
  New = Ancestor (parents_in built.edges)

  link :
      (c p : CommitId)
      → contains (parents_in built.edges c) p
        ≡ (has_edge t.edges c p || (id == c && contains parents p))
  link c p = contains-parents_in built.edges c p ∙ has_edge-add_edges t.edges id parents c p

  keeps :
      (c p : CommitId)
      → contains (parents_in t.edges c) p ≡ true
      → contains (parents_in built.edges c) p ≡ true
  keeps c p h =
      link c p
      ∙ or_left _ (id == c) (contains parents p) (sym (contains-parents_in t.edges c p) ∙ h)

  adds : (p : CommitId) → contains parents p ≡ true → contains (parents_in built.edges id) p ≡ true
  adds p h = link id p ∙ or_right (has_edge t.edges id p) _ _ ((commit_id_beq_iff id id).1 refl) h

  New-of_Old : (c a : CommitId) → Old c a → New c a
  New-of_Old c a (direct h) = direct (keeps c a h)
  New-of_Old c a (further {b = b} up h) = further (New-of_Old c b up) (keeps b a h)

  pub unknown : (x : CommitId) (i : ℕ) → Known t x i → x ≢ id
  unknown x i h e = ground (arith, h, new, ap (seq_in t.commits) e)

  -- a former way is one to a recorded commit
  pub end-Known : (c a : CommitId) → Old c a → a ≢ id
  end-Known c a up = let (_, j, _, h, _) = Upward-Ancestor t wf c a up in unknown a j h

  link_old :
      (c p : CommitId)
      → c ≢ id
      → contains (parents_in built.edges c) p ≡ true
      → contains (parents_in t.edges c) p ≡ true
  link_old c p hc h = elim (link_cases t wf id ms parents entries after new done c p h) [
    | inl old ↦ old
    | inr (e, _) ↦ absurd (hc (sym e))
  ]

  Old-of_New : (c a : CommitId) → c ≢ id → New c a → Old c a
  Old-of_New c a hc (direct h) = direct (link_old c a hc h)
  Old-of_New c a hc (further {b = b} up h) =
      let old = Old-of_New c b hc up in further old (link_old b a (end-Known c b old) h)

  -- Another commit keeps its history.
  pub ancestors-other :
      (c a : CommitId)
      → c ≢ id
      → contains (ancestors built.edges c) a ≡ contains (ancestors t.edges c) a
  ancestors-other c a hc =
      same_truth _ _
        (λ h. elim ((ancestors_exact built.edges c a).0 h) [
          | inl e ↦ (ancestors_exact t.edges c a).1 (inl e)
          | inr up ↦ (ancestors_exact t.edges c a).1 (inr (Old-of_New c a hc up))
        ])
        (λ h. elim ((ancestors_exact t.edges c a).0 h) [
          | inl e ↦ (ancestors_exact built.edges c a).1 (inl e)
          | inr up ↦ (ancestors_exact built.edges c a).1 (inr (New-of_Old c a up))
        ])

  -- a parent that a commit is, or that continues it
  abbrev Through : CommitId → Type 0
  Through a = (p : CommitId) × (contains parents p ≡ true) × Continues t p a

  continues-not_id : (p a : CommitId) → contains parents p ≡ true → Continues t p a → a ≢ id
  continues-not_id p a m h = elim ((ancestors_exact t.edges p a).0 h) [
    | inl e ↦
        let (j, hp) = check_parents-known t.commits parents done.checked p m in
        unknown a j (ap (seq_in t.commits) e ∙ hp)
    | inr up ↦ end-Known p a up
  ]

  Through-of_New : (a : CommitId) → New id a → Through a
  Through-of_New a (direct h) = elim (link_cases t wf id ms parents entries after new done id a h) [
    | inl old ↦ let (i, _, hid, _, _) = wf.upward id a old in absurd (unknown id i hid refl)
    | inr (_, m) ↦ (a, m, (ancestors_exact t.edges a a).1 (inl refl))
  ]
  Through-of_New a (further {b = b} up h) =
      let (p, m, way) = Through-of_New b up in
      let step = link_old b a (continues-not_id p b m way) h in
      (
        p,
        m,
        (ancestors_exact t.edges p a).1 (elim ((ancestors_exact t.edges p b).0 way) [
          | inl e ↦ inr (direct (ap (λ z. contains (parents_in t.edges z) a) (sym e) ∙ step))
          | inr over ↦ inr (further over step)
        ]),
      )

  -- The new commit continues itself and what its parents continue.
  pub ancestors-new :
      (a : CommitId) → contains (ancestors built.edges id) a ≡ true → (a ≡ id) ⊎ Through a
  ancestors-new a h = elim ((ancestors_exact built.edges id a).0 h) [
    | inl e ↦ inl e
    | inr up ↦ inr (Through-of_New a up)
  ]

  pub ancestors-through :
      (p a : CommitId)
      → contains parents p ≡ true
      → Continues t p a
      → contains (ancestors built.edges id) a ≡ true
  ancestors-through p a m h =
      (ancestors_exact built.edges id a).1 (elim ((ancestors_exact t.edges p a).0 h) [
        | inl e ↦ inr (direct (adds a (ap (contains parents) e ∙ m)))
        | inr up ↦ inr (below p a (adds p m) up)
      ])
    where
      below : (p a : CommitId) → contains (parents_in built.edges id) p ≡ true → Old p a → New id a
      below p a m (direct h) = further (direct m) (keeps p a h)
      below p a m (further {b = b} up h) = further (below p b m up) (keeps b a h)
