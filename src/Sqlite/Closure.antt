-- ===== src/Sqlite/Closure.antt =====
-- The recursive query for the ancestors of a commit finds the commit and its ancestors.
use sekai.Base.{
  or_nothing, ℕ, zero, suc, ◌+◌, ◌≤◌, ◌<◌, ◌≡◌, refl, sym, ap, ◌∙◌, ◌⊎◌, inl, inr, ◌↔◌, Bool, true,
  false, ◌||◌, List, [], ◌∷◌, ◌++◌, contains, contains-append, filter, length, length-append, arith,
  Bool-cases, if◌then◌else◌, ◌==◌, beq_refl,
}
use sekai.Util.Hash.{CommitId, commit_id_ord, commit_id_beq_iff}
use sekai.Core.Graph.Level.{Ancestor, direct, further}
use sekai.Sqlite.{Edge, parents_in, close, ancestors}

-- the edges whose child was not seen
open_edges : List CommitId → List Edge → ℕ
open_edges seen [] = 0
open_edges seen (e ∷ es) =
    let rest = open_edges seen es in if contains seen e.0 then rest else suc rest

open_edges-le : (seen : List CommitId) (es : List Edge) → open_edges seen es ≤ length es
unfolding open_edges
open_edges-le seen [] = omega arith
open_edges-le seen (e ∷ es) = ground (arith, open_edges-le seen es)

commit_id-sym : (a b : CommitId) → (a == b) ≡ (b == a)
commit_id-sym a b = ground (arith, commit_id_beq_iff a b, commit_id_beq_iff b a)

-- Seeing a commit closes as many edges as it has parents.
open_edges-cons :
    (id : CommitId) (seen : List CommitId) (es : List Edge)
    → contains seen id ≡ false
    → open_edges (id ∷ seen) es + length (parents_in es id) ≡ open_edges seen es
unfolding open_edges parents_in contains filter
open_edges-cons id seen [] new = refl
open_edges-cons id seen (e ∷ es) new =
    let out : (e.0 == id) ≡ true → contains seen e.0 ≡ false =
      λ h. ap (contains seen) ((commit_id_beq_iff e.0 id).0 h) ∙ new in
    ground (arith, out, commit_id-sym id e.0, open_edges-cons id seen es new)

seen_twice : (s e q : Bool) → (e ≡ true → s ≡ true) → (s || (e || q)) ≡ true → (s || q) ≡ true
seen_twice s e q h k = ground (arith, h, k)

weaken : (s e q : Bool) → (s || q) ≡ true → (s || (e || q)) ≡ true
weaken s e q h = ground (arith, h)

middle : (s e q : Bool) → e ≡ true → (s || (e || q)) ≡ true
middle s e q h = ground (arith, h)

shuffle : (s e q p : Bool) → (s || (e || q)) ≡ true → ((e || s) || (q || p)) ≡ true
shuffle s e q p h = ground (arith, h)

unshuffle : (s e q p : Bool) → p ≡ false → ((e || s) || (q || p)) ≡ true → (s || (e || q)) ≡ true
unshuffle s e q p h k = ground (arith, h, k)

last_one : (s q p : Bool) → p ≡ true → (s || (q || p)) ≡ true
last_one s q p h = ground (arith, h)

module _ (edges : List Edge) (seed : CommitId) where
  abbrev parents : CommitId → List CommitId
  parents = parents_in edges

  -- A commit that the query may give: the seed or an ancestor of it.
  abbrev pub IsAncestor : CommitId → Type 0
  IsAncestor a = (a ≡ seed) ⊎ Ancestor parents seed a

  -- What holds of the rows given and the queue.
  record Inv (seen queue : List CommitId) : Type 0 where
    sound : (a : CommitId) → (contains seen a || contains queue a) ≡ true → IsAncestor a
    first : (contains seen seed || contains queue seed) ≡ true
    closed :
        (a p : CommitId)
        → contains seen a ≡ true
        → contains (parents a) p ≡ true
        → (contains seen p || contains queue p) ≡ true

  climb : (a p : CommitId) → IsAncestor a → contains (parents a) p ≡ true → Ancestor parents seed p
  climb a p (inl e) h = direct (ap (λ b. contains (parents b) p) (sym e) ∙ h)
  climb a p (inr up) h = further up h

  Inv-skip :
      (seen queue : List CommitId) (id : CommitId)
      → contains seen id ≡ true
      → Inv seen (id ∷ queue)
      → Inv seen queue
  unfolding contains
  Inv-skip seen queue id old inv =
      let drop_id : (a : CommitId)
          → (contains seen a || ((id == a) || contains queue a)) ≡ true
          → (contains seen a || contains queue a) ≡ true =
        λ a h.
          seen_twice _ _ _ (λ e. ap (contains seen) (sym ((commit_id_beq_iff id a).0 e)) ∙ old) h in
      record {
        sound = λ a h. inv.sound a (weaken _ (id == a) _ h);
        first = drop_id seed inv.first;
        closed = λ a p s h. drop_id p (inv.closed a p s h);
      }

  Inv-visit :
      (seen queue : List CommitId) (id : CommitId)
      → Inv seen (id ∷ queue)
      → Inv (id ∷ seen) (queue ++ parents id)
  unfolding contains
  Inv-visit seen queue id inv =
      let in_queue = λ (a : CommitId). contains-append queue (parents id) a in
      let here : IsAncestor id = inv.sound id (middle _ _ _ (beq_refl id)) in
      let later : (a : CommitId)
          → (contains seen a || ((id == a) || contains queue a)) ≡ true
          → (((id == a) || contains seen a) || contains (queue ++ parents id) a) ≡ true =
        λ a h. rw (in_queue a) (shuffle _ (id == a) _ (contains (parents id) a) h) in
      record {
        sound = λ a h. elim (Bool-cases (contains (parents id) a)) [
          | inl up ↦ inr (climb id a here up)
          | inr out ↦
              inv.sound a
                (unshuffle _ (id == a) _ (contains (parents id) a) out (rw (in_queue a) at h))
        ];
        first = later seed inv.first;
        closed = λ a p s h. elim (Bool-cases (id == a)) [
          | inl e ↦ rw (in_queue p) (
              last_one ((id == p) || contains seen p) _ _
                (ap (λ b. contains (parents b) p) ((commit_id_beq_iff id a).0 e) ∙ h))
          | inr e ↦ later p (inv.closed a p (rw e at s) h)
        ];
      }

  Inv-start : Inv [] (seed ∷ [])
  unfolding contains
  Inv-start = record {
    sound = λ a h. inl (sym ((commit_id_beq_iff seed a).0 (or_nothing _ h)));
    first = middle false _ _ (beq_refl seed);
    closed = λ a p s h. absurd (cc s);
  }

  all_seen :
      (seen : List CommitId)
      → Inv seen []
      → (a : CommitId) → Ancestor parents seed a
      → contains seen a ≡ true
  unfolding contains
  all_seen seen inv a (direct h) = or_nothing _ (inv.closed seed a (or_nothing _ inv.first) h)
  all_seen seen inv a (further {b} up h) = or_nothing _ (inv.closed b a (all_seen seen inv b up) h)

  found :
      (seen : List CommitId) → Inv seen [] → (a : CommitId) → IsAncestor a → contains seen a ≡ true
  unfolding contains
  found seen inv a (inl e) = ap (contains seen) e ∙ or_nothing _ inv.first
  found seen inv a (inr up) = all_seen seen inv a up

  close-exact :
      (fuel : ℕ) (seen queue : List CommitId)
      → length queue + open_edges seen edges < fuel
      → Inv seen queue
      → (a : CommitId) → (contains (close edges fuel seen queue) a ≡ true) ↔ IsAncestor a
  unfolding close contains
  close-exact zero seen queue enough inv a = absurd (omega arith)
  close-exact (suc fuel) seen [] enough inv a =
      (λ h. inv.sound a (ground (arith, h)), found seen inv a)
  close-exact (suc fuel) seen (id ∷ queue) enough inv a = elim (Bool-cases (contains seen id)) [
    | inl old ↦
        rw (close, old)
          (close-exact fuel seen queue (omega arith) (Inv-skip seen queue id old inv) a)
    | inr new ↦
        let fewer : length (queue ++ parents id) + open_edges (id ∷ seen) edges < fuel =
          omega
            (arith, enough, open_edges-cons id seen edges new, length-append queue (parents id)) in
        rw (close, new)
          (close-exact fuel (id ∷ seen) (queue ++ parents id) fewer (Inv-visit seen queue id inv) a)
  ]

  -- The recursive query for the ancestors of a commit ends with exactly the commit and the commits
  -- reachable from it through parent links, on every graph, one with a cycle included.
  pub ancestors_exact : (a : CommitId) → (contains (ancestors edges seed) a ≡ true) ↔ IsAncestor a
  unfolding ancestors
  ancestors_exact =
      close-exact (length edges + 2) [] (seed ∷ []) (omega (arith, open_edges-le [] edges))
        Inv-start
