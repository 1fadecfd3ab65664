-- ===== src/Sqlite/Edges.antt =====
-- What the statements on the table of parent links do to its contents.
use sekai.Base.{
  and_left, and_right, ◌≡◌, refl, sym, ap, Bool, true, not, ◌&&◌, ◌||◌, List, [], ◌∷◌, ◌++◌, filter,
  contains, arith, Bool-cases, inl, inr, ◌∙◌, ◌==◌,
}
use sekai.Util.Hash.{CommitId, commit_id_ord, commit_id_beq_iff}
use sekai.Sqlite.{Edge, parents_in}
use sekai.Sqlite.Writes.{has_edge, add_edge, add_edges}
use sekai.Sqlite.Retire.{adopt, cut}

implied : (a b : Bool) → (b ≡ true → a ≡ true) → a ≡ (a || b)
implied a b h = ground (arith, h)

-- The parents that the query gives are those that the table has an edge to.
pub contains-parents_in :
    (edges : List Edge) (c p : CommitId) → contains (parents_in edges c) p ≡ has_edge edges c p
unfolding parents_in has_edge contains filter
contains-parents_in [] c p = refl
contains-parents_in (e ∷ es) c p = ground (arith, contains-parents_in es c p)

has_edge-append :
    (edges : List Edge) (c p x y : CommitId)
    → has_edge (edges ++ (c, p) ∷ []) x y ≡ (has_edge edges x y || (c == x && p == y))
unfolding has_edge
has_edge-append [] c p x y = ground arith
has_edge-append (e ∷ es) c p x y = ground (arith, has_edge-append es c p x y)

has_edge-same :
    (edges : List Edge) (c p x y : CommitId)
    → (c == x && p == y) ≡ true
    → has_edge edges x y ≡ has_edge edges c p
has_edge-same edges c p x y h =
    ap (λ z. has_edge edges z y) (sym ((commit_id_beq_iff c x).0 (and_left _ _ h)))
    ∙ ap (has_edge edges c) (sym ((commit_id_beq_iff p y).0 (and_right _ _ h)))

pub has_edge-add_edge :
    (edges : List Edge) (c p x y : CommitId)
    → has_edge (add_edge edges c p) x y ≡ (has_edge edges x y || (c == x && p == y))
unfolding add_edge
has_edge-add_edge edges c p x y = elim (Bool-cases (has_edge edges c p)) [
  | inl old ↦
      let same : (c == x && p == y) ≡ true → has_edge edges x y ≡ true =
        λ h. has_edge-same edges c p x y h ∙ old in
      rw (old) (implied _ _ same)
  | inr new ↦ rw (new) (has_edge-append edges c p x y)
]

pub has_edge-add_edges :
    (edges : List Edge) (c : CommitId) (ps : List CommitId) (x y : CommitId)
    → has_edge (add_edges edges c ps) x y ≡ (has_edge edges x y || (c == x && contains ps y))
unfolding add_edges contains
has_edge-add_edges edges c [] x y = ground arith
has_edge-add_edges edges c (p ∷ ps) x y =
    ground
      (arith, has_edge-add_edges (add_edge edges c p) c ps x y, has_edge-add_edge edges c p x y)

pub has_edge-adopt :
    (edges : List Edge) (from : CommitId) (es : List Edge) (x y : CommitId)
    → has_edge (adopt edges from es) x y
      ≡ (has_edge edges x y || (has_edge es x from && has_edge edges from y))
unfolding adopt has_edge
has_edge-adopt edges from [] x y = ground arith
has_edge-adopt edges from (e ∷ es) x y = elim (Bool-cases (e.1 == from)) [
  | inl t ↦
      let acc = add_edges edges e.0 (parents_in edges from) in
      let at = λ (z : CommitId). has_edge-add_edges edges e.0 (parents_in edges from) z y in
      rw (t, has_edge-adopt acc from es x y, at x, at from, contains-parents_in edges from y)
        (ground arith)
  | inr f ↦ rw (f, has_edge-adopt edges from es x y) (ground arith)
]

pub has_edge-cut :
    (edges : List Edge) (from x y : CommitId)
    → has_edge (cut edges from) x y ≡ (has_edge edges x y && not (x == from || y == from))
unfolding cut has_edge filter
has_edge-cut [] from x y = refl
has_edge-cut (e ∷ es) from x y =
    ground (arith, has_edge-cut es from x y, commit_id_beq_iff e.0 x, commit_id_beq_iff e.1 y)
