-- ===== src/Util/NamedScope/Normal.antt =====
-- crates/util/src/named_scope.rs: a record has one spelling, and stands for the union of its areas.
use mathlib.Core.Path.{subst}
use sekai.Base.{
  All-contains, ℕ, ◌≡◌, ◌≢◌, refl, sym, ap, ◌∙◌, ◌⊎◌, inl, inr, Bool, true, false, ◌&&◌, ◌||◌, List,
  [], ◌∷◌, map, any, All, arith, Ord, ◌==◌, contains, Bool-cases, same_truth,
}
use sekai.Base.Int.{ℤ, int_ord, ltb_ℤ, beq_ℤ, ◌≤ℤ◌}
use sekai.Base.Outcome.{ok}
use sekai.Base.Sorted.{
  TotalOrder, sort, dedup, IsIncreasing, contains-dedup-sort, IsIncreasing-dedup-sort,
  IsIncreasing-unique,
}
use sekai.Util.Coord.{dimension_ord, ChunkCoord, all_region_kinds, kind_ord}
use sekai.Util.Scope.{rect_new, rect_contains, rect, area_contains, scope_contains}
use sekai.Util.NamedScope.{
  ScopeName, ScopeArea, rect_ord, area_ord, NamedScope, normal_area, named_scope_new, to_scope,
}

-- an equality test and a strict order that fit
record Laws {A : Type 0} (e r : A → A → Bool) : Type 0 where
  irrefl : (a : A) → r a a ≡ false
  trans : (a b c : A) → r a b ≡ true → r b c ≡ true → r a c ≡ true
  total : (a b : A) → (r a b ≡ true) ⊎ (e a b ≡ true) ⊎ (r b a ≡ true)

module _ {A : Type 0} (f : A → ℤ) where
  by_key : Laws (λ a b. beq_ℤ (f a) (f b)) (λ a b. ltb_ℤ (f a) (f b))
  by_key = record {
    irrefl = λ a. ground arith;
    trans = λ a b c h k. ground arith;
    total = λ a b. ground arith;
  }

  module _ {e r : A → A → Bool} (laws : Laws e r) where
    lex_trans :
        (a b c : A)
        → (ltb_ℤ (f a) (f b) || beq_ℤ (f a) (f b) && r a b) ≡ true
        → (ltb_ℤ (f b) (f c) || beq_ℤ (f b) (f c) && r b c) ≡ true
        → (ltb_ℤ (f a) (f c) || beq_ℤ (f a) (f c) && r a c) ≡ true
    lex_trans a b c h k = ground (arith, h, k, laws.trans a b c)

    lex_total :
        (a b : A)
        → ((ltb_ℤ (f a) (f b) || beq_ℤ (f a) (f b) && r a b) ≡ true)
          ⊎ ((beq_ℤ (f a) (f b) && e a b) ≡ true)
          ⊎ ((ltb_ℤ (f b) (f a) || beq_ℤ (f b) (f a) && r b a) ≡ true)
    lex_total a b = ground (arith, laws.total a b)

    lex :
        Laws
          (λ a b. beq_ℤ (f a) (f b) && e a b)
          (λ a b. ltb_ℤ (f a) (f b) || beq_ℤ (f a) (f b) && r a b)
    lex = record {
      irrefl = λ a. ground (arith, laws.irrefl a);
      trans = lex_trans;
      total = lex_total;
    }

area-Laws : Laws area_ord.beq area_ord.blt
area-Laws =
    lex (λ a. a.0.raw)
      (lex (λ a. a.1.x0) (lex (λ a. a.1.z0) (lex (λ a. a.1.x1) (by_key (λ a. a.1.z1)))))

pub area-TotalOrder : TotalOrder area_ord
area-TotalOrder = record {
  lt_irrefl = area-Laws.irrefl;
  lt_trans = area-Laws.trans;
  lt_total = area-Laws.total;
}

module _ {A : Type 0} ⦃o : Ord A⦄ (p : A → Bool) where
  any-of : (ys : List A) (a : A) → contains ys a ≡ true → p a ≡ true → any p ys ≡ true
  unfolding contains
  any-of [] a i h = absurd (cc i)
  any-of (y ∷ ys) a i h = elim (Bool-cases (y == a)) [
    | inl e ↦ ground (arith, ap p ((o.beq_iff y a).0 e), h)
    | inr e ↦ ground (arith, any-of ys a (rw e at i) h)
  ]

  any-le :
      (xs ys : List A)
      → ((a : A) → contains xs a ≡ true → contains ys a ≡ true)
      → any p xs ≡ true
      → any p ys ≡ true
  unfolding contains
  any-le [] ys h t = absurd (cc t)
  any-le (x ∷ xs) ys h t = elim (Bool-cases (p x)) [
    | inl e ↦ any-of ys x (h x (ground (arith, o.beq_iff x x))) e
    | inr e ↦ any-le xs ys (λ a i. h a (ground (arith, i))) (rw e at t)
  ]

  any-same : (xs ys : List A) → ((a : A) → contains xs a ≡ contains ys a) → any p xs ≡ any p ys
  any-same xs ys h =
      same_truth (any p xs) (any p ys) (any-le xs ys (λ a i. sym (h a) ∙ i))
        (any-le ys xs (λ a i. h a ∙ i))

any-map :
    {A B : Type 0} (p : B → Bool) (f : A → B) (xs : List A)
    → any p (map f xs) ≡ any (λ a. p (f a)) xs
any-map p f [] = refl
any-map p f (x ∷ xs) = ap (λ b. p (f x) || b) (any-map p f xs)

-- the corners of a rectangle are in order
abbrev pub IsNormal : ScopeArea → Type 0
IsNormal (dim, r) = (r.x0 ≤ℤ r.x1) × (r.z0 ≤ℤ r.z1)

-- an area, whichever corners it is given by, has the chunk
abbrev pub selects : ChunkCoord → ScopeArea → Bool
selects coord (dim, r) =
    dim == coord.dim && rect_contains (rect_new r.x0 r.z0 r.x1 r.z1) coord.x coord.z

normal_area-IsNormal : (a : ScopeArea) → IsNormal (normal_area a)
unfolding normal_area
normal_area-IsNormal (dim, r) = ground arith

all-IsNormal : (areas : List ScopeArea) → All IsNormal (map normal_area areas)
all-IsNormal [] = tt
all-IsNormal (a ∷ areas) = (normal_area-IsNormal a, all-IsNormal areas)

-- what holds of all elements of a list holds of all of a list with the same elements
All-of :
    {A : Type 0} ⦃o : Ord A⦄ (P : A → Type 0) (xs : List A) (a : A)
    → All P xs
    → contains xs a ≡ true
    → P a
unfolding contains
All-of P [] a h i = absurd (cc i)
All-of ⦃o⦄ P (x ∷ xs) a (h, hs) i = elim (Bool-cases (x == a)) [
  | inl e ↦ subst P ((o.beq_iff x a).0 e) h
  | inr e ↦ All-of P xs a hs (rw e at i)
]

every_kind : (coord : ChunkCoord) → contains all_region_kinds coord.kind ≡ true
unfolding contains
every_kind coord = ground arith

to_scope-contains :
    (s : NamedScope) (coord : ChunkCoord)
    → scope_contains (to_scope s) coord
      ≡ any (λ a. a.0 == coord.dim && rect_contains a.1 coord.x coord.z) s.areas
unfolding to_scope scope_contains
to_scope-contains s coord =
    rw (every_kind coord)
      (any-map (λ a. a.0 == coord.dim && area_contains a.1 coord) (λ a. (a.0, rect a.1)) s.areas)

same_record :
    (name : ScopeName) (areas : List ScopeArea) (created_at_ms : ℕ) (others : List ScopeArea)
    → others ≢ []
    → ((a : ScopeArea) → contains (map normal_area others) a ≡ contains (map normal_area areas) a)
    → named_scope_new name others created_at_ms
      ≡ ok (record {
        name = name;
        areas = dedup (sort (map normal_area areas));
        created_at_ms = created_at_ms;
      })
unfolding named_scope_new
same_record name areas created_at_ms [] h same = absurd (h refl)
same_record name areas created_at_ms (b ∷ bs) h same =
    let left = map normal_area (b ∷ bs) in
    let right = map normal_area areas in
    let e : dedup (sort left) ≡ dedup (sort right) =
      IsIncreasing-unique area-TotalOrder (dedup (sort left)) (dedup (sort right))
        (IsIncreasing-dedup-sort area-TotalOrder left)
        (IsIncreasing-dedup-sort area-TotalOrder right)
        (λ a. contains-dedup-sort a left ∙ (same a ∙ sym (contains-dedup-sort a right))) in
    ap (λ l. ok (record { name = name; areas = l; created_at_ms = created_at_ms })) e

-- A record of at least one area exists. Its areas are each before the next, in the order of
-- dimension and corners, with the corners of each in order. It stands for the union of the given
-- areas, in every region family: the scope has exactly the chunks that one of them has, whichever
-- corners it was given by. Any other list that comes to the same areas, up to their order, their
-- repetition and the choice of corners, gives the same record.
pub named_scope_new-IsNormal :
    (name : ScopeName) (areas : List ScopeArea) (created_at_ms : ℕ)
    → areas ≢ []
    → (s : NamedScope) × (named_scope_new name areas created_at_ms ≡ ok s)
      × IsIncreasing s.areas
      × All IsNormal s.areas
      × ((coord : ChunkCoord) → scope_contains (to_scope s) coord ≡ any (selects coord) areas)
      × ((others : List ScopeArea)
          → others ≢ []
          → ((a : ScopeArea)
              → contains (map normal_area others) a ≡ contains (map normal_area areas) a)
          → named_scope_new name others created_at_ms ≡ ok s)
unfolding named_scope_new
named_scope_new-IsNormal name [] created_at_ms h = absurd (h refl)
named_scope_new-IsNormal name (a ∷ areas) created_at_ms h =
    let normal = map normal_area (a ∷ areas) in
    let same : (b : ScopeArea) → contains (dedup (sort normal)) b ≡ contains normal b =
      λ b. contains-dedup-sort b normal in
    (
      record { name = name; areas = dedup (sort normal); created_at_ms = created_at_ms },
      refl,
      IsIncreasing-dedup-sort area-TotalOrder normal,
      All-contains (dedup (sort normal))
          (λ b i. All-of IsNormal normal b (all-IsNormal (a ∷ areas)) (sym (same b) ∙ i)),
      λ coord.
          to_scope-contains _ coord
          ∙ (any-same (λ b. b.0 == coord.dim && rect_contains b.1 coord.x coord.z)
                (dedup (sort normal)) normal same
              ∙ any-map (λ b. b.0 == coord.dim && rect_contains b.1 coord.x coord.z) normal_area
                  (a ∷ areas)),
      same_record name (a ∷ areas) created_at_ms,
    )
