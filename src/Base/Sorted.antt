-- ===== src/Base/Sorted.antt =====
-- Sorting a `Vec` and dropping repeated elements, over a total order.
use sekai.Base.{
  ◌≡◌, refl, sym, ap, ◌∙◌, ◌⊎◌, inl, inr, true, false, ◌||◌, List, [], ◌∷◌, arith, if◌then◌else◌,
  Ord, ◌==◌, ◌<?◌, contains, Bool-cases, beq_refl,
}

-- The laws of a total order.
pub record TotalOrder {ℓ} {A : Type ℓ} (o : Ord A) : Type ℓ where
  pub lt_irrefl : (a : A) → o.blt a a ≡ false
  pub lt_trans : (a b c : A) → o.blt a b ≡ true → o.blt b c ≡ true → o.blt a c ≡ true
  pub lt_total : (a b : A) → (o.blt a b ≡ true) ⊎ (o.beq a b ≡ true) ⊎ (o.blt b a ≡ true)

module _ {ℓ} {A : Type ℓ} ⦃o : Ord A⦄ where
  -- `sort_unstable`, which puts equal elements beside one another
  unfoldable pub insert_sorted : A → List A → List A
  insert_sorted a [] = a ∷ []
  insert_sorted a (x ∷ xs) =
      let rest = insert_sorted a xs in if x <? a then x ∷ rest else a ∷ x ∷ xs

  unfoldable pub sort : List A → List A
  unfolding insert_sorted
  sort [] = []
  sort (x ∷ xs) = insert_sorted x (sort xs)

  -- `dedup`: of equal elements in a row the first stays
  unfoldable pub dedup : List A → List A
  dedup [] = []
  dedup (x ∷ []) = x ∷ []
  dedup (x ∷ y ∷ xs) = let rest = dedup (y ∷ xs) in if x == y then rest else x ∷ rest

  abbrev pub From : A → List A → Type 0
  From a [] = Unit
  From a (x ∷ xs) = (x <? a ≡ false) × From x xs

  -- each element is before the next
  abbrev pub After : A → List A → Type 0
  After a [] = Unit
  After a (x ∷ xs) = (a <? x ≡ true) × After x xs

  abbrev pub IsIncreasing : List A → Type 0
  IsIncreasing [] = Unit
  IsIncreasing (x ∷ xs) = After x xs

  abbrev IsSorted : List A → Type 0
  IsSorted [] = Unit
  IsSorted (x ∷ xs) = From x xs

  contains-insert_sorted :
      (a b : A) (xs : List A) → contains (insert_sorted a xs) b ≡ (a == b || contains xs b)
  unfolding insert_sorted contains
  contains-insert_sorted a b [] = refl
  contains-insert_sorted a b (x ∷ xs) = ground (arith, contains-insert_sorted a b xs)

  pub contains-sort : (b : A) (xs : List A) → contains (sort xs) b ≡ contains xs b
  unfolding sort contains
  contains-sort b [] = refl
  contains-sort b (x ∷ xs) =
      contains-insert_sorted x b (sort xs) ∙ ap (λ t. x == b || t) (contains-sort b xs)

  contains-dedup : (b : A) (xs : List A) → contains (dedup xs) b ≡ contains xs b
  unfolding dedup contains
  contains-dedup b [] = refl
  contains-dedup b (x ∷ []) = refl
  contains-dedup b (x ∷ y ∷ xs) = ground (arith, contains-dedup b (y ∷ xs), o.beq_iff x y)

  pub contains-dedup-sort : (b : A) (xs : List A) → contains (dedup (sort xs)) b ≡ contains xs b
  contains-dedup-sort b xs = contains-dedup b (sort xs) ∙ contains-sort b xs

module _ {ℓ} {A : Type ℓ} ⦃o : Ord A⦄ (total : TotalOrder o) where
  then_before : (a b : A) → b <? a ≡ false → (a == b) ≡ false → a <? b ≡ true
  then_before a b h k = elim (total.lt_total a b) [
    | inl l ↦ l
    | inr (inl e) ↦ absurd (cc (k, e))
    | inr (inr g) ↦ absurd (cc (h, g))
  ]

  not_both : (a b : A) → a <? b ≡ true → b <? a ≡ false
  not_both a b h = elim (Bool-cases (b <? a)) [
    | inr e ↦ e
    | inl e ↦ absurd (cc (total.lt_trans a b a h e, total.lt_irrefl a))
  ]

  From-insert : (a b : A) (xs : List A) → From b xs → a <? b ≡ false → From b (insert_sorted a xs)
  unfolding insert_sorted
  From-insert a b [] s h = (h, tt)
  From-insert a b (x ∷ xs) (k, s) h = elim (Bool-cases (x <? a)) [
    | inl e ↦ rw e (k, From-insert a x xs s (not_both x a e))
    | inr e ↦ rw e (h, (e, s))
  ]

  IsSorted-insert : (a : A) (xs : List A) → IsSorted xs → IsSorted (insert_sorted a xs)
  unfolding insert_sorted
  IsSorted-insert a [] s = tt
  IsSorted-insert a (x ∷ xs) s = elim (Bool-cases (x <? a)) [
    | inl e ↦ rw e (From-insert a x xs s (not_both x a e))
    | inr e ↦ rw e (e, s)
  ]

  IsSorted-sort : (xs : List A) → IsSorted (sort xs)
  unfolding sort
  IsSorted-sort [] = tt
  IsSorted-sort (x ∷ xs) = IsSorted-insert x (sort xs) (IsSorted-sort xs)

  After-dedup : (a x : A) (xs : List A) → From x xs → a <? x ≡ true → After a (dedup (x ∷ xs))
  unfolding dedup
  After-dedup a x [] s h = (h, tt)
  After-dedup a x (y ∷ xs) (k, s) h = elim (Bool-cases (x == y)) [
    | inl e ↦ rw e (After-dedup a y xs s (rw (← (o.beq_iff x y).0 e) h))
    | inr e ↦ rw e (h, After-dedup x y xs s (then_before x y k e))
  ]

  IsIncreasing-dedup : (xs : List A) → IsSorted xs → IsIncreasing (dedup xs)
  unfolding dedup
  IsIncreasing-dedup [] s = tt
  IsIncreasing-dedup (x ∷ []) s = tt
  IsIncreasing-dedup (x ∷ y ∷ xs) (k, s) = elim (Bool-cases (x == y)) [
    | inl e ↦ rw e (IsIncreasing-dedup (y ∷ xs) s)
    | inr e ↦ rw e (After-dedup x y xs s (then_before x y k e))
  ]

  -- Sorting and dropping repetitions leaves each element before the next.
  pub IsIncreasing-dedup-sort : (xs : List A) → IsIncreasing (dedup (sort xs))
  IsIncreasing-dedup-sort xs = IsIncreasing-dedup (sort xs) (IsSorted-sort xs)

  After-lt : (a b : A) (xs : List A) → After a xs → contains xs b ≡ true → a <? b ≡ true
  unfolding contains
  After-lt a b [] s i = absurd (cc i)
  After-lt a b (x ∷ xs) (h, s) i = elim (Bool-cases (x == b)) [
    | inl e ↦ rw (← (o.beq_iff x b).0 e) h
    | inr e ↦ total.lt_trans a x b h (After-lt x b xs s (rw e at i))
  ]

  After-IsIncreasing : (a : A) (xs : List A) → After a xs → IsIncreasing xs
  After-IsIncreasing a [] s = tt
  After-IsIncreasing a (x ∷ xs) (h, s) = s

  After-not : (a : A) (xs : List A) → After a xs → contains xs a ≡ false
  After-not a xs s = elim (Bool-cases (contains xs a)) [
    | inr e ↦ e
    | inl e ↦ absurd (cc (After-lt a a xs s e, total.lt_irrefl a))
  ]

  -- the heads of two increasing lists with the same elements are the same
  heads_same :
      (x y : A) (xs ys : List A)
      → After x xs
      → After y ys
      → contains (x ∷ xs) y ≡ true
      → contains (y ∷ ys) x ≡ true
      → x ≡ y
  unfolding contains
  heads_same x y xs ys s t i j = elim (Bool-cases (x == y)) [
    | inl e ↦ (o.beq_iff x y).0 e
    | inr e ↦ elim (Bool-cases (y == x)) [
      | inl f ↦ sym ((o.beq_iff y x).0 f)
      | inr f ↦
          let up : x <? y ≡ true = After-lt x y xs s (rw e at i) in
          let down : y <? x ≡ true = After-lt y x ys t (rw f at j) in
          absurd (cc (not_both x y up, down))
    ]
  ]

  nothing : (a : A) → ¬ (contains [] a ≡ true)
  unfolding contains
  nothing a h = cc h

  head_in : (x : A) (xs : List A) → contains (x ∷ xs) x ≡ true
  unfolding contains
  head_in x xs = rw (beq_refl x)

  tails_same :
      (x : A) (xs ys : List A)
      → After x xs
      → After x ys
      → ((a : A) → contains (x ∷ xs) a ≡ contains (x ∷ ys) a)
      → (a : A) → contains xs a ≡ contains ys a
  unfolding contains
  tails_same x xs ys s t h a = elim (Bool-cases (x == a)) [
    | inl e ↦ rw (← (o.beq_iff x a).0 e) (After-not x xs s ∙ sym (After-not x ys t))
    | inr e ↦ rw e at (h a)
  ]

  -- Two increasing lists with the same elements are the same list.
  pub IsIncreasing-unique :
      (xs ys : List A)
      → IsIncreasing xs
      → IsIncreasing ys
      → ((a : A) → contains xs a ≡ contains ys a)
      → xs ≡ ys
  IsIncreasing-unique [] [] s t h = refl
  IsIncreasing-unique [] (y ∷ ys) s t h = absurd (nothing y (h y ∙ head_in y ys))
  IsIncreasing-unique (x ∷ xs) [] s t h = absurd (nothing x (sym (h x) ∙ head_in x xs))
  IsIncreasing-unique (x ∷ xs) (y ∷ ys) s t h =
      let same : y ≡ x =
        sym (heads_same x y xs ys s t (h y ∙ head_in y ys) (sym (h x) ∙ head_in x xs)) in
      let t' : After x ys = rw same at t in
      let h' : (a : A) → contains (x ∷ xs) a ≡ contains (x ∷ ys) a =
        λ a. h a ∙ ap (λ z. contains (z ∷ ys) a) same in
      rw same (
        ap (λ l. x ∷ l)
          (IsIncreasing-unique xs ys (After-IsIncreasing x xs s) (After-IsIncreasing x ys t')
            (tails_same x xs ys s t' h')))
