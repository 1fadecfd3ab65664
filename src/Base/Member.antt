-- ===== src/Base/Member.antt =====
-- Membership in a list as a type, with the element it is of; for lists whose elements need no test.
use sekai.Base.{
  ◌≡◌, refl, sym, ap, ◌∙◌, ◌⊎◌, inl, inr, Bool, true, false, List, [], ◌∷◌, ◌++◌, map, filter,
  Bool-cases, any, or_left, or_right, contains, Ord, ◌==◌, ◌||◌, arith,
}

or_false : (a b : Bool) → (a || b) ≡ false → (a ≡ false) × (b ≡ false)
or_false a b h = ground (arith, h)

module _ {A : Type 0} where
  abbrev pub In : A → List A → Type 0
  In a [] = ⊥
  In a (x ∷ xs) = (x ≡ a) ⊎ In a xs

  pub In-filter : (p : A → Bool) (xs : List A) (a : A) → In a xs → p a ≡ true → In a (filter p xs)
  unfolding filter
  In-filter p [] a i h = absurd i
  In-filter p (x ∷ xs) a (inl e) h = rw (filter, ap p e ∙ h) (inl e)
  In-filter p (x ∷ xs) a (inr i) h = elim (Bool-cases (p x)) [
    | inl t ↦ rw (filter, t) (inr (In-filter p xs a i h))
    | inr f ↦ rw (filter, f) (In-filter p xs a i h)
  ]

  pub In-of_filter :
      (p : A → Bool) (xs : List A) (a : A) → In a (filter p xs) → In a xs × (p a ≡ true)
  unfolding filter
  In-of_filter p [] a i = absurd i
  In-of_filter p (x ∷ xs) a i = elim (Bool-cases (p x)) [
    | inl t ↦ elim (rw (filter, t) at i) [
      | inl e ↦ (inl e, ap p (sym e) ∙ t)
      | inr j ↦ let (k, h) = In-of_filter p xs a j in (inr k, h)
    ]
    | inr f ↦ let (k, h) = In-of_filter p xs a (rw (filter, f) at i) in (inr k, h)
  ]

  pub In-any : (p : A → Bool) (xs : List A) → any p xs ≡ true → (a : A) × In a xs × (p a ≡ true)
  In-any p [] h = absurd (ground (arith, h))
  In-any p (x ∷ xs) h = elim (Bool-cases (p x)) [
    | inl t ↦ (x, inl refl, t)
    | inr f ↦ let (a, i, t) = In-any p xs (rw (f) at h) in (a, inr i, t)
  ]

  pub any-false : (p : A → Bool) (xs : List A) (a : A) → any p xs ≡ false → In a xs → p a ≡ false
  any-false p (x ∷ xs) a h (inl e) = ap p (sym e) ∙ (or_false _ _ h).0
  any-false p (x ∷ xs) a h (inr i) = any-false p xs a (or_false _ _ h).1 i
  any-false p [] a h i = absurd i

  pub In-append_left : (xs ys : List A) (a : A) → In a xs → In a (xs ++ ys)
  In-append_left [] ys a i = absurd i
  In-append_left (x ∷ xs) ys a (inl e) = inl e
  In-append_left (x ∷ xs) ys a (inr i) = inr (In-append_left xs ys a i)

  pub In-append_right : (xs ys : List A) (a : A) → In a ys → In a (xs ++ ys)
  In-append_right [] ys a i = i
  In-append_right (x ∷ xs) ys a i = inr (In-append_right xs ys a i)

  pub In-of_append : (xs ys : List A) (a : A) → In a (xs ++ ys) → In a xs ⊎ In a ys
  In-of_append [] ys a i = inr i
  In-of_append (x ∷ xs) ys a (inl e) = inl (inl e)
  In-of_append (x ∷ xs) ys a (inr i) = elim (In-of_append xs ys a i) [
    | inl j ↦ inl (inr j)
    | inr j ↦ inr j
  ]

module _ {A B : Type 0} (f : A → B) where
  pub In-map : (xs : List A) (a : A) → In a xs → In (f a) (map f xs)
  In-map [] a i = absurd i
  In-map (x ∷ xs) a (inl e) = inl (ap f e)
  In-map (x ∷ xs) a (inr i) = inr (In-map xs a i)

  pub In-of_map : (xs : List A) (b : B) → In b (map f xs) → (a : A) × In a xs × (f a ≡ b)
  In-of_map [] b i = absurd i
  In-of_map (x ∷ xs) b (inl e) = (x, inl refl, e)
  In-of_map (x ∷ xs) b (inr i) = let (a, j, e) = In-of_map xs b i in (a, inr j, e)

module _ {A : Type 0} ⦃o : Ord A⦄ where
  pub contains-In : (xs : List A) (a : A) → contains xs a ≡ true → In a xs
  unfolding contains
  contains-In [] a h = absurd (cc h)
  contains-In (x ∷ xs) a h = elim (Bool-cases (x == a)) [
    | inl e ↦ inl ((o.beq_iff x a).0 e)
    | inr e ↦ inr (contains-In xs a (rw e at h))
  ]

  pub In-contains : (xs : List A) (a : A) → In a xs → contains xs a ≡ true
  unfolding contains
  In-contains [] a i = absurd i
  In-contains (x ∷ xs) a (inl e) = or_left _ _ ((o.beq_iff x a).1 e)
  In-contains (x ∷ xs) a (inr i) = or_right _ _ (In-contains xs a i)
