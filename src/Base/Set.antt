-- ===== src/Base/Set.antt =====
-- `BTreeSet` as a list in key order. The laws of `contains` need no law of the order.
use sekai.Base.{◌≡◌, refl, ◌||◌, List, [], ◌∷◌, arith, if◌then◌else◌, Ord, ◌==◌, ◌<?◌, contains}

module _ {ℓ} {A : Type ℓ} ⦃o : Ord A⦄ where
  unfoldable pub insert : A → List A → List A
  insert a [] = a ∷ []
  insert a (x ∷ xs) = if a == x then x ∷ xs else if a <? x then a ∷ x ∷ xs else x ∷ insert a xs

  -- the set of the elements of a list
  unfoldable pub from : List A → List A
  unfolding insert
  from [] = []
  from (x ∷ xs) = insert x (from xs)

  pub contains-insert :
      (a b : A) (xs : List A) → contains (insert a xs) b ≡ (a == b || contains xs b)
  unfolding insert contains
  contains-insert a b [] = refl
  contains-insert a b (x ∷ xs) =
      ground (arith, contains-insert a b xs, o.beq_iff a x, o.beq_iff a b, o.beq_iff x b)

  pub contains-from : (a : A) (xs : List A) → contains (from xs) a ≡ contains xs a
  unfolding from contains
  contains-from a [] = refl
  contains-from a (x ∷ xs) = ground (arith, contains-insert x a (from xs), contains-from a xs)
