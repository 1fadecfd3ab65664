-- ===== src/Base/Map.antt =====
-- `BTreeMap` as a list of entries in key order. The laws of `get` need no law of the order.
use sekai.Base.{
  ◌≡◌, refl, true, false, contains, Option, none, some, List, [], ◌∷◌, arith, if◌then◌else◌, Ord,
  ◌==◌, ◌<?◌,
}

module _ {ℓ κ} {K : Type ℓ} {V : Type κ} ⦃o : Ord K⦄ where
  unfoldable pub get : List (K × V) → K → Option V
  get [] k = none
  get ((j, v) ∷ m) k = if j == k then some v else get m k

  unfoldable pub insert : K → V → List (K × V) → List (K × V)
  insert k v [] = (k, v) ∷ []
  insert k v ((j, w) ∷ m) =
      if k == j then (k, v) ∷ m else if k <? j then (k, v) ∷ (j, w) ∷ m else (j, w) ∷ insert k v m

  unfoldable pub erase : K → List (K × V) → List (K × V)
  erase k [] = []
  erase k ((j, v) ∷ m) = let rest = erase k m in if j == k then rest else (j, v) ∷ rest

  pub get-erase :
      (k i : K) (m : List (K × V)) → get (erase k m) i ≡ (if k == i then none else get m i)
  unfolding get erase
  get-erase k i [] = ground arith
  get-erase k i ((j, v) ∷ m) =
      ground (arith, get-erase k i m, o.beq_iff k j, o.beq_iff k i, o.beq_iff j i, o.beq_iff j k)

  pub get-insert :
      (k i : K) (v : V) (m : List (K × V))
      → get (insert k v m) i ≡ (if k == i then some v else get m i)
  unfolding get insert
  get-insert k i v [] = refl
  get-insert k i v ((j, w) ∷ m) =
      ground (arith, get-insert k i v m, o.beq_iff k j, o.beq_iff k i, o.beq_iff j i)

module _ {ℓ κ} {K : Type ℓ} {V : Type κ} where
  -- the keys, in order
  unfoldable pub keys : List (K × V) → List K
  keys [] = []
  keys ((k, v) ∷ m) = k ∷ keys m

module _ {ℓ κ} {K : Type ℓ} {V : Type κ} ⦃o : Ord K⦄ where
  -- the keys are those that `get` finds
  pub contains-keys :
      (m : List (K × V)) (k : K)
      → contains (keys m) k ≡ (elim (get m k) [ none ↦ false | some _ ↦ true ])
  unfolding contains keys get
  contains-keys [] k = refl
  contains-keys ((j, v) ∷ m) k = ground (arith, contains-keys m k)
