-- ===== src/Util/Name/Grammar/Segments.antt =====
-- crates/util/src/name.rs: the tests on slashes find exactly the empty components of a path.
use sekai.Base.{
  ℕ, ◌≡◌, refl, ◌∙◌, inl, inr, Bool, false, ◌||◌, List, [], ◌∷◌, any, arith, Bool-cases,
}
use sekai.Util.Name.Grammar.{
  is_slash, starts_slash, ends_slash, doubled_slash, push_char, split, is_nil,
}

swap_tests : (a b c : Bool) → (a || (b || c)) ≡ (b || (a || c))
swap_tests a b c = ground arith

first_of : List (List ℕ) → Bool
first_of [] = false
first_of (s ∷ ss) = is_nil s

later_of : List (List ℕ) → Bool
later_of [] = false
later_of (s ∷ ss) = any is_nil ss

any-first : (ss : List (List ℕ)) → any is_nil ss ≡ (first_of ss || later_of ss)
unfolding first_of later_of
any-first [] = refl
any-first (s ∷ ss) = refl

later-cut : (ss : List (List ℕ)) → later_of ([] ∷ ss) ≡ (first_of ss || later_of ss)
unfolding later_of
later-cut ss = any-first ss

push-first : (c : ℕ) (ss : List (List ℕ)) → first_of (push_char c ss) ≡ false
unfolding first_of
push-first c [] = refl
push-first c (s ∷ ss) = refl

push-later : (c : ℕ) (ss : List (List ℕ)) → later_of (push_char c ss) ≡ later_of ss
unfolding later_of
push-later c [] = refl
push-later c (s ∷ ss) = refl

-- the first component is empty where the text is, or starts with a slash
first-split : (text : List ℕ) → first_of (split text) ≡ (is_nil text || starts_slash text)
unfolding split starts_slash
first-split [] = unfold first_of in refl
first-split (c ∷ cs) = elim (Bool-cases (is_slash c)) [
  | inl e ↦ rw e (unfold first_of in refl)
  | inr e ↦ rw e (push-first c (split cs))
]

later-split : (text : List ℕ) → later_of (split text) ≡ (ends_slash text || doubled_slash text)
unfolding split starts_slash ends_slash doubled_slash
later-split [] = unfold later_of in refl
later-split (c ∷ []) = elim (Bool-cases (is_slash c)) [
  | inl e ↦ rw e (unfold later_of in refl)
  | inr e ↦ rw e (unfold later_of in refl)
]
later-split (c ∷ d ∷ cs) = elim (Bool-cases (is_slash c)) [
  | inr e ↦ rw e (push-later c (split (d ∷ cs)) ∙ later-split (d ∷ cs))
  | inl e ↦ rw e (
      later-cut (split (d ∷ cs))
      ∙ (rw (first-split (d ∷ cs), later-split (d ∷ cs))
          (swap_tests (is_slash d) (ends_slash (d ∷ cs)) (doubled_slash (d ∷ cs)))))
]

-- A text that is not empty has an empty component exactly when it starts or ends with a slash or
-- has two in a row.
pub slashes-split :
    (text : List ℕ)
    → is_nil text ≡ false
    → (starts_slash text || ends_slash text || doubled_slash text) ≡ any is_nil (split text)
slashes-split text full = ground (arith, any-first (split text), first-split text, later-split text)
