-- ===== src/Util/Name/Grammar/Exact.antt =====
-- crates/util/src/name.rs and refs.rs: which texts are names.
use sekai.Base.{
  ℕ, ◌≤◌, ◌<◌, ◌≡◌, ◌≢◌, ◌↔◌, refl, sym, ◌∙◌, inl, inr, Bool, true, false, ◌||◌, Option, none, some,
  List, [], ◌∷◌, any, all, All, length, arith, ltb, Bool-cases,
}
use sekai.Base.Outcome.{Result, ok, err, map_err, ◌>>◌, >>=-eq-ok, refuse-eq-ok}
use sekai.Util.Name.{RefName}
use sekai.Util.Name.Grammar.{
  NameRule, empty, too_long, bad_path, empty_component, dot_segment, max_len, byte_len, utf8_len,
  is_allowed, is_digit, find_bad, starts_slash, ends_slash, doubled_slash, split, is_dots, is_nil,
  refuse_char, check, parse_ref_name, numeric, reserved, eq_ignore_case, head, ref_error,
}
use sekai.Util.Name.Grammar.Segments.{slashes-split}

-- A path of 1 to 64 characters, ASCII letters, digits, `.`, `_`, `-` and `/`, whose components are
-- neither empty nor `.` nor `..`.
pub IsPath : List ℕ → Type 0
IsPath text =
    (0 < length text)
    × (length text ≤ max_len)
    × All (λ c. is_allowed c ≡ true) text
    × All (λ s. (s ≢ []) × (is_dots s ≡ false)) (split text)

-- an allowed character is one byte
ascii_len : (c : ℕ) → is_allowed c ≡ true → utf8_len c ≡ 1
unfolding is_allowed utf8_len
ascii_len c h = ground arith

find_bad-All : (text : List ℕ) → find_bad text ≡ none → All (λ c. is_allowed c ≡ true) text
unfolding find_bad
find_bad-All [] h = tt
find_bad-All (c ∷ cs) h = elim (Bool-cases (is_allowed c)) [
  | inl t ↦ (t, find_bad-All cs (rw t at h))
  | inr f ↦ absurd (cc (rw f at h))
]

All-find_bad : (text : List ℕ) → All (λ c. is_allowed c ≡ true) text → find_bad text ≡ none
unfolding find_bad
All-find_bad [] h = refl
All-find_bad (c ∷ cs) (t, h) = rw t (All-find_bad cs h)

byte_len-All : (text : List ℕ) → All (λ c. is_allowed c ≡ true) text → byte_len text ≡ length text
unfolding byte_len
byte_len-All [] h = refl
byte_len-All (c ∷ cs) (t, h) = omega (arith, ascii_len c t, byte_len-All cs h)

-- the components, from the two tests on them and back
components :
    (ss : List (List ℕ))
    → any is_nil ss ≡ false
    → any is_dots ss ≡ false
    → All (λ s. (s ≢ []) × (is_dots s ≡ false)) ss
components [] e f = tt
components ([] ∷ ss) e f = absurd (cc e)
components ((c ∷ cs) ∷ ss) e f =
    ((λ n. cc n, ground (arith, f)), components ss e (ground (arith, f)))

tests_of :
    (ss : List (List ℕ))
    → All (λ s. (s ≢ []) × (is_dots s ≡ false)) ss
    → (any is_nil ss ≡ false) × (any is_dots ss ≡ false)
tests_of [] h = (refl, refl)
tests_of ([] ∷ ss) ((n, d), h) = absurd (n refl)
tests_of ((c ∷ cs) ∷ ss) ((n, d), h) = let (e, f) = tests_of ss h in (e, ground (arith, d, f))

refuse_char-eq-ok :
    (o : Option ℕ) (m : Result (Unit {0}) NameRule) {u : Unit {0}}
    → (refuse_char o >> m) ≡ ok u
    → (o ≡ none) × (m ≡ ok u)
refuse_char-eq-ok none m h = (refl, h)
refuse_char-eq-ok (some c) m h = absurd (cc h)

abbrev bad_slashes : List ℕ → Bool
bad_slashes text = starts_slash text || ends_slash text || doubled_slash text

-- the five tests of a text that is accepted
check-tests :
    (text : List ℕ)
    → check text ≡ ok tt
    → (is_nil text ≡ false)
      × (ltb max_len (byte_len text) ≡ false)
      × (find_bad text ≡ none)
      × (bad_slashes text ≡ false)
      × (any is_dots (split text) ≡ false)
unfolding check
check-tests text h =
    let (e1, h1) = refuse-eq-ok (is_nil text) empty _ h in
    let (e2, h2) = refuse-eq-ok (ltb max_len (byte_len text)) too_long _ h1 in
    let (e3, h3) = refuse_char-eq-ok (find_bad text) _ h2 in
    let (e4, h4) = refuse-eq-ok (bad_slashes text) (bad_path empty_component) _ h3 in
    let (e5, _) = refuse-eq-ok (any is_dots (split text)) (bad_path dot_segment) (ok tt) h4 in
    (e1, e2, e3, e4, e5)

tests-check :
    (text : List ℕ)
    → is_nil text ≡ false
    → ltb max_len (byte_len text) ≡ false
    → find_bad text ≡ none
    → bad_slashes text ≡ false
    → any is_dots (split text) ≡ false
    → check text ≡ ok tt
unfolding check
tests-check text e1 e2 e3 e4 e5 = rw (check, e1, e2, e3, e4, e5)

full_length : (text : List ℕ) → is_nil text ≡ false → 0 < length text
full_length [] e = absurd (cc e)
full_length (c ∷ cs) e = omega arith

length_full : (text : List ℕ) → 0 < length text → is_nil text ≡ false
length_full [] h = absurd (omega arith)
length_full (c ∷ cs) h = refl

-- A text is accepted exactly when it is a path.
check-IsPath : (text : List ℕ) → (check text ≡ ok tt) ↔ IsPath text
unfolding IsPath
check-IsPath text = (
  λ h.
      let (e1, e2, e3, e4, e5) = check-tests text h in
      let allowed = find_bad-All text e3 in
      (
        full_length text e1,
        ground (arith, e2, byte_len-All text allowed),
        allowed,
        components (split text) (sym (slashes-split text e1) ∙ e4) e5,
      ),
  λ (full, short, allowed, parts).
      let e1 = length_full text full in
      let (e4, e5) = tests_of (split text) parts in
      tests-check text e1 (ground (arith, short, byte_len-All text allowed))
        (All-find_bad text allowed) (slashes-split text e1 ∙ e4) e5,
)

map_err-eq-ok :
    {A E F : Type 0} (f : E → F) (r : Result A E) {a : A} → map_err f r ≡ ok a → r ≡ ok a
map_err-eq-ok f (ok a) h = cc h
map_err-eq-ok f (err e) h = absurd (cc h)

-- A text is a ref name exactly when it is a path of 1 to 64 ASCII letters, digits, `.`, `_`, `-` and
-- `/` whose components are neither empty nor `.` nor `..`, and is neither made of digits alone nor
-- `HEAD` in any case. The name is then the text itself.
pub parse_ref_name-IsPath :
    (text : List ℕ) (name : RefName)
    → (parse_ref_name text ≡ ok name) ↔ (
        (name.chars ≡ text)
        × IsPath text
        × (all is_digit text ≡ false)
        × (eq_ignore_case text head ≡ false))
unfolding parse_ref_name
parse_ref_name-IsPath text name = (
  λ h.
      let (_, e1, h1) = >>=-eq-ok (map_err ref_error (check text)) _ h in
      let (e2, h2) = refuse-eq-ok (all is_digit text) numeric _ h1 in
      let (e3, h3) = refuse-eq-ok (eq_ignore_case text head) reserved _ h2 in
      (cc h3, (check-IsPath text).0 (map_err-eq-ok ref_error (check text) e1), e2, e3),
  λ (same, path, e2, e3). rw (parse_ref_name, (check-IsPath text).1 path, e2, e3, ← same),
)
