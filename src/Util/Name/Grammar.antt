-- ===== src/Util/Name/Grammar.antt =====
-- crates/util/src/name.rs, and the parsing of names of refs.rs and named_scope.rs, with their errors
-- of error.rs. Text is the list of its characters, as code points.
pub mod Segments
pub mod Exact
use sekai.Base.{
  ℕ, zero, suc, ◌+◌, ◌-◌, Bool, true, false, not, ◌&&◌, ◌||◌, Option, none, some, List, [], ◌∷◌,
  any, all, if◌then◌else◌, ltb, leb, nat_beq,
}
use sekai.Base.Outcome.{Result, ok, err, map_err, refuse, ◌>>=◌, ◌>>◌}
use sekai.Util.Hash.{bytes_beq}
use sekai.Util.Name.{RefName}

-- `MAX_LEN`
abbrev pub max_len : ℕ
max_len = 64

-- the two rules that a path breaks, in place of their texts
pub data PathRule : Type 0 where
  empty_component dot_segment : PathRule

pub data NameRule : Type 0 where
  empty too_long : NameRule
  bad_char : ℕ → NameRule
  bad_path : PathRule → NameRule

-- the bytes of a character in UTF-8, and `str::len`
unfoldable pub utf8_len : ℕ → ℕ
utf8_len c = if ltb c 128 then 1 else if ltb c 2048 then 2 else if ltb c 65536 then 3 else 4

unfoldable pub byte_len : List ℕ → ℕ
unfolding utf8_len
byte_len [] = 0
byte_len (c ∷ cs) = utf8_len c + byte_len cs

abbrev pub between : ℕ → ℕ → ℕ → Bool
between first last c = leb first c && leb c last

-- `is_ascii_digit` and `is_ascii_alphanumeric`
abbrev pub is_digit : ℕ → Bool
is_digit c = between 48 57 c

abbrev pub is_alphanumeric : ℕ → Bool
is_alphanumeric c = between 65 90 c || between 97 122 c || is_digit c

abbrev pub is_slash : ℕ → Bool
is_slash c = nat_beq c 47

-- `.`, `_`, `-` and `/`
unfoldable pub is_allowed : ℕ → Bool
is_allowed c = is_alphanumeric c || nat_beq c 46 || nat_beq c 95 || nat_beq c 45 || is_slash c

-- `chars().find(|c| !allowed)`
unfoldable pub find_bad : List ℕ → Option ℕ
unfolding is_allowed
find_bad [] = none
find_bad (c ∷ cs) = let rest = find_bad cs in if is_allowed c then rest else some c

-- `starts_with('/')`, `ends_with('/')` and `contains("//")`
unfoldable pub starts_slash : List ℕ → Bool
starts_slash [] = false
starts_slash (c ∷ cs) = is_slash c

unfoldable pub ends_slash : List ℕ → Bool
ends_slash [] = false
ends_slash (c ∷ []) = is_slash c
ends_slash (c ∷ d ∷ cs) = ends_slash (d ∷ cs)

unfoldable pub doubled_slash : List ℕ → Bool
doubled_slash [] = false
doubled_slash (c ∷ []) = false
doubled_slash (c ∷ d ∷ cs) = is_slash c && is_slash d || doubled_slash (d ∷ cs)

-- `split('/')`
abbrev pub push_char : ℕ → List (List ℕ) → List (List ℕ)
push_char c [] = (c ∷ []) ∷ []
push_char c (s ∷ ss) = (c ∷ s) ∷ ss

unfoldable pub split : List ℕ → List (List ℕ)
split [] = [] ∷ []
split (c ∷ cs) = let rest = split cs in if is_slash c then [] ∷ rest else push_char c rest

-- the segments `.` and `..`
unfoldable pub is_dots : List ℕ → Bool
is_dots s = bytes_beq s (46 ∷ []) || bytes_beq s (46 ∷ 46 ∷ [])

abbrev pub is_nil : List ℕ → Bool
is_nil [] = true
is_nil (c ∷ cs) = false

-- the refusal that `find_bad` gives
abbrev pub refuse_char : Option ℕ → Result (Unit {0}) NameRule
refuse_char none = ok tt
refuse_char (some c) = err (bad_char c)

unfoldable pub check : List ℕ → Result (Unit {0}) NameRule
unfolding byte_len find_bad starts_slash ends_slash doubled_slash split is_dots
check text = do
  refuse (is_nil text) empty
  refuse (ltb max_len (byte_len text)) too_long
  refuse_char (find_bad text)
  refuse (starts_slash text || ends_slash text || doubled_slash text) (bad_path empty_component)
  refuse (any is_dots (split text)) (bad_path dot_segment)
  ok tt

pub data RefNameError : Type 0 where
  empty numeric reserved : RefNameError
  too_long bad_char : ℕ → RefNameError
  bad_path : PathRule → RefNameError

abbrev pub ref_error : NameRule → RefNameError
ref_error NameRule.empty = RefNameError.empty
ref_error NameRule.too_long = RefNameError.too_long max_len
ref_error (NameRule.bad_char c) = RefNameError.bad_char c
ref_error (NameRule.bad_path reason) = RefNameError.bad_path reason

-- `to_ascii_lowercase` of a character, and `eq_ignore_ascii_case`
abbrev pub lower : ℕ → ℕ
lower c = if between 65 90 c then c + 32 else c

unfoldable pub eq_ignore_case : List ℕ → List ℕ → Bool
eq_ignore_case [] [] = true
eq_ignore_case [] (d ∷ ds) = false
eq_ignore_case (c ∷ cs) [] = false
eq_ignore_case (c ∷ cs) (d ∷ ds) = nat_beq (lower c) (lower d) && eq_ignore_case cs ds

-- `RESERVED`, which is "HEAD"
abbrev pub head : List ℕ
head = 72 ∷ 69 ∷ 65 ∷ 68 ∷ []

-- `RefName::parse`
unfoldable pub parse_ref_name : List ℕ → Result RefName RefNameError
unfolding check eq_ignore_case
parse_ref_name text = do
  map_err ref_error (check text)
  refuse (all is_digit text) numeric
  refuse (eq_ignore_case text head) reserved
  ok (record { chars = text })
