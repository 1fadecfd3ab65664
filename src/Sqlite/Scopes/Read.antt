-- ===== src/Sqlite/Scopes/Read.antt =====
-- Looking a scope up by its name, in whatever order the database returns the rows.
use mathlib.Core.Path.{subst}
use sekai.Base.{
  ◌≡◌, ◌≢◌, refl, sym, ap, ◌∙◌, ◌↔◌, inl, inr, Option, none, some, List, [], ◌∷◌, map, All, arith,
  contains, Option-cases, same_truth,
}
use sekai.Base.Outcome.{ok, ok-injective}
use sekai.Base.Member.{contains-In, In-contains, In}
use sekai.Base.Sorted.{
  sort, dedup, IsIncreasing-unique, IsIncreasing-dedup-sort, contains-dedup-sort,
}
use sekai.Util.NamedScope.{
  ScopeName, parse_scope_name, ScopeArea, area_ord, NamedScope, normal_area,
}
use sekai.Util.NamedScope.Normal.{IsNormal, area-TotalOrder}
use sekai.Sqlite.Scopes.{
  ScopeRow, ScopeTables, text_ord, areas_of, JoinedRow, joined_row, join_row, group_scope_rows,
  decode_first, decode_scope, lookup_scope,
}
use sekai.Sqlite.Scopes.Rows.{scope_row, scope_row-All, IsAreas, Sound}
use sekai.Sqlite.Scopes.Stored.{stored}
use sekai.Sqlite.Scopes.Query.{
  named-left_join, rows_for, In-rows_for, in_form, grouped, group-first,
}

-- The database returns the rows of a query, each at least once, in some order.
abbrev pub Arranges : (List JoinedRow → List JoinedRow) → Type 0
Arranges arrange = (rows : List JoinedRow) (x : JoinedRow) → In x (arrange rows) ↔ In x rows

normal_area-same : (a : ScopeArea) → IsNormal a → normal_area a ≡ a
unfolding normal_area
normal_area-same (dim, r) h = ground (arith, h)

map-normal_area :
    (areas : List ScopeArea)
    → ((a : ScopeArea) → In a areas → IsNormal a)
    → map normal_area areas ≡ areas
map-normal_area [] h = refl
map-normal_area (a ∷ areas) h =
    ap (λ b. b ∷ map normal_area areas) (normal_area-same a (h a (inl refl)))
    ∙ ap (λ l. a ∷ l) (map-normal_area areas (λ b i. h b (inr i)))

In-All :
    (P : ScopeArea → Type 0) (areas : List ScopeArea)
    → All P areas
    → (a : ScopeArea) → In a areas
    → P a
In-All P [] h a i = absurd i
In-All P (b ∷ areas) (h, hs) a (inl e) = subst P e h
In-All P (b ∷ areas) (h, hs) a (inr i) = In-All P areas hs a i

-- The areas of a record, read in any order, come to the areas of the record again.
read_again :
    (areas found : List ScopeArea)
    → IsAreas areas
    → ((b : ScopeArea) → In b found ↔ In b areas)
    → dedup (sort (map normal_area (map normal_area found))) ≡ areas
read_again areas found is same =
    let once = map-normal_area found (λ b i. In-All IsNormal areas is.normal b ((same b).0 i)) in
    ap (λ l. dedup (sort l)) (ap (map normal_area) once ∙ once)
    ∙ IsIncreasing-unique area-TotalOrder (dedup (sort found)) areas
        (IsIncreasing-dedup-sort area-TotalOrder found) is.increasing
        (λ b.
          contains-dedup-sort b found
          ∙ same_truth (contains found b) (contains areas b)
              (λ h. In-contains areas b ((same b).0 (contains-In found b h)))
              (λ h. In-contains found b ((same b).1 (contains-In areas b h))))

empty_list : {A : Type 0} (xs : List A) → ((x : A) → ¬ In x xs) → xs ≡ []
empty_list [] h = refl
empty_list (x ∷ xs) h = absurd (h x (inl refl))

join_row-rows_for :
    (r : ScopeRow) (areas : List ScopeArea) → areas ≢ [] → join_row r areas ≡ rows_for r areas
join_row-rows_for r [] h = absurd (h refl)
join_row-rows_for r (a ∷ areas) h = refl

some_area : (areas : List ScopeArea) → areas ≢ [] → (a : ScopeArea) × In a areas
some_area [] h = absurd (h refl)
some_area (a ∷ areas) h = (a, inl refl)

group-nothing : decode_first (group_scope_rows [] []) ≡ ok none
unfolding group_scope_rows decode_first
group-nothing = refl

decode-found :
    (r : ScopeRow) (areas found : List ScopeArea)
    → IsAreas areas
    → parse_scope_name r.name ≡ ok (record { chars = r.name })
    → ((b : ScopeArea) → In b found ↔ In b areas)
    → decode_first (group_scope_rows (rows_for r found) [])
      ≡ ok (
          some (record {
            name = record { chars = r.name };
            areas = areas;
            created_at_ms = r.created_at_ms;
          }))
unfolding decode_first decode_scope grouped
decode-found r areas [] is parsed same =
    let (a, i) = some_area areas is.present in absurd ((same a).1 i)
decode-found r areas (a ∷ found) is parsed same =
    rw (group-first r a found, decode_first, decode_scope, parsed)
      (ap
        (λ l. ok (
          some (record {
            name = record { chars = r.name };
            areas = l;
            created_at_ms = r.created_at_ms;
          })))
        (read_again areas (a ∷ found) is same))

module _ (arrange : List JoinedRow → List JoinedRow) (arranges : Arranges arrange) where
  -- The rows of one scope, arranged, are decoded as its record.
  decode-arranged :
      (r : ScopeRow) (areas : List ScopeArea)
      → IsAreas areas
      → parse_scope_name r.name ≡ ok (record { chars = r.name })
      → decode_first (group_scope_rows (arrange (join_row r areas)) [])
        ≡ ok (
            some (record {
              name = record { chars = r.name };
              areas = areas;
              created_at_ms = r.created_at_ms;
            }))
  decode-arranged r areas is parsed =
      let back : (x : JoinedRow) → In x (arrange (join_row r areas)) ↔ In x (rows_for r areas) =
        λ x.
          subst (λ l. In x (arrange (join_row r areas)) ↔ In x l)
            (join_row-rows_for r areas is.present) (arranges (join_row r areas) x) in
      let (found, e) = in_form r areas (arrange (join_row r areas)) (λ x i. (back x).0 i) in
      let same : (b : ScopeArea) → In b found ↔ In b areas = λ b. (
        λ i. (In-rows_for r areas b).0 (
            (back (joined_row r (some b))).0
              (subst (λ l. In (joined_row r (some b)) l) (sym e) ((In-rows_for r found b).1 i))),
        λ i. (In-rows_for r found b).0 (
            subst (λ l. In (joined_row r (some b)) l) e
              ((back (joined_row r (some b))).1 ((In-rows_for r areas b).1 i))),
      ) in
      ap (λ l. decode_first (group_scope_rows l [])) e ∙ decode-found r areas found is parsed same

  -- A lookup finds the scope that the tables hold under the name.
  pub lookup_scope-stored :
      (t : ScopeTables) (name : ScopeName)
      → Sound t
      → lookup_scope arrange t name ≡ ok (stored t name.chars)
  unfolding lookup_scope stored
  lookup_scope-stored t name sound =
      ap (λ l. decode_first (group_scope_rows (arrange l) []))
        (named-left_join t.next_id t.scopes t.areas name.chars sound.apart)
      ∙ elim (Option-cases (scope_row t.scopes name.chars)) [
        | inl e ↦ rw (stored, e, empty_list (arrange []) (λ x i. (arranges [] x).0 i)) group-nothing
        | inr (r, e) ↦
            rw (stored, e)
              (decode-arranged r (areas_of t.areas r.id)
                (scope_row-All _ t.scopes name.chars r sound.filled e)
                (scope_row-All _ t.scopes name.chars r sound.named e))
      ]

  pub lookup-as :
      (t : ScopeTables) (name : ScopeName) (found : Option NamedScope)
      → Sound t
      → stored t name.chars ≡ found
      → lookup_scope arrange t name ≡ ok found
  lookup-as t name found sound e = lookup_scope-stored t name sound ∙ ap ok e

  pub held :
      (t : ScopeTables) (name : ScopeName) (found : Option NamedScope)
      → Sound t
      → lookup_scope arrange t name ≡ ok found
      → stored t name.chars ≡ found
  held t name found sound h = ok-injective (sym (lookup_scope-stored t name sound) ∙ h)
