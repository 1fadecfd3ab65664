-- ===== src/Sqlite/Scopes/Rows.antt =====
-- The rows of the two tables: what each query of one name or one key finds.
use sekai.Base.{
  ℕ, ◌++◌, ◌<◌, ◌≤◌, ◌≡◌, ◌≢◌, refl, sym, ap, ◌∙◌, ◌⊎◌, inl, inr, true, false, not, Option, none,
  some, List, [], ◌∷◌, map, filter, All, All-filter, arith, if◌then◌else◌, ◌==◌, nat_ord,
  Bool-cases,
}
use mathlib.Core.Path.{subst}
use mathlib.Core.Option.{some-injective}
use mathlib.Core.List.{append-nil}
use sekai.Base.Outcome.{ok}
use sekai.Base.Sorted.{IsIncreasing}
use sekai.Util.Hash.{bytes_beq_iff}
use sekai.Util.NamedScope.{parse_scope_name, ScopeArea, area_ord}
use sekai.Util.NamedScope.Normal.{IsNormal}
use sekai.Sqlite.Scopes.{ScopeRow, AreaRow, ScopeTables, text_ord, scope_id, delete_areas, areas_of}

-- the row of a name
unfoldable pub scope_row : List ScopeRow → List ℕ → Option ScopeRow
scope_row [] name = none
scope_row (row ∷ rows) name = if row.name == name then some row else scope_row rows name

-- Areas as a record holds them: at least one, each before the next, with the corners in order.
pub record IsAreas (areas : List ScopeArea) : Type 0 where
  pub present : areas ≢ []
  pub increasing : IsIncreasing areas
  pub normal : All IsNormal areas

abbrev pub Apart : ScopeRow → ScopeRow → Type 0
Apart r s = ((r.name == s.name) ≡ false) × ((r.id == s.id) ≡ false)

-- The names and the keys of the rows are apart, and the keys were given before `next`.
abbrev pub AllApart : ℕ → List ScopeRow → Type 0
AllApart next [] = Unit
AllApart next (r ∷ rs) = (r.id < next) × All (Apart r) rs × AllApart next rs

-- What the operations keep: each row has a name that reads and areas as a record holds them.
pub record Sound (t : ScopeTables) : Type 0 where
  pub apart : AllApart t.next_id t.scopes
  pub named :
      All (λ (r : ScopeRow). parse_scope_name r.name ≡ ok (record { chars = r.name })) t.scopes
  pub filled : All (λ (r : ScopeRow). IsAreas (areas_of t.areas r.id)) t.scopes
  pub known : All (λ (a : AreaRow). a.scope < t.next_id) t.areas

pub scope_id-scope_row :
    (rows : List ScopeRow) (name : List ℕ)
    → scope_id rows name ≡ (elim (scope_row rows name) [ none ↦ none | some r ↦ some r.id ])
unfolding scope_id scope_row
scope_id-scope_row [] name = refl
scope_id-scope_row (r ∷ rs) name = ground (arith, scope_id-scope_row rs name)

pub scope_row-name :
    (rows : List ScopeRow) (name : List ℕ) (r : ScopeRow)
    → scope_row rows name ≡ some r
    → r.name ≡ name
unfolding scope_row
scope_row-name [] name r h = absurd (cc h)
scope_row-name (x ∷ rows) name r h = elim (Bool-cases (x.name == name)) [
  | inl e ↦
      ap (λ (y : ScopeRow). y.name) (sym (some-injective _ _ (rw e at h)))
      ∙ (bytes_beq_iff x.name name).0 e
  | inr e ↦ scope_row-name rows name r (rw e at h)
]

pub scope_row-All :
    (P : ScopeRow → Type 0) (rows : List ScopeRow) (name : List ℕ) (r : ScopeRow)
    → All P rows
    → scope_row rows name ≡ some r
    → P r
unfolding scope_row
scope_row-All P [] name r all h = absurd (cc h)
scope_row-All P (x ∷ rows) name r (p, ps) h = elim (Bool-cases (x.name == name)) [
  | inl e ↦ subst P (some-injective _ _ (rw e at h)) p
  | inr e ↦ scope_row-All P rows name r ps (rw e at h)
]

pub scope_row-append :
    (rows : List ScopeRow) (r : ScopeRow) (name : List ℕ)
    → scope_row (rows ++ r ∷ []) name ≡ (elim (scope_row rows name) [
      | none ↦ if r.name == name then some r else none
      | some s ↦ some s
    ])
unfolding scope_row
scope_row-append [] r name = refl
scope_row-append (s ∷ rows) r name = ground (arith, scope_row-append rows r name)

pub scope_row-filter :
    (rows : List ScopeRow) (gone name : List ℕ)
    → scope_row (filter (λ (r : ScopeRow). not (r.name == gone)) rows) name
      ≡ (if gone == name then none else scope_row rows name)
unfolding scope_row filter
scope_row-filter [] gone name = ground arith
scope_row-filter (r ∷ rows) gone name = ground (
  arith,
  scope_row-filter rows gone name,
  bytes_beq_iff r.name gone,
  bytes_beq_iff r.name name,
  bytes_beq_iff gone name,
)

pub All-imp :
    {A : Type 0} {P Q : A → Type 0} → ((a : A) → P a → Q a) → (xs : List A) → All P xs → All Q xs
All-imp f [] h = tt
All-imp f (x ∷ xs) (h, hs) = (f x h, All-imp f xs hs)

flip : (a b : ℕ) → (a == b) ≡ false → (b == a) ≡ false
flip a b h = ground (arith, h)

-- Every row but that of a name has another key.
pub keys_apart :
    (next : ℕ) (rows : List ScopeRow) (name : List ℕ) (r : ScopeRow)
    → AllApart next rows
    → scope_row rows name ≡ some r
    → All (λ (s : ScopeRow). ((s.name == name) ≡ true) ⊎ ((r.id == s.id) ≡ false)) rows
unfolding scope_row
keys_apart next [] name r all h = tt
keys_apart next (x ∷ rows) name r (lt, away, all) h = elim (Bool-cases (x.name == name)) [
  | inl e ↦
      let same : x ≡ r = some-injective _ _ (rw e at h) in
      (
        inl e,
        All-imp (λ s (h : Apart x s). inr (ap (λ (y : ScopeRow). y.id == s.id) (sym same) ∙ h.1))
            rows away,
      )
  | inr e ↦
      let found : scope_row rows name ≡ some r = rw e at h in
      let far = scope_row-All (Apart x) rows name r away found in
      (inr (flip x.id r.id far.1), keys_apart next rows name r all found)
]

areas_of-append :
    (xs ys : List AreaRow) (j : ℕ) → areas_of (xs ++ ys) j ≡ areas_of xs j ++ areas_of ys j
unfolding areas_of filter
areas_of-append [] ys j = refl
areas_of-append (x ∷ xs) ys j = ground (arith, areas_of-append xs ys j)

-- The areas of a key once the areas of a key are deleted.
pub areas_of-delete_areas :
    (areas : List AreaRow) (id j : ℕ)
    → areas_of (delete_areas id areas) j ≡ (if id == j then [] else areas_of areas j)
unfolding areas_of delete_areas filter
areas_of-delete_areas [] id j = ground arith
areas_of-delete_areas (a ∷ areas) id j = ground (arith, areas_of-delete_areas areas id j)

areas_of-new :
    (new : List ScopeArea) (id j : ℕ)
    → areas_of (map (λ a. record { scope = id; area = a }) new) j ≡ (if id == j then new else [])
unfolding areas_of filter
areas_of-new [] id j = ground arith
areas_of-new (a ∷ new) id j = ground (arith, areas_of-new new id j)

-- The areas of a key once those of a key are replaced.
pub areas_of-replaced :
    (areas : List AreaRow) (new : List ScopeArea) (id j : ℕ)
    → areas_of (delete_areas id areas ++ map (λ a. record { scope = id; area = a }) new) j
      ≡ (if id == j then new else areas_of areas j)
areas_of-replaced areas new id j =
    areas_of-append (delete_areas id areas) _ j
    ∙ rw (areas_of-delete_areas areas id j, areas_of-new new id j)
        (elim (Bool-cases (id == j)) [
          | inl e ↦ rw e refl
          | inr e ↦ rw e (append-nil (areas_of areas j))
        ])

-- The rows of two names have keys that differ.
pub apart_key :
    (next : ℕ) (rows : List ScopeRow) (name other : List ℕ) (r s : ScopeRow)
    → AllApart next rows
    → scope_row rows name ≡ some r
    → (name == other) ≡ false
    → scope_row rows other ≡ some s
    → (r.id == s.id) ≡ false
apart_key next rows name other r s all here differ there =
    elim (scope_row-All _ rows other s (keys_apart next rows name r all here) there) [
      | inr e ↦ e
      | inl e ↦
          let same : name ≡ other =
            sym ((bytes_beq_iff s.name name).0 e) ∙ scope_row-name rows other s there in
          absurd (cc (differ, (bytes_beq_iff name other).1 same))
    ]

pub known-delete_areas :
    (areas : List AreaRow) (id next later : ℕ)
    → next ≤ later
    → All (λ (a : AreaRow). a.scope < next) areas
    → All (λ (a : AreaRow). a.scope < later) (delete_areas id areas)
unfolding delete_areas
known-delete_areas areas id next later le h =
    All-filter (λ (a : AreaRow). a.scope < next) (λ (a : AreaRow). not (a.scope == id)) areas
      (λ a lt k. omega (arith, lt, le)) h
