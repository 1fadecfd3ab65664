-- ===== src/Sqlite/Scopes/Delete.antt =====
-- Deleting a scope, seen through lookups.
use mathlib.Core.Path.{subst}
use sekai.Base.{
  ℕ, ◌≡◌, refl, sym, ◌∙◌, ◌⊎◌, ◌↔◌, inl, inr, Bool, true, false, not, none, some, List, [], ◌∷◌,
  filter, all, All, All-filter, arith, ◌==◌, nat_ord, Bool-cases, Option-cases, beq_refl,
}
use sekai.Base.Outcome.{ok}
use sekai.Util.NamedScope.{ScopeName}
use sekai.Sqlite.Scopes.{
  ScopeRow, ScopeTables, text_ord, delete_areas, areas_of, JoinedRow, lookup_scope, delete_scope,
}
use sekai.Sqlite.Scopes.Rows.{
  scope_row, IsAreas, Apart, AllApart, Sound, scope_id-scope_row, scope_row-filter, keys_apart,
  areas_of-delete_areas, apart_key, known-delete_areas,
}
use sekai.Sqlite.Scopes.Stored.{stored, stored_found, stored_none, stored_same}
use sekai.Sqlite.Scopes.Read.{Arranges, lookup_scope-stored, lookup-as, held}

-- The tables without the row of a name and its areas.
abbrev removed : ScopeTables → List ℕ → ℕ → ScopeTables
removed t name id = record t {
  scopes = filter (λ (row : ScopeRow). not (row.name == name)) t.scopes;
  areas = delete_areas id t.areas;
}

AllApart-filter :
    (next : ℕ) (p : ScopeRow → Bool) (rows : List ScopeRow)
    → AllApart next rows
    → AllApart next (filter p rows)
unfolding filter
AllApart-filter next p [] all = tt
AllApart-filter next p (r ∷ rows) (lt, away, all) = elim (Bool-cases (p r)) [
  | inl e ↦
      rw (filter, e)
        (lt, All-filter (Apart r) p rows (λ s h k. h) away, AllApart-filter next p rows all)
  | inr e ↦ rw (filter, e) (AllApart-filter next p rows all)
]

module _ (t : ScopeTables) (name : List ℕ) (row : ScopeRow) (sound : Sound t)
    (there : scope_row t.scopes name ≡ some row) where
  other_areas :
      (j : ℕ)
      → (row.id == j) ≡ false
      → areas_of (removed t name row.id).areas j ≡ areas_of t.areas j
  other_areas j h = areas_of-delete_areas t.areas row.id j ∙ rw h refl

  abbrev IsOther : ScopeRow → Type 0
  IsOther s = ((s.name == name) ≡ true) ⊎ ((row.id == s.id) ≡ false)

  still_filled :
      (rows : List ScopeRow)
      → All IsOther rows
      → All (λ (s : ScopeRow). IsAreas (areas_of t.areas s.id)) rows
      → All
          (λ (s : ScopeRow). IsAreas (areas_of (removed t name row.id).areas s.id))
          (filter (λ (s : ScopeRow). not (s.name == name)) rows)
  unfolding filter
  still_filled [] far h = tt
  still_filled (s ∷ rows) (f, far) (h, hs) = elim (Bool-cases (s.name == name)) [
    | inl e ↦ rw (filter, e) (still_filled rows far hs)
    | inr e ↦
        let apart : (row.id == s.id) ≡ false = elim f [ inl g ↦ absurd (cc (e, g)) | inr g ↦ g ] in
        rw (filter, e) (subst IsAreas (sym (other_areas s.id apart)) h, still_filled rows far hs)
  ]

  removed-Sound : Sound (removed t name row.id)
  removed-Sound = record {
    apart = AllApart-filter t.next_id _ t.scopes sound.apart;
    named = All-filter _ _ t.scopes (λ s h k. h) sound.named;
    filled =
        still_filled t.scopes (keys_apart t.next_id t.scopes name row sound.apart there)
          sound.filled;
    known = known-delete_areas t.areas row.id t.next_id t.next_id (omega arith) sound.known;
  }

  removed-here : stored (removed t name row.id) name ≡ none
  removed-here =
      stored_none (removed t name row.id) name
        (scope_row-filter t.scopes name name ∙ rw (beq_refl name) refl)

  removed-elsewhere :
      (other : List ℕ)
      → (name == other) ≡ false
      → stored (removed t name row.id) other ≡ stored t other
  removed-elsewhere other h =
      stored_same t (removed t name row.id) other (scope_row-filter t.scopes name other ∙ rw h refl)
        (λ s e.
          other_areas s.id (apart_key t.next_id t.scopes name other row s sound.apart there h e))

module _ (arrange : List JoinedRow → List JoinedRow) (arranges : Arranges arrange) where
  -- Deleting a scope from sound tables keeps them sound, and says whether a lookup of the name found
  -- one. A lookup of the name then finds none, and a lookup of any other name gives what it gave
  -- before, in whatever order the database returns rows.
  pub delete_scope-lookup_scope :
      (t : ScopeTables) (name : ScopeName)
      → Sound t
      → let (after, deleted) = delete_scope t name in
        Sound after
        × ((deleted ≡ false) ↔ (lookup_scope arrange t name ≡ ok none))
        × (lookup_scope arrange after name ≡ ok none)
        × ((other : ScopeName)
            → (name.chars == other.chars) ≡ false
            → lookup_scope arrange after other ≡ lookup_scope arrange t other)
  unfolding delete_scope
  delete_scope-lookup_scope t name sound = elim (Option-cases (scope_row t.scopes name.chars)) [
    | inl e ↦
        let absent = lookup-as arrange arranges t name none sound (stored_none t name.chars e) in
        rw (delete_scope, scope_id-scope_row t.scopes name.chars, e)
          (sound, (λ h. absent, λ h. refl), absent, λ other h. refl)
    | inr (row, e) ↦
        let kept = removed-Sound t name.chars row sound e in
        let was = held arrange arranges t name none sound in
        rw (delete_scope, scope_id-scope_row t.scopes name.chars, e)
          (
            kept,
            (λ h. absurd (cc h), λ h. absurd (cc (was h, stored_found t name.chars row e))),
            lookup-as arrange arranges (removed t name.chars row.id) name none kept
                (removed-here t name.chars row sound e),
            λ other h.
                lookup-as arrange arranges (removed t name.chars row.id) other _ kept
                  (removed-elsewhere t name.chars row sound e other.chars h)
                ∙ sym (lookup_scope-stored arrange arranges t other sound),
          )
  ]
