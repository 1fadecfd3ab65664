-- ===== src/Sqlite/Scopes/Stored.antt =====
-- What the two tables hold under a name.
use mathlib.Core.Option.{some-injective}
use sekai.Base.{ℕ, ◌≡◌, refl, sym, ap, ◌∙◌, inl, inr, Option, none, some, List, Option-cases}
use sekai.Util.NamedScope.{area_ord, NamedScope}
use sekai.Sqlite.Scopes.{ScopeRow, ScopeTables, text_ord, areas_of}
use sekai.Sqlite.Scopes.Rows.{scope_row}

-- the scope that the tables hold under a name
unfoldable pub stored : ScopeTables → List ℕ → Option NamedScope
unfolding scope_row
stored t name = elim (scope_row t.scopes name) [
  | none ↦ none
  | some row ↦ some (record {
    name = record { chars = row.name };
    areas = areas_of t.areas row.id;
    created_at_ms = row.created_at_ms;
  })
]

pub stored_found :
    (t : ScopeTables) (name : List ℕ) (r : ScopeRow)
    → scope_row t.scopes name ≡ some r
    → stored t name
      ≡ some (record {
        name = record { chars = r.name };
        areas = areas_of t.areas r.id;
        created_at_ms = r.created_at_ms;
      })
unfolding stored
stored_found t name r e = rw (stored, e) refl

pub stored_none :
    (t : ScopeTables) (name : List ℕ) → scope_row t.scopes name ≡ none → stored t name ≡ none
unfolding stored
stored_none t name e = rw (stored, e) refl

pub scope_row-stored_none :
    (t : ScopeTables) (name : List ℕ) → stored t name ≡ none → scope_row t.scopes name ≡ none
scope_row-stored_none t name h = elim (Option-cases (scope_row t.scopes name)) [
  | inl e ↦ e
  | inr (r, e) ↦ absurd (cc (h, stored_found t name r e))
]

pub scope_row-stored :
    (t : ScopeTables) (name : List ℕ) (scope : NamedScope)
    → stored t name ≡ some scope
    → (r : ScopeRow) × (scope_row t.scopes name ≡ some r) × (r.created_at_ms ≡ scope.created_at_ms)
scope_row-stored t name scope h = elim (Option-cases (scope_row t.scopes name)) [
  | inl e ↦ absurd (cc (h, stored_none t name e))
  | inr (r, e) ↦ (
    r,
    e,
    ap (λ (s : NamedScope). s.created_at_ms)
        (some-injective _ _ (sym (stored_found t name r e) ∙ h)),
  )
]

-- Tables with the same row of a name, and the same areas of that row, hold the same scope.
pub stored_same :
    (t u : ScopeTables) (name : List ℕ)
    → scope_row u.scopes name ≡ scope_row t.scopes name
    → ((r : ScopeRow)
        → scope_row t.scopes name ≡ some r
        → areas_of u.areas r.id ≡ areas_of t.areas r.id)
    → stored u name ≡ stored t name
stored_same t u name same areas = elim (Option-cases (scope_row t.scopes name)) [
  | inl e ↦ stored_none u name (same ∙ e) ∙ sym (stored_none t name e)
  | inr (r, e) ↦
      stored_found u name r (same ∙ e)
      ∙ (ap
            (λ l. some (record {
              name = record { chars = r.name };
              areas = l;
              created_at_ms = r.created_at_ms;
            }))
            (areas r e)
          ∙ sym (stored_found t name r e))
]
