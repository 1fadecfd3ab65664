-- ===== src/Sqlite/Scopes/Insert.antt =====
-- The row of a name, inserted where there is none.
use mathlib.Core.Option.{some-injective}
use sekai.Base.{
  ℕ, ◌+◌, ◌++◌, ◌<◌, ◌≤◌, ◌≡◌, refl, sym, ap, ◌∙◌, ◌⊎◌, inl, inr, true, false, none, some, List, [],
  ◌∷◌, all, All, All-append, arith, ◌==◌, nat_ord, Bool-cases, Option-cases, beq_refl,
}
use sekai.Base.Outcome.{ok}
use sekai.Util.NamedScope.{ScopeName, parse_scope_name}
use sekai.Sqlite.Scopes.{ScopeRow, ScopeTables, text_ord, insert_scope, areas_of}
use sekai.Sqlite.Scopes.Rows.{
  scope_row, IsAreas, Apart, AllApart, Sound, scope_id-scope_row, scope_row-All, scope_row-append,
  All-imp,
}

-- What inserting the row of a name leaves: a row of the name, and every other row as it was.
pub record Inserted (t after : ScopeTables) (name : List ℕ) (ms : ℕ) (row : ScopeRow) : Type 0 where
  pub there : scope_row after.scopes name ≡ some row
  pub others :
      (other : List ℕ)
      → (name == other) ≡ false
      → scope_row after.scopes other ≡ scope_row t.scopes other
  pub areas_same : after.areas ≡ t.areas
  pub older : t.next_id ≤ after.next_id
  pub below : row.id < after.next_id
  pub apart : AllApart after.next_id after.scopes
  pub named :
      All (λ (r : ScopeRow). parse_scope_name r.name ≡ ok (record { chars = r.name })) after.scopes
  pub filled :
      All
        (λ (r : ScopeRow). ((row.id == r.id) ≡ true) ⊎ IsAreas (areas_of t.areas r.id))
        after.scopes
  pub time_new : scope_row t.scopes name ≡ none → row.created_at_ms ≡ ms
  pub time_old :
      (old : ScopeRow) → scope_row t.scopes name ≡ some old → row.created_at_ms ≡ old.created_at_ms

AllApart-row :
    (next : ℕ) (rows : List ScopeRow) (name : List ℕ) (r : ScopeRow)
    → AllApart next rows
    → scope_row rows name ≡ some r
    → r.id < next
AllApart-row next rows name r all h = scope_row-All (λ s. s.id < next) rows name r (keys rows all) h
  where
    keys : (rows : List ScopeRow) → AllApart next rows → All (λ (s : ScopeRow). s.id < next) rows
    keys [] all = tt
    keys (s ∷ rows) (lt, away, all) = (lt, keys rows all)

-- A row with the next key and a name that no row has is apart from every row.
AllApart-append :
    (next : ℕ) (rows : List ScopeRow) (r : ScopeRow)
    → AllApart next rows
    → r.id ≡ next
    → scope_row rows r.name ≡ none
    → AllApart (next + 1) (rows ++ r ∷ [])
unfolding scope_row
AllApart-append next [] r all e h = (omega (arith, e), tt, tt)
AllApart-append next (s ∷ rows) r (lt, away, all) e h = elim (Bool-cases (s.name == r.name)) [
  | inl same ↦ absurd (cc (rw same at h))
  | inr other ↦ (
    omega (arith, lt),
    All-append (Apart s) rows (r ∷ []) away ((other, ground (arith, lt, e)), tt),
    AllApart-append next rows r all e (rw other at h),
  )
]

-- the tables where the name has a row
kept-Inserted :
    (t : ScopeTables) (name : ScopeName) (ms : ℕ) (r : ScopeRow)
    → Sound t
    → scope_row t.scopes name.chars ≡ some r
    → Inserted t t name.chars ms r
kept-Inserted t name ms r sound e = record {
  there = e;
  others = λ other h. refl;
  areas_same = refl;
  older = omega arith;
  below = AllApart-row t.next_id t.scopes name.chars r sound.apart e;
  apart = sound.apart;
  named = sound.named;
  filled = All-imp (λ s h. inr h) t.scopes sound.filled;
  time_new = λ h. absurd (cc (e, h));
  time_old = λ old h. ap (λ (s : ScopeRow). s.created_at_ms) (some-injective _ _ (sym e ∙ h));
}

abbrev new_row : ScopeTables → List ℕ → ℕ → ScopeRow
new_row t name ms = record { id = t.next_id; name = name; created_at_ms = ms }

-- the tables where it has none
added-Inserted :
    (t : ScopeTables) (name : ScopeName) (ms : ℕ)
    → Sound t
    → parse_scope_name name.chars ≡ ok name
    → scope_row t.scopes name.chars ≡ none
    → Inserted t
        (record t { scopes = t.scopes ++ new_row t name.chars ms ∷ []; next_id = t.next_id + 1 })
        name.chars
        ms
        (new_row t name.chars ms)
added-Inserted t name ms sound parsed e =
    let row = new_row t name.chars ms in
    record {
      there = scope_row-append t.scopes row name.chars ∙ rw e (ground (arith, beq_refl name.chars));
      others = λ other h.
          scope_row-append t.scopes row other ∙ (elim (Option-cases (scope_row t.scopes other)) [
            | inl f ↦ rw (f, h) refl
            | inr (s, f) ↦ rw f refl
          ]);
      areas_same = refl;
      older = omega arith;
      below = omega arith;
      apart = AllApart-append t.next_id t.scopes row sound.apart refl e;
      named = All-append _ t.scopes (row ∷ []) sound.named (parsed, tt);
      filled =
          All-append _ t.scopes (row ∷ []) (All-imp (λ s h. inr h) t.scopes sound.filled)
            (inl (beq_refl t.next_id), tt);
      time_new = λ h. refl;
      time_old = λ old h. absurd (cc (e, h));
    }

pub insert_scope-Inserted :
    (t : ScopeTables) (name : ScopeName) (ms : ℕ)
    → Sound t
    → parse_scope_name name.chars ≡ ok name
    → (row : ScopeRow) × Inserted t (insert_scope t name.chars ms) name.chars ms row
unfolding insert_scope
insert_scope-Inserted t name ms sound parsed = elim (Option-cases (scope_row t.scopes name.chars)) [
  | inl e ↦ (
    new_row t name.chars ms,
    rw (insert_scope, scope_id-scope_row t.scopes name.chars, e)
        (added-Inserted t name ms sound parsed e),
  )
  | inr (r, e) ↦ (
    r,
    rw (insert_scope, scope_id-scope_row t.scopes name.chars, e)
        (kept-Inserted t name ms r sound e),
  )
]
