-- ===== src/Sqlite/Scopes/Set.antt =====
-- Setting a scope, seen through lookups.
use mathlib.Core.Path.{subst}
use sekai.Base.{
  contains, ℕ, ◌++◌, ◌^◌, ◌<◌, ◌≡◌, refl, sym, ap, ◌∙◌, ◌⊎◌, inl, inr, true, false, none, some,
  List, [], ◌∷◌, map, all, All, All-append, All-map, arith, if◌then◌else◌, ◌==◌, nat_ord,
  Bool-cases, beq_refl,
}
use sekai.Base.Outcome.{ok, ok-injective, ◌>>=◌}
use sekai.Base.Sorted.{sort, dedup, contains-dedup-sort}
use sekai.Util.NamedScope.{
  ScopeName, parse_scope_name, ScopeArea, area_ord, NamedScope, normal_area, named_scope_new,
}
use sekai.Util.NamedScope.Normal.{IsNormal, named_scope_new-IsNormal}
use sekai.Sqlite.{millis_param}
use sekai.Sqlite.Scopes.{
  ScopeRow, AreaRow, ScopeTables, text_ord, insert_scope, delete_areas, area_check, set_scope,
  areas_of, JoinedRow, lookup_scope,
}
use sekai.Sqlite.Scopes.Rows.{
  IsAreas, Sound, scope_id-scope_row, scope_row-name, areas_of-replaced, All-imp, apart_key,
  known-delete_areas,
}
use sekai.Sqlite.Scopes.Stored.{
  stored, scope_row-stored, scope_row-stored_none, stored_found, stored_same,
}
use sekai.Sqlite.Scopes.Read.{Arranges, lookup_scope-stored, lookup-as, held}
use sekai.Sqlite.Scopes.Insert.{Inserted, insert_scope-Inserted}

-- A record of a parsed name, with areas as `NamedScope::new` leaves them.
pub record IsRecord (scope : NamedScope) : Type 0 where
  pub parsed : parse_scope_name scope.name.chars ≡ ok scope.name
  pub is_areas : IsAreas scope.areas

-- `NamedScope::new` makes such records.
pub named_scope_new-IsRecord :
    (name : ScopeName) (areas : List ScopeArea) (created_at_ms : ℕ) {scope : NamedScope}
    → parse_scope_name name.chars ≡ ok name
    → named_scope_new name areas created_at_ms ≡ ok scope
    → IsRecord scope
unfolding named_scope_new contains
named_scope_new-IsRecord name [] created_at_ms parsed e = absurd (cc e)
named_scope_new-IsRecord name (a ∷ areas) created_at_ms {scope} parsed e =
    let (s, f, increasing, normal, covers, others) =
      named_scope_new-IsNormal name (a ∷ areas) created_at_ms (λ h. cc h) in
    let made : record {
      name = name;
      areas = dedup (sort (map normal_area (a ∷ areas)));
      created_at_ms = created_at_ms;
    }
        ≡ s =
      ok-injective f in
    let held : contains (dedup (sort (map normal_area (a ∷ areas)))) (normal_area a) ≡ true =
      contains-dedup-sort (normal_area a) (map normal_area (a ∷ areas))
      ∙ ground (arith, beq_refl (normal_area a)) in
    let holds : contains s.areas (normal_area a) ≡ true =
      ap (λ (r : NamedScope). contains r.areas (normal_area a)) (sym made) ∙ held in
    subst IsRecord (ok-injective (sym f ∙ e)) (record {
      parsed = subst (λ (r : NamedScope). parse_scope_name r.name.chars ≡ ok r.name) made parsed;
      is_areas = record {
        present = λ h. cc (sym (ap (λ l. contains l (normal_area a)) h) ∙ holds);
        increasing = increasing;
        normal = normal;
      };
    })

check-IsNormal : (areas : List ScopeArea) → All IsNormal areas → all area_check areas ≡ true
check-IsNormal [] h = refl
check-IsNormal ((dim, r) ∷ areas) (h, hs) = ground (arith, h, check-IsNormal areas hs)

-- The tables once the areas under the key of a row are replaced.
abbrev replaced : ScopeTables → ℕ → List ScopeArea → ScopeTables
replaced t id new = record t {
  areas = delete_areas id t.areas ++ map (λ a. record { scope = id; area = a }) new;
}

abbrev with_scope_row : ScopeTables → NamedScope → ScopeTables
with_scope_row t scope = insert_scope t scope.name.chars scope.created_at_ms

module _ (t : ScopeTables) (scope : NamedScope) (row : ScopeRow) (sound : Sound t)
    (is : IsRecord scope)
    (ins : Inserted t (with_scope_row t scope) scope.name.chars scope.created_at_ms row) where
  abbrev inserted : ScopeTables
  inserted = with_scope_row t scope

  new_areas :
      (j : ℕ)
      → areas_of (replaced inserted row.id scope.areas).areas j
        ≡ (if row.id == j then scope.areas else areas_of t.areas j)
  new_areas j =
      areas_of-replaced inserted.areas scope.areas row.id j
      ∙ ap (λ l. if row.id == j then scope.areas else areas_of l j) ins.areas_same

  replaced-Sound : Sound (replaced inserted row.id scope.areas)
  replaced-Sound = record {
    apart = ins.apart;
    named = ins.named;
    filled =
        All-imp (λ r h. subst IsAreas (sym (new_areas r.id)) (either r.id h)) inserted.scopes
          ins.filled;
    known =
        All-append (λ (a : AreaRow). a.scope < inserted.next_id)
          (delete_areas row.id inserted.areas) _
          (subst (λ l. All (λ (a : AreaRow). a.scope < inserted.next_id) (delete_areas row.id l))
            (sym ins.areas_same)
            (known-delete_areas t.areas row.id t.next_id inserted.next_id ins.older sound.known))
          (All-map (λ (a : AreaRow). a.scope < inserted.next_id) _ scope.areas
            (below_all scope.areas));
  }
    where
      either :
          (j : ℕ)
          → ((row.id == j) ≡ true) ⊎ IsAreas (areas_of t.areas j)
          → IsAreas (if row.id == j then scope.areas else areas_of t.areas j)
      either j h = elim (Bool-cases (row.id == j)) [
        | inl e ↦ rw e is.is_areas
        | inr e ↦ rw e (elim h [ inl f ↦ absurd (cc (e, f)) | inr areas ↦ areas ])
      ]

      below_all : (new : List ScopeArea) → All (λ (a : ScopeArea). row.id < inserted.next_id) new
      below_all [] = tt
      below_all (a ∷ new) = (ins.below, below_all new)

  stored-here :
      stored (replaced inserted row.id scope.areas) scope.name.chars
      ≡ some (record scope { created_at_ms = row.created_at_ms })
  stored-here =
      stored_found (replaced inserted row.id scope.areas) scope.name.chars row ins.there
      ∙ ap
          (λ l. some (record {
            name = record { chars = row.name };
            areas = l;
            created_at_ms = row.created_at_ms;
          }))
          (new_areas row.id ∙ rw (beq_refl row.id) refl)
      ∙ ap
          (λ n. some (record {
            name = record { chars = n };
            areas = scope.areas;
            created_at_ms = row.created_at_ms;
          }))
          (scope_row-name inserted.scopes scope.name.chars row ins.there)

  stored-elsewhere :
      (other : List ℕ)
      → (scope.name.chars == other) ≡ false
      → stored (replaced inserted row.id scope.areas) other ≡ stored t other
  stored-elsewhere other h =
      stored_same t (replaced inserted row.id scope.areas) other (ins.others other h) (λ r e.
        new_areas r.id
        ∙ rw
            (apart_key inserted.next_id inserted.scopes scope.name.chars other row r ins.apart
              ins.there h (ins.others other h ∙ e))
            refl)

  set_scope-ok :
      scope.created_at_ms < 2 ^ 63 → set_scope t scope ≡ ok (replaced inserted row.id scope.areas)
  unfolding set_scope millis_param
  set_scope-ok small =
      let fits : millis_param scope.created_at_ms ≡ ok scope.created_at_ms =
        ground (arith, small) in
      rw
        (
          set_scope,
          fits,
          ◌>>=◌,
          scope_id-scope_row inserted.scopes scope.name.chars,
          ins.there,
          check-IsNormal scope.areas is.is_areas.normal,
        )
        refl

module _ (arrange : List JoinedRow → List JoinedRow) (arranges : Arranges arrange) where
  -- In sound tables, setting a scope that `NamedScope::new` could have made of a name that was read,
  -- with a time that the database can hold, succeeds and keeps the tables sound. In whatever order
  -- the database returns rows, a lookup of the name then gives the scope, with the creation time of
  -- the scope that a lookup found before, if it found one, and else with its own; a lookup of any
  -- other name gives what it gave before.
  pub set_scope-lookup_scope :
      (t : ScopeTables) (scope : NamedScope)
      → Sound t
      → IsRecord scope
      → scope.created_at_ms < 2 ^ 63
      → (after : ScopeTables) × (set_scope t scope ≡ ok after)
        × Sound after
        × ((created : ℕ) × (lookup_scope arrange after scope.name
              ≡ ok (some (record scope { created_at_ms = created })))
            × (lookup_scope arrange t scope.name ≡ ok none → created ≡ scope.created_at_ms)
            × ((old : NamedScope)
                → lookup_scope arrange t scope.name ≡ ok (some old)
                → created ≡ old.created_at_ms))
        × ((other : ScopeName)
            → (scope.name.chars == other.chars) ≡ false
            → lookup_scope arrange after other ≡ lookup_scope arrange t other)
  set_scope-lookup_scope t scope sound is small =
      let (row, ins) = insert_scope-Inserted t scope.name scope.created_at_ms sound is.parsed in
      let after = replaced (with_scope_row t scope) row.id scope.areas in
      let kept : Sound after = replaced-Sound t scope row sound is ins in
      (
        after,
        set_scope-ok t scope row sound is ins small,
        kept,
        (
          row.created_at_ms,
          lookup-as arrange arranges after scope.name _ kept (stored-here t scope row sound is ins),
          λ free. ins.time_new (
              scope_row-stored_none t scope.name.chars
                (held arrange arranges t scope.name none sound free)),
          λ old taken.
              let (r, e, time) =
                scope_row-stored t scope.name.chars old
                  (held arrange arranges t scope.name (some old) sound taken) in
              ins.time_old r e ∙ time,
        ),
        λ other h.
            lookup-as arrange arranges after other _ kept
              (stored-elsewhere t scope row sound is ins other.chars h)
            ∙ sym (lookup_scope-stored arrange arranges t other sound),
      )
