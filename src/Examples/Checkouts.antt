-- ===== src/Examples/Checkouts.antt =====
-- A world held in memory, whose files are named by their regions, and a checkout into it.
use mathlib.Core.Path.{subst}
use sekai.Base.{
  ◌++◌, map, filter, ◌&&◌, ℕ, ◌≡◌, ◌≢◌, refl, sym, ◌∙◌, inl, inr, Bool, true, false, Option, none,
  some, List, [], ◌∷◌, arith, ◌==◌, Bool-cases, Option-cases, All, beq_refl,
}
use sekai.Base.Int.{pos}
use sekai.Base.Outcome.{Result, ok, err}
use sekai.Base.Map
use sekai.Util.Coord.{
  RegionKey, region_of, dimension_ord, kind_ord, region, overworld, key_ord, key_beq_iff,
}
use sekai.Util.Hash.{ChunkHash}
use sekai.Util.Scope.{world, scope_matches}
use sekai.Anvil.Region.{loc_new, base}
use sekai.Anvil.Region.Slots.{loc_at}
use sekai.Anvil.Reader.{Chunk, from_bytes_with_kind}
use sekai.Anvil.Reader.Walk.{walk}
use sekai.Core.Port.{MetaStore}
use sekai.Core.Checkout.{CheckoutPlan, CheckoutReport, plan_checkout}
use sekai.Core.Checkout.Grouped.{present_in, tombs_in, entry_of, plan_checkout_exact}
use sekai.Sqlite.{StorageError}
use sekai.App.World.{WorldTree, WorldLaws}
use sekai.App.Regions.{discover_regions}
use sekai.App.Checkout.{strict, sibling_first, find_sibling, sibling_or_derived, resolve_target}
use sekai.App.Checkout.Run.{checkout_world, in_scope}
use sekai.App.Checkout.Staged.{IsStored}
use sekai.App.Checkout.Rebuilt.{Holds, Faultless}
use sekai.App.Checkout.Exact.{checkout_world_exact}
use sekai.Examples.Stores.{first, first_commit, first_rows, kept}

abbrev store_meta : MetaStore (Unit {0}) StorageError
store_meta = record {
  commit_parents = λ s id. ok [];
  latest_commit = λ s. ok (some first_commit);
  visit_fresh_rows = λ s id. ok (first_rows id);
  visit_commits = λ s. ok (first_commit ∷ []);
  visit_commit_chunks = λ s id. ok (first_rows id);
  lookup_commit = λ s id. ok (some first_commit);
  active_ref = λ s. ok (some (some first));
  lookup_ref = λ s name. ok none;
  apply_commit_incremental = λ s ms parents rows. (s, ok first);
  retire_commit = λ s from into. (s, ok (record { folded = 0; dropped = 0 }));
}

-- The plan of the first commit, region by region.
plan_checkout_exact_example :
    (plan : CheckoutPlan) × (plan_checkout store_meta tt first ≡ ok plan)
    × (plan.created_at_ms ≡ 1000)
    × ((key : RegionKey)
        → (Map.get plan.groups key ≡ entry_of (present_in key (first_rows first)))
          × (Map.get plan.tombstones key ≡ entry_of (tombs_in key (first_rows first))))
plan_checkout_exact_example =
    plan_checkout_exact store_meta tt first first_commit (first_rows first) refl refl

-- the payload of every blob
abbrev payload : ChunkHash → List ℕ
payload hash = 3 ∷ 10 ∷ 0 ∷ []

abbrev fetch : ChunkHash → Result (List ℕ) StorageError
fetch hash = ok (payload hash)

abbrev Files : Type 0
Files = List (RegionKey × List ℕ)

-- a file as what a visit of its chunks is given
abbrev chunks_of : Option (List ℕ) → RegionKey → Result (List (Result Chunk ℕ)) ℕ
chunks_of none key = err 404
chunks_of (some bytes) key = elim (from_bytes_with_kind bytes key.rx key.rz key.kind) [
  | err _ ↦ err 422
  | ok image ↦
      elim (walk {S = List (Result Chunk ℕ)} image (λ cs c. (cs ++ ok c ∷ [], true)) 1024 0 []) [
        | err _ ↦ err 422
        | ok cs ↦ ok cs
      ]
]

-- one dimension, whose files are listed
abbrev memory_tree : WorldTree Files RegionKey ℕ
memory_tree = record {
  get_dims = λ s. ok (overworld ∷ []);
  get_regions =
      λ s dim kind. ok (map (λ e. (e.0, e.0)) (filter (λ e. e.0.dim == dim && e.0.kind == kind) s));
  derive_region = λ s key. ok key;
  sibling_region = λ s file key. ok key;
  exists = λ s file. elim (Map.get s file) [ none ↦ false | some _ ↦ true ];
  read = λ s file key. chunks_of (Map.get s file) key;
  write = λ s file bytes. (Map.insert file bytes s, ok tt);
  remove = λ s file. (Map.erase file s, ok tt);
}

differ : (f g : RegionKey) → f ≢ g → (f == g) ≡ false
differ f g h = ground (arith, h, key_beq_iff f g)

memory_tree-WorldLaws : WorldLaws memory_tree (λ s. Map.get s)
memory_tree-WorldLaws = record {
  write-content = λ s f bytes done. Map.get-insert f f bytes s ∙ rw (beq_refl f);
  write-others = λ s f g bytes h. Map.get-insert f g bytes s ∙ rw (differ f g h);
  remove-content = λ s f done. Map.get-erase f f s ∙ rw (beq_refl f);
  remove-others = λ s f g h. Map.get-erase f g s ∙ rw (differ f g h);
}

exists-get :
    (o : Option (List ℕ))
    → (elim o as (λ _. Bool) [ none ↦ false | some _ ↦ true ]) ≡ false
    → o ≡ none
exists-get none h = refl
exists-get (some b) h = cc

memory_tree-Faultless : Faultless memory_tree (λ s. Map.get s)
memory_tree-Faultless = record {
  writes = λ s f bytes. refl;
  removes = λ s f h. refl;
  sees = λ s f h. exists-get (Map.get s f) h;
}

-- a file of another region than the commit's
abbrev stale : RegionKey
stale = record { dim = overworld; kind = region; rx = pos 5; rz = pos 5 }

abbrev start : Files
start = (stale, 1 ∷ []) ∷ []

abbrev found_at_start : List (RegionKey × RegionKey)
found_at_start = (stale, stale) ∷ []

discovered_at_start : discover_regions memory_tree start ≡ ok found_at_start
unfolding discover_regions filter Map.get Map.insert
discovered_at_start = refl

known_at_start : (key f : RegionKey) → Map.get found_at_start key ≡ some f → f ≡ key
unfolding Map.get
known_at_start key f h = elim (Bool-cases (stale == key)) [
  | inl e ↦ cc (rw (e) at h, (key_beq_iff stale key).0 e)
  | inr e ↦ absurd (cc (rw (e) at h))
]

target_any :
    (s : Files) (discovered : List (RegionKey × RegionKey)) (key : RegionKey)
    → resolve_target memory_tree s discovered key sibling_first ≡ ok key
unfolding resolve_target sibling_or_derived
target_any s discovered key = elim (Option-cases (find_sibling key discovered)) [
  | inl n ↦ rw (resolve_target, sibling_or_derived, n)
  | inr (file, n) ↦ rw (resolve_target, sibling_or_derived, n)
]

kept_present : (key : RegionKey) → present_in key (first_rows first) ≢ [] → key ≡ region_of kept
unfolding present_in
kept_present key h = elim (Bool-cases (region_of kept == key)) [
  | inl e ↦ sym ((key_beq_iff (region_of kept) key).0 e)
  | inr e ↦ absurd (h (rw e))
]

kept-IsStored :
    (loc_new (region_of kept).rx (region_of kept).rz
      ≡ ok (loc_at (region_of kept).rx (region_of kept).rz))
    × All
        (IsStored fetch payload (region_of kept).rx (region_of kept).rz)
        (present_in (region_of kept) (first_rows first))
unfolding present_in loc_new base
kept-IsStored = (refl, ((refl, (omega arith, omega arith, refl, refl)), tt))

-- A checkout of the first commit of the whole world.
checkout_world_exact_example :
    (report : CheckoutReport) × ((checkout_world memory_tree store_meta tt fetch start first strict
        world).1
      ≡ ok report)
    × ((key : RegionKey)
        → scope_matches world key ≡ true
        → (present_in key (first_rows first) ≢ []
            → (bytes : List ℕ) × (Map.get
                  (checkout_world memory_tree store_meta tt fetch start first strict world).0
                  key
                ≡ some bytes)
              × Holds payload key (present_in key (first_rows first)) bytes)
          × (present_in key (first_rows first) ≡ []
              → Map.get found_at_start key ≢ none
              → Map.get
                  (checkout_world memory_tree store_meta tt fetch start first strict world).0
                  key
                ≡ none))
    × ((g : RegionKey)
        → ((key : RegionKey) → scope_matches world key ≡ true → key ≢ g)
        → Map.get (checkout_world memory_tree store_meta tt fetch start first strict world).0 g
          ≡ Map.get start g)
checkout_world_exact_example =
    checkout_world_exact memory_tree (λ s. Map.get s) memory_tree-WorldLaws memory_tree-Faultless
      store_meta tt fetch payload (λ key. key) start first strict world first_commit
      (first_rows first) found_at_start (refl, refl, refl) refl refl discovered_at_start
      (λ k l e. e) known_at_start
      (λ s key inside full missing. target_any s (in_scope world found_at_start) key)
      (λ key inside full.
        subst
          (λ k.
            (loc_new k.rx k.rz ≡ ok (loc_at k.rx k.rz))
            × All (IsStored fetch payload k.rx k.rz) (present_in k (first_rows first)))
          (sym (kept_present key full)) kept-IsStored)
