-- ===== src/Anvil/Region/Slots.antt =====
-- Slots of the location table and chunk coordinates determine one another.
use sekai.Base.{
  ℕ, refl, ap, ◌∙◌, Bool-cases, true, false, ◌+◌, ◌*◌, ◌/◌, ◌%◌, ◌≤◌, ◌<◌, ◌≡◌, ◌≢◌, ◌⊎◌, inl, inr,
  Option, none, some, arith,
}
use sekai.Base.Int.{
  ℤ, pos, negsuc, pos_part, rem_euclid, int_discrete, checked, in_i32, ◌+ℤ◌, ◌-ℤ◌, mul_ℕ,
  div_euclid, InI32,
}
use sekai.Base.Outcome.{ok, err}
use sekai.Anvil.Error.{AnvilError, coordinate_overflow, wrong_region, chunk_too_large}
use sekai.Anvil.Region.{
  RegionLoc, base, loc_new, slot_between, slot_of, coord_at, sectors_for, sector_len, in_row,
  max_sectors_per_chunk, table_entries,
}
use sekai.Util.Scope.{clamp_region}

-- the location of a region whose chunks are in range
abbrev pub loc_at : ℤ → ℤ → RegionLoc
loc_at rx rz = record { region_x = rx; region_z = rz; base_x = mul_ℕ rx 32; base_z = mul_ℕ rz 32 }

base-clamp :
    (r : ℤ)
    → ((clamp_region r ≡ r)
        × (base r ≡ some (mul_ℕ r 32))
        × InI32 (mul_ℕ r 32)
        × InI32 (mul_ℕ r 32 +ℤ pos 31))
      ⊎ ((clamp_region r ≢ r) × (base r ≡ none))
unfolding base
base-clamp (pos n) = ground arith
base-clamp (negsuc n) = ground arith

-- On one axis, the distance from the first column of a region.
abbrev column : ℤ → ℤ → ℤ
column r x = x -ℤ mul_ℕ r 32

column-same :
    (r x : ℤ)
    → div_euclid x 32 ≡ r
    → (checked (column r x) ≡ some (column r x))
      × (in_row (column r x) ≡ true)
      × (pos_part (column r x) ≡ rem_euclid x 32)
column-same r (pos n) e = rw (← e) (ground arith)
column-same r (negsuc n) e = rw (← e) (ground arith)

column-other : (r x : ℤ) → div_euclid x 32 ≢ r → in_row (column r x) ≡ false
column-other (pos m) (pos n) e = ground arith
column-other (pos m) (negsuc n) e = ground arith
column-other (negsuc m) (pos n) e = ground arith
column-other (negsuc m) (negsuc n) e = ground arith

column-rem :
    (x : ℤ) → (mul_ℕ (div_euclid x 32) 32 +ℤ pos (rem_euclid x 32) ≡ x) × (rem_euclid x 32 < 32)
column-rem (pos n) = ground arith
column-rem (negsuc n) = ground arith

column-add :
    (r : ℤ) (k : ℕ)
    → k < 32
    → (div_euclid (mul_ℕ r 32 +ℤ pos k) 32 ≡ r) × (rem_euclid (mul_ℕ r 32 +ℤ pos k) 32 ≡ k)
column-add (pos n) k h = ground arith
column-add (negsuc n) k h = ground arith

-- A region location exists exactly for the regions whose chunks an `i32` can name, and holds their
-- first chunk column and row.
pub loc_new_exact :
    (rx rz : ℤ)
    → ((clamp_region rx ≡ rx) × (clamp_region rz ≡ rz) × (loc_new rx rz ≡ ok (loc_at rx rz)))
      ⊎ ((¬ ((clamp_region rx ≡ rx) × (clamp_region rz ≡ rz)))
          × (loc_new rx rz ≡ err (coordinate_overflow rx rz)))
unfolding loc_new
loc_new_exact rx rz = elim (base-clamp rx) [
  | inl (cx, ex, _, _) ↦ elim (base-clamp rz) [
    | inl (cz, ez, _, _) ↦ inl (cx, cz, rw (ex, ez))
    | inr (cz, ez) ↦ inr (λ c. cz c.1, rw (ex, ez))
  ]
  | inr (cx, ex) ↦ inr (λ c. cx c.0, rw ex)
]

pub loc_new-eq-ok :
    (rx rz : ℤ) {loc : RegionLoc}
    → loc_new rx rz ≡ ok loc
    → (clamp_region rx ≡ rx) × (clamp_region rz ≡ rz) × (loc ≡ loc_at rx rz)
loc_new-eq-ok rx rz h = elim (loc_new_exact rx rz) [
  | inl (cx, cz, e) ↦ (cx, cz, cc (h, e))
  | inr (_, e) ↦ absurd (cc (h, e))
]

slot_of-same :
    (rx rz x z : ℤ)
    → div_euclid x 32 ≡ rx
    → div_euclid z 32 ≡ rz
    → slot_of (loc_at rx rz) x z ≡ ok (rem_euclid x 32 + 32 * rem_euclid z 32)
unfolding slot_of
slot_of-same rx rz x z ex ez =
    let (sx, ix, px) = column-same rx x ex in
    let (sz, iz, pz) = column-same rz z ez in rw (sx, sz, ix, iz, px, pz)

other_row :
    (e : AnvilError) (ox oz : Option ℤ)
    → ((d : ℤ) → ox ≡ some d → in_row d ≡ false) ⊎ ((d : ℤ) → oz ≡ some d → in_row d ≡ false)
    → slot_between e ox oz ≡ err e
unfolding slot_between
other_row e none oz h = refl
other_row e (some dx) none h = refl
other_row e (some dx) (some dz) (inl h) = rw (h dx refl)
other_row e (some dx) (some dz) (inr h) = elim (Bool-cases (in_row dx)) [
  | inl k ↦ rw (k, h dz refl)
  | inr k ↦ rw k
]

checked_value : (a d : ℤ) → checked a ≡ some d → a ≡ d
checked_value a d h = elim (Bool-cases (in_i32 a)) [
  | inl k ↦ cc (rw k at h)
  | inr k ↦ absurd (cc (rw k at h))
]

checked-other : (r x d : ℤ) → div_euclid x 32 ≢ r → checked (column r x) ≡ some d → in_row d ≡ false
checked-other r x d e h = rw (checked_value (column r x) d h) at (column-other r x e)

slot_of-other :
    (rx rz x z : ℤ)
    → (div_euclid x 32 ≢ rx) ⊎ (div_euclid z 32 ≢ rz)
    → slot_of (loc_at rx rz) x z ≡ err (wrong_region rx rz x z)
slot_of-other rx rz x z h =
    unfold slot_of in
    other_row _ (checked (column rx x)) (checked (column rz z)) (elim h [
      | inl e ↦ inl (λ d. checked-other rx x d e)
      | inr e ↦ inr (λ d. checked-other rz z d e)
    ])

coord_at-slot :
    (rx rz x z : ℤ)
    → div_euclid x 32 ≡ rx
    → div_euclid z 32 ≡ rz
    → coord_at (loc_at rx rz) (rem_euclid x 32 + 32 * rem_euclid z 32) ≡ (x, z)
unfolding coord_at
coord_at-slot rx rz x z ex ez =
    let (ax, hx) = column-rem x in
    let (az, hz) = column-rem z in
    let low : (rem_euclid x 32 + 32 * rem_euclid z 32) % 32 ≡ rem_euclid x 32 = omega arith in
    let high : (rem_euclid x 32 + 32 * rem_euclid z 32) / 32 ≡ rem_euclid z 32 = omega arith in
    rw (low, high, ← ex, ← ez, ax, az)

-- A chunk has a slot, below 1024, in the location of its own region, and the
-- slot leads back to the chunk; in the location of any other region it has none.
pub slot_of_exact :
    (rx rz x z : ℤ)
    → ((div_euclid x 32 ≡ rx)
        × (div_euclid z 32 ≡ rz)
        × ((s : ℕ) × (slot_of (loc_at rx rz) x z ≡ ok s)
            × (s < table_entries)
            × (coord_at (loc_at rx rz) s ≡ (x, z))))
      ⊎ ((¬ ((div_euclid x 32 ≡ rx) × (div_euclid z 32 ≡ rz)))
          × (slot_of (loc_at rx rz) x z ≡ err (wrong_region rx rz x z)))
slot_of_exact rx rz x z = elim (int_discrete (div_euclid x 32) rx) [
  | yes ex ↦ elim (int_discrete (div_euclid z 32) rz) [
    | yes ez ↦ inl (
      ex,
      ez,
      (
        rem_euclid x 32 + 32 * rem_euclid z 32,
        slot_of-same rx rz x z ex ez,
        omega (arith, (column-rem x).1, (column-rem z).1),
        coord_at-slot rx rz x z ex ez,
      ),
    )
    | no n ↦ inr (λ h. n h.1, slot_of-other rx rz x z (inr n))
  ]
  | no n ↦ inr (λ h. n h.0, slot_of-other rx rz x z (inl n))
]

-- Every slot of the location table leads to a chunk of the region, and the chunk back to the slot.
pub slot_of-coord_at :
    (rx rz : ℤ) (i : ℕ)
    → i < table_entries
    → slot_of (loc_at rx rz) (coord_at (loc_at rx rz) i).0 (coord_at (loc_at rx rz) i).1 ≡ ok i
unfolding coord_at
slot_of-coord_at rx rz i h =
    let (dx, mx) = column-add rx (i % 32) (omega arith) in
    let (dz, mz) = column-add rz (i / 32) (omega arith) in
    slot_of-same rx rz _ _ dx dz ∙ ap ok (omega arith)

le_or_lt : (a b : ℕ) → (a ≤ b) ⊎ (b < a)
le_or_lt a b = omega arith

-- A payload's sectors hold its length prefix and its bytes with less than one sector to spare, and
-- number at most 255. A payload is refused exactly when that many sectors do not suffice.
pub sectors_for_exact :
    (n : ℕ)
    → ((s : ℕ) × (sectors_for n ≡ ok s)
        × (1 ≤ s)
        × (s ≤ max_sectors_per_chunk)
        × (n + 4 ≤ s * sector_len)
        × (s * sector_len < n + 4 + sector_len))
      ⊎ ((sectors_for n ≡ err (chunk_too_large n)) × (max_sectors_per_chunk * sector_len < n + 4))
unfolding sectors_for
sectors_for_exact n = elim (le_or_lt (n + 4) (max_sectors_per_chunk * sector_len)) [
  | inl h ↦
      inl ((n + 4 + 4095) / 4096, ground arith, omega arith, omega arith, omega arith, omega arith)
  | inr h ↦ inr (ground arith, h)
]
