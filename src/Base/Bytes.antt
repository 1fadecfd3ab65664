-- ===== src/Base/Bytes.antt =====
-- Byte strings: ranges read by `get(a..b)`, ranges written by `copy_from_slice`, and big-endian
-- 32-bit words. A byte is a number; that it is below 256 is `AllBytes`.
mod Words
unfoldable pub use Words.{to_be_bytes, from_be_bytes}
pub use Words.*
use sekai.Base.{
  ℕ, zero, suc, ◌+◌, ◌-◌, ◌≤◌, ◌<◌, ◌≡◌, refl, ap, ◌∙◌, ◌⊎◌, inl, inr, Option, none, some, List, [],
  ◌∷◌, ◌++◌, arith, if◌then◌else◌, leb, leb-true, sym, length-take, length-drop, length, take, drop,
  replicate, length-append,
}

module _ {ℓ} {A : Type ℓ} where
  -- the n elements from `a`
  pub slice : List A → ℕ → ℕ → List A
  unfolding take drop
  slice xs a n = take n (drop a xs)

  -- `xs.get(a..a + n)`
  unfoldable pub get_range : List A → ℕ → ℕ → Option (List A)
  get_range xs a n = if leb (a + n) (length xs) then some (slice xs a n) else none

  pub get_range-inside :
      (xs : List A) (a n : ℕ) {out : List A} → get_range xs a n ≡ some out → a + n ≤ length xs
  unfolding get_range
  get_range-inside xs a n h = ground arith

  pub length-get_range :
      (xs : List A) (a n : ℕ) {out : List A} → get_range xs a n ≡ some out → length out ≡ n
  unfolding get_range slice
  length-get_range xs a n {out} h =
      let fits : a + n ≤ length xs = get_range-inside xs a n h in
      let e : take n (drop a xs) ≡ out =
        cc (rw (get_range, leb-true (a + n) (length xs) fits) at h) in
      ap length (sym e) ∙ omega (arith, length-take n (drop a xs), length-drop a xs, fits)

  -- `xs[..bs.len()].copy_from_slice(bs)`
  overwrite : List A → List A → List A
  overwrite xs [] = xs
  overwrite [] (b ∷ bs) = []
  overwrite (x ∷ xs) (b ∷ bs) = b ∷ overwrite xs bs

  -- `xs[at..at + bs.len()].copy_from_slice(bs)`, for a range within the list
  pub write : List A → ℕ → List A → List A
  unfolding overwrite
  write xs zero bs = overwrite xs bs
  write [] (suc at) bs = []
  write (x ∷ xs) (suc at) bs = x ∷ write xs at bs

  length-overwrite : (xs bs : List A) → length (overwrite xs bs) ≡ length xs
  unfolding overwrite
  length-overwrite xs [] = refl
  length-overwrite [] (b ∷ bs) = refl
  length-overwrite (x ∷ xs) (b ∷ bs) = ap suc (length-overwrite xs bs)

  pub length-write : (xs : List A) (at : ℕ) (bs : List A) → length (write xs at bs) ≡ length xs
  unfolding write
  length-write xs zero bs = length-overwrite xs bs
  length-write [] (suc at) bs = refl
  length-write (x ∷ xs) (suc at) bs = ap suc (length-write xs at bs)

  take-append_left : (n : ℕ) (xs ys : List A) → n ≤ length xs → take n (xs ++ ys) ≡ take n xs
  unfolding take
  take-append_left zero xs ys h = refl
  take-append_left (suc n) [] ys h = absurd (omega arith)
  take-append_left (suc n) (x ∷ xs) ys h = ap (λ l. x ∷ l) (take-append_left n xs ys (omega arith))

  pub slice-append_left :
      (xs ys : List A) (a n : ℕ) → a + n ≤ length xs → slice (xs ++ ys) a n ≡ slice xs a n
  unfolding slice
  slice-append_left xs ys zero n h = take-append_left n xs ys (omega arith)
  slice-append_left [] ys (suc a) zero h = absurd (omega arith)
  slice-append_left [] ys (suc a) (suc n) h = absurd (omega arith)
  slice-append_left (x ∷ xs) ys (suc a) n h = slice-append_left xs ys a n (omega arith)

  pub slice-append_right :
      (xs ys : List A) (a n : ℕ) → slice (xs ++ ys) (length xs + a) n ≡ slice ys a n
  unfolding slice
  slice-append_right [] ys a n = ap (λ k. slice ys k n) (omega arith)
  slice-append_right (x ∷ xs) ys a n =
      let e : length (x ∷ xs) + a ≡ suc (length xs + a) = omega arith in
      rw e (slice-append_right xs ys a n)

  -- all of a list, when something follows
  pub slice_all : (xs ys : List A) → slice (xs ++ ys) 0 (length xs) ≡ xs
  unfolding slice
  slice_all [] ys = refl
  slice_all (x ∷ xs) ys = ap (λ l. x ∷ l) (slice_all xs ys)

  pub slice_whole : (xs : List A) → slice xs 0 (length xs) ≡ xs
  unfolding slice
  slice_whole [] = refl
  slice_whole (x ∷ xs) = ap (λ l. x ∷ l) (slice_whole xs)

  slice-overwrite_self :
      (xs bs : List A) → length bs ≤ length xs → slice (overwrite xs bs) 0 (length bs) ≡ bs
  unfolding slice overwrite
  slice-overwrite_self xs [] h = refl
  slice-overwrite_self [] (b ∷ bs) h = absurd (omega arith)
  slice-overwrite_self (x ∷ xs) (b ∷ bs) h =
      ap (λ l. b ∷ l) (slice-overwrite_self xs bs (omega arith))

  pub slice-write_self :
      (xs : List A) (at : ℕ) (bs : List A)
      → at + length bs ≤ length xs
      → slice (write xs at bs) at (length bs) ≡ bs
  unfolding write slice
  slice-write_self xs zero bs h = slice-overwrite_self xs bs (omega arith)
  slice-write_self [] (suc at) bs h = absurd (omega arith)
  slice-write_self (x ∷ xs) (suc at) bs h = slice-write_self xs at bs (omega arith)

  drop-overwrite : (xs bs : List A) (a : ℕ) → length bs ≤ a → drop a (overwrite xs bs) ≡ drop a xs
  unfolding drop overwrite
  drop-overwrite xs [] a h = refl
  drop-overwrite [] (b ∷ bs) a h = refl
  drop-overwrite (x ∷ xs) (b ∷ bs) zero h = absurd (omega arith)
  drop-overwrite (x ∷ xs) (b ∷ bs) (suc a) h = drop-overwrite xs bs a (omega arith)

  take-write :
      (xs : List A) (at : ℕ) (bs : List A) (n : ℕ) → n ≤ at → take n (write xs at bs) ≡ take n xs
  unfolding take write
  take-write xs at bs zero h = refl
  take-write xs zero bs (suc n) h = absurd (omega arith)
  take-write [] (suc at) bs (suc n) h = refl
  take-write (x ∷ xs) (suc at) bs (suc n) h = ap (λ l. x ∷ l) (take-write xs at bs n (omega arith))

  -- A range that the write does not meet is as before.
  pub slice-write_apart :
      (xs : List A) (at : ℕ) (bs : List A) (a n : ℕ)
      → (a + n ≤ at) ⊎ (at + length bs ≤ a)
      → slice (write xs at bs) a n ≡ slice xs a n
  unfolding slice write
  slice-write_apart xs zero bs zero zero (inl h) = refl
  slice-write_apart xs zero bs zero (suc n) (inl h) = absurd (omega arith)
  slice-write_apart xs zero bs (suc a) n (inl h) = absurd (omega arith)
  slice-write_apart xs zero bs a n (inr h) = ap (take n) (drop-overwrite xs bs a (omega arith))
  slice-write_apart [] (suc at) bs a n h = refl
  slice-write_apart (x ∷ xs) (suc at) bs zero n (inl h) =
      take-write (x ∷ xs) (suc at) bs n (omega arith)
  slice-write_apart (x ∷ xs) (suc at) bs zero n (inr h) = absurd (omega arith)
  slice-write_apart (x ∷ xs) (suc at) bs (suc a) n (inl h) =
      slice-write_apart xs at bs a n (inl (omega arith))
  slice-write_apart (x ∷ xs) (suc at) bs (suc a) n (inr h) =
      slice-write_apart xs at bs a n (inr (omega arith))

  pub slice-replicate : (k a n : ℕ) (x : A) → a + n ≤ k → slice (replicate k x) a n ≡ replicate n x
  unfolding slice replicate
  slice-replicate k zero zero x h = refl
  slice-replicate zero zero (suc n) x h = absurd (omega arith)
  slice-replicate (suc k) zero (suc n) x h =
      ap (λ l. x ∷ l) (slice-replicate k zero n x (omega arith))
  slice-replicate zero (suc a) n x h = absurd (omega arith)
  slice-replicate (suc k) (suc a) n x h = slice-replicate k a n x (omega arith)
