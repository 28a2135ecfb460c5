-- ===== src/Engine/Shuffle.antt =====
-- src/engine.rs: `random_permutation`. The generator is a state and the function that draws a
-- number from it.
use native.Mathlib.Nat.{mod-lt}
use zenbench.Prelude.{
  range_from, ℕ, zero, suc, ◌+◌, ◌-◌, ◌%◌, ◌<◌, ◌≡◌, refl, List, [], ◌∷◌, length, get_or, set,
  arith, leb, ltb, ◌&&◌, ◌⊎◌, length-set, ◌∙◌, ap, inl, inr, ◌==◌, if◌then◌else◌,
}
use zenbench.Prelude.Counts.{occurrences}

-- `perm.swap(i, j)`
abbrev pub swap : List ℕ → ℕ → ℕ → List ℕ
swap xs i j = set (set xs i (get_or xs j 0)) j (get_or xs i 0)

module _ {ℓ} {S : Type ℓ} (next_u64 : S → ℕ × S) where
  -- the loop over `(1..n).rev()`, from the index `i` down
  unfoldable pub shuffle : ℕ → List ℕ → S → List ℕ × S
  shuffle zero perm rng = (perm, rng)
  shuffle (suc i) perm rng =
      let (drawn, rng') = next_u64 rng in shuffle i (swap perm (suc i) (drawn % (suc i + 1))) rng'

  -- `random_permutation`
  unfoldable pub random_permutation : ℕ → S → List ℕ × S
  unfolding shuffle
  random_permutation n rng = shuffle (n - 1) (range_from 0 n) rng

abbrev is_at : ℕ → ℕ → ℕ
is_at y x = if y == x then 1 else 0

-- A write takes one occurrence of the old value for one of the new.
occurrences-set :
    (xs : List ℕ) (i v x : ℕ)
    → i < length xs
    → occurrences x (set xs i v) + is_at (get_or xs i 0) x ≡ occurrences x xs + is_at v x
occurrences-set [] i v x h = absurd (omega (arith, h))
occurrences-set (y ∷ ys) zero v x h = omega arith
occurrences-set (y ∷ ys) (suc i) v x h =
    let e = occurrences-set ys i v x (omega (arith, h)) in omega (arith, e)

-- The write of a value that stands at `j` leaves it at `j`.
get_or-set : (xs : List ℕ) (i j : ℕ) → get_or (set xs i (get_or xs j 0)) j 0 ≡ get_or xs j 0
get_or-set [] i j = refl
get_or-set (y ∷ ys) zero zero = refl
get_or-set (y ∷ ys) zero (suc j) = refl
get_or-set (y ∷ ys) (suc i) zero = refl
get_or-set (y ∷ ys) (suc i) (suc j) = get_or-set ys i j

pub occurrences-swap :
    (xs : List ℕ) (i j x : ℕ)
    → i < length xs
    → j < length xs
    → occurrences x (swap xs i j) ≡ occurrences x xs
occurrences-swap xs i j x h k =
    let once = occurrences-set xs i (get_or xs j 0) x h in
    let ys = set xs i (get_or xs j 0) in
    let same_length : length ys ≡ length xs = length-set xs i (get_or xs j 0) in
    let twice = occurrences-set ys j (get_or xs i 0) x (rw (same_length) k) in
    let kept : is_at (get_or ys j 0) x ≡ is_at (get_or xs j 0) x =
      ap (λ v. is_at v x) (get_or-set xs i j) in
    balance _ _ _ _ _ _ once twice kept
  where
    balance : (a b c p q r : ℕ) → a + p ≡ b + q → c + r ≡ a + p → r ≡ q → c ≡ b
    balance a b c p q r e f g = omega (arith, e, f, g)

pub length-swap : (xs : List ℕ) (i j : ℕ) → length (swap xs i j) ≡ length xs
length-swap xs i j =
    length-set (set xs i (get_or xs j 0)) j (get_or xs i 0) ∙ length-set xs i (get_or xs j 0)

pub length-range_from : (start n : ℕ) → length (range_from start n) ≡ n
length-range_from start zero = refl
length-range_from start (suc n) = ap suc (length-range_from (suc start) n)

occurrences-range_from :
    (start n x : ℕ)
    → occurrences x (range_from start n) ≡ (if leb start x && ltb x (start + n) then 1 else 0)
occurrences-range_from start zero x = ground arith
occurrences-range_from start (suc n) x = ground (arith, occurrences-range_from (suc start) n x)

module _ {ℓ} {S : Type ℓ} (next_u64 : S → ℕ × S) where
  -- The shuffle keeps the occurrences of every number.
  shuffle-keeps :
      (i : ℕ) (perm : List ℕ) (rng : S) (x : ℕ)
      → (i ≡ 0) ⊎ (i < length perm)
      → (occurrences x ((shuffle next_u64 i perm rng).0) ≡ occurrences x perm)
        × (length ((shuffle next_u64 i perm rng).0) ≡ length perm)
  unfolding shuffle
  shuffle-keeps zero perm rng x k = (refl, refl)
  shuffle-keeps (suc i) perm rng x (inl z) = absurd (omega (arith, z))
  shuffle-keeps (suc i) perm rng x (inr k) =
      let (drawn, rng') = next_u64 rng in
      let j = drawn % (suc i + 1) in
      let below : j < suc i + 1 = mod-lt drawn (omega arith) in
      let swapped = swap perm (suc i) j in
      let same : length swapped ≡ length perm = length-swap perm (suc i) j in
      let (counts, lengths) = shuffle-keeps i swapped rng' x (inr (omega (arith, same, k))) in
      (counts ∙ occurrences-swap perm (suc i) j x k (omega (arith, below, k)), lengths ∙ same)

  -- The order of a round holds each of the `n` benchmarks exactly once, whatever the generator
  -- draws.
  pub random_permutation-IsPermutation :
      (n : ℕ) (rng : S)
      → (length ((random_permutation next_u64 n rng).0) ≡ n)
        × ((x : ℕ)
            → occurrences x ((random_permutation next_u64 n rng).0) ≡ (if ltb x n then 1 else 0))
  unfolding random_permutation
  random_permutation-IsPermutation n rng = (
    (kept 0).1 ∙ length-range_from 0 n,
    λ x. (kept x).0 ∙ occurrences-range_from 0 n x ∙ ground arith,
  )
    where
      start : (m : ℕ) → (m - 1 ≡ 0) ⊎ (m - 1 < length (range_from 0 m))
      start zero = inl refl
      start (suc m) = inr (omega (arith, length-range_from 1 m))

      kept :
          (x : ℕ)
          → (occurrences x ((shuffle next_u64 (n - 1) (range_from 0 n) rng).0)
              ≡ occurrences x (range_from 0 n))
            × (length ((shuffle next_u64 (n - 1) (range_from 0 n) rng).0) ≡ length (range_from 0 n))
      kept x = shuffle-keeps (n - 1) (range_from 0 n) rng x (start n)
