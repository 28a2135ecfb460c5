-- ===== src/Prelude/Sort.antt =====
-- `sort_unstable` and `dedup` on a vector of numbers, and what the two together give.
use zenbench.Prelude.{
  ℕ, ◌≤◌, ◌<◌, ◌≡◌, refl, List, [], ◌∷◌, leb, ◌==◌, if◌then◌else◌, ◌||◌, contains, arith, ◌∙◌,
}

unfoldable pub insert_sorted : ℕ → List ℕ → List ℕ
insert_sorted a [] = a ∷ []
insert_sorted a (x ∷ xs) = if leb a x then a ∷ x ∷ xs else x ∷ insert_sorted a xs

-- `sort_unstable`
unfoldable pub sort : List ℕ → List ℕ
unfolding insert_sorted
sort [] = []
sort (x ∷ xs) = insert_sorted x (sort xs)

-- `dedup`, after the element `a`
unfoldable pub dedup_after : ℕ → List ℕ → List ℕ
dedup_after a [] = []
dedup_after a (x ∷ xs) = if x == a then dedup_after a xs else x ∷ dedup_after x xs

-- `dedup`
unfoldable pub dedup : List ℕ → List ℕ
unfolding dedup_after
dedup [] = []
dedup (x ∷ xs) = x ∷ dedup_after x xs

-- `v.sort_unstable(); v.dedup();`
unfoldable pub sort_dedup : List ℕ → List ℕ
unfolding sort dedup
sort_dedup xs = dedup (sort xs)

abbrev pub IsSortedFrom : ℕ → List ℕ → Type 0
IsSortedFrom a [] = Unit
IsSortedFrom a (x ∷ xs) = (a ≤ x) × IsSortedFrom x xs

-- Rising: each element is above the one before it.
abbrev pub IsRisingAfter : ℕ → List ℕ → Type 0
IsRisingAfter a [] = Unit
IsRisingAfter a (x ∷ xs) = (a < x) × IsRisingAfter x xs

abbrev pub IsRising : List ℕ → Type 0
IsRising [] = Unit
IsRising (x ∷ xs) = IsRisingAfter x xs

contains-insert_sorted :
    (a b : ℕ) (xs : List ℕ) → contains (insert_sorted a xs) b ≡ (a == b || contains xs b)
unfolding insert_sorted
contains-insert_sorted a b [] = refl
contains-insert_sorted a b (x ∷ xs) = ground (arith, contains-insert_sorted a b xs)

contains-sort : (b : ℕ) (xs : List ℕ) → contains (sort xs) b ≡ contains xs b
unfolding sort
contains-sort b [] = refl
contains-sort b (x ∷ xs) = ground (arith, contains-insert_sorted x b (sort xs), contains-sort b xs)

contains-dedup_after :
    (a b : ℕ) (xs : List ℕ) → (a == b || contains (dedup_after a xs) b) ≡ (a == b || contains xs b)
unfolding dedup_after
contains-dedup_after a b [] = refl
contains-dedup_after a b (x ∷ xs) =
    ground (arith, contains-dedup_after a b xs, contains-dedup_after x b xs)

contains-dedup : (b : ℕ) (xs : List ℕ) → contains (dedup xs) b ≡ contains xs b
unfolding dedup
contains-dedup b [] = refl
contains-dedup b (x ∷ xs) = contains-dedup_after x b xs

pub contains-sort_dedup : (b : ℕ) (xs : List ℕ) → contains (sort_dedup xs) b ≡ contains xs b
unfolding sort_dedup
contains-sort_dedup b xs = contains-dedup b (sort xs) ∙ contains-sort b xs

IsSortedFrom-insert_sorted :
    (c a : ℕ) (xs : List ℕ) → c ≤ a → IsSortedFrom c xs → IsSortedFrom c (insert_sorted a xs)
unfolding insert_sorted
IsSortedFrom-insert_sorted c a [] h s = (h, tt)
IsSortedFrom-insert_sorted c a (x ∷ xs) h s = ground (arith, IsSortedFrom-insert_sorted x a xs)

pub IsSortedFrom-sort : (xs : List ℕ) → IsSortedFrom 0 (sort xs)
unfolding sort
IsSortedFrom-sort [] = tt
IsSortedFrom-sort (x ∷ xs) =
    IsSortedFrom-insert_sorted 0 x (sort xs) (omega arith) (IsSortedFrom-sort xs)

IsRisingAfter-dedup_after :
    (a : ℕ) (xs : List ℕ) → IsSortedFrom a xs → IsRisingAfter a (dedup_after a xs)
unfolding dedup_after
IsRisingAfter-dedup_after a [] s = tt
IsRisingAfter-dedup_after a (x ∷ xs) s =
    ground (arith, IsRisingAfter-dedup_after a xs, IsRisingAfter-dedup_after x xs)

IsRising-dedup : (xs : List ℕ) → IsSortedFrom 0 xs → IsRising (dedup xs)
unfolding dedup
IsRising-dedup [] s = tt
IsRising-dedup (x ∷ xs) s = IsRisingAfter-dedup_after x xs s.1

pub sort_dedup-IsRising : (xs : List ℕ) → IsRising (sort_dedup xs)
unfolding sort_dedup
sort_dedup-IsRising xs = IsRising-dedup (sort xs) (IsSortedFrom-sort xs)
