-- ===== src/Prelude/Counts.antt =====
-- How often a number occurs in a list, and what that says of a sorted list.
use zenbench.Prelude.{
  ℕ, ◌+◌, ◌≤◌, ◌<◌, ◌≡◌, ◌≢◌, refl, sym, ◌∙◌, ap, subst, List, [], ◌∷◌, ◌==◌, if◌then◌else◌, arith,
}
use zenbench.Prelude.Sort.{insert_sorted, sort, IsSortedFrom}

abbrev pub occurrences : ℕ → List ℕ → ℕ
occurrences x [] = 0
occurrences x (y ∷ ys) = (if y == x then 1 else 0) + occurrences x ys

occurrences-insert_sorted :
    (a x : ℕ) (xs : List ℕ) → occurrences x (insert_sorted a xs) ≡ occurrences x (a ∷ xs)
unfolding insert_sorted
occurrences-insert_sorted a x [] = refl
occurrences-insert_sorted a x (y ∷ ys) = ground (arith, occurrences-insert_sorted a x ys)

pub occurrences-sort : (x : ℕ) (xs : List ℕ) → occurrences x (sort xs) ≡ occurrences x xs
unfolding sort
occurrences-sort x [] = refl
occurrences-sort x (y ∷ ys) =
    occurrences-insert_sorted y x (sort ys)
    ∙ ap (λ n. (if y == x then 1 else 0) + n) (occurrences-sort x ys)

-- A number below a sorted list does not occur in it.
occurrences-below : (a x : ℕ) (xs : List ℕ) → IsSortedFrom a xs → x < a → occurrences x xs ≡ 0
occurrences-below a x [] s less = refl
occurrences-below a x (y ∷ ys) (le, s) less =
    let rest = occurrences-below y x ys s (omega (arith, le, less)) in ground (arith, rest)

-- The heads of sorted lists with the same occurrences are in order.
head-le :
    (x y : ℕ) (xs ys : List ℕ)
    → IsSortedFrom y ys
    → occurrences x (x ∷ xs) ≡ occurrences x (y ∷ ys)
    → y ≤ x
head-le x y xs ys s same = ground (arith, same, occurrences-below y x ys s)

occurs : (x : ℕ) (xs : List ℕ) → 0 ≢ occurrences x (x ∷ xs)
occurs x xs h = ground (arith, h)

cancel : (a b c : ℕ) → a + b ≡ a + c → b ≡ c
cancel a b c h = omega (arith, h)

-- Sorted lists with the same occurrences are the same.
pub IsSortedFrom-unique :
    (a : ℕ) (xs ys : List ℕ)
    → IsSortedFrom a xs
    → IsSortedFrom a ys
    → ((x : ℕ) → occurrences x xs ≡ occurrences x ys)
    → xs ≡ ys
IsSortedFrom-unique a [] [] s t same = refl
IsSortedFrom-unique a [] (y ∷ ys) s t same = absurd (occurs y ys (same y))
IsSortedFrom-unique a (x ∷ xs) [] s t same = absurd (occurs x xs (sym (same x)))
IsSortedFrom-unique a (x ∷ xs) (y ∷ ys) (le, s) (le', t) same =
    let head : x ≡ y =
      omega (arith, head-le x y xs ys t (same x), head-le y x ys xs s (sym (same y))) in
    let tail = IsSortedFrom-unique x xs ys s (subst (λ z. IsSortedFrom z ys) (sym head) t) (λ v.
      cancel _ _ _
        (subst (λ z. occurrences v (x ∷ xs) ≡ occurrences v (z ∷ ys)) (sym head) (same v))) in
    ap (λ zs. x ∷ zs) tail ∙ ap (λ z. z ∷ ys) head
