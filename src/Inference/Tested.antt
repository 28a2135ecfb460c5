-- ===== src/Inference/Tested.antt =====
-- src/inference.rs: what the tests of `issues` on texts, pairs of names, plans and placements say
-- when they are true.
use zenbench.Prelude.{
  ℕ, zero, suc, ◌+◌, ◌≤◌, ◌≡◌, ◌≢◌, refl, Bool, true, false, Option, none, some, List, [], ◌∷◌,
  length, map, any, get_elem?, All, not, ◌||◌, ltb, list_eq, list_eq→eq, list_eq_refl, range_from,
  arith, Bool-cases, inl, inr, ◌∙◌, sym, ap, ◌⊎◌, if◌then◌else◌, if-true, if-false, &&-eq-true,
}
use zenbench.Prelude.Counts.{occurrences, occurrences-sort}
use zenbench.Prelude.Sort.{sort}
use zenbench.Prelude.Text.{Text, listed, text_lt}
use zenbench.Inference.{option_eq}
use zenbench.Inference.Issues.{
  distinct_pairs, has_repeated, has_repeated_pairs, ordered, pair_eq, texts_eq,
}

pub neither : (a b : Bool) → (a || b) ≡ false → (a ≡ false) × (b ≡ false)
neither a b h = ground arith

pub of_not : (b : Bool) → not b ≡ false → b ≡ true
of_not b h = ground arith

pub list_eq-ne : (xs ys : List ℕ) → list_eq xs ys ≡ false → xs ≢ ys
list_eq-ne xs ys h e = absurd (both (sym (list_eq_refl xs) ∙ ap (list_eq xs) e ∙ h))
  where
    both : true ≡ false → ⊥
    both g = ground (arith, g)

pub texts_eq→eq : (xs ys : List Text) → texts_eq xs ys ≡ true → xs ≡ ys
texts_eq→eq [] [] h = refl
texts_eq→eq [] (y ∷ ys) h = cc
texts_eq→eq (x ∷ xs) [] h = cc
texts_eq→eq (x ∷ xs) (y ∷ ys) h =
    let (a, b) = &&-eq-true (list_eq x y) _ h in
    let here = list_eq→eq x y a in let rest = texts_eq→eq xs ys b in cc

-- Options that are equal have equal values or none.
pub option_eq-cases {ℓ} :
    {A : Type ℓ} (eq : A → A → Bool) (o p : Option A)
    → option_eq eq o p ≡ true
    → ((o ≡ none) × (p ≡ none))
      ⊎ ((a : A) × (b : A) × (o ≡ some a) × (p ≡ some b) × (eq a b ≡ true))
option_eq-cases eq none none h = inl (refl, refl)
option_eq-cases eq none (some b) h = cc
option_eq-cases eq (some a) none h = cc
option_eq-cases eq (some a) (some b) h = inr (a, b, refl, refl, h)

pub option_eq→eq {ℓ} :
    {A : Type ℓ} (eq : A → A → Bool)
    → ((a b : A) → eq a b ≡ true → a ≡ b)
    → (o p : Option A) → option_eq eq o p ≡ true
    → o ≡ p
option_eq→eq eq sound none none h = refl
option_eq→eq eq sound none (some b) h = cc
option_eq→eq eq sound (some a) none h = cc
option_eq→eq eq sound (some a) (some b) h = ap some (sound a b h)

-- A text of a list stands at some place of it.
abbrev pub IsIn : Text → List Text → Type 0
IsIn text ts = (i : ℕ) × (get_elem? ts i ≡ some text)

pub listed-IsIn : (ts : List Text) (text : Text) → listed ts text ≡ true → IsIn text ts
listed-IsIn [] text h = cc
listed-IsIn (t ∷ ts) text h = elim (Bool-cases (list_eq t text)) [
  | inl here ↦ (0, ap some (list_eq→eq t text here))
  | inr other ↦ let (i, e) = listed-IsIn ts text (ground (arith, other, h)) in (suc i, e)
]

pub listed-ne : (ts : List Text) (text : Text) → listed ts text ≡ false → All (λ t. t ≢ text) ts
listed-ne [] text h = tt
listed-ne (t ∷ ts) text h =
    let (a, b) = neither (list_eq t text) _ h in (list_eq-ne t text a, listed-ne ts text b)

-- No element of the list is followed by an equal one.
abbrev pub IsDistinct {ℓ} : {A : Type ℓ} → List A → Type ℓ
IsDistinct [] = Unit
IsDistinct (x ∷ xs) = All (λ y. y ≢ x) xs × IsDistinct xs

pub has_repeated-IsDistinct : (ts : List Text) → has_repeated ts ≡ false → IsDistinct ts
has_repeated-IsDistinct [] h = tt
has_repeated-IsDistinct (t ∷ ts) h =
    let (a, b) = neither (listed ts t) _ h in (listed-ne ts t a, has_repeated-IsDistinct ts b)

pair_eq_refl : (p : Text × Text) → pair_eq p p ≡ true
pair_eq_refl (a, b) = ground (arith, list_eq_refl a, list_eq_refl b)

pair_eq-ne : (p q : Text × Text) → pair_eq p q ≡ false → q ≢ p
pair_eq-ne p q h e = absurd (both (sym (pair_eq_refl p) ∙ ap (pair_eq p) (sym e) ∙ h))
  where
    both : true ≡ false → ⊥
    both g = ground (arith, g)

any-pair_eq-ne :
    (p : Text × Text) (ps : List (Text × Text)) → any (pair_eq p) ps ≡ false → All (λ q. q ≢ p) ps
any-pair_eq-ne p [] h = tt
any-pair_eq-ne p (q ∷ qs) h =
    let (a, b) = neither (pair_eq p q) _ h in (pair_eq-ne p q a, any-pair_eq-ne p qs b)

pub has_repeated_pairs-IsDistinct :
    (ps : List (Text × Text)) → has_repeated_pairs ps ≡ false → IsDistinct ps
has_repeated_pairs-IsDistinct [] h = tt
has_repeated_pairs-IsDistinct (p ∷ ps) h =
    let (a, b) = neither (any (pair_eq p) ps) _ h in
    (any-pair_eq-ne p ps a, has_repeated_pairs-IsDistinct ps b)

distinct_pairs-le : (ps : List (Text × Text)) → distinct_pairs ps ≤ length ps
distinct_pairs-le [] = omega arith
distinct_pairs-le (p ∷ ps) = ground (arith, distinct_pairs-le ps)

pub distinct_pairs-IsDistinct :
    (ps : List (Text × Text)) → distinct_pairs ps ≡ length ps → IsDistinct ps
distinct_pairs-IsDistinct [] h = tt
distinct_pairs-IsDistinct (p ∷ ps) h = elim (Bool-cases (any (pair_eq p) ps)) [
  | inl twice ↦ absurd (ground (arith, twice, h, distinct_pairs-le ps))
  | inr once ↦ (any-pair_eq-ne p ps once, distinct_pairs-IsDistinct ps (ground (arith, once, h)))
]

-- A test that raises nothing for any element holds of each.
pub all-of-any {ℓ} :
    {A : Type ℓ} (p : A → Bool) (xs : List A)
    → any (λ x. not (p x)) xs ≡ false
    → All (λ x. p x ≡ true) xs
all-of-any p [] h = tt
all-of-any p (x ∷ xs) h =
    let (a, b) = neither (not (p x)) _ h in (of_not (p x) a, all-of-any p xs b)

pub All-map {ℓ κ μ} :
    {A : Type ℓ} {P : A → Type κ} {Q : A → Type μ}
    → ((x : A) → P x → Q x)
    → (xs : List A) → All P xs
    → All Q xs
All-map f [] h = tt
All-map f (x ∷ xs) (h, t) = (f x h, All-map f xs t)

-- A range has each of its numbers once.
pub occurrences-range_from :
    (start n x : ℕ)
    → occurrences x (range_from start n)
      ≡ (if ltb x start then 0 else if ltb x (start + n) then 1 else 0)
occurrences-range_from start zero x = ground arith
occurrences-range_from start (suc n) x = ground (arith, occurrences-range_from (suc start) n x)

from_zero :
    (k y : ℕ)
    → ◌≡◌ {A = ℕ} (if ltb y 0 then 0 else if ltb y (0 + k) then 1 else 0) (if ltb y k then 1 else 0)
from_zero k y = ground arith

-- A list whose sorted form is the range holds each number of the range once, and no other.
pub sorted-once :
    (xs : List ℕ) (n : ℕ)
    → list_eq (sort xs) (range_from 0 n) ≡ true
    → (x : ℕ) → occurrences x xs ≡ (if ltb x n then 1 else 0)
sorted-once xs n h x =
    sym (occurrences-sort x xs)
    ∙ ap (occurrences x) (list_eq→eq (sort xs) (range_from 0 n) h)
    ∙ occurrences-range_from 0 n x
    ∙ from_zero n x

text_lt-cases :
    (a b : Text)
    → ((text_lt a b ≡ true) × (text_lt b a ≡ false))
      ⊎ ((text_lt a b ≡ false) × (text_lt b a ≡ true))
      ⊎ (a ≡ b)
text_lt-cases [] [] = inr (inr refl)
text_lt-cases [] (y ∷ ys) = inl (refl, refl)
text_lt-cases (x ∷ xs) [] = inr (inl (refl, refl))
text_lt-cases (x ∷ xs) (y ∷ ys) = ground (arith, text_lt-cases xs ys)

abbrev pub swapped : Text × Text → Text × Text
swapped (a, b) = (b, a)

ordered-swapped : (p : Text × Text) → ordered (swapped p) ≡ ordered p
ordered-swapped (a, b) = elim (text_lt-cases a b) [
  | inl (x, y) ↦ if-false _ _ y ∙ sym (if-true _ _ x)
  | inr r ↦ elim r [ inl (x, y) ↦ if-true _ _ y ∙ sym (if-false _ _ x) | inr same ↦ cc ]
]

-- No two of the pairs are the same two texts, in either order.
abbrev pub IsDistinctPairs : List (Text × Text) → Type 0
IsDistinctPairs [] = Unit
IsDistinctPairs (p ∷ ps) = All (λ q. (q ≢ p) × (q ≢ swapped p)) ps × IsDistinctPairs ps

other_pairs :
    (p : Text × Text) (ps : List (Text × Text))
    → All (λ q. q ≢ ordered p) (map ordered ps)
    → All (λ q. (q ≢ p) × (q ≢ swapped p)) ps
other_pairs p [] h = tt
other_pairs p (q ∷ qs) (h, t) =
    ((λ e. h (ap ordered e), λ e. h (ap ordered e ∙ ordered-swapped p)), other_pairs p qs t)

pub ordered-IsDistinctPairs :
    (ps : List (Text × Text)) → IsDistinct (map ordered ps) → IsDistinctPairs ps
ordered-IsDistinctPairs [] h = tt
ordered-IsDistinctPairs (p ∷ ps) (h, t) = (other_pairs p ps h, ordered-IsDistinctPairs ps t)
