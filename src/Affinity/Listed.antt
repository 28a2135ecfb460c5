-- ===== src/Affinity/Listed.antt =====
-- src/platform/affinity.rs: the CPUs of a list that `parse_cpu_list` accepts.
use zenbench.Prelude.{
  ok-injective, ok_or-eq-ok, ℕ, zero, suc, ◌+◌, ◌-◌, ◌≤◌, ◌≡◌, refl, Bool, false, some, List, [],
  ◌∷◌, ◌++◌, ltb, leb, ◌&&◌, ◌||◌, any, contains, length, range_from, ok, ok_or, >>=-eq-ok,
  guard-eq-ok, arith, ◌∙◌, ap, subst, sym, length-append,
}
use zenbench.Prelude.Sort.{sort_dedup, contains-sort_dedup, sort_dedup-IsRising, IsRising}
use zenbench.Prelude.Text.{Text, split_on}
use zenbench.Affinity.{AffinityError, max_entries, bounds_of, count_of, expand, parse_cpu_list}

-- The items read as these ranges, none of them reversed.
abbrev pub AreRanges : List Text → List (ℕ × ℕ) → Type 0
AreRanges [] [] = Unit
AreRanges [] (r ∷ rs) = ⊥
AreRanges (item ∷ items) [] = ⊥
AreRanges (item ∷ items) ((low, high) ∷ rs) =
    (bounds_of item ≡ some (low, high)) × (low ≤ high) × AreRanges items rs

abbrev pub in_range : ℕ → ℕ × ℕ → Bool
in_range cpu (low, high) = leb low cpu && leb cpu high

contains-append :
    (xs ys : List ℕ) (a : ℕ) → contains (xs ++ ys) a ≡ (contains xs a || contains ys a)
contains-append [] ys a = refl
contains-append (x ∷ xs) ys a = ground (arith, contains-append xs ys a)

contains-range_from :
    (start n a : ℕ) → contains (range_from start n) a ≡ (leb start a && ltb a (start + n))
contains-range_from start zero a = ground arith
contains-range_from start (suc n) a = ground (arith, contains-range_from (suc start) n a)

length-range_from : (start n : ℕ) → length (range_from start n) ≡ n
length-range_from start zero = refl
length-range_from start (suc n) = ap suc (length-range_from (suc start) n)

count_of-eq-some :
    (low high count : ℕ)
    → count_of (low, high) ≡ some count
    → (low ≤ high) × (low + count ≡ high + 1)
count_of-eq-some low high count e = ground arith

-- What the loop collects.
record IsExpanded (items : List Text) (cores out : List ℕ) : Type 0 where
  ranges : List (ℕ × ℕ)
  are_ranges : AreRanges items ranges
  few : length out ≤ max_entries
  exact : (cpu : ℕ) → contains out cpu ≡ (contains cores cpu || any (in_range cpu) ranges)

expand-one :
    (cores : List ℕ) (low high count cpu : ℕ) (rest : Bool)
    → low + count ≡ high + 1
    → (contains (cores ++ range_from low count) cpu || rest)
      ≡ (contains cores cpu || (in_range cpu (low, high) || rest))
expand-one cores low high count cpu rest e =
    ground
      (arith, contains-append cores (range_from low count) cpu, contains-range_from low count cpu)

expand-IsExpanded :
    (spec : Text) (items : List Text) (cores out : List ℕ)
    → length cores ≤ max_entries
    → expand spec items cores ≡ ok out
    → IsExpanded items cores out
unfolding expand
expand-IsExpanded spec [] cores out h e = record {
  ranges = [];
  are_ranges = tt;
  few = subst (λ l. length l ≤ max_entries) (ok-injective e) h;
  exact = λ cpu. ap (λ l. contains l cpu) (sym (ok-injective e)) ∙ ground arith;
}
expand-IsExpanded spec (item ∷ items) cores out h e =
    let invalid = AffinityError.invalid_specification spec in
    let (bounds, read, e1) = >>=-eq-ok (ok_or (bounds_of item) invalid) _ e in
    let (count, counted, e2) = >>=-eq-ok (ok_or (count_of bounds) invalid) _ e1 in
    let (small, e3) = guard-eq-ok (ltb (max_entries - length cores) count) invalid _ e2 in
    let (low, high) = bounds in
    let (ordered, total) =
      count_of-eq-some low high count (ok_or-eq-ok (count_of bounds) invalid count counted) in
    let longer : length (cores ++ range_from low count) ≤ max_entries =
      fits cores low count h small in
    let r = expand-IsExpanded spec items (cores ++ range_from low count) out longer e3 in
    record {
      ranges = (low, high) ∷ r.ranges;
      are_ranges = (ok_or-eq-ok (bounds_of item) invalid bounds read, ordered, r.are_ranges);
      few = r.few;
      exact = λ cpu.
          r.exact cpu ∙ expand-one cores low high count cpu (any (in_range cpu) r.ranges) total;
    }
  where
    fits :
        (xs : List ℕ) (start n : ℕ)
        → length xs ≤ max_entries
        → ltb (max_entries - length xs) n ≡ false
        → length (xs ++ range_from start n) ≤ max_entries
    fits xs start n a b =
        ground (arith, length-append xs (range_from start n), length-range_from start n)

-- An accepted list of CPUs reads, between its commas, as numbers and ranges that are not reversed;
-- the CPUs are exactly those of the ranges, each once and in rising order.
pub parse_cpu_list_exact :
    (spec : Text) (cores : List ℕ)
    → parse_cpu_list spec ≡ ok cores
    → (ranges : List (ℕ × ℕ)) × AreRanges (split_on b',' spec) ranges
      × IsRising cores
      × ((cpu : ℕ) → contains cores cpu ≡ any (in_range cpu) ranges)
unfolding parse_cpu_list
parse_cpu_list_exact spec cores e =
    let (found, expanded, same) = >>=-eq-ok (expand spec (split_on b',' spec) []) _ e in
    let x = expand-IsExpanded spec (split_on b',' spec) [] found (omega arith) expanded in
    let sorted : sort_dedup found ≡ cores = ok-injective same in
    (
      x.ranges,
      x.are_ranges,
      subst IsRising sorted (sort_dedup-IsRising found),
      λ cpu. ap (λ l. contains l cpu) (sym sorted) ∙ contains-sort_dedup cpu found ∙ x.exact cpu,
    )
