-- ===== src/Affinity.antt =====
-- src/platform/affinity.rs: `parse_cpu_list`, the list of CPUs that `ZENBENCH_PIN` and the command
-- line name. Machine words are 64 bits wide. Pinning itself is the system's.
pub mod Listed
mod Tests
use zenbench.Prelude.{
  ℕ, zero, suc, ◌+◌, ◌-◌, Bool, true, false, Option, none, some, List, [], ◌∷◌, ◌++◌, if◌then◌else◌,
  ltb, not, ◌||◌, all, length, range_from, Result, ok, err, ◌>>=◌, ◌>>◌, fail_if, ok_or,
}
use zenbench.Prelude.Word.{checked_add, checked_sub}
use zenbench.Prelude.Sort.{sort_dedup}
use zenbench.Prelude.Text.{Text, trim, is_empty, is_digit, parse_usize, split_once, split_on}

pub data AffinityError : Type 0 where
  invalid_specification : Text → AffinityError

-- `MAX_ENTRIES`
abbrev pub max_entries : ℕ
max_entries = 1_024

-- the `parse` of the closure `number`
abbrev pub digits : Text → Option ℕ
digits text = if is_empty text || not (all is_digit text) then none else parse_usize text

-- the closure `number`
abbrev pub number : Text → Option ℕ
number text = digits (trim text)

-- the bounds of one item
abbrev pub both : Option ℕ → Option ℕ → Option (ℕ × ℕ)
both none high = none
both (some low) none = none
both (some low) (some high) = some (low, high)

unfoldable pub bounds_of : Text → Option (ℕ × ℕ)
bounds_of item = elim (split_once b'-' item) [
  | some (low, high) ↦ both (number low) (number high)
  | none ↦ both (number item) (number item)
]

-- `end.checked_sub(start).and_then(|n| n.checked_add(1))`
abbrev pub count_of : ℕ × ℕ → Option ℕ
count_of (start, end) = elim (checked_sub end start) [ none ↦ none | some n ↦ checked_add n 1 ]

-- the loop of `parse_cpu_list`
unfoldable pub expand : Text → List Text → List ℕ → Result AffinityError (List ℕ)
unfolding bounds_of
expand spec [] cores = ok cores
expand spec (item ∷ items) cores = do
  bounds ← ok_or (bounds_of item) (AffinityError.invalid_specification spec)
  count ← ok_or (count_of bounds) (AffinityError.invalid_specification spec)
  fail_if (ltb (max_entries - length cores) count) (AffinityError.invalid_specification spec)
  expand spec items (cores ++ range_from bounds.0 count)

-- `parse_cpu_list`
unfoldable pub parse_cpu_list : Text → Result AffinityError (List ℕ)
unfolding expand sort_dedup
parse_cpu_list spec = do cores ← expand spec (split_on b',' spec) []; ok (sort_dedup cores)
