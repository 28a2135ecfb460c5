-- ===== src/Affinity/Tests.antt =====
-- Tests of the list of CPUs, and the witness of its theorem.
use zenbench.Prelude.{ℕ, ◌≡◌, refl, List, [], ◌∷◌, any, contains, ok, err}
use zenbench.Prelude.Sort.{sort_dedup, IsRising}
use zenbench.Prelude.Text.{codes, split_on}
use zenbench.Affinity.{AffinityError, bounds_of, expand, parse_cpu_list}
use zenbench.Affinity.Listed.{AreRanges, in_range, parse_cpu_list_exact}

parses : parse_cpu_list (codes "4, 0-2,1") ≡ ok (0 ∷ 1 ∷ 2 ∷ 4 ∷ [])
unfolding parse_cpu_list expand bounds_of sort_dedup
parses = refl

refuses_reversed :
    parse_cpu_list (codes "3-1") ≡ err (AffinityError.invalid_specification (codes "3-1"))
unfolding parse_cpu_list expand bounds_of
refuses_reversed = refl

refuses_many :
    parse_cpu_list (codes "0-1024") ≡ err (AffinityError.invalid_specification (codes "0-1024"))
unfolding parse_cpu_list expand bounds_of
refuses_many = refl

parse_cpu_list_exact_example :
    (ranges : List (ℕ × ℕ)) × AreRanges (split_on b',' (codes "4, 0-2,1")) ranges
    × IsRising (0 ∷ 1 ∷ 2 ∷ 4 ∷ [])
    × ((cpu : ℕ) → contains (0 ∷ 1 ∷ 2 ∷ 4 ∷ []) cpu ≡ any (in_range cpu) ranges)
parse_cpu_list_exact_example = parse_cpu_list_exact (codes "4, 0-2,1") (0 ∷ 1 ∷ 2 ∷ 4 ∷ []) parses
