-- ===== src/Inference/Sampled.antt =====
-- src/inference.rs: the groups in which the tests of `issues` find nothing.
use zenbench.Prelude.{
  ℕ, suc, ◌-◌, ◌*◌, ◌++◌, ◌/◌, ◌≤◌, ◌≡◌, ◌≢◌, refl, subst, Bool, true, false, Option, none, some,
  List, [], ◌∷◌, length, map, any, all, All, not, ◌&&◌, ◌||◌, ltb, ◌==◌, ==_iff, list_eq, arith,
  inl, inr, Option-cases, if◌then◌else◌, &&-eq-true, ap, ◌∙◌, sym,
}
use zenbench.Prelude.Counts.{occurrences}
use zenbench.Prelude.Float.{Float}
use zenbench.Prelude.Text.{Text, listed}
use zenbench.Inference.{BenchmarkResult, ComparisonResult, GroupConfig, Issue, RoundSample}
use zenbench.Inference.Issues.{
  Flag, all_group_flags, configured_flags, distinct_pairs, expected_analyses, group_flags,
  has_fixed_rounds, has_inventory, is_clean_round, is_empty_list, is_paired_round, names, ordered,
}
use zenbench.Inference.Tested.{
  All-map, IsDistinctPairs, IsIn, all-of-any, distinct_pairs-IsDistinct, list_eq-ne, listed-IsIn,
  neither, of_not, ordered-IsDistinctPairs, sorted-once,
}

-- No flag is raised.
abbrev pub AllClear : List Flag → Type 0
AllClear flags = All (λ (flag : Flag). flag.0 ≡ false) flags

pub AllClear-append : (xs ys : List Flag) → AllClear (xs ++ ys) → AllClear xs × AllClear ys
AllClear-append [] ys h = (tt, h)
AllClear-append (x ∷ xs) ys (p, h) = let (a, b) = AllClear-append xs ys h in ((p, a), b)

-- A round that ran every benchmark once, each with a time.
pub record IsPaired (benchmarks : ℕ) (s : RoundSample) : Type 0 where
  pub iterated : s.iterations ≢ 0
  pub measured : length s.elapsed_ns ≡ benchmarks
  pub compensated : length s.compensated_ns ≡ benchmarks
  pub once : (x : ℕ) → occurrences x s.execution_order ≡ (if ltb x benchmarks then 1 else 0)

four_true :
    (a b c d : Bool) → (a && b && c && d) ≡ true → (a ≡ true) × (b ≡ true) × (c ≡ true) × (d ≡ true)
four_true a b c d h = ground arith

is_paired_round-IsPaired :
    (benchmarks : ℕ) (s : RoundSample) → is_paired_round benchmarks s ≡ true → IsPaired benchmarks s
unfolding is_paired_round
is_paired_round-IsPaired benchmarks s h =
    let (a, b, c, d) = four_true (not (s.iterations == 0)) _ _ _ h in
    record {
      iterated = λ e. ground (arith, a, e);
      measured = (==_iff _ _).0 b;
      compensated = (==_iff _ _).0 c;
      once = sorted-once s.execution_order benchmarks d;
    }

-- A round that the gate found clean, by an observation that is at most a second old.
abbrev pub IsClean : RoundSample → Type 0
IsClean s =
    (s.gate_clean ≡ some true)
    × ((age : ℕ) × (s.gate_observation_age_ns ≡ some age) × (age ≤ 1_000_000_000))

is_clean_round-IsClean : (s : RoundSample) → is_clean_round s ≡ true → IsClean s
is_clean_round-IsClean s h = elim (Option-cases s.gate_clean) [
  | inl e ↦ absurd (ground (arith, e, h))
  | inr (b, e) ↦ elim (Option-cases s.gate_observation_age_ns) [
    | inl g ↦ absurd (ground (arith, e, g, h))
    | inr (age, g) ↦ (ground (arith, e, g, h), (age, g, ground (arith, e, g, h)))
  ]
]

expected-is : (b : Bool) (n : ℕ) → expected_analyses b n ≡ (if b then n - 1 else (n * (n - 1)) / 2)
expected-is true n = refl
expected-is false n = refl

known_pairs :
    (ns : List Text) (ps : List (Text × Text))
    → all (λ (a, b). not (list_eq a b) && listed ns a && listed ns b) ps ≡ true
    → All (λ (a, b). (a ≢ b) × IsIn a ns × IsIn b ns) ps
known_pairs ns [] h = tt
known_pairs ns ((a, b) ∷ ps) h =
    let (here, rest) = &&-eq-true (not (list_eq a b) && listed ns a && listed ns b) _ h in
    let (first, second) = &&-eq-true _ _ here in
    let (differ, left) = &&-eq-true _ _ first in
    (
      (list_eq-ne a b (of_true _ differ), listed-IsIn ns a left, listed-IsIn ns b second),
      known_pairs ns ps rest,
    )
  where
    of_true : (x : Bool) → not x ≡ true → x ≡ false
    of_true x g = ground (arith, g)

three_true : (a b c : Bool) → (a && b && c) ≡ true → (a ≡ true) × (b ≡ true) × (c ≡ true)
three_true a b c h = ground arith

some_of : {A : Type 0} (xs : List A) → is_empty_list xs ≡ false → xs ≢ []
some_of [] h e = cc
some_of (x ∷ xs) h e = cc

length-map {ℓ κ} :
    {A : Type ℓ} {B : Type κ} (g : A → B) (xs : List A) → length (map g xs) ≡ length xs
length-map g [] = refl
length-map g (x ∷ xs) = ap suc (length-map g xs)

module _ {f : Float} where
  open f use {is_finite, fle, hundredths}

  -- A group that is measured completely, in all the rounds of a number fixed beforehand. It has as
  -- many comparisons as benchmarks less one, where only the baseline is compared, or as pairs of
  -- benchmarks; each is of two different benchmarks of it, and no two are of the same. Its means
  -- are finite and positive; every round is paired and clean.
  pub record IsSampled (g : ComparisonResult f) : Type 0 where
    pub config : GroupConfig
    pub configured : g.config ≡ some config
    pub fixed : config.auto_rounds ≡ false
    pub rounds : 2 ≤ config.max_rounds
    pub completed : g.completed_rounds ≡ config.max_rounds
    pub sampled : length g.samples ≡ config.max_rounds
    pub compared : length g.analyses ≡ (
        if g.baseline_only
        then length g.benchmarks - 1
        else (length g.benchmarks * (length g.benchmarks - 1)) / 2)
    pub distinct : IsDistinctPairs g.analyses
    pub known : All (λ (a, b). (a ≢ b) × IsIn a (names g) × IsIn b (names g)) g.analyses
    pub some_benchmark : g.benchmarks ≢ []
    pub positive :
        All
          (λ (b : BenchmarkResult f).
            (is_finite b.mean ≡ true) × (fle b.mean (hundredths 0) ≡ false))
          g.benchmarks
    pub paired : All (IsPaired (length g.benchmarks)) g.samples
    pub clean : All IsClean g.samples

  positive_means :
      (bs : List (BenchmarkResult f))
      → any (λ (b : BenchmarkResult f). not (is_finite b.mean) || fle b.mean (hundredths 0)) bs
        ≡ false
      → All
          (λ (b : BenchmarkResult f).
            (is_finite b.mean ≡ true) × (fle b.mean (hundredths 0) ≡ false))
          bs
  positive_means [] h = tt
  positive_means (b ∷ bs) h =
      let (here, rest) = neither (not (is_finite b.mean) || fle b.mean (hundredths 0)) _ h in
      let (finite, above) = neither _ _ here in ((of_not _ finite, above), positive_means bs rest)

  inventory_pairs :
      (g : ComparisonResult f)
      → has_inventory g ≡ true
      → (length g.analyses ≡ expected_analyses g.baseline_only (length g.benchmarks))
        × IsDistinctPairs g.analyses
        × All (λ (a, b). (a ≢ b) × IsIn a (names g) × IsIn b (names g)) g.analyses
  unfolding has_inventory
  inventory_pairs g h =
      let expected = expected_analyses g.baseline_only (length g.benchmarks) in
      let (distinct, count, known) =
        three_true (distinct_pairs (map ordered g.analyses) == expected) _ _ h in
      let counted = (==_iff _ _).0 count in
      (
        counted,
        ordered-IsDistinctPairs g.analyses (
            distinct_pairs-IsDistinct (map ordered g.analyses)
              ((==_iff _ _).0 distinct ∙ sym counted ∙ sym (length-map ordered g.analyses))),
        known_pairs (names g) g.analyses known,
      )

  fixed_rounds :
      (c : GroupConfig) (g : ComparisonResult f)
      → has_fixed_rounds c g ≡ true
      → (c.auto_rounds ≡ false)
        × (2 ≤ c.max_rounds)
        × (g.completed_rounds ≡ c.max_rounds)
        × (length g.samples ≡ c.max_rounds)
  unfolding has_fixed_rounds
  fixed_rounds c g h = ground arith

  group_flags-IsSampled : (g : ComparisonResult f) → AllClear (group_flags g) → IsSampled g
  unfolding group_flags
  group_flags-IsSampled g h = elim (Option-cases g.config) [
    | inl absent ↦ let (raised_here, _) = subst (λ o. AllClear (flags_of o)) absent h in cc
    | inr (c, e) ↦
        let (a, (b, (d, (p, (q, _))))) = subst (λ o. AllClear (flags_of o)) e h in
        let (count, distinct, known) = inventory_pairs g (of_not _ a) in
        let (auto, many, all_rounds, all_samples) = fixed_rounds c g (of_not _ b) in
        let (filled, quiet) = neither _ _ q in
        record {
          config = c;
          configured = e;
          fixed = auto;
          rounds = many;
          completed = all_rounds;
          sampled = all_samples;
          compared = count ∙ expected-is g.baseline_only (length g.benchmarks);
          distinct = distinct;
          known = known;
          some_benchmark = some_of g.benchmarks filled;
          positive = positive_means g.benchmarks d;
          paired =
              All-map (is_paired_round-IsPaired (length g.benchmarks)) g.samples
                (all-of-any _ g.samples p);
          clean = All-map is_clean_round-IsClean g.samples (all-of-any _ g.samples quiet);
        }
  ]
    where
      flags_of : Option GroupConfig → List Flag
      flags_of o = elim o [ none ↦ (true, Issue.no_sampling) ∷ [] | some c ↦ configured_flags c g ]

  pub all_group_flags-IsSampled :
      (gs : List (ComparisonResult f)) → AllClear (all_group_flags gs) → All IsSampled gs
  all_group_flags-IsSampled [] h = tt
  all_group_flags-IsSampled (g ∷ gs) h =
      let (here, rest) = AllClear-append (group_flags g) _ h in
      (group_flags-IsSampled g here, all_group_flags-IsSampled gs rest)
