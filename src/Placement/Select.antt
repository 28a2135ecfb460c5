-- ===== src/Placement/Select.antt =====
-- src/platform/placement.rs: the names of the policies, and the class that `CpuTopology::select` selects.
use zenbench.Prelude.{
  ℕ, zero, suc, ◌≤◌, ◌≡◌, ◌≢◌, refl, Bool, true, false, Option, none, some, List, [], ◌∷◌, ◌==◌,
  not, ◌||◌, keep, length, ok, max, min, get_elem?, All, arith, Bool-cases, Option-cases, inl, inr,
  subst, ap,
}
use zenbench.Placement.{
  CpuPolicy, CoreClass, CpuTopology, is_ranked, is_unknown, ranks, max_rank, min_rank, best_rank,
  has_rank, only_class, select_ranked, missing_in_process, select, parse_policy, policy_name,
}

-- A policy's name parses back to the policy.
pub parse_policy-policy_name : (p : CpuPolicy) → parse_policy (policy_name p) ≡ ok p
unfolding parse_policy policy_name
parse_policy-policy_name CpuPolicy.auto = refl
parse_policy-policy_name CpuPolicy.performance = refl
parse_policy-policy_name CpuPolicy.efficiency = refl
parse_policy-policy_name CpuPolicy.unrestricted = refl

module _ {ℓ} {A : Type ℓ} (p : A → Bool) where
  keep-none :
      (xs : List A) → keep p xs ≡ [] → (i : ℕ) (a : A) → get_elem? xs i ≡ some a → p a ≡ false
  keep-none [] e i a g = cc
  keep-none (x ∷ xs) e zero a g = ground arith
  keep-none (x ∷ xs) e (suc i) a g = keep-none xs (ground arith) i a g

  -- The place of the only element that is kept.
  pub record OnlyKept (xs : List A) (c : A) : Type ℓ where
    pub place : ℕ
    pub there : get_elem? xs place ≡ some c
    pub kept : p c ≡ true
    pub only : (i : ℕ) (a : A) → get_elem? xs i ≡ some a → p a ≡ true → i ≡ place

  pub keep-OnlyKept : (xs : List A) (c : A) → keep p xs ≡ c ∷ [] → OnlyKept xs c
  keep-OnlyKept [] c e = cc
  keep-OnlyKept (x ∷ xs) c e = elim (Bool-cases (p x)) [
    | inl here ↦
        let rest : keep p xs ≡ [] = ground arith in
        let same : x ≡ c = ground arith in
        record {
          place = 0;
          there = ap some same;
          kept = subst (λ a. p a ≡ true) same here;
          only = λ i a g h. first rest i a g h;
        }
    | inr skip ↦
        let o = keep-OnlyKept xs c (ground arith) in
        record {
          place = suc o.place;
          there = o.there;
          kept = o.kept;
          only = λ i a g h. later skip o i a g h;
        }
  ]
    where
      first : keep p xs ≡ [] → (i : ℕ) (a : A) → get_elem? (x ∷ xs) i ≡ some a → p a ≡ true → i ≡ 0
      first rest zero a g h = refl
      first rest (suc i) a g h = absurd (ground (arith, keep-none xs rest i a g))

      later :
          p x ≡ false
          → (o : OnlyKept xs c) (i : ℕ) (a : A) → get_elem? (x ∷ xs) i ≡ some a
          → p a ≡ true
          → i ≡ suc o.place
      later skip o zero a g h = absurd (ground arith)
      later skip o (suc i) a g h = ap suc (o.only i a g h)

length-ranks-le : (cs : List CoreClass) → length (ranks cs) ≤ length cs
length-ranks-le [] = omega arith
length-ranks-le (c ∷ cs) = ground (arith, length-ranks-le cs)

max_rank-ge : (r : ℕ) (rs : List ℕ) → (r ≤ max_rank r rs) × All (λ s. s ≤ max_rank r rs) rs
max_rank-ge r [] = (omega arith, tt)
max_rank-ge r (s ∷ ss) = let (a, b) = max_rank-ge (max r s) ss in (omega arith, (omega arith, b))

min_rank-le : (r : ℕ) (rs : List ℕ) → (min_rank r rs ≤ r) × All (λ s. min_rank r rs ≤ s) rs
min_rank-le r [] = (omega arith, tt)
min_rank-le r (s ∷ ss) = let (a, b) = min_rank-le (min r s) ss in (omega arith, (omega arith, b))

-- `r` is as good as `s` under the policy.
abbrev pub IsBest : CpuPolicy → ℕ → ℕ → Type 0
IsBest CpuPolicy.performance r s = s ≤ r
IsBest _ r s = r ≤ s

best_rank-IsBest :
    (policy : CpuPolicy) (r : ℕ) (rs : List ℕ)
    → IsBest policy (best_rank policy r rs) r × All (IsBest policy (best_rank policy r rs)) rs
best_rank-IsBest CpuPolicy.performance r rs = max_rank-ge r rs
best_rank-IsBest CpuPolicy.auto r rs = min_rank-le r rs
best_rank-IsBest CpuPolicy.efficiency r rs = min_rank-le r rs
best_rank-IsBest CpuPolicy.unrestricted r rs = min_rank-le r rs

-- The class with the rank `r` that the policy wants, the only one of its rank.
pub record IsSelected (policy : CpuPolicy) (classes : List CoreClass) (cpus : List ℕ) : Type 0 where
  pub rank : ℕ
  pub chosen : CoreClass
  pub place : ℕ
  pub there : get_elem? classes place ≡ some chosen
  pub ranked : chosen.performance_rank ≡ some rank
  pub its_cpus : cpus ≡ chosen.cpus
  pub some_cpu : cpus ≢ []
  pub best :
      (i : ℕ) (c : CoreClass)
      → get_elem? classes i ≡ some c
      → (s : ℕ) × (c.performance_rank ≡ some s) × IsBest policy rank s
  pub only :
      (i : ℕ) (c : CoreClass)
      → get_elem? classes i ≡ some c
      → c.performance_rank ≡ some rank
      → i ≡ place

-- With as many ranks as classes every class has a rank, and a bound on the ranks is one on them.
ranks-best :
    (P : ℕ → Type 0) (cs : List CoreClass)
    → length (ranks cs) ≡ length cs
    → All P (ranks cs)
    → (i : ℕ) (c : CoreClass) → get_elem? cs i ≡ some c
    → (s : ℕ) × (c.performance_rank ≡ some s) × P s
ranks-best P [] e h i c g = cc
ranks-best P (x ∷ cs) e h zero c g = elim (Option-cases x.performance_rank) [
  | inl unranked ↦ absurd (ground (arith, length-ranks-le cs))
  | inr (r, ranked) ↦
      let held : P r × All P (ranks cs) =
        subst (All P)
          (ap (λ (o : Option ℕ). elim o [ none ↦ ranks cs | some q ↦ q ∷ ranks cs ]) ranked) h in
      (r, ground arith, held.0)
]
ranks-best P (x ∷ cs) e h (suc i) c g = elim (Option-cases x.performance_rank) [
  | inl unranked ↦ absurd (ground (arith, length-ranks-le cs))
  | inr (r, ranked) ↦
      let held : P r × All P (ranks cs) =
        subst (All P)
          (ap (λ (o : Option ℕ). elim o [ none ↦ ranks cs | some q ↦ q ∷ ranks cs ]) ranked) h in
      ranks-best P cs (ground arith) held.1 i c g
]

-- What `only_class` accepts.
only_class-eq-ok :
    (cs : List CoreClass) (cpus : List ℕ)
    → only_class cs ≡ ok cpus
    → (c : CoreClass) × (cs ≡ c ∷ []) × (cpus ≡ c.cpus) × (cpus ≢ [])
unfolding only_class
only_class-eq-ok [] cpus e = cc
only_class-eq-ok (c ∷ d ∷ cs) cpus e = cc
only_class-eq-ok (c ∷ []) cpus e = (c, refl, ground arith, ground arith)

select_ranked-IsSelected :
    (policy : CpuPolicy) (classes : List CoreClass) (rs : List ℕ) (cpus : List ℕ)
    → rs ≡ ranks classes
    → select_ranked policy classes rs ≡ ok cpus
    → IsSelected policy classes cpus
unfolding select_ranked
select_ranked-IsSelected policy classes [] cpus same e = cc
select_ranked-IsSelected policy classes (r ∷ rs) cpus same e =
    elim (Bool-cases (length (r ∷ rs) == length classes)) [
      | inr short ↦ absurd (ground arith)
      | inl full ↦
          let rank = best_rank policy r rs in
          let (c, kept, cpus_eq, some_cpu) =
            only_class-eq-ok (keep (has_rank rank) classes) cpus (ground arith) in
          let o = keep-OnlyKept (has_rank rank) classes c kept in
          record {
            rank = rank;
            chosen = c;
            place = o.place;
            there = o.there;
            ranked = ground (arith, o.kept);
            its_cpus = cpus_eq;
            some_cpu = some_cpu;
            best =
                ranks-best (IsBest policy rank) classes
                  (ground (arith, ap (λ (l : List ℕ). length l) same))
                  (subst (All (IsBest policy rank)) same (best_rank-IsBest policy r rs));
            only = λ i a g h. o.only i a g (ground arith);
          }
    ]

-- A class is selected only on a known topology and for the performance or the efficiency policy.
-- Then every class has a rank, and the CPUs are those of the one class with the highest rank
-- (performance) or the lowest (efficiency), and are not empty.
pub select_sound :
    (t : CpuTopology) (policy : CpuPolicy) (cpus : List ℕ)
    → select t policy ≡ ok cpus
    → (is_unknown t.kind ≡ false) × (is_ranked policy ≡ true) × IsSelected policy t.classes cpus
unfolding select
select_sound t policy cpus e = elim (Bool-cases (is_unknown t.kind || not (is_ranked policy))) [
  | inl refused ↦ absurd (ground arith)
  | inr allowed ↦ elim (Bool-cases (missing_in_process policy t)) [
    | inl missing ↦ absurd (ground arith)
    | inr there ↦ (
      ground arith,
      ground arith,
      select_ranked-IsSelected policy t.classes (ranks t.classes) cpus refl (ground arith),
    )
  ]
]
