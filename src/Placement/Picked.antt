-- ===== src/Placement/Picked.antt =====
-- src/platform/windows_topology.rs: the entry of a processor among the caches that were read.
use zenbench.Prelude.{
  ℕ, zero, suc, ◌≤◌, ◌≡◌, refl, sym, ◌∙◌, ap, subst, Bool, true, none, some, List, [], ◌∷◌, map,
  keep, get_elem?, ◌&&◌, ◌||◌, ◌==◌, ==_iff, max, arith, contains, ok, >>=-eq-ok, ok-injective,
  ok_or, ok_or-eq-ok, inl, inr, Bool-cases, Option-cases, if-true, if-false, &&-eq-true, ◌↔◌,
}
use zenbench.Prelude.Sort.{IsRising, contains-sort_dedup, sort_dedup-IsRising}
use zenbench.Prelude.Bits.{bit}
use zenbench.Placement.Windows.{Cache, DecodeError, Entry, entry_of, levels, max_of}

-- A cache of the list.
abbrev pub IsAmong : Cache → List Cache → Type 0
IsAmong c caches = (i : ℕ) × (get_elem? caches i ≡ some c)

-- A number that some cache which passes a test has.
abbrev pub IsPicked : (Cache → ℕ) → (Cache → Bool) → List Cache → ℕ → Type 0
IsPicked g p caches n = (c : Cache) × IsAmong c caches × (p c ≡ true) × (g c ≡ n)

module _ (g : Cache → ℕ) (p : Cache → Bool) where
  kept-IsPicked :
      (caches : List Cache) (n : ℕ)
      → contains (map g (keep p caches)) n ≡ true
      → IsPicked g p caches n
  kept-IsPicked [] n h = cc
  kept-IsPicked (c ∷ cs) n h = elim (Bool-cases (p c)) [
    | inl passes ↦
        let h1 = sym (ap (λ l. contains (map g l) n) (if-true _ _ passes)) ∙ h in
        elim (Bool-cases (g c == n)) [
          | inl here ↦ (c, (0, refl), passes, (==_iff _ _).0 here)
          | inr other ↦ later (kept-IsPicked cs n (ground (arith, other, h1)))
        ]
    | inr fails ↦
        later (kept-IsPicked cs n (sym (ap (λ l. contains (map g l) n) (if-false _ _ fails)) ∙ h))
  ]
    where
      later : IsPicked g p cs n → IsPicked g p (c ∷ cs) n
      later (d, (i, there), q, e) = (d, (suc i, there), q, e)

  picked-kept :
      (caches : List Cache) (c : Cache) (i : ℕ)
      → get_elem? caches i ≡ some c
      → p c ≡ true
      → contains (map g (keep p caches)) (g c) ≡ true
  picked-kept [] c i e h = cc
  picked-kept (d ∷ cs) c zero e h =
      let same : d ≡ c = cc in
      let passes : p d ≡ true = ap p same ∙ h in
      ap (λ l. contains (map g l) (g c)) (if-true (d ∷ keep p cs) (keep p cs) passes)
      ∙ first _ (contains (map g (keep p cs)) (g c)) ((==_iff (g d) (g c)).1 (ap g same))
    where
      first : (a b : Bool) → a ≡ true → (a || b) ≡ true
      first a b x = ground (arith, x)
  picked-kept (d ∷ cs) c (suc i) e h = elim (Bool-cases (p d)) [
    | inl passes ↦
        ap (λ l. contains (map g l) (g c)) (if-true (d ∷ keep p cs) (keep p cs) passes)
        ∙ second (g d == g c) _ (picked-kept cs c i e h)
    | inr fails ↦
        ap (λ l. contains (map g l) (g c)) (if-false (d ∷ keep p cs) (keep p cs) fails)
        ∙ picked-kept cs c i e h
  ]
    where
      second : (a b : Bool) → b ≡ true → (a || b) ≡ true
      second a b x = ground (arith, x)

-- The maximum is in the list, and none is above it.
max_of-bounds :
    (ns : List ℕ) (k : ℕ)
    → max_of ns ≡ some k
    → (contains ns k ≡ true) × ((n : ℕ) → contains ns n ≡ true → n ≤ k)
max_of-bounds [] k h = cc
max_of-bounds (m ∷ ns) k h = elim (Option-cases (max_of ns)) [
  | inl alone ↦
      let same : m ≡ k = ground (arith, alone, h) in
      (
        ground (arith, same),
        λ n c. elim (Bool-cases (m == n)) [
          | inl e ↦ ground (arith, e, same)
          | inr o ↦ absurd (empty ns alone n (ground (arith, o, c)))
        ],
      )
  | inr (j, e) ↦
      let (there, above) = max_of-bounds ns j e in
      let top : max m j ≡ k = ground (arith, e, h) in
      (
        highest j there top,
        λ n c. elim (Bool-cases (m == n)) [
          | inl x ↦ first_le j n x top
          | inr o ↦ rest_le j n (above n (ground (arith, o, c))) top
        ],
      )
]
  where
    empty : (l : List ℕ) → max_of l ≡ none → (n : ℕ) → contains l n ≡ true → ⊥
    empty [] a n c = ground (arith, c)
    empty (x ∷ xs) a n c = elim (Option-cases (max_of xs)) [
      | inl y ↦ ground (arith, y, a)
      | inr (z, y) ↦ ground (arith, y, a)
    ]

    highest : (j : ℕ) → contains ns j ≡ true → max m j ≡ k → (m == k || contains ns k) ≡ true
    highest j there top = elim (Bool-cases (m == k)) [
      | inl x ↦ ground (arith, x)
      | inr x ↦
          let same : j ≡ k = ground (arith, x, top) in
          ground (arith, x, ap (contains ns) same, there)
    ]

    first_le : (j n : ℕ) → (m == n) ≡ true → max m j ≡ k → n ≤ k
    first_le j n x top = let y = (==_iff m n).0 x in omega (arith, y, top)

    rest_le : (j n : ℕ) → n ≤ j → max m j ≡ k → n ≤ k
    rest_le j n x top = omega (arith, x, top)

-- An entry of a core: its processor and rank, its last level, which is the highest of a cache of
-- the processor, and exactly the sizes of the processor's caches of that level, each once.
pub record IsEntry (caches : List Cache) (core : ℕ × ℕ) (entry : Entry) : Type 0 where
  pub cpu : entry.cpu ≡ core.0
  pub rank : entry.rank ≡ core.1
  pub last :
      (c : Cache) × IsAmong c caches × (bit c.cpus entry.cpu ≡ true) × (c.level ≡ entry.last_level)
  pub highest :
      (c : Cache) → IsAmong c caches → bit c.cpus entry.cpu ≡ true → c.level ≤ entry.last_level
  pub rising : IsRising entry.sizes
  pub exact :
      (n : ℕ)
      → (contains entry.sizes n ≡ true) ↔ (
          (c : Cache) × IsAmong c caches
          × (bit c.cpus entry.cpu ≡ true)
          × (c.level ≡ entry.last_level)
          × (c.size ≡ n))

pub entry_of-IsEntry :
    (caches : List Cache) (core : ℕ × ℕ) (entry : Entry)
    → entry_of caches core ≡ ok entry
    → IsEntry caches core entry
unfolding entry_of
entry_of-IsEntry caches (cpu, rank) entry h =
    let on_cpu = λ (c : Cache). bit c.cpus cpu in
    let (last, e1, e) =
      >>=-eq-ok (ok_or (max_of (levels (keep on_cpu caches))) DecodeError.no_cache) _ h in
    let of_last = λ (c : Cache). bit c.cpus cpu && c.level == last in
    let size = λ (c : Cache). c.size in
    let level = λ (c : Cache). c.level in
    let (there, above) =
      max_of-bounds (levels (keep on_cpu caches)) last (ok_or-eq-ok _ _ last e1) in
    subst (IsEntry caches (cpu, rank)) (ok-injective e) (record {
      cpu = refl;
      rank = refl;
      last = kept-IsPicked level on_cpu caches last there;
      highest = λ c (i, e2) b. above c.level (picked-kept level on_cpu caches c i e2 b);
      rising = sort_dedup-IsRising (map size (keep of_last caches));
      exact = λ n. (
        λ inside.
            let (c, among, both, s) =
              kept-IsPicked size of_last caches n
                (sym (contains-sort_dedup n (map size (keep of_last caches))) ∙ inside) in
            let (b, l) = &&-eq-true (bit c.cpus cpu) _ both in (c, among, b, (==_iff _ _).0 l, s),
        λ (c, (i, e2), b, l, s).
            contains-sort_dedup n (map size (keep of_last caches))
            ∙ subst (λ k. contains (map size (keep of_last caches)) k ≡ true) s
                (picked-kept size of_last caches c i e2 (both_true _ _ b ((==_iff _ _).1 l))),
      );
    })
  where
    both_true : (a b : Bool) → a ≡ true → b ≡ true → (a && b) ≡ true
    both_true a b x y = ground (arith, x, y)
