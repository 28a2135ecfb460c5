-- ===== src/Placement/Classes.antt =====
-- src/platform/placement.rs: `group_classes`, which groups classified CPUs by their name and rank.
use zenbench.Prelude.{
  ℕ, ◌≡◌, refl, Bool, true, false, Option, none, some, List, [], ◌∷◌, ◌++◌, map, ◌==◌, ltb, ◌&&◌,
  ◌||◌, if◌then◌else◌, contains, length, any, All, arith, ◌∙◌, ap, Bool-cases, inl, inr,
}
use Prim.Native.String.{String}
use text.Mathlib.Text.{◌==◌ as str_eq}
use text.Mathlib.TextEquality.{eq_iff}
use zenbench.Prelude.Text.{codes, text_lt}
use zenbench.Prelude.Sort.{sort_dedup, contains-sort_dedup, sort_dedup-IsRising, IsRising}
use zenbench.Placement.{TopologyKind, CoreClass, CpuTopology}

abbrev pub Key : Type 0
Key = String × Option ℕ

abbrev pub rank_eq : Option ℕ → Option ℕ → Bool
rank_eq none none = true
rank_eq none (some s) = false
rank_eq (some r) none = false
rank_eq (some r) (some s) = r == s

abbrev pub rank_lt : Option ℕ → Option ℕ → Bool
rank_lt r none = false
rank_lt none (some s) = true
rank_lt (some r) (some s) = ltb r s

abbrev pub key_eq : Key → Key → Bool
key_eq (n, r) (m, s) = str_eq n m && rank_eq r s

abbrev pub key_lt : Key → Key → Bool
key_lt (n, r) (m, s) = text_lt (codes n) (codes m) || (str_eq n m && rank_lt r s)

-- `map.entry(key).or_default().push(cpu)` on a tree that is kept in the order of its keys
unfoldable pub push_entry : Key → ℕ → List (Key × List ℕ) → List (Key × List ℕ)
push_entry k cpu [] = (k, cpu ∷ []) ∷ []
push_entry k cpu ((j, cpus) ∷ m) =
    if key_eq j k
    then (j, cpus ++ (cpu ∷ [])) ∷ m
    else if key_lt k j
    then (k, cpu ∷ []) ∷ (j, cpus) ∷ m
    else (j, cpus) ∷ push_entry k cpu m

abbrev pub Entry : Type 0
Entry = ℕ × String × Option ℕ

unfoldable pub push_entries : List Entry → List (Key × List ℕ) → List (Key × List ℕ)
unfolding push_entry
push_entries [] m = m
push_entries ((cpu, name, rank) ∷ es) m = push_entries es (push_entry (name, rank) cpu m)

-- one class of the result
abbrev pub class_of : Key × List ℕ → CoreClass
class_of ((name, rank), cpus) =
    let sorted = sort_dedup cpus in
    record {
      name = name;
      cpus = sorted;
      logical_cpu_count = length sorted;
      performance_rank = rank;
    }

abbrev pub kind_of : Bool → List CoreClass → TopologyKind
kind_of true classes = TopologyKind.unknown
kind_of false [] = TopologyKind.unknown
kind_of false (c ∷ []) = TopologyKind.homogeneous
kind_of false (c ∷ d ∷ cs) = TopologyKind.asymmetric

-- `group_classes`
unfoldable pub group_classes : List Entry → String → Bool → CpuTopology
unfolding push_entries sort_dedup
group_classes entries source incomplete =
    let classes = map class_of (push_entries entries []) in
    record {
      kind = kind_of incomplete classes;
      classes = classes;
      source = source;
      diagnostic = if incomplete then some "some online CPUs could not be classified" else none;
    }

-- The CPU has this name and rank: among the entries, in the tree, in the classes.
abbrev pub in_entries : Key → ℕ → List Entry → Bool
in_entries k cpu = any (λ (c, name, rank). key_eq (name, rank) k && c == cpu)

abbrev in_tree : Key → ℕ → List (Key × List ℕ) → Bool
in_tree k cpu = any (λ (j, cpus). key_eq j k && contains cpus cpu)

abbrev pub in_classes : Key → ℕ → List CoreClass → Bool
in_classes k cpu = any (λ c. key_eq (c.name, c.performance_rank) k && contains c.cpus cpu)

rank_eq→eq : (r s : Option ℕ) → rank_eq r s ≡ true → r ≡ s
rank_eq→eq none none h = refl
rank_eq→eq none (some s) h = cc
rank_eq→eq (some r) none h = cc
rank_eq→eq (some r) (some s) h = ground arith

key_eq→eq : (j k : Key) → key_eq j k ≡ true → j ≡ k
key_eq→eq (n, r) (m, s) h = ground (arith, eq_iff n m, rank_eq→eq r s)

contains-append : (xs : List ℕ) (a b : ℕ) → contains (xs ++ (a ∷ [])) b ≡ (contains xs b || a == b)
contains-append [] a b = ground arith
contains-append (x ∷ xs) a b = ground (arith, contains-append xs a b)

in_tree-push_entry :
    (k j : Key) (a cpu : ℕ) (m : List (Key × List ℕ))
    → in_tree k a (push_entry j cpu m) ≡ (in_tree k a m || (key_eq j k && cpu == a))
unfolding push_entry
in_tree-push_entry k j a cpu [] = ground arith
in_tree-push_entry k j a cpu ((i, cpus) ∷ m) = elim (Bool-cases (key_eq i j)) [
  | inl same ↦
      let e : key_eq i k ≡ key_eq j k = ap (λ h. key_eq h k) (key_eq→eq i j same) in
      ground (arith, contains-append cpus cpu a)
  | inr other ↦ ground (arith, in_tree-push_entry k j a cpu m)
]

in_tree-push_entries :
    (k : Key) (a : ℕ) (es : List Entry) (m : List (Key × List ℕ))
    → in_tree k a (push_entries es m) ≡ (in_tree k a m || in_entries k a es)
unfolding push_entries
in_tree-push_entries k a [] m = ground arith
in_tree-push_entries k a ((cpu, name, rank) ∷ es) m = ground (
  arith,
  in_tree-push_entries k a es (push_entry (name, rank) cpu m),
  in_tree-push_entry k (name, rank) a cpu m,
)

in_classes-map :
    (k : Key) (a : ℕ) (m : List (Key × List ℕ)) → in_classes k a (map class_of m) ≡ in_tree k a m
in_classes-map k a [] = refl
in_classes-map k a (((n, r), cpus) ∷ m) =
    ground (arith, contains-sort_dedup a cpus, in_classes-map k a m)

abbrev pub IsTidy : CoreClass → Type 0
IsTidy c = IsRising c.cpus × (c.logical_cpu_count ≡ length c.cpus)

classes-IsTidy : (m : List (Key × List ℕ)) → All IsTidy (map class_of m)
classes-IsTidy [] = tt
classes-IsTidy (((n, r), cpus) ∷ m) = ((sort_dedup-IsRising cpus, refl), classes-IsTidy m)

-- A CPU is in a class with a name and a rank exactly if it was classified so; the CPUs of every
-- class rise, each once, and are counted; and the topology is known only if no CPU was left out.
pub group_classes_exact :
    (entries : List Entry) (source : String) (incomplete : Bool)
    → let t = group_classes entries source incomplete in
      ((k : Key) (cpu : ℕ) → in_classes k cpu t.classes ≡ in_entries k cpu entries)
      × All IsTidy t.classes
      × (incomplete ≡ true → t.kind ≡ TopologyKind.unknown)
unfolding group_classes
group_classes_exact entries source incomplete = (
  λ k cpu. in_classes-map k cpu (push_entries entries []) ∙ in_tree-push_entries k cpu entries [],
  classes-IsTidy (push_entries entries []),
  λ h. rw h,
)
