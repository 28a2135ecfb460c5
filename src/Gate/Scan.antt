-- ===== src/Gate/Scan.antt =====
-- src/gate.rs: which processes count as a rival benchmark, in one scan of the process table.
-- `lower` is the standard library's `to_lowercase`. The task ids that
-- `wait_for_no_benchmarks` excludes come with the process table.
use zenbench.Prelude.{
  ℕ, ◌≡◌, refl, Bool, true, false, Option, List, [], ◌∷◌, ◌++◌, if◌then◌else◌, ◌==◌, contains, ◌||◌,
  ◌&&◌, not, length, any, keep,
}
use zenbench.Prelude.Text.{Text, codes, has}
use zenbench.Gate.Ancestors.{collect_ancestors_with}

-- `BENCH_NAME_PATTERNS`
abbrev pub bench_name_patterns : List Text
bench_name_patterns =
    codes "criterion" ∷ codes "divan" ∷ codes "zenbench" ∷ codes "cargo-bench" ∷ codes "bench-" ∷ []

abbrev is_separator : ℕ → Bool
is_separator c = c == b'/' || c == 0x5c

-- `s.rsplit(['/', '\\']).next()`: what follows the last separator, or all of the text
unfoldable pub basename : Text → Text
basename [] = []
basename (c ∷ cs) = if any is_separator (c ∷ cs) then basename cs else c ∷ cs

-- What the scan reads of a process.
pub record Process : Type 0 where
  pub pid : ℕ
  pub name : Text
  pub cmd : List Text

module _ (lower : Text → Text) where
  -- `basename_lower`
  unfoldable pub basename_lower : Text → Text
  unfolding basename
  basename_lower s = lower (basename s)

  abbrev matches : Text → Bool
  matches text = any (λ pattern. has text pattern) bench_name_patterns

  -- `process_is_benchmark`
  unfoldable pub process_is_benchmark : Process → Bool
  unfolding basename_lower
  process_is_benchmark p =
      if matches (lower p.name)
      then true
      else elim p.cmd [ [] ↦ false | argv0 ∷ args ↦ matches (basename_lower argv0) ]

  -- One scan of `wait_for_no_benchmarks`: the processes that count. `excluded` is this process and
  -- the launchers', `queued` the queued owners with their tasks, `tasks` this process's tasks.
  unfoldable pub rivals :
      (our_pid : Option ℕ) (excluded queued tasks : List ℕ) (parent_of : ℕ → Option ℕ)
      → List Process
      → List Process
  unfolding process_is_benchmark
  rivals our_pid excluded queued tasks parent_of =
      let scan_excluded = collect_ancestors_with our_pid (excluded ++ queued) parent_of ++ tasks in
      keep (λ p. not (contains scan_excluded p.pid) && process_is_benchmark p)

  unfoldable pub bench_count :
      (our_pid : Option ℕ) (excluded queued tasks : List ℕ) (parent_of : ℕ → Option ℕ)
      → List Process
      → ℕ
  unfolding rivals
  bench_count our_pid excluded queued tasks parent_of ps =
      length (rivals our_pid excluded queued tasks parent_of ps)

  -- The arguments after `argv[0]` do not matter.
  pub process_is_benchmark-args :
      (p : Process) (argv0 : Text) (args args' : List Text)
      → process_is_benchmark (record p { cmd = argv0 ∷ args })
        ≡ process_is_benchmark (record p { cmd = argv0 ∷ args' })
  unfolding process_is_benchmark
  process_is_benchmark-args p argv0 args args' = refl
