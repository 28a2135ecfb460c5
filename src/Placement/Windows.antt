-- ===== src/Placement/Windows.antt =====
-- src/platform/windows_topology.rs: `decode`, which reads the records of the processors and caches
-- that Windows reports. The name of a class, a text made of rank, level and sizes, is these three.
use zenbench.Prelude.{
  ℕ, zero, suc, ◌+◌, ◌*◌, Bool, true, false, Option, none, some, List, [], ◌∷◌, ◌++◌, length, map,
  any, keep, if◌then◌else◌, not, ◌&&◌, ◌||◌, ltb, leb, ◌==◌, max, range_from, Result, ok, err,
  ◌>>=◌, ◌>>◌, fail_if, ok_or,
}
use zenbench.Prelude.Sort.{sort_dedup}
use zenbench.Prelude.Bits.{bit, count_ones, one_bit, or_bits, and_not}

pub data DecodeError : Type 0 where
  truncated bad_size bad_core_group no_group duplicate_processor : DecodeError
  bad_cache_group bad_cache bad_processor_group bad_mask : DecodeError
  no_processor_group inconsistent no_cache : DecodeError

abbrev pub drop : ℕ → List ℕ → List ℕ
drop zero bs = bs
drop (suc n) [] = []
drop (suc n) (b ∷ bs) = drop n bs

abbrev pub take : ℕ → List ℕ → List ℕ
take zero bs = []
take (suc n) [] = []
take (suc n) (b ∷ bs) = b ∷ take n bs

-- `from_le_bytes`
abbrev pub from_le : List ℕ → ℕ
from_le [] = 0
from_le (b ∷ bs) = b + 256 * from_le bs

-- `bytes::<N>` and the number that the bytes make
unfoldable pub read : ℕ → List ℕ → ℕ → Result DecodeError ℕ
read n buffer offset =
    if leb (offset + n) (length buffer)
    then ok (from_le (take n (drop offset buffer)))
    else err DecodeError.truncated

-- `mask`
unfoldable pub mask : List ℕ → ℕ → Result DecodeError ℕ
unfolding read
mask buffer offset = do
  value ← read 8 buffer offset
  group ← read 2 buffer (offset + 8)
  fail_if (not (group == 0) || value == 0) DecodeError.no_group
  ok value

-- a cache: its processors, its level and its size
pub record Cache : Type 0 where
  pub cpus : ℕ
  pub level : ℕ
  pub size : ℕ

-- what the loop has read: the processors with their ranks in rising order, the caches and the
-- processors of the group
pub record Inventory : Type 0 where
  pub cores : List (ℕ × ℕ)
  pub caches : List Cache
  pub active : Option ℕ

-- `cores.insert(cpu, rank)` of a processor that is new
unfoldable pub insert_core : ℕ → ℕ → List (ℕ × ℕ) → Result DecodeError (List (ℕ × ℕ))
insert_core cpu rank [] = ok ((cpu, rank) ∷ [])
insert_core cpu rank ((c, r) ∷ cores) =
    let rest = insert_core cpu rank cores in
    if ltb cpu c
    then ok ((cpu, rank) ∷ (c, r) ∷ cores)
    else if cpu == c
    then err DecodeError.duplicate_processor
    else rest >>= λ more. ok ((c, r) ∷ more)

-- the body of the loop over the processors of a core
unfoldable pub insert_if : Bool → ℕ → ℕ → List (ℕ × ℕ) → Result DecodeError (List (ℕ × ℕ))
unfolding insert_core
insert_if true cpu rank cores = insert_core cpu rank cores
insert_if false cpu rank cores = ok cores

-- the loop over the processors of a core
unfoldable pub insert_cores : ℕ → ℕ → List ℕ → List (ℕ × ℕ) → Result DecodeError (List (ℕ × ℕ))
unfolding insert_if
insert_cores cpus rank [] cores = ok cores
insert_cores cpus rank (cpu ∷ rest) cores = do
  more ← insert_if (bit cpus cpu) cpu rank cores
  insert_cores cpus rank rest more

-- the record of a core
unfoldable pub core_record : List ℕ → Inventory → Result DecodeError Inventory
unfolding mask insert_cores
core_record record_ i = do
  groups ← read 2 record_ 30
  fail_if (not (groups == 1)) DecodeError.bad_core_group
  cpus ← mask record_ 32
  rank ← read 1 record_ 9
  cores ← insert_cores cpus rank (range_from 0 64) i.cores
  ok (record i { cores = cores })

-- the record of a cache; a data or a unified one is kept
unfoldable pub cache_record : List ℕ → Inventory → Result DecodeError Inventory
unfolding mask
cache_record record_ i = do
  groups ← read 2 record_ 38
  fail_if (ltb 1 groups) DecodeError.bad_cache_group
  cpus ← mask record_ 40
  level ← read 1 record_ 8
  size ← read 4 record_ 12
  kind ← read 4 record_ 16
  fail_if (level == 0 || size == 0 || ltb 3 kind) DecodeError.bad_cache
  if kind == 0 || kind == 2
      then ok (record i {
        caches = i.caches ++ record { cpus = cpus; level = level; size = size } ∷ [];
      })
      else ok i

abbrev pub is_known {ℓ} : {A : Type ℓ} → Option A → Bool
is_known none = false
is_known (some a) = true

-- The record of the processor group. Where the mask is read, the count before it is there too, so
-- that it may be read first.
unfoldable pub group_record : List ℕ → Inventory → Result DecodeError Inventory
unfolding read
group_record record_ i = do
  fail_if (is_known i.active) DecodeError.bad_processor_group
  groups ← read 2 record_ 10
  fail_if (not (groups == 1)) DecodeError.bad_processor_group
  cpus ← read 8 record_ 72
  count ← read 1 record_ 33
  fail_if (cpus == 0 || not (count_ones 64 cpus == count)) DecodeError.bad_mask
  ok (record i { active = some cpus })

-- the `match` on the relation of a record
unfoldable pub read_record : ℕ → List ℕ → Inventory → Result DecodeError Inventory
unfolding core_record cache_record group_record
read_record relation record_ i =
    if relation == 0
    then core_record record_ i
    else if relation == 2
    then cache_record record_ i
    else if relation == 4
    then group_record record_ i
    else ok i

-- The loop over the records; a record has eight bytes or more, so that a fuel of the number of
-- bytes is not used up before them.
unfoldable pub read_records : ℕ → List ℕ → Inventory → Result DecodeError Inventory
unfolding read_record
read_records fuel [] i = ok i
read_records zero (b ∷ bs) i = err DecodeError.bad_size
read_records (suc fuel) (b ∷ bs) i = do
  relation ← read 4 (b ∷ bs) 0
  size ← read 4 (b ∷ bs) 4
  fail_if (ltb size 8 || ltb (length (b ∷ bs)) size) DecodeError.bad_size
  more ← read_record relation (take size (b ∷ bs)) i
  read_records fuel (drop size (b ∷ bs)) more

-- `cores.keys().fold(0u64, |mask, cpu| mask | (1u64 << cpu))`
abbrev pub seen_mask : ℕ → List (ℕ × ℕ) → ℕ
seen_mask seen [] = seen
seen_mask seen ((cpu, rank) ∷ cores) = seen_mask (or_bits 64 seen (one_bit cpu)) cores

-- an entry: the processor, its rank, and level and sizes of the last caches
pub record Entry : Type 0 where
  pub cpu : ℕ
  pub rank : ℕ
  pub last_level : ℕ
  pub sizes : List ℕ

abbrev pub levels : List Cache → List ℕ
levels cs = map (λ (c : Cache). c.level) cs

abbrev pub max_of : List ℕ → Option ℕ
max_of [] = none
max_of (n ∷ ns) = elim (max_of ns) [ none ↦ some n | some k ↦ some (max n k) ]

-- the closure on a processor
unfoldable pub entry_of : List Cache → ℕ × ℕ → Result DecodeError Entry
unfolding sort_dedup
entry_of caches (cpu, rank) = do
  last ← ok_or (max_of (levels (keep (λ (c : Cache). bit c.cpus cpu) caches))) DecodeError.no_cache
  ok (record {
    cpu = cpu;
    rank = rank;
    last_level = last;
    sizes = sort_dedup (
        map (λ (c : Cache). c.size)
          (keep (λ (c : Cache). bit c.cpus cpu && c.level == last) caches));
  })

unfoldable pub entries_of : List Cache → List (ℕ × ℕ) → Result DecodeError (List Entry)
unfolding entry_of
entries_of caches [] = ok []
entries_of caches (core ∷ cores) = do
  entry ← entry_of caches core
  rest ← entries_of caches cores
  ok (entry ∷ rest)

-- `decode`, after the loop
unfoldable pub inventory_entries : Inventory → Result DecodeError (List Entry)
unfolding entries_of
inventory_entries i = do
  active ← ok_or i.active DecodeError.no_processor_group
  fail_if
      (not (seen_mask 0 i.cores == active)
        || any (λ (c : Cache). not (and_not 64 c.cpus active == 0)) i.caches)
      DecodeError.inconsistent
  entries_of i.caches i.cores

-- `decode`
unfoldable pub decode : List ℕ → Result DecodeError (List Entry)
unfolding read_records inventory_entries
decode buffer =
    read_records (length buffer) buffer (record { cores = []; caches = []; active = none })
    >>= inventory_entries
