-- ===== src/Placement/Decoded.antt =====
-- src/platform/windows_topology.rs: the inventories that `decode` accepts.
use zenbench.Prelude.{
  ℕ, ◌<◌, ◌≡◌, refl, sym, ◌∙◌, ap, subst, Bool, none, List, [], ◌∷◌, length, map, any, All, not,
  ◌||◌, ◌==◌, arith, contains, ok, ok_or, guard-eq-ok, >>=-eq-ok, ok-injective, ok_or-eq-ok,
}
use zenbench.Prelude.Sort.{IsRising}
use zenbench.Prelude.Bits.{bit, bit-one_bit, bit-or_bits, bit-zero, one_bit, or_bits, and_not}
use zenbench.Placement.Windows.{
  Cache, DecodeError, Entry, Inventory, decode, entries_of, entry_of, inventory_entries,
  read_records, seen_mask,
}
use zenbench.Placement.Inserted.{cpus_of}
use zenbench.Placement.Cached.{caches_in, read_records-adds}
use zenbench.Placement.Picked.{IsEntry, entry_of-IsEntry}
use zenbench.Placement.Recorded.{group_masks, HasFound, IsRead, read_records-IsRead}

-- The bits of the mask of the processors.
bit-seen_mask :
    (seen : ℕ) (cores : List (ℕ × ℕ)) (k : ℕ)
    → k < 64
    → bit (seen_mask seen cores) k ≡ (bit seen k || contains (cpus_of cores) k)
bit-seen_mask seen [] k h = ground arith
bit-seen_mask seen ((cpu, rank) ∷ cores) k h =
    bit-seen_mask (or_bits 64 seen (one_bit cpu)) cores k h
    ∙ ap (λ b. b || contains (cpus_of cores) k) (bit-or_bits 64 seen (one_bit cpu) k h)
    ∙ ap (λ b. (bit seen k || b) || contains (cpus_of cores) k) (bit-one_bit cpu k)
    ∙ or_assoc (bit seen k) (cpu == k) (contains (cpus_of cores) k)
  where
    or_assoc : (a b c : Bool) → ((a || b) || c) ≡ (a || (b || c))
    or_assoc a b c = ground arith

-- The sizes of an entry, whatever its core.
abbrev pub IsLast : List Cache → Entry → Type 0
IsLast caches entry = (core : ℕ × ℕ) × IsEntry caches core entry

entries_of-cpus :
    (caches : List Cache) (cores : List (ℕ × ℕ)) (entries : List Entry)
    → entries_of caches cores ≡ ok entries
    → (map (λ (e : Entry). e.cpu) entries ≡ cpus_of cores) × All (IsLast caches) entries
unfolding entries_of
entries_of-cpus caches [] entries h =
    subst (λ o. (map (λ (e : Entry). e.cpu) o ≡ []) × All (IsLast caches) o) (ok-injective h)
      (refl, tt)
entries_of-cpus caches (core ∷ cores) entries h =
    let (entry, e1, h1) = >>=-eq-ok (entry_of caches core) _ h in
    let (rest, e2, h2) = >>=-eq-ok (entries_of caches cores) _ h1 in
    let one = entry_of-IsEntry caches core entry e1 in
    let (same, rising) = entries_of-cpus caches cores rest e2 in
    subst (λ o. (map (λ (e : Entry). e.cpu) o ≡ cpus_of (core ∷ cores)) × All (IsLast caches) o)
      (ok-injective h2)
      (
        ap (λ n. n ∷ map (λ (e : Entry). e.cpu) rest) one.cpu ∙ ap (λ l. core.0 ∷ l) same,
        ((core, one), rising),
      )

-- What the entries of an accepted inventory say: their processors are exactly those of the
-- processor group's mask, in rising order, and each has the sizes of its last caches.
pub record IsInventory (active : ℕ) (caches : List Cache) (entries : List Entry) : Type 0 where
  pub exact : (k : ℕ) → k < 64 → bit active k ≡ contains (map (λ (e : Entry). e.cpu) entries) k
  pub rising : IsRising (map (λ (e : Entry). e.cpu) entries)
  pub sizes : All (IsLast caches) entries

inventory_entries-IsInventory :
    (found : List ℕ) (i : Inventory) (entries : List Entry)
    → inventory_entries i ≡ ok entries
    → IsRead found i
    → (active : ℕ) × ((found ≡ active ∷ []) × (0 < active)) × IsInventory active i.caches entries
unfolding inventory_entries
inventory_entries-IsInventory found i entries e (h, a) =
    let (active, known, e1) = >>=-eq-ok (ok_or i.active DecodeError.no_processor_group) _ e in
    let (agrees, e2) =
      guard-eq-ok
        (not (seen_mask 0 i.cores == active)
          || any (λ (c : Cache). not (and_not 64 c.cpus active == 0)) i.caches)
        _ _ e1 in
    let (cpus, sizes) = entries_of-cpus i.caches i.cores entries e2 in
    let seen : seen_mask 0 i.cores ≡ active = ground arith in
    (
      active,
      subst (HasFound found) (ok_or-eq-ok i.active DecodeError.no_processor_group active known) a,
      record {
        exact = λ k less.
            ap (λ w. bit w k) (sym seen)
            ∙ bit-seen_mask 0 i.cores k less
            ∙ ap (λ b. b || contains (cpus_of i.cores) k) (bit-zero k)
            ∙ ap (λ l. contains l k) (sym cpus);
        rising = subst IsRising (sym cpus) h;
        sizes = sizes;
      },
    )

-- An inventory that `decode` accepts has one record of a processor group, with a mask that is not
-- empty. The entries' processors are exactly the bits of this mask, in rising order and each once.
-- Each entry has the highest level of a data or unified cache that the buffer's records give its
-- processor, and exactly the sizes of its caches of that level, in rising order and each once.
pub decode-IsInventory :
    (buffer : List ℕ) (entries : List Entry)
    → decode buffer ≡ ok entries
    → (active : ℕ) × ((group_masks (length buffer) buffer ≡ active ∷ []) × (0 < active))
      × IsInventory active (caches_in (length buffer) buffer) entries
unfolding decode group_masks caches_in
decode-IsInventory buffer entries e =
    let start : Inventory = record { cores = []; caches = []; active = none } in
    let (i, e1, e2) = >>=-eq-ok (read_records (length buffer) buffer start) _ e in
    let (active, found, inventory) =
      inventory_entries-IsInventory (group_masks (length buffer) buffer) i entries e2
        (read_records-IsRead (length buffer) [] buffer start i e1 (tt, refl)) in
    (
      active,
      found,
      subst (λ c. IsInventory active c entries)
          (read_records-adds (length buffer) buffer start i e1) inventory,
    )
