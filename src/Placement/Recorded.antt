-- ===== src/Placement/Recorded.antt =====
-- src/platform/windows_topology.rs: what the records of a buffer leave in the inventory.
use zenbench.Prelude.{
  ℕ, zero, suc, ◌+◌, ◌<◌, ◌≡◌, sym, ◌∙◌, ap, subst, Bool, true, false, Option, none, some, List, [],
  ◌∷◌, ◌++◌, length, append_nil, append_assoc, if◌then◌else◌, not, ◌||◌, ltb, leb, ◌==◌, arith,
  range_from, ok, guard-eq-ok, >>=-eq-ok, ok-injective, inl, inr, Bool-cases, if-true, if-false,
}
use zenbench.Prelude.Sort.{IsRising}
use zenbench.Prelude.Bits.{count_ones}
use zenbench.Placement.Windows.{
  Inventory, cache_record, core_record, group_record, insert_cores, is_known, mask, read,
  read_record, read_records, drop, from_le, take,
}
use zenbench.Placement.Inserted.{cpus_of, err_ok, insert_cores-IsRising}

-- The masks of the records of processor groups in a buffer.
abbrev pub group_mask : ℕ → List ℕ → List ℕ
group_mask relation bytes = if relation == 4 then from_le (take 8 (drop 72 bytes)) ∷ [] else []

unfoldable pub group_masks : ℕ → List ℕ → List ℕ
group_masks zero buffer = []
group_masks (suc fuel) [] = []
group_masks (suc fuel) (b ∷ bs) =
    group_mask (from_le (take 4 (drop 0 (b ∷ bs))))
      (take (from_le (take 4 (drop 4 (b ∷ bs)))) (b ∷ bs))
    ++ group_masks fuel (drop (from_le (take 4 (drop 4 (b ∷ bs)))) (b ∷ bs))

-- The mask of an inventory is the one that was found, and has a processor.
abbrev pub HasFound : List ℕ → Option ℕ → Type 0
HasFound found none = found ≡ []
HasFound found (some active) = (found ≡ active ∷ []) × (0 < active)

-- The cores and the group of an inventory that is being read.
abbrev pub IsRead : List ℕ → Inventory → Type 0
IsRead found i = IsRising (cpus_of i.cores) × HasFound found i.active

pub read-eq-ok :
    (n : ℕ) (buffer : List ℕ) (offset value : ℕ)
    → read n buffer offset ≡ ok value
    → from_le (take n (drop offset buffer)) ≡ value
unfolding read
read-eq-ok n buffer offset value e = elim (Bool-cases (leb (offset + n) (length buffer))) [
  | inl inside ↦ ok-injective (sym (if-true _ _ inside) ∙ e)
  | inr outside ↦ absurd (err_ok (sym (if-false _ _ outside) ∙ e))
]

core_record-IsRead :
    (found bytes : List ℕ) (i o : Inventory)
    → core_record bytes i ≡ ok o
    → IsRead found i
    → IsRead found o
unfolding core_record
core_record-IsRead found bytes i o e (h, a) =
    let (groups, _, e1) = >>=-eq-ok (read 2 bytes 30) _ e in
    let (_, e2) = guard-eq-ok (not (groups == 1)) _ _ e1 in
    let (cpus, _, e3) = >>=-eq-ok (mask bytes 32) _ e2 in
    let (rank, _, e4) = >>=-eq-ok (read 1 bytes 9) _ e3 in
    let (cores, e5, e6) = >>=-eq-ok (insert_cores cpus rank (range_from 0 64) i.cores) _ e4 in
    subst (IsRead found) (ok-injective e6)
      (insert_cores-IsRising cpus rank (range_from 0 64) i.cores cores e5 h, a)

cache_record-IsRead :
    (found bytes : List ℕ) (i o : Inventory)
    → cache_record bytes i ≡ ok o
    → IsRead found i
    → IsRead found o
unfolding cache_record
cache_record-IsRead found bytes i o e h =
    let (groups, _, e1) = >>=-eq-ok (read 2 bytes 38) _ e in
    let (_, e2) = guard-eq-ok (ltb 1 groups) _ _ e1 in
    let (cpus, _, e3) = >>=-eq-ok (mask bytes 40) _ e2 in
    let (level, _, e4) = >>=-eq-ok (read 1 bytes 8) _ e3 in
    let (size, _, e5) = >>=-eq-ok (read 4 bytes 12) _ e4 in
    let (kind, _, e6) = >>=-eq-ok (read 4 bytes 16) _ e5 in
    let (_, e7) = guard-eq-ok (level == 0 || size == 0 || ltb 3 kind) _ _ e6 in
    elim (Bool-cases (kind == 0 || kind == 2)) [
      | inl kept ↦ subst (IsRead found) (ok-injective (sym (if-true _ _ kept) ∙ e7)) h
      | inr left ↦ subst (IsRead found) (ok-injective (sym (if-false _ _ left) ∙ e7)) h
    ]

nonzero : (n : ℕ) (other : Bool) → (n == 0 || other) ≡ false → 0 < n
nonzero n other h = ground arith

nothing_found :
    (found : List ℕ) (active : Option ℕ)
    → HasFound found active
    → is_known active ≡ false
    → found ≡ []
nothing_found found none h e = h
nothing_found found (some a) h e = ground (arith, e)

group_record-IsRead :
    (found bytes : List ℕ) (i o : Inventory)
    → group_record bytes i ≡ ok o
    → IsRead found i
    → IsRead (found ++ from_le (take 8 (drop 72 bytes)) ∷ []) o
unfolding group_record
group_record-IsRead found bytes i o e (h, a) =
    let (fresh, e1) = guard-eq-ok (is_known i.active) _ _ e in
    let (groups, _, e2) = >>=-eq-ok (read 2 bytes 10) _ e1 in
    let (_, e3) = guard-eq-ok (not (groups == 1)) _ _ e2 in
    let (cpus, e4, e5) = >>=-eq-ok (read 8 bytes 72) _ e3 in
    let (count, _, e6) = >>=-eq-ok (read 1 bytes 33) _ e5 in
    let (sound, e7) = guard-eq-ok (cpus == 0 || not (count_ones 64 cpus == count)) _ _ e6 in
    subst (IsRead (found ++ from_le (take 8 (drop 72 bytes)) ∷ [])) (ok-injective e7) (
      h,
      (
        ap (λ f. f ++ from_le (take 8 (drop 72 bytes)) ∷ []) (nothing_found found i.active a fresh)
            ∙ ap (λ n. n ∷ []) (read-eq-ok 8 bytes 72 cpus e4),
        nonzero cpus (not (count_ones 64 cpus == count)) sound,
      ),
    )

-- A record of another relation has no mask.
no_mask :
    (found : List ℕ) (relation : ℕ) (bytes : List ℕ) (o : Inventory)
    → (relation == 4) ≡ false
    → IsRead found o
    → IsRead (found ++ group_mask relation bytes) o
no_mask found relation bytes o e h =
    subst (λ f. IsRead f o) (sym (ap (λ g. found ++ g) (if-false _ _ e) ∙ append_nil found)) h

core_only : (relation : ℕ) → (relation == 0) ≡ true → (relation == 4) ≡ false
core_only relation h = ground arith

cache_only : (relation : ℕ) → (relation == 2) ≡ true → (relation == 4) ≡ false
cache_only relation h = ground arith

read_record-IsRead :
    (found : List ℕ) (relation : ℕ) (bytes : List ℕ) (i o : Inventory)
    → read_record relation bytes i ≡ ok o
    → IsRead found i
    → IsRead (found ++ group_mask relation bytes) o
unfolding read_record
read_record-IsRead found relation bytes i o e h = elim (Bool-cases (relation == 0)) [
  | inl core ↦
      no_mask found relation bytes o (core_only relation core)
        (core_record-IsRead found bytes i o (sym (if-true _ _ core) ∙ e) h)
  | inr r0 ↦ elim (Bool-cases (relation == 2)) [
    | inl cache ↦ no_mask found relation bytes o (cache_only relation cache) (
        cache_record-IsRead found bytes i o (sym (if-true _ _ cache) ∙ sym (if-false _ _ r0) ∙ e) h)
    | inr r2 ↦ elim (Bool-cases (relation == 4)) [
      | inl group ↦
          subst (λ g. IsRead (found ++ g) o) (sym (if-true _ _ group))
            (group_record-IsRead found bytes i o
              (sym (if-true _ _ group) ∙ sym (if-false _ _ r2) ∙ sym (if-false _ _ r0) ∙ e) h)
      | inr r4 ↦ no_mask found relation bytes o r4 (
          subst (IsRead found)
            (ok-injective
              (sym (if-false _ _ r4) ∙ sym (if-false _ _ r2) ∙ sym (if-false _ _ r0) ∙ e))
            h)
    ]
  ]
]

pub read_records-IsRead :
    (fuel : ℕ) (found buffer : List ℕ) (i o : Inventory)
    → read_records fuel buffer i ≡ ok o
    → IsRead found i
    → IsRead (found ++ group_masks fuel buffer) o
unfolding read_records group_masks
read_records-IsRead zero found [] i o e h =
    subst (λ f. IsRead f o) (sym (append_nil found)) (subst (IsRead found) (ok-injective e) h)
read_records-IsRead (suc fuel) found [] i o e h =
    subst (λ f. IsRead f o) (sym (append_nil found)) (subst (IsRead found) (ok-injective e) h)
read_records-IsRead zero found (b ∷ bs) i o e h = absurd (err_ok e)
read_records-IsRead (suc fuel) found (b ∷ bs) i o e h =
    let (relation, e0, e1) = >>=-eq-ok (read 4 (b ∷ bs) 0) _ e in
    let (size, s0, e2) = >>=-eq-ok (read 4 (b ∷ bs) 4) _ e1 in
    let (_, e3) = guard-eq-ok (ltb size 8 || ltb (length (b ∷ bs)) size) _ _ e2 in
    let (more, e4, e5) = >>=-eq-ok (read_record relation (take size (b ∷ bs)) i) _ e3 in
    let one = group_mask relation (take size (b ∷ bs)) in
    let read_more =
      read_records-IsRead fuel (found ++ one) (drop size (b ∷ bs)) more o e5
        (read_record-IsRead found relation (take size (b ∷ bs)) i more e4 h) in
    subst (λ f. IsRead f o)
      (append_assoc found one (group_masks fuel (drop size (b ∷ bs)))
        ∙ ap
            (λ s.
              found
              ++ (group_mask relation (take s (b ∷ bs)) ++ group_masks fuel (drop s (b ∷ bs))))
            (sym (read-eq-ok 4 (b ∷ bs) 4 size s0))
        ∙ ap
            (λ r.
              found
              ++ (group_mask r (take (from_le (take 4 (drop 4 (b ∷ bs)))) (b ∷ bs))
                  ++ group_masks fuel (drop (from_le (take 4 (drop 4 (b ∷ bs)))) (b ∷ bs))))
            (sym (read-eq-ok 4 (b ∷ bs) 0 relation e0)))
      read_more
