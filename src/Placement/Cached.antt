-- ===== src/Placement/Cached.antt =====
-- src/platform/windows_topology.rs: the caches that the records of a buffer describe, and what an
-- entry makes of them.
use zenbench.Prelude.{
  ℕ, zero, suc, ◌+◌, ◌≡◌, sym, ◌∙◌, ap, Bool, true, false, List, [], ◌∷◌, ◌++◌, length, append_nil,
  append_assoc, if◌then◌else◌, not, ◌&&◌, ◌||◌, ltb, ◌==◌, ==_iff, arith, range_from, ok,
  guard-eq-ok, >>=-eq-ok, ok-injective, inl, inr, Bool-cases, if-true, if-false,
}
use zenbench.Prelude.Bits.{count_ones}
use zenbench.Placement.Windows.{
  Cache, Inventory, cache_record, core_record, drop, from_le, group_record, insert_cores, is_known,
  mask, read, read_record, read_records, take,
}
use zenbench.Placement.Inserted.{err_ok}
use zenbench.Placement.Recorded.{read-eq-ok}

-- The cache of a record: that of the relation 2, if it is unified (0) or of data (2).
abbrev pub cache_in : ℕ → List ℕ → List Cache
cache_in relation bytes =
    let kind = from_le (take 4 (drop 16 bytes)) in
    if relation == 2 && (kind == 0 || kind == 2)
    then record {
      cpus = from_le (take 8 (drop 40 bytes));
      level = from_le (take 1 (drop 8 bytes));
      size = from_le (take 4 (drop 12 bytes));
    }
      ∷ []
    else []

-- The caches of the records in a buffer.
unfoldable pub caches_in : ℕ → List ℕ → List Cache
caches_in zero buffer = []
caches_in (suc fuel) [] = []
caches_in (suc fuel) (b ∷ bs) =
    cache_in (from_le (take 4 (drop 0 (b ∷ bs))))
      (take (from_le (take 4 (drop 4 (b ∷ bs)))) (b ∷ bs))
    ++ caches_in fuel (drop (from_le (take 4 (drop 4 (b ∷ bs)))) (b ∷ bs))

mask-eq-ok :
    (buffer : List ℕ) (offset value : ℕ)
    → mask buffer offset ≡ ok value
    → from_le (take 8 (drop offset buffer)) ≡ value
unfolding mask
mask-eq-ok buffer offset value e =
    let (v, e1, e2) = >>=-eq-ok (read 8 buffer offset) _ e in
    let (group, _, e3) = >>=-eq-ok (read 2 buffer (offset + 8)) _ e2 in
    let (_, e4) = guard-eq-ok (not (group == 0) || v == 0) _ _ e3 in
    read-eq-ok 8 buffer offset v e1 ∙ ok-injective e4

-- The record of a cache adds the cache.
cache_record-adds :
    (bytes : List ℕ) (i o : Inventory)
    → cache_record bytes i ≡ ok o
    → o.caches ≡ i.caches ++ cache_in 2 bytes
unfolding cache_record
cache_record-adds bytes i o e =
    let (groups, _, e1) = >>=-eq-ok (read 2 bytes 38) _ e in
    let (_, e2) = guard-eq-ok (ltb 1 groups) _ _ e1 in
    let (cpus, is_cpus, e3) = >>=-eq-ok (mask bytes 40) _ e2 in
    let (level, is_level, e4) = >>=-eq-ok (read 1 bytes 8) _ e3 in
    let (size, is_size, e5) = >>=-eq-ok (read 4 bytes 12) _ e4 in
    let (kind, is_kind, e6) = >>=-eq-ok (read 4 bytes 16) _ e5 in
    let (_, e7) = guard-eq-ok (level == 0 || size == 0 || ltb 3 kind) _ _ e6 in
    let same = read-eq-ok 4 bytes 16 kind is_kind in
    let w = mask-eq-ok bytes 40 cpus is_cpus in
    let l = read-eq-ok 1 bytes 8 level is_level in
    let s = read-eq-ok 4 bytes 12 size is_size in
    elim (Bool-cases (kind == 0 || kind == 2)) [
      | inl kept ↦
          ap (λ (x : Inventory). x.caches) (sym (ok-injective (sym (if-true _ _ kept) ∙ e7)))
          ∙ ap (λ c. i.caches ++ c ∷ []) (sym (cache_of w l s))
          ∙ ap (λ c. i.caches ++ c) (sym (if-true _ _ (ap is_kept same ∙ kept)))
      | inr left ↦
          ap (λ (x : Inventory). x.caches) (sym (ok-injective (sym (if-false _ _ left) ∙ e7)))
          ∙ sym (append_nil i.caches)
          ∙ ap (λ c. i.caches ++ c) (sym (if-false _ _ (ap is_kept same ∙ left)))
    ]
  where
    is_kept : ℕ → Bool
    is_kept kind = (2 == 2) && (kind == 0 || kind == 2)

    cache_of :
        {a b c d g h : ℕ}
        → a ≡ b
        → c ≡ d
        → g ≡ h
        → Path Cache
            (record { cpus = a; level = c; size = g })
            (record { cpus = b; level = d; size = h })
    cache_of x y z = cc

core_record-adds :
    (bytes : List ℕ) (i o : Inventory) → core_record bytes i ≡ ok o → o.caches ≡ i.caches
unfolding core_record
core_record-adds bytes i o e =
    let (groups, _, e1) = >>=-eq-ok (read 2 bytes 30) _ e in
    let (_, e2) = guard-eq-ok (not (groups == 1)) _ _ e1 in
    let (cpus, _, e3) = >>=-eq-ok (mask bytes 32) _ e2 in
    let (rank, _, e4) = >>=-eq-ok (read 1 bytes 9) _ e3 in
    let (cores, _, e5) = >>=-eq-ok (insert_cores cpus rank (range_from 0 64) i.cores) _ e4 in
    ap (λ (x : Inventory). x.caches) (sym (ok-injective e5))

group_record-adds :
    (bytes : List ℕ) (i o : Inventory) → group_record bytes i ≡ ok o → o.caches ≡ i.caches
unfolding group_record
group_record-adds bytes i o e =
    let (_, e1) = guard-eq-ok (is_known i.active) _ _ e in
    let (groups, _, e2) = >>=-eq-ok (read 2 bytes 10) _ e1 in
    let (_, e3) = guard-eq-ok (not (groups == 1)) _ _ e2 in
    let (cpus, _, e4) = >>=-eq-ok (read 8 bytes 72) _ e3 in
    let (count, _, e5) = >>=-eq-ok (read 1 bytes 33) _ e4 in
    let (_, e6) = guard-eq-ok (cpus == 0 || not (count_ones 64 cpus == count)) _ _ e5 in
    ap (λ (x : Inventory). x.caches) (sym (ok-injective e6))

-- A record of another relation has no cache.
no_cache :
    (relation : ℕ) (bytes : List ℕ) (i o : Inventory)
    → (relation == 2) ≡ false
    → o.caches ≡ i.caches
    → o.caches ≡ i.caches ++ cache_in relation bytes
no_cache relation bytes i o r e =
    e
    ∙ sym (append_nil i.caches)
    ∙ ap (λ c. i.caches ++ c) (sym (if-false _ _ (other (relation == 2) _ r)))
  where
    other : (a b : Bool) → a ≡ false → (a && b) ≡ false
    other a b h = ground (arith, h)

core_only : (relation : ℕ) → (relation == 0) ≡ true → (relation == 2) ≡ false
core_only relation h = ground arith

read_record-adds :
    (relation : ℕ) (bytes : List ℕ) (i o : Inventory)
    → read_record relation bytes i ≡ ok o
    → o.caches ≡ i.caches ++ cache_in relation bytes
unfolding read_record
read_record-adds relation bytes i o e = elim (Bool-cases (relation == 0)) [
  | inl core ↦
      no_cache relation bytes i o (core_only relation core)
        (core_record-adds bytes i o (sym (if-true _ _ core) ∙ e))
  | inr r0 ↦ elim (Bool-cases (relation == 2)) [
    | inl cache ↦
        cache_record-adds bytes i o (sym (if-true _ _ cache) ∙ sym (if-false _ _ r0) ∙ e)
        ∙ ap (λ r. i.caches ++ cache_in r bytes) (sym ((==_iff _ _).0 cache))
    | inr r2 ↦ no_cache relation bytes i o r2 (elim (Bool-cases (relation == 4)) [
      | inl group ↦
          group_record-adds bytes i o
            (sym (if-true _ _ group) ∙ sym (if-false _ _ r2) ∙ sym (if-false _ _ r0) ∙ e)
      | inr r4 ↦
          ap (λ (x : Inventory). x.caches)
            (sym (
              ok-injective
                (sym (if-false _ _ r4) ∙ sym (if-false _ _ r2) ∙ sym (if-false _ _ r0) ∙ e)))
    ])
  ]
]

pub read_records-adds :
    (fuel : ℕ) (buffer : List ℕ) (i o : Inventory)
    → read_records fuel buffer i ≡ ok o
    → o.caches ≡ i.caches ++ caches_in fuel buffer
unfolding read_records caches_in
read_records-adds zero [] i o e =
    ap (λ (x : Inventory). x.caches) (sym (ok-injective e)) ∙ sym (append_nil i.caches)
read_records-adds (suc fuel) [] i o e =
    ap (λ (x : Inventory). x.caches) (sym (ok-injective e)) ∙ sym (append_nil i.caches)
read_records-adds zero (b ∷ bs) i o e = absurd (err_ok e)
read_records-adds (suc fuel) (b ∷ bs) i o e =
    let (relation, e0, e1) = >>=-eq-ok (read 4 (b ∷ bs) 0) _ e in
    let (size, s0, e2) = >>=-eq-ok (read 4 (b ∷ bs) 4) _ e1 in
    let (_, e3) = guard-eq-ok (ltb size 8 || ltb (length (b ∷ bs)) size) _ _ e2 in
    let (more, e4, e5) = >>=-eq-ok (read_record relation (take size (b ∷ bs)) i) _ e3 in
    let one = cache_in relation (take size (b ∷ bs)) in
    read_records-adds fuel (drop size (b ∷ bs)) more o e5
    ∙ ap (λ c. c ++ caches_in fuel (drop size (b ∷ bs)))
        (read_record-adds relation (take size (b ∷ bs)) i more e4)
    ∙ append_assoc i.caches one (caches_in fuel (drop size (b ∷ bs)))
    ∙ ap
        (λ s. i.caches ++ (cache_in relation (take s (b ∷ bs)) ++ caches_in fuel (drop s (b ∷ bs))))
        (sym (read-eq-ok 4 (b ∷ bs) 4 size s0))
    ∙ ap
        (λ r.
          i.caches
          ++ (cache_in r (take (from_le (take 4 (drop 4 (b ∷ bs)))) (b ∷ bs))
              ++ caches_in fuel (drop (from_le (take 4 (drop 4 (b ∷ bs)))) (b ∷ bs))))
        (sym (read-eq-ok 4 (b ∷ bs) 0 relation e0))
