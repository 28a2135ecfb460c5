-- ===== src/Placement/Enough.antt =====
-- src/platform/windows_topology.rs: the fuel of the loop over the records is enough.
use zenbench.Prelude.{
  ℕ, zero, suc, ◌-◌, ◌≤◌, ◌≡◌, refl, Bool, true, false, List, [], ◌∷◌, length, ◌||◌, ltb, arith,
  Result, ok, err, ◌>>=◌, ◌>>◌, fail_if,
}
use zenbench.Placement.Windows.{DecodeError, Inventory, drop, read, read_record, read_records, take}

same_rest {ℓ κ ρ} :
    {E : Type ℓ} {A : Type κ} {B : Type ρ} (first : Result E A) (f g : A → Result E B)
    → ((a : A) → f a ≡ g a)
    → (first >>= f) ≡ (first >>= g)
same_rest (ok a) f g h = h a
same_rest (err e) f g h = refl

same_guarded {ℓ κ} :
    {E : Type ℓ} {B : Type κ} (test : Bool) (error : E) (f g : Result E B)
    → (test ≡ false → f ≡ g)
    → (fail_if test error >> f) ≡ (fail_if test error >> g)
same_guarded true error f g h = refl
same_guarded false error f g h = h refl

length-drop : (n : ℕ) (bs : List ℕ) → length (drop n bs) ≡ length bs - n
length-drop zero bs = omega arith
length-drop (suc n) [] = omega arith
length-drop (suc n) (b ∷ bs) = omega (arith, length-drop n bs)

shorter :
    (size fuel b : ℕ) (bs : List ℕ)
    → (ltb size 8 || ltb (length (b ∷ bs)) size) ≡ false
    → length (b ∷ bs) ≤ suc fuel
    → length (drop size (b ∷ bs)) ≤ fuel
shorter size fuel b bs h less = ground (arith, length-drop size (b ∷ bs))

-- With a fuel of the number of bytes, one turn more changes nothing.
read_records-enough :
    (fuel : ℕ) (buffer : List ℕ) (i : Inventory)
    → length buffer ≤ fuel
    → read_records fuel buffer i ≡ read_records (suc fuel) buffer i
unfolding read_records
read_records-enough zero [] i h = refl
read_records-enough (suc fuel) [] i h = refl
read_records-enough zero (b ∷ bs) i h = absurd (omega (arith, h))
read_records-enough (suc fuel) (b ∷ bs) i h = same_rest (read 4 (b ∷ bs) 0) _ _ λ relation.
    same_rest (read 4 (b ∷ bs) 4) _ _ λ size.
      same_guarded (ltb size 8 || ltb (length (b ∷ bs)) size) DecodeError.bad_size _ _ λ fits.
        same_rest (read_record relation (take size (b ∷ bs)) i) _ _
          λ more. read_records-enough fuel (drop size (b ∷ bs)) more (shorter size fuel b bs fits h)
