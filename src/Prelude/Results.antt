-- ===== src/Prelude/Results.antt =====
-- `Result<A, E>`, its bind, and the early return of a guard.
use mathlib.Core.Path.{◌≡◌, refl}
use mathlib.Core.Bool.{Bool, true, false, not, ◌&&◌}
use mathlib.Core.Option.{Option, none, some}

pub data Result {ℓ κ} (E : Type ℓ) (A : Type κ) : Type (ℓ ⊔ κ) where
  err : (error : E) → Result E A
  ok : (value : A) → Result E A

-- `ok_or(e)`
abbrev pub ok_or {ℓ κ} : {E : Type ℓ} {A : Type κ} → Option A → E → Result E A
ok_or (some value) error = ok value
ok_or none error = err error

-- `if c { return Err(e); }`
abbrev pub fail_if {ℓ} : {E : Type ℓ} → Bool → E → Result E (Unit {0})
fail_if false error = ok tt
fail_if true error = err error

-- The operator `?`, and the steps that follow it.
infixl 5 ◌>>=◌
abbrev pub ◌>>=◌ {ℓ κ μ} :
    {A : Type κ} {B : Type μ} {E : Type ℓ} → Result E A → (A → Result E B) → Result E B
result >>= next = elim result [ err error ↦ err error | ok value ↦ next value ]

infixl 5 ◌>>◌
abbrev pub ◌>>◌ {ℓ κ} : {B : Type κ} {E : Type ℓ} → Result E (Unit {0}) → Result E B → Result E B
first >> rest = first >>= λ u. rest

-- What a chain that succeeds went through.
pub >>=-eq-ok {ℓ κ μ} :
    {E : Type ℓ} {A : Type κ} {B : Type μ} (result : Result E A) (next : A → Result E B) {last : B}
    → (result >>= next) ≡ ok last
    → (value : A) × (result ≡ ok value) × (next value ≡ ok last)
>>=-eq-ok (err error) next h = cc
>>=-eq-ok (ok value) next h = (value, refl, h)

-- What a guard that let the rest go on says.
pub guard-eq-ok {ℓ κ} :
    {E : Type ℓ} {B : Type κ} (test : Bool) (error : E) (rest : Result E B) {last : B}
    → (fail_if test error >> rest) ≡ ok last
    → (test ≡ false) × (rest ≡ ok last)
guard-eq-ok false error rest h = (refl, h)
guard-eq-ok true error rest h = cc

pub fail_if-eq-ok {ℓ} :
    {E : Type ℓ} (test : Bool) (error : E) {u : Unit {0}} → fail_if test error ≡ ok u → test ≡ false
fail_if-eq-ok false error h = refl
fail_if-eq-ok true error h = cc

-- What the guard `a && !b` excludes.
pub implied : (a b : Bool) → (a && not b) ≡ false → a ≡ true → b ≡ true
implied a true h t = refl
implied true false h t = cc
implied false false h t = t

pub ok-injective {ℓ κ} :
    {E : Type ℓ} {A : Type κ} {a b : A} → Path (Result E A) (ok a) (ok b) → a ≡ b
ok-injective h = cc

pub ok_or-eq-ok {ℓ κ} :
    {E : Type ℓ} {A : Type κ} (o : Option A) (error : E) (a : A) → ok_or o error ≡ ok a → o ≡ some a
ok_or-eq-ok none error a h = cc
ok_or-eq-ok (some b) error a h = cc
