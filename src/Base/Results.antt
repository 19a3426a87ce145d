-- ===== src/Base/Results.antt =====
-- Go's `(T, error)` results. An error is its sentinel; a guard `if test { return err }` is
-- `fail_if test err` in a do block.
use mathlib.Core.Path.{◌≡◌, refl}
use mathlib.Core.Logic.{◌⊎◌, inl, inr}
use mathlib.Core.Bool.{Bool, true, false}
use native.Mathlib.Omega.{arith}

pub data Result {ℓ κ} (E : Type ℓ) (A : Type κ) : Type (ℓ ⊔ κ) where
  ok : A → Result E A
  err : E → Result E A

infixl 5 ◌>>=◌ ◌>>◌
abbrev pub ◌>>=◌ {ℓ κ μ} :
    {E : Type ℓ} {A : Type κ} {B : Type μ} → Result E A → (A → Result E B) → Result E B
ok a >>= f = f a
err e >>= f = err e

abbrev pub ◌>>◌ {ℓ κ} : {E : Type ℓ} {B : Type κ} → Result E (Unit {0}) → Result E B → Result E B
m >> k = m >>= λ _. k

abbrev pub fail_if {ℓ} : {E : Type ℓ} → Bool → E → Result E (Unit {0})
fail_if true e = err e
fail_if false e = ok tt

-- The receiver of a method that returns an error before its first write.
abbrev pub after {ℓ κ} : {E : Type ℓ} {A : Type κ} → A → Result E A → A
after a (ok b) = b
after a (err e) = a

pub Result-cases {ℓ κ} :
    {E : Type ℓ} {A : Type κ} (r : Result E A) → ((a : A) × (r ≡ ok a)) ⊎ ((e : E) × (r ≡ err e))
Result-cases (ok a) = inl (a, refl)
Result-cases (err e) = inr (e, refl)

-- An error wrapped in another package's sentinel.
abbrev pub wrap_err {ℓ κ μ} : {E : Type ℓ} {F : Type κ} {A : Type μ} → F → Result E A → Result F A
wrap_err f (ok a) = ok a
wrap_err f (err e) = err f

-- The errors of one package among those of another.
abbrev pub map_err {ℓ κ μ} :
    {E : Type ℓ} {F : Type κ} {A : Type μ} → (E → F) → Result E A → Result F A
map_err f (ok a) = ok a
map_err f (err e) = err (f e)

-- What a successful chain went through.
pub bind_inversion {ℓ κ μ} :
    {E : Type ℓ} {A : Type κ} {B : Type μ} (m : Result E A) (f : A → Result E B) {b : B}
    → (m >>= f) ≡ ok b
    → (a : A) × (m ≡ ok a) × (f a ≡ ok b)
bind_inversion (ok a) f h = (a, refl, h)
bind_inversion (err e) f h = cc

pub map_err_inversion {ℓ κ μ} :
    {E : Type ℓ} {F : Type κ} {A : Type μ} (f : E → F) (m : Result E A) {a : A}
    → map_err f m ≡ ok a
    → m ≡ ok a
map_err_inversion f (ok a) h = ground arith
map_err_inversion f (err e) h = cc

-- Where a chain that failed has failed.
pub bind_failure {ℓ κ μ} :
    {E : Type ℓ} {A : Type κ} {B : Type μ} (m : Result E A) (f : A → Result E B) {e : E}
    → (m >>= f) ≡ err e
    → (m ≡ err e) ⊎ ((a : A) × (m ≡ ok a) × (f a ≡ err e))
bind_failure (ok a) f h = inr (a, refl, h)
bind_failure (err d) f h = inl (ground arith)

pub map_err_failure {ℓ κ μ} :
    {E : Type ℓ} {F : Type κ} {A : Type μ} (f : E → F) (m : Result E A) {e : F}
    → map_err f m ≡ err e
    → (d : E) × (m ≡ err d) × (f d ≡ e)
map_err_failure f (ok a) h = cc
map_err_failure f (err d) h = (d, refl, ground arith)

pub fail_if_failure {ℓ} :
    {E : Type ℓ} (b : Bool) (d : E) {e : E} → fail_if b d ≡ err e → (b ≡ true) × (d ≡ e)
fail_if_failure true d h = (refl, ground arith)
fail_if_failure false d h = cc
