-- ===== src/Base/Outcome.antt =====
-- A Go pair of a value and an error: one of the two.
use mathlib.Core.Path.{◌≡◌, refl}
use mathlib.Core.Logic.{◌⊎◌, inl, inr}
use mathlib.Core.Bool.{Bool, true, false}

pub data Result {ℓ κ} (E : Type ℓ) (A : Type κ) : Type (ℓ ⊔ κ) where
  ok : A → Result E A
  err : E → Result E A

infixl 5 ◌>>=◌ ◌>>◌
abbrev pub ◌>>=◌ {ℓ κ μ} :
    {E : Type ℓ} {A : Type κ} {B : Type μ} → Result E A → (A → Result E B) → Result E B
ok a >>= f = f a
err e >>= f = err e

abbrev pub ◌>>◌ {ℓ κ} : {E : Type ℓ} {B : Type κ} → Result E (Unit {0}) → Result E B → Result E B
m >> k = m >>= λ _. k

-- `if test { return err }`.
abbrev pub fail_if {ℓ} : {E : Type ℓ} → Bool → E → Result E (Unit {0})
fail_if true e = err e
fail_if false e = ok tt

module _ {ℓ κ} {E : Type ℓ} {A : Type κ} where
  -- `fmt.Errorf("…: %w", err)`, and what else is done to an error alone.
  abbrev pub map_err {μ} : {F : Type μ} → (E → F) → Result E A → Result F A
  map_err f (ok a) = ok a
  map_err f (err e) = err (f e)

  pub Result-cases : (r : Result E A) → ((a : A) × (r ≡ ok a)) ⊎ ((e : E) × (r ≡ err e))
  Result-cases (ok a) = inl (a, refl)
  Result-cases (err e) = inr (e, refl)

  pub >>=-eq-ok {μ} :
      {B : Type μ} (got : Result E A) (next : A → Result E B) {b : B}
      → (got >>= next) ≡ ok b
      → (x : A) × (got ≡ ok x) × (next x ≡ ok b)
  >>=-eq-ok (err e) next eq = cc
  >>=-eq-ok (ok x) next eq = (x, refl, eq)

pub map_err-ok {ℓ κ μ} :
    {E : Type ℓ} {F : Type μ} {A : Type κ} (f : E → F) (m : Result E A) {a : A}
    → map_err f m ≡ ok a
    → m ≡ ok a
map_err-ok f (ok a) h = cc
map_err-ok f (err e) h = cc
