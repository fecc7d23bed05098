-- ===== src/Prelude/Outcome.antt =====
-- A Go pair (value, error): exactly one of the two is there.
use mathlib.Core.Path.{◌≡◌, refl, subst}
use mathlib.Core.Bool.{Bool, true, false}
use mathlib.Core.Logic.{◌⊎◌, inl, inr}
use mathlib.Core.Option.{Option, none, some}

pub data Result {ℓ} (E : Type 0) (A : Type ℓ) : Type ℓ where
  ok : A → Result E A
  err : E → Result E A

module _ {E : Type 0} where
  infixl 5 ◌>>=◌ ◌>>◌
  abbrev pub ◌>>=◌ {ℓ κ} : {A : Type ℓ} {B : Type κ} → Result E A → (A → Result E B) → Result E B
  ok a >>= f = f a
  err e >>= f = err e

  abbrev pub ◌>>◌ {ℓ} : {B : Type ℓ} → Result E (Unit {0}) → Result E B → Result E B
  m >> k = m >>= λ _. k

  -- `if test { return err }`
  abbrev pub fail_if : Bool → E → Result E (Unit {0})
  fail_if true e = err e
  fail_if false e = ok tt

  -- `fmt.Errorf("…: %w", err)`
  abbrev pub wrap {ℓ} : {A : Type ℓ} → (E → E) → Result E A → Result E A
  wrap f (ok a) = ok a
  wrap f (err e) = err (f e)

  abbrev pub value? {ℓ} : {A : Type ℓ} → Result E A → Option A
  value? (ok a) = some a
  value? (err e) = none

  pub Result-cases {ℓ} :
      {A : Type ℓ} (r : Result E A) → ((a : A) × (r ≡ ok a)) ⊎ ((e : E) × (r ≡ err e))
  Result-cases (ok a) = inl (a, refl)
  Result-cases (err e) = inr (e, refl)

  -- past a guard
  pub fail_if-ok {ℓ} :
      {A : Type ℓ} (b : Bool) (e : E) (k : Result E A) {a : A}
      → (fail_if b e >> k) ≡ ok a
      → (b ≡ false) × (k ≡ ok a)
  fail_if-ok true e k h = cc
  fail_if-ok false e k h = (refl, h)

  abbrev pub succeeded {ℓ} : {A : Type ℓ} → Result E A → Bool
  succeeded (ok a) = true
  succeeded (err e) = false

  abbrev value_or {ℓ} : {A : Type ℓ} → A → Result E A → A
  value_or d (ok a) = a
  value_or d (err e) = d

  -- P holds of the value of r, if r has one
  pub record Yields {ℓ κ} {A : Type ℓ} (P : A → Type κ) (r : Result E A) : Type (ℓ ⊔ κ) where
    pub at : (a : A) → r ≡ ok a → P a

  pub Yields-ok {ℓ κ} : {A : Type ℓ} {P : A → Type κ} (a : A) → P a → Yields P (ok a)
  Yields-ok {P} a p = record { at = λ b e. subst (λ x. P (value_or a x)) e p }

  pub Yields-bind {ℓ κ λ'} :
      {A : Type ℓ} {B : Type κ} {P : B → Type λ'} (m : Result E A) (f : A → Result E B)
      → ((a : A) → m ≡ ok a → Yields P (f a))
      → Yields P (m >>= f)
  Yields-bind (ok a) f k = k a refl
  Yields-bind (err e) f k = record { at = λ b h. cc }

  -- what holds of both results of the first step of a do block holds of the block
  pub on_bind {ℓ κ λ'} :
      {A : Type ℓ} {B : Type κ} (P : Result E B → Type λ') (m : Result E A) (f : A → Result E B)
      → ((a : A) → m ≡ ok a → P (f a))
      → ((e : E) → m ≡ err e → P (err e))
      → P (m >>= f)
  on_bind P (ok a) f good bad = good a refl
  on_bind P (err e) f good bad = bad e refl
