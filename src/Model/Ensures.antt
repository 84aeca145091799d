-- ===== src/Model/Ensures.antt =====
-- Postconditions of results: what holds of the value if there is one, with a rule for each step of a
-- `do` block.
use copilot_mempalace.Prelude.{
  ◌⊎◌, inl, inr, ◌≡◌, ℕ, ◌≤◌, arith, subst, ap, Bool, true, false, refl, Option, none, some,
  if◌then◌else◌,
}
use copilot_mempalace.Model.{Code, Result, ok, err, ◌>>=◌, ◌>>◌, require, or_fail, integer}

ok_value {ℓ} : {A : Type ℓ} → A → Result A → A
ok_value a (ok b) = b
ok_value a (err c) = a

pub ok-injective {ℓ} : {A : Type ℓ} {a b : A} → ok a ≡ ok b → a ≡ b
unfolding ok_value
ok-injective {a = a} e = ap (ok_value a) e

pub Result-cases {ℓ} :
    {A : Type ℓ} (r : Result A) → ((a : A) × (r ≡ ok a)) ⊎ ((c : Code) × (r ≡ err c))
Result-cases (ok a) = inl (a, refl)
Result-cases (err c) = inr (c, refl)

pub record Ensures {ℓ κ} {A : Type ℓ} (P : A → Type κ) (r : Result A) : Type (ℓ ⊔ κ) where
  pub at : (a : A) → r ≡ ok a → P a

module _ {ℓ κ} {A : Type ℓ} {P : A → Type κ} where
  pub Ensures-ok : (a : A) → P a → Ensures P (ok a)
  Ensures-ok a p = record { at = λ b e. subst P (ok-injective e) p }

  pub Ensures-err : (c : Code) → Ensures P (err c)
  Ensures-err c = record { at = λ a e. cc }

module _ {ℓ κ μ} {A : Type ℓ} {B : Type κ} {P : B → Type μ} where
  pub Ensures-bind :
      (m : Result A) (f : A → Result B)
      → ((a : A) → m ≡ ok a → Ensures P (f a))
      → Ensures P (m >>= f)
  unfolding ◌>>=◌
  Ensures-bind (ok a) f k = k a refl
  Ensures-bind (err c) f k = Ensures-err c

module _ {ℓ κ} {A : Type ℓ} {P : A → Type κ} where
  pub Ensures-require :
      (test : Bool) (c : Code) (m : Result A)
      → (test ≡ true → Ensures P m)
      → Ensures P (require test c >> m)
  unfolding ◌>>=◌ require
  Ensures-require true c m k = k refl
  Ensures-require false c m k = Ensures-err c

  pub Ensures-if :
      (test : Bool) (m n : Result A)
      → (test ≡ true → Ensures P m)
      → (test ≡ false → Ensures P n)
      → Ensures P (if test then m else n)
  Ensures-if true m n k l = k refl
  Ensures-if false m n k l = l refl

module _ {ℓ κ μ} {A : Type ℓ} {B : Type κ} {P : B → Type μ} where
  pub Ensures-or_fail :
      (o : Option A) (c : Code) (f : A → Result B)
      → ((a : A) → o ≡ some a → Ensures P (f a))
      → Ensures P (or_fail o c >>= f)
  unfolding ◌>>=◌ or_fail
  Ensures-or_fail none c f k = Ensures-err c
  Ensures-or_fail (some a) c f k = k a refl

pub integer-range :
    (value minimum maximum : ℕ)
    → Ensures (λ _. (minimum ≤ value) × (value ≤ maximum)) (integer value minimum maximum)
unfolding integer require
integer-range value minimum maximum = record { at = λ u e. (ground arith, ground arith) }
