-- ===== src/Prelude/Equality.antt =====
-- One Boolean equality for the types that the program compares by `==`.
use Prim.Native.Nat.{ℕ}
use Prim.Native.String.{String}
use mathlib.Core.Path.{◌≡◌, ◌∙◌, refl, ap}
use mathlib.Core.Logic.{◌↔◌, inl, inr}
use mathlib.Core.Bool.{Bool, true, false, not, ◌&&◌}
use mathlib.Core.Option.{Option, none, some}
use mathlib.Core.List.{List, [], ◌∷◌}
use native.Mathlib.Omega.{arith}
use text.Mathlib.Text.{◌==◌ as str_beq}
use text.Mathlib.TextEquality.{eq_iff}
use copilot_mempalace.Prelude.Tests.{nat_beq, nat_beq_iff, Bool-cases}

pub record Eq {ℓ} (A : Type ℓ) : Type ℓ where
  pub same : A → A → Bool
  pub same_iff : (a b : A) → (same a b ≡ true) ↔ (a ≡ b)

infix 50 ◌!=◌ ◌==◌
instance abbrev pub string_eq : Eq String
string_eq = record { same = str_beq; same_iff = eq_iff }

instance abbrev pub nat_eq : Eq ℕ
nat_eq = record { same = nat_beq; same_iff = nat_beq_iff }

abbrev pub ◌!=◌ {ℓ} : {A : Type ℓ} ⦃e : Eq A⦄ → A → A → Bool
◌!=◌ ⦃e⦄ a b = not (e.same a b)

abbrev pub ◌==◌ {ℓ} : {A : Type ℓ} ⦃e : Eq A⦄ → A → A → Bool
◌==◌ ⦃e⦄ a b = e.same a b

module _ {ℓ} {A : Type ℓ} ⦃e : Eq A⦄ where
  abbrev pub option_beq : Option A → Option A → Bool
  option_beq none none = true
  option_beq (some a) (some b) = a == b
  option_beq _ _ = false

  pub option_beq_iff : (o p : Option A) → (option_beq o p ≡ true) ↔ (o ≡ p)
  option_beq_iff none none = ((λ h. refl), (λ h. refl))
  option_beq_iff none (some b) = ((λ h. cc), (λ h. cc))
  option_beq_iff (some a) none = ((λ h. cc), (λ h. cc))
  option_beq_iff (some a) (some b) =
      ((λ h. ap some ((e.same_iff a b).0 h)), (λ h. (e.same_iff a b).1 (cc)))

  abbrev pub list_beq : List A → List A → Bool
  list_beq [] [] = true
  list_beq (x ∷ xs) (y ∷ ys) = x == y && list_beq xs ys
  list_beq _ _ = false

  pub list_beq_iff : (xs ys : List A) → (list_beq xs ys ≡ true) ↔ (xs ≡ ys)
  list_beq_iff [] [] = ((λ h. refl), (λ h. refl))
  list_beq_iff [] (y ∷ ys) = ((λ h. cc), (λ h. cc))
  list_beq_iff (x ∷ xs) [] = ((λ h. cc), (λ h. cc))
  list_beq_iff (x ∷ xs) (y ∷ ys) = ground (arith, e.same_iff x y, list_beq_iff xs ys)

instance abbrev pub option_eq {ℓ} : {A : Type ℓ} ⦃e : Eq A⦄ → Eq (Option A)
option_eq = record { same = option_beq; same_iff = option_beq_iff }

instance abbrev pub list_eq {ℓ} : {A : Type ℓ} ⦃e : Eq A⦄ → Eq (List A)
list_eq = record { same = list_beq; same_iff = list_beq_iff }

pub ==_self {ℓ} : {A : Type ℓ} ⦃e : Eq A⦄ (a : A) → (a == a) ≡ true
==_self ⦃e⦄ a = (e.same_iff a a).1 refl

pub eq_of_== {ℓ} : {A : Type ℓ} ⦃e : Eq A⦄ {a b : A} → (a == b) ≡ true → a ≡ b
eq_of_== ⦃e⦄ {a} {b} h = (e.same_iff a b).0 h

pub ==_of_eq {ℓ} : {A : Type ℓ} ⦃e : Eq A⦄ {a b : A} → a ≡ b → (a == b) ≡ true
==_of_eq ⦃e⦄ {a} {b} h = (e.same_iff a b).1 h

pub ==_of_ne {ℓ} : {A : Type ℓ} ⦃e : Eq A⦄ {a b : A} → ¬ (a ≡ b) → (a == b) ≡ false
==_of_ne ⦃e⦄ {a} {b} n = elim (Bool-cases (a == b)) [
  | inl h ↦ absurd (n ((e.same_iff a b).0 h))
  | inr h ↦ h
]

pub and_true : {a b : Bool} → (a && b) ≡ true → (a ≡ true) × (b ≡ true)
and_true {a} {b} h = ground arith

module _ {ℓ κ} {A : Type ℓ} {B : Type κ} ⦃e : Eq A⦄ ⦃f : Eq B⦄ where
  pub pair_beq_iff : (p q : A × B) → ((p.0 == q.0 && p.1 == q.1) ≡ true) ↔ (p ≡ q)
  pair_beq_iff (a, b) (c, d) = (
    (λ h.
        let t : ((a == c) ≡ true) × ((b == d) ≡ true) = and_true h in
        ap (λ x. (x, b)) ((e.same_iff a c).0 t.0) ∙ ap (λ y. (c, y)) ((f.same_iff b d).0 t.1)),
    (λ h. rw ((e.same_iff a c).1 (ap (λ x. x.0) h), (f.same_iff b d).1 (ap (λ x. x.1) h)) refl),
  )

instance abbrev pub pair_eq {ℓ κ} : {A : Type ℓ} {B : Type κ} ⦃e : Eq A⦄ ⦃f : Eq B⦄ → Eq (A × B)
pair_eq = record { same = λ p q. p.0 == q.0 && p.1 == q.1; same_iff = pair_beq_iff }
