-- ===== src/Prelude/Every.antt =====
-- A predicate of every entry of a list that is appended to, sorted, or looked up.
use Prim.Native.Nat.{◌+◌}
use mathlib.Core.Path.{◌≡◌, refl}
use mathlib.Core.Logic.{inl, inr}
use mathlib.Core.Bool.{Bool}
use mathlib.Core.List.{List, [], ◌∷◌, ◌++◌}
use native.Mathlib.Omega.{arith}
use copilot_mempalace.Prelude.Tests.{Bool-cases}
use copilot_mempalace.Prelude.Lists.{All, length}
use copilot_mempalace.Prelude.Sort.{insert, sort}

module _ {ℓ κ} {A : Type ℓ} (P : A → Type κ) where
  pub All-append : (xs ys : List A) → All P xs → All P ys → All P (xs ++ ys)
  All-append [] ys h k = k
  All-append (x ∷ xs) ys h k = (h.0, All-append xs ys h.1 k)

  pub All-append_one : (xs : List A) (x : A) → All P xs → P x → All P (xs ++ x ∷ [])
  All-append_one xs x h p = All-append xs (x ∷ []) h (p, tt)

  module _ (le : A → A → Bool) where
    All-insert : (a : A) (xs : List A) → P a → All P xs → All P (insert le a xs)
    unfolding insert
    All-insert a [] p h = (p, tt)
    All-insert a (x ∷ xs) p h = elim (Bool-cases (le a x)) [
      | inl e ↦ rw e (p, h)
      | inr e ↦ rw e (h.0, All-insert a xs p h.1)
    ]

    pub All-sort : (xs : List A) → All P xs → All P (sort le xs)
    unfolding sort
    All-sort [] h = tt
    All-sort (x ∷ xs) h = All-insert x (sort le xs) h.0 (All-sort xs h.1)

    All_of_insert : (a : A) (xs : List A) → All P (insert le a xs) → P a × All P xs
    unfolding insert
    All_of_insert a [] h = h
    All_of_insert a (x ∷ xs) h = elim (Bool-cases (le a x)) [
      | inl e ↦ rw e at h
      | inr e ↦ let k = rw e at h in let rest = All_of_insert a xs k.1 in (rest.0, (k.0, rest.1))
    ]

    pub All_of_sort : (xs : List A) → All P (sort le xs) → All P xs
    unfolding sort
    All_of_sort [] h = tt
    All_of_sort (x ∷ xs) h = let k = All_of_insert x (sort le xs) h in (k.0, All_of_sort xs k.1)

module _ {ℓ} {A : Type ℓ} (le : A → A → Bool) where
  length-insert : (a : A) (xs : List A) → length (insert le a xs) ≡ length xs + 1
  unfolding insert
  length-insert a [] = refl
  length-insert a (x ∷ xs) = ground (arith, length-insert a xs)

  pub length-sort : (xs : List A) → length (sort le xs) ≡ length xs
  unfolding sort
  length-sort [] = refl
  length-sort (x ∷ xs) = omega (arith, length-insert x (sort le xs), length-sort xs)
