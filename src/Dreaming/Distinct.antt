-- ===== src/Dreaming/Distinct.antt =====
-- Lists without a repeated entry: sorted, selected from, and put together by a part of their entries.
use copilot_mempalace.Prelude.{
  ◌≡◌, Bool, true, false, ◌||◌, List, [], ◌∷◌, ◌++◌, All, contains, distinct, select, inl, inr,
  refl, sym, subst, arith, ◌==◌, Eq, Bool-cases,
}
use copilot_mempalace.Prelude.Sort.{insert, sort}
use copilot_mempalace.Dreaming.Evidence.{All-contains}

module _ {ℓ} {A : Type ℓ} ⦃e : Eq A⦄ where
  contains-insert :
      (le : A → A → Bool) (a x : A) (xs : List A)
      → contains a (insert le x xs) ≡ (x == a || contains a xs)
  unfolding insert
  contains-insert le a x [] = refl
  contains-insert le a x (y ∷ ys) = ground (arith, contains-insert le a x ys)

  pub contains-sort :
      (le : A → A → Bool) (a : A) (xs : List A) → contains a (sort le xs) ≡ contains a xs
  unfolding sort
  contains-sort le a [] = refl
  contains-sort le a (x ∷ xs) =
      ground (arith, contains-insert le a x (sort le xs), contains-sort le a xs)

  distinct-insert :
      (le : A → A → Bool) (x : A) (xs : List A)
      → contains x xs ≡ false
      → distinct xs ≡ true
      → distinct (insert le x xs) ≡ true
  unfolding insert
  distinct-insert le x [] h d = refl
  distinct-insert le x (y ∷ ys) h d =
      ground
        (arith, contains-insert le y x ys, distinct-insert le x ys, e.same_iff x y, e.same_iff y x)

  pub distinct-sort :
      (le : A → A → Bool) (xs : List A) → distinct xs ≡ true → distinct (sort le xs) ≡ true
  unfolding sort
  distinct-sort le [] d = refl
  distinct-sort le (x ∷ xs) d =
      ground (arith, contains-sort le x xs, distinct-sort le xs, distinct-insert le x (sort le xs))

  contains-select :
      (test : A → Bool) (a : A) (xs : List A)
      → contains a xs ≡ false
      → contains a (select test xs) ≡ false
  contains-select test a [] h = refl
  contains-select test a (x ∷ xs) h = ground (arith, contains-select test a xs)

  pub distinct-select :
      (test : A → Bool) (xs : List A) → distinct xs ≡ true → distinct (select test xs) ≡ true
  distinct-select test [] d = refl
  distinct-select test (x ∷ xs) d =
      ground (arith, contains-select test x xs, distinct-select test xs)

  contains-append :
      (a : A) (xs ys : List A) → contains a (xs ++ ys) ≡ (contains a xs || contains a ys)
  contains-append a [] ys = refl
  contains-append a (x ∷ xs) ys = ground (arith, contains-append a xs ys)

-- Lists whose entries all have one part, in front of a list of entries with other parts.
module _ {ℓ κ} {A : Type ℓ} {B : Type κ} ⦃e : Eq A⦄ ⦃d : Eq B⦄ (part : A → B) where
  abbrev pub PartIs : B → List A → Type κ
  PartIs m xs = All (λ x. part x ≡ m) xs

  abbrev pub PartsIn : List B → List A → Type 0
  PartsIn parts ys = All (λ y. contains (part y) parts ≡ true) ys

  pub PartsIn-cons :
      (m : B) (parts : List B) (ys : List A) → PartsIn parts ys → PartsIn (m ∷ parts) ys
  PartsIn-cons m parts [] h = tt
  PartsIn-cons m parts (y ∷ ys) h = (ground (arith, h.0), PartsIn-cons m parts ys h.1)

  pub PartsIn-append :
      (m : B) (parts : List B) (xs ys : List A)
      → PartIs m xs
      → PartsIn parts ys
      → PartsIn (m ∷ parts) (xs ++ ys)
  PartsIn-append m parts [] ys h k = PartsIn-cons m parts ys k
  PartsIn-append m parts (x ∷ xs) ys h k =
      (ground (arith, d.same_iff m (part x), sym h.0), PartsIn-append m parts xs ys h.1 k)

  pub apart :
      (m : B) (parts : List B) (x : A) (ys : List A)
      → part x ≡ m
      → PartsIn parts ys
      → contains m parts ≡ false
      → contains x ys ≡ false
  apart m parts x ys h k f = elim (Bool-cases (contains x ys)) [
    | inr c ↦ c
    | inl c ↦
        let there = All-contains (λ y. contains (part y) parts ≡ true) x ys k c in
        absurd (let here = subst (λ n. contains n parts ≡ true) h there in cc)
  ]

  pub distinct-append :
      (m : B) (parts : List B) (xs ys : List A)
      → PartIs m xs
      → PartsIn parts ys
      → contains m parts ≡ false
      → distinct xs ≡ true
      → distinct ys ≡ true
      → distinct (xs ++ ys) ≡ true
  distinct-append m parts [] ys h k f d1 d2 = d2
  distinct-append m parts (x ∷ xs) ys h k f d1 d2 = ground (
    arith,
    contains-append x xs ys,
    apart m parts x ys h.0 k f,
    distinct-append m parts xs ys h.1 k f,
  )
