-- ===== src/Domain/Claim/Fencing.antt =====
-- The resources that a claim reserves, and what releasing them gives back.
use copilot_mempalace.Prelude.{
  ℕ, ◌+◌, ◌≡◌, inl, inr, String, true, false, Option, some, none, List, [], ◌∷◌, arith, refl, ap,
  ◌∙◌, contains, distinct, eq_refl, string_eq, Bool-cases, ◌==◌, eq_of_==,
}
use copilot_mempalace.Prelude.Dict.{Dict, get-put}
use copilot_mempalace.Prelude.Dict
use copilot_mempalace.Model.{ok, ◌>>=◌, require, or_fail}
use copilot_mempalace.Model.Ensures.{Ensures, Ensures-ok, Ensures-require, Ensures-or_fail}
use copilot_mempalace.Domain.Records.{Resource, Reservation}
use copilot_mempalace.Domain.Checks.{is_none}
use copilot_mempalace.Domain.Claim.{reserve, resource_at, reserved}
use copilot_mempalace.Domain.Attempts.{release_keys, holds}

-- At one key: it was free, and is now reserved under the next counter, which is its fence; or it is
-- not among the keys, and nothing changed.
pub data ReservedAt (own : Reservation) (keys : List String) (resources : Dict Resource)
    (fences : Dict ℕ) (j : String) (after : Dict Resource × Dict ℕ) : Type 0 where
  taken :
      contains j keys ≡ true
      → (resource_at resources j).reservation ≡ none
      → Dict.get j after.0 ≡ some (reserved (resource_at resources j) own)
      → Dict.get j after.1 ≡ some ((resource_at resources j).counter + 1)
      → ReservedAt own keys resources fences j after
  kept :
      contains j keys ≡ false
      → Dict.get j after.0 ≡ Dict.get j resources
      → Dict.get j after.1 ≡ Dict.get j fences
      → ReservedAt own keys resources fences j after

is_none_eq {ℓ} : {A : Type ℓ} (o : Option A) → is_none o ≡ true → o ≡ none
is_none_eq none h = refl
is_none_eq (some a) h = cc

reserve_step :
    (own : Reservation) (key : String) (rest : List String) (resources : Dict Resource)
    (fences : Dict ℕ) (j : String) (after : Dict Resource × Dict ℕ)
    → is_none (resource_at resources key).reservation ≡ true
    → ReservedAt own rest
        (Dict.put key (reserved (resource_at resources key) own) resources)
        (Dict.put key ((resource_at resources key).counter + 1) fences)
        j
        after
    → ReservedAt own (key ∷ rest) resources fences j after
reserve_step own key rest resources fences j after free (taken c f r g) =
    let here = get-put key j (reserved (resource_at resources key) own) resources in
    elim (Bool-cases (key == j)) [
      | inl e ↦ absurd (ground (arith, here, e))
      | inr e ↦
          taken (ground arith) (ground (arith, here)) (ground (arith, here)) (ground (arith, here))
    ]
reserve_step own key rest resources fences j after free (kept c r g) =
    let here = get-put key j (reserved (resource_at resources key) own) resources in
    let fence = get-put key j ((resource_at resources key).counter + 1) fences in
    elim (Bool-cases (key == j)) [
      | inl e ↦
          let same : key ≡ j = eq_of_== e in
          taken (ground arith) (rw (← same) (is_none_eq _ free)) (r ∙ here ∙ rw (e, same) refl)
            (g ∙ fence ∙ rw (e, same) refl)
      | inr e ↦ kept (ground arith) (ground (arith, here)) (ground (arith, fence))
    ]

reserve-Ensures :
    (own : Reservation) (keys : List String) (resources : Dict Resource) (fences : Dict ℕ)
    (j : String)
    → Ensures (ReservedAt own keys resources fences j) (reserve own keys resources fences)
unfolding reserve
reserve-Ensures own [] resources fences j = Ensures-ok _ (kept refl refl refl)
reserve-Ensures own (key ∷ rest) resources fences j = Ensures-require _ _ _ λ free. record {
  at = λ after e.
      reserve_step own key rest resources fences j after free
        ((reserve-Ensures own rest _ _ j).at after e);
}

-- A claim's reservation succeeds only on free resources. Each reserved key's counter is one more
-- than before, which is the fence that the attempt is given for it; all else stays.
pub reserve-ReservedAt :
    (own : Reservation) (keys : List String) (resources : Dict Resource) (fences : Dict ℕ)
    (j : String) (after : Dict Resource × Dict ℕ)
    → reserve own keys resources fences ≡ ok after
    → ReservedAt own keys resources fences j after
reserve-ReservedAt own keys resources fences j after =
    (reserve-Ensures own keys resources fences j).at after

-- At one key: the owner's reservation is gone and the counter stays; or the key is not listed.
pub data ReleasedAt (own : Reservation) (keys : List String) (resources : Dict Resource)
    (j : String) (after : Dict Resource) : Type 0 where
  freed :
      (r : Resource)
      → contains j keys ≡ true
      → Dict.get j resources ≡ some r
      → holds r.reservation own ≡ true
      → Dict.get j after ≡ some (record r { reservation = none })
      → ReleasedAt own keys resources j after
  untouched :
      contains j keys ≡ false
      → Dict.get j after ≡ Dict.get j resources
      → ReleasedAt own keys resources j after

release_step :
    (own : Reservation) (key : String) (rest : List String) (resources : Dict Resource) (j : String)
    (after : Dict Resource) (r : Resource)
    → Dict.get key resources ≡ some r
    → holds r.reservation own ≡ true
    → ReleasedAt own rest (Dict.put key (record r { reservation = none }) resources) j after
    → ReleasedAt own (key ∷ rest) resources j after
release_step own key rest resources j after r e held (freed q c g h a) =
    let here = get-put key j (record r { reservation = none }) resources in
    elim (Bool-cases (key == j)) [
      | inl same ↦ absurd (ground (arith, here, same))
      | inr other ↦ freed q (ground arith) (ground (arith, here)) h a
    ]
release_step own key rest resources j after r e held (untouched c a) =
    let here = get-put key j (record r { reservation = none }) resources in
    elim (Bool-cases (key == j)) [
      | inl same ↦
          let p : key ≡ j = eq_of_== same in
          freed r (ground arith) (rw (← p) e) held (a ∙ here ∙ rw same refl)
      | inr other ↦ untouched (ground arith) (ground (arith, here))
    ]

release-Ensures :
    (own : Reservation) (keys : List String) (resources : Dict Resource) (j : String)
    → Ensures (ReleasedAt own keys resources j) (release_keys own keys resources)
unfolding release_keys
release-Ensures own [] resources j = Ensures-ok _ (untouched refl refl)
release-Ensures own (key ∷ rest) resources j = Ensures-or_fail _ _ _ λ r e.
    Ensures-require _ _ _ λ held. record {
      at = λ after q.
          release_step own key rest resources j after r e held
            ((release-Ensures own rest _ j).at after q);
    }

-- A release frees exactly the listed keys, each of which the owner held; no counter ever falls.
pub release_keys-ReleasedAt :
    (own : Reservation) (keys : List String) (resources : Dict Resource) (j : String)
    (after : Dict Resource)
    → release_keys own keys resources ≡ ok after
    → ReleasedAt own keys resources j after
release_keys-ReleasedAt own keys resources j after = (release-Ensures own keys resources j).at after

-- Every listed key is held by the owner.
abbrev IsHeld : Reservation → List String → Dict Resource → Type 0
IsHeld own keys resources =
    (j : String)
    → contains j keys ≡ true
    → (r : Resource) × (Dict.get j resources ≡ some r) × (holds r.reservation own ≡ true)

apart :
    (key j : String) (rest : List String)
    → contains key rest ≡ false
    → contains j rest ≡ true
    → (key == j) ≡ false
apart key j rest out listed = elim (Bool-cases (key == j)) [
  | inl e ↦ let p : key ≡ j = eq_of_== e in cc (ap (λ k. contains k rest) p)
  | inr e ↦ e
]

still :
    (key j : String) (r : Resource) (resources : Dict Resource) {q : Resource}
    → (key == j) ≡ false
    → Dict.get j resources ≡ some q
    → Dict.get j (Dict.put key r resources) ≡ some q
still key j r resources e f = get-put key j r resources ∙ rw e f

release_total :
    (own : Reservation) (keys : List String) (resources : Dict Resource)
    → distinct keys ≡ true
    → IsHeld own keys resources
    → (after : Dict Resource) × (release_keys own keys resources ≡ ok after)
unfolding release_keys ◌>>=◌ require or_fail
release_total own [] resources d held = (resources, refl)
release_total own (key ∷ rest) resources d held =
    let (r, e, h) = held key (ground (arith, eq_refl key)) in
    let (after, p) =
      release_total own rest (Dict.put key (record r { reservation = none }) resources)
        (ground arith)
        (λ j c.
          let (q, f, g) = held j (ground arith) in
          (q, still key j _ resources (apart key j rest (ground arith) c) f, g)) in
    (after, rw (e, h) p)

reserve_step-distinct :
    (own : Reservation) (key : String) (rest : List String) (resources : Dict Resource)
    (fences : Dict ℕ) (after : Dict Resource × Dict ℕ)
    → distinct rest ≡ true
    → ReservedAt own rest
        (Dict.put key (reserved (resource_at resources key) own) resources)
        fences
        key
        after
    → distinct (key ∷ rest) ≡ true
reserve_step-distinct own key rest resources fences after d (taken c f r g) = absurd (
    ground
      (arith, get-put key key (reserved (resource_at resources key) own) resources, eq_refl key))
reserve_step-distinct own key rest resources fences after d (kept c r g) = ground arith

reserve-distinct :
    (own : Reservation) (keys : List String) (resources : Dict Resource) (fences : Dict ℕ)
    → Ensures (λ after. distinct keys ≡ true) (reserve own keys resources fences)
unfolding reserve
reserve-distinct own [] resources fences = Ensures-ok _ refl
reserve-distinct own (key ∷ rest) resources fences = Ensures-require _ _ _ λ free. record {
  at = λ after e.
      reserve_step-distinct own key rest resources _ after
        ((reserve-distinct own rest _ _).at after e)
        ((reserve-Ensures own rest _ _ key).at after e);
}

holds_self : (own : Reservation) → holds (some own) own ≡ true
holds_self own = ground (arith, eq_refl own.task_id, eq_refl own.attempt_id)

held_after :
    (own : Reservation) (keys : List String) (resources : Dict Resource) (fences : Dict ℕ)
    (j : String) (after : Dict Resource × Dict ℕ)
    → contains j keys ≡ true
    → ReservedAt own keys resources fences j after
    → (r : Resource) × (Dict.get j after.0 ≡ some r) × (holds r.reservation own ≡ true)
held_after own keys resources fences j after listed (taken c f r g) =
    (reserved (resource_at resources j) own, r, holds_self own)
held_after own keys resources fences j after listed (kept c r g) = cc

-- What an attempt reserved it can always give back: releasing the same keys for the same owner
-- succeeds after a reservation that did.
pub release-reserve :
    (own : Reservation) (keys : List String) (resources : Dict Resource) (fences : Dict ℕ)
    (reserved_state : Dict Resource × Dict ℕ)
    → reserve own keys resources fences ≡ ok reserved_state
    → (after : Dict Resource) × (release_keys own keys reserved_state.0 ≡ ok after)
release-reserve own keys resources fences reserved_state e =
    release_total own keys reserved_state.0
      ((reserve-distinct own keys resources fences).at reserved_state e)
      (λ j c.
        held_after own keys resources fences j reserved_state c
          ((reserve-Ensures own keys resources fences j).at reserved_state e))
