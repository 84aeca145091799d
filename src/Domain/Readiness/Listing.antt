-- ===== src/Domain/Readiness/Listing.antt =====
-- What the list of ready tasks holds.
use copilot_mempalace.Prelude.{
  ℕ, ◌≡◌, ◌≤◌, ◌<◌, ◌/◌, ◌%◌, ◌⊎◌, inl, inr, Bool, true, List, [], ◌∷◌, arith, nat_eq, All, take,
  length, is_empty, zero, suc, Bool-cases,
}
use copilot_mempalace.Prelude.Sort.{sort, IsSorted, sort-IsSorted}
use copilot_mempalace.Prelude.Every.{All-sort}
use copilot_mempalace.Prelude.Text.{text_le, text_le_total}
use copilot_mempalace.Model.{ok, second}
use copilot_mempalace.Model.Ensures.{Ensures, Ensures-bind, Ensures-ok, Ensures-if, integer-range}
use copilot_mempalace.Domain.Records.{Task, State}
use copilot_mempalace.Domain.Checks.{get_or}
use copilot_mempalace.Domain.Readiness.{
  Filters, ready_tasks, ready_among, ready_before, selects, stamp_rank,
}
use copilot_mempalace.Domain.Readiness.Conditions.{IsReady, task_eligibility-IsReady}

ready_before_total : (a b : Task) → (ready_before a b ≡ true) ⊎ (ready_before b a ≡ true)
unfolding ready_before
ready_before_total a b = ground (arith, text_le_total a.id b.id)

-- The text of one instant is below that of another: it is of an earlier second, or it is of the same
-- second with a fraction, while the other has a later fraction or none.
abbrev pub IsEarlierText : ℕ → ℕ → Type 0
IsEarlierText s t =
    (s / second < t / second)
    ⊎ ((s / second ≡ t / second)
        × ((0 < s % second) × ((t % second ≡ 0) ⊎ (s % second < t % second))))

-- The order of the list: by priority, then by the text of the time of creation, then by id.
abbrev pub Precedes : Task → Task → Type 0
Precedes a b =
    (a.priority < b.priority)
    ⊎ ((a.priority ≡ b.priority)
        × (IsEarlierText a.created_at b.created_at
            ⊎ ((a.created_at ≡ b.created_at) × (text_le a.id b.id ≡ true))))

abbrev pub IsOrdered : List Task → Type 0
IsOrdered [] = Unit
IsOrdered (x ∷ []) = Unit
IsOrdered (x ∷ y ∷ ys) = Precedes x y × IsOrdered (y ∷ ys)

stamp_rank-IsEarlierText : (s t : ℕ) → stamp_rank s < stamp_rank t → IsEarlierText s t
unfolding stamp_rank
stamp_rank-IsEarlierText s t h = ground arith

stamp_rank-inj : (s t : ℕ) → stamp_rank s ≡ stamp_rank t → s ≡ t
unfolding stamp_rank
stamp_rank-inj s t h = ground arith

ready_before-Precedes : (a b : Task) → ready_before a b ≡ true → Precedes a b
unfolding ready_before
ready_before-Precedes a b h = ground (
  arith,
  stamp_rank-IsEarlierText a.created_at b.created_at,
  stamp_rank-inj a.created_at b.created_at,
)

sorted-IsOrdered : (ts : List Task) → IsSorted ready_before ts → IsOrdered ts
sorted-IsOrdered [] h = tt
sorted-IsOrdered (x ∷ []) h = tt
sorted-IsOrdered (x ∷ y ∷ ys) h = (ready_before-Precedes x y h.0, sorted-IsOrdered (y ∷ ys) h.1)

module _ {ℓ κ} {A : Type ℓ} (P : A → Type κ) where
  All-take : (n : ℕ) (xs : List A) → All P xs → All P (take n xs)
  All-take zero xs h = tt
  All-take (suc n) [] h = tt
  All-take (suc n) (x ∷ xs) h = (h.0, All-take n xs h.1)

IsSorted-take {ℓ} :
    {A : Type ℓ} (le : A → A → Bool) (n : ℕ) (xs : List A)
    → IsSorted le xs
    → IsSorted le (take n xs)
IsSorted-take le zero xs h = tt
IsSorted-take le (suc n) [] h = tt
IsSorted-take le (suc zero) (x ∷ xs) h = tt
IsSorted-take le (suc (suc n)) (x ∷ []) h = tt
IsSorted-take le (suc (suc n)) (x ∷ y ∷ ys) h = (h.0, IsSorted-take le (suc n) (y ∷ ys) h.1)

length-take {ℓ} : {A : Type ℓ} (n : ℕ) (xs : List A) → length (take n xs) ≤ n
length-take zero xs = omega arith
length-take (suc n) [] = omega arith
length-take (suc n) (x ∷ xs) = omega (arith, length-take n xs)

-- The task is ready and selected.
abbrev pub Qualifies : State → Filters → ℕ → Task → Type 0
Qualifies state f at t = IsReady state t at × (selects f (get_or f.priority_ceiling 4) t ≡ true)

among-Ensures :
    (state : State) (f : Filters) (at : ℕ) (ts : List Task)
    → Ensures (All (Qualifies state f at)) (ready_among state f (get_or f.priority_ceiling 4) at ts)
unfolding ready_among
among-Ensures state f at [] = Ensures-ok _ tt
among-Ensures state f at (t ∷ rest) =
    Ensures-if (selects f (get_or f.priority_ceiling 4) t) _ _
      (λ chosen. Ensures-bind _ _ λ reasons e. Ensures-bind _ _ λ ts r.
        let others = (among-Ensures state f at rest).at ts r in
        elim (Bool-cases (is_empty reasons)) [
          | inl ready ↦
              rw ready (
                Ensures-ok _
                  ((task_eligibility-IsReady state t at reasons e ready, chosen), others))
          | inr not_ready ↦ rw not_ready (Ensures-ok _ others)
        ])
      (λ _. among-Ensures state f at rest)

-- A list of ready tasks.
pub record IsListing (state : State) (f : Filters) (at : ℕ) (ts : List Task) : Type 0 where
  pub qualified : All (Qualifies state f at) ts
  pub ordered : IsOrdered ts
  pub within : length ts ≤ get_or f.limit 100
  pub bounded : length ts ≤ 500

IsListing-Ensures :
    (state : State) (f : Filters) (at : ℕ) → Ensures (IsListing state f at) (ready_tasks state f at)
unfolding ready_tasks
IsListing-Ensures state f at = Ensures-bind _ _ λ _ _. Ensures-bind _ _ λ _ _.
    Ensures-bind _ _ λ _ _. Ensures-bind _ _ λ u limited. Ensures-bind _ _ λ _ _.
      Ensures-bind _ _ λ found e. Ensures-ok _ (record {
        qualified = All-take _ _ _ (All-sort _ _ _ ((among-Ensures state f at _).at found e));
        ordered =
            sorted-IsOrdered _
              (IsSorted-take _ _ _ (sort-IsSorted ready_before ready_before_total found));
        within = length-take _ _;
        bounded = omega (
          arith,
          length-take (get_or f.limit 100) (sort ready_before found),
          (integer-range (get_or f.limit 100) 1 500).at u limited,
        );
      })

-- The list of ready tasks holds ready tasks of the filters only, by priority, then by the text
-- of the time of creation, in which a whole second comes after its fractions, then by id, and no more
-- of them than the limit, which is 500 at most.
pub ready_tasks-IsListing :
    (state : State) (f : Filters) (at : ℕ) (ts : List Task)
    → ready_tasks state f at ≡ ok ts
    → IsListing state f at ts
ready_tasks-IsListing state f at ts = (IsListing-Ensures state f at).at ts
