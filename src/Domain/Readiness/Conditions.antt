-- ===== src/Domain/Readiness/Conditions.antt =====
-- What it means that task_eligibility gives no reason against a task.
use copilot_mempalace.Prelude.{
  ℕ, ◌≡◌, ◌⊎◌, ◌≤◌, inl, inr, String, Bool, true, false, not, ◌&&◌, Option, none, some, List, [],
  ◌∷◌, ◌++◌, arith, ◌==◌, ◌!=◌, nat_eq, string_eq, refl, All, is_empty, eq_of_==,
}
use copilot_mempalace.Prelude.Dict.{Dict}
use copilot_mempalace.Prelude.Dict
use copilot_mempalace.Model.{ok}
use copilot_mempalace.Model.Ensures.{Ensures, Ensures-bind, Ensures-ok, Ensures-or_fail, Ensures-if}
use copilot_mempalace.Domain.Types.{Kind, kind_eq, status_eq, edge_type_eq, opened, closed, blocks}
use copilot_mempalace.Domain.Records.{Task, Edge, State, Resource}
use copilot_mempalace.Domain.Checks.{is_none}
use copilot_mempalace.Domain.Readiness.{
  Reason, task_eligibility, wait_reasons, blockers, own_reasons, busy_resources, reserved_by,
  before, each, when, busy,
}

-- The edge is no blocker of the task, or its source is closed.
abbrev pub Unblocks : Dict Task → String → Edge → Type 0
Unblocks tasks id e =
    ((e.edge_type == blocks && e.target == id) ≡ false)
    ⊎ ((source : Task) × (Dict.get e.source tasks ≡ some source) × (source.status ≡ closed))

abbrev pub IsFree : Dict Resource → String → Type 0
IsFree resources key = reserved_by (Dict.get key resources) ≡ none

-- The time has come, if one is set.
abbrev pub Passed : ℕ → Option ℕ → Type 0
Passed at none = Unit
Passed at (some until) = until ≤ at

pub record IsReady (state : State) (t : Task) (at : ℕ) : Type 0 where
  pub leaf : t.kind ≡ Kind.task
  pub open_status : t.status ≡ opened
  pub unassigned : t.assignee ≡ none
  pub is_admitted : t.admitted ≡ true
  pub not_held : t.hold_reason ≡ none
  pub not_deferred : Passed at t.deferred_until
  pub unblocked : All (Unblocks state.tasks t.id) state.edges
  pub recovered : t.recovery ≡ none
  pub backed_off : Passed at t.retry_not_before
  pub free : All (IsFree state.resources) t.resource_keys

empty_append {ℓ} :
    {A : Type ℓ} (xs ys : List A)
    → is_empty (xs ++ ys) ≡ true
    → (is_empty xs ≡ true) × (is_empty ys ≡ true)
empty_append [] ys h = (refl, h)
empty_append (x ∷ xs) ys h = cc

not_when : (b : Bool) (r : Reason) → is_empty (when b r) ≡ true → b ≡ false
not_when b r h = ground arith

none-each : (o : Option String) (f : String → Reason) → is_empty (each o f) ≡ true → o ≡ none
none-each none f h = refl
none-each (some s) f h = cc

Passed-before :
    (at : ℕ) (o : Option ℕ) (f : ℕ → Reason) → is_empty (before at o f) ≡ true → Passed at o
Passed-before at none f h = tt
Passed-before at (some until) f h = ground arith

not-not : (b : Bool) → not b ≡ false → b ≡ true
not-not b h = ground arith

blockers-Ensures :
    (tasks : Dict Task) (id : String) (edges : List Edge)
    → Ensures (λ rs. is_empty rs ≡ true → All (Unblocks tasks id) edges) (blockers tasks id edges)
unfolding blockers
blockers-Ensures tasks id [] = Ensures-ok _ (λ _. tt)
blockers-Ensures tasks id (e ∷ rest) = Ensures-bind _ _ λ more m.
    Ensures-if _ _ _
      (λ relevant. Ensures-or_fail _ _ _ λ source found. Ensures-ok _ λ h.
        let (quiet, others) = empty_append _ more h in
        (
          inr (source, found, eq_of_== (not-not _ (not_when _ _ quiet))),
          (blockers-Ensures tasks id rest).at more m others,
        ))
      (λ irrelevant.
        Ensures-ok _ λ h. (inl irrelevant, (blockers-Ensures tasks id rest).at more m h))

busy-IsFree :
    (resources : Dict Resource) (names : List String)
    → is_empty (busy_resources resources names) ≡ true
    → All (IsFree resources) names
unfolding busy_resources
busy-IsFree resources [] h = tt
busy-IsFree resources (key ∷ rest) h =
    let (quiet, others) =
      empty_append (busy key (reserved_by (Dict.get key resources))) (busy_resources resources rest)
        h in
    (ground arith, busy-IsFree resources rest others)

wait_reasons-Ensures :
    (state : State) (t : Task) (at : ℕ)
    → Ensures
        (λ rs.
          is_empty rs ≡ true
          → (t.hold_reason ≡ none)
            × Passed at t.deferred_until
            × All (Unblocks state.tasks t.id) state.edges)
        (wait_reasons state t at)
unfolding wait_reasons
wait_reasons-Ensures state t at = Ensures-bind _ _ λ blocking b. Ensures-ok _ λ h.
    let (a, h₁) = empty_append _ _ h in
    let (c, h₂) = empty_append _ _ h₁ in
    (none-each _ _ a, Passed-before at _ _ c, (blockers-Ensures _ _ _).at blocking b h₂)

own_ready :
    (t : Task)
    → is_empty (own_reasons t) ≡ true
    → (t.kind ≡ Kind.task) × (t.status ≡ opened) × (t.assignee ≡ none) × (t.admitted ≡ true)
unfolding own_reasons
own_ready t h =
    let (a, h₁) = empty_append (when (t.kind != Kind.task) _) _ h in
    let (b, h₂) = empty_append (when (t.status != opened) _) _ h₁ in
    let (c, h₃) = empty_append (each t.assignee _) _ h₂ in
    (
      eq_of_== (not-not _ (not_when _ _ a)),
      eq_of_== (not-not _ (not_when _ _ b)),
      none-each _ _ c,
      not-not _ (not_when _ _ h₃),
    )

eligibility-Ensures :
    (state : State) (t : Task) (at : ℕ)
    → Ensures (λ rs. is_empty rs ≡ true → IsReady state t at) (task_eligibility state t at)
unfolding task_eligibility
eligibility-Ensures state t at = Ensures-bind _ _ λ waiting w. Ensures-bind _ _ λ of_goal _.
    Ensures-bind _ _ λ config _. Ensures-ok _ λ h.
      let (own, h₁) = empty_append (own_reasons t) _ h in
      let (wait, h₂) = empty_append waiting _ h₁ in
      let (recovery, h₃) = empty_append (when (not (is_none t.recovery)) _) _ h₂ in
      let (backoff, h₄) = empty_append (before at t.retry_not_before _) _ h₃ in
      let (_, h₅) = empty_append of_goal _ h₄ in
      let (busy, _) = empty_append (busy_resources state.resources t.resource_keys) _ h₅ in
      let (leaf, status, unassigned, admitted) = own_ready t own in
      let (held, deferred, unblocked) = (wait_reasons-Ensures state t at).at waiting w wait in
      record {
        leaf = leaf;
        open_status = status;
        unassigned = unassigned;
        is_admitted = admitted;
        not_held = held;
        not_deferred = deferred;
        unblocked = unblocked;
        recovered = ground arith;
        backed_off = Passed-before at _ _ backoff;
        free = busy-IsFree state.resources t.resource_keys busy;
      }

-- A task that is given no reason at a time is an open, admitted leaf with no assignee and no
-- recovery; nothing holds or defers it, every task that blocks it is closed, its backoff is over and
-- its resources are free.
pub task_eligibility-IsReady :
    (state : State) (t : Task) (at : ℕ) (reasons : List Reason)
    → task_eligibility state t at ≡ ok reasons
    → is_empty reasons ≡ true
    → IsReady state t at
task_eligibility-IsReady state t at reasons = (eligibility-Ensures state t at).at reasons
