-- ===== src/Domain/Lifecycle.antt =====
-- The lifecycle invariant of managed tasks, which validate_state of
-- sidecar/src/mempalace_tasks/domain.py checks on a serialized state: which of a task's fields are
-- there in which status.
pub mod Steps
pub mod Operations
pub mod Settling
pub mod Endings
use copilot_mempalace.Prelude.{
  ℕ, ◌≡◌, String, Bool, true, false, not, ◌||◌, Option, none, some, ◌==◌, nat_eq,
}
use copilot_mempalace.Prelude.Dict
use copilot_mempalace.Prelude.Dict.{get-put_self}
use copilot_mempalace.Domain.Types.{
  Status, AttemptStatus, status_eq, in_progress, recovering, quarantined, closed, cancelled,
  preparing, running, settled,
}
use copilot_mempalace.Domain.Records.{Task, State, Attempt}
use copilot_mempalace.Domain.Checks.{is_none}
use copilot_mempalace.Domain.Inputs.{save}

-- preparing, running or settled
abbrev pub is_active : AttemptStatus → Bool
is_active preparing = true
is_active running = true
is_active settled = true
is_active _ = false

-- A task in progress has an active attempt, and no other task has one.
abbrev pub attempt_fits : Status → Option Attempt → Bool
attempt_fits Status.in_progress none = false
attempt_fits Status.in_progress (some a) = is_active a.status
attempt_fits _ none = true
attempt_fits _ (some a) = not (is_active a.status)

pub record IsConsistent (t : Task) : Type 0 where
  pub assigned : is_none t.assignee ≡ not (t.status == in_progress)
  pub leased : is_none t.lease_expires_at ≡ not (t.status == in_progress)
  pub recovers : is_none t.recovery ≡ not (t.status == recovering || t.status == quarantined)
  pub escalated : is_none t.escalation ≡ not (t.status == quarantined)
  pub completes : is_none t.completion ≡ not (t.status == closed)
  pub cancels : is_none t.cancellation_reason ≡ not (t.status == cancelled)
  pub attempted : is_none t.attempt ≡ (t.claim_generation == 0)
  pub fits : attempt_fits t.status t.attempt ≡ true

-- The state has a task of the id, and it satisfies the predicate.
pub record Stores (P : Task → Type 0) (id : String) (state : State) : Type 0 where
  pub stored : Task
  pub found : Dict.get id state.tasks ≡ some stored
  pub meets : P stored

pub Stores-save :
    (P : Task → Type 0) (state : State) (t : Task) → P t → Stores P t.id (save state t)
unfolding save
Stores-save P state t p = record { stored = t; found = get-put_self t.id t state.tasks; meets = p }
