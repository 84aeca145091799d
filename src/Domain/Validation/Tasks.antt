-- ===== src/Domain/Validation/Tasks.antt =====
-- The loop of validate_state over the tasks, on a managed task
-- (sidecar/src/mempalace_tasks/domain.py).
use copilot_mempalace.Prelude.{
  String, true, not, ◌&&◌, ◌||◌, Option, none, some, leb, ◌==◌, string_eq, nat_eq, option_eq,
}
use copilot_mempalace.Prelude.Text.{has_uuid}
use copilot_mempalace.Prelude.Dict
use copilot_mempalace.Model.{
  Result, ok, ◌>>=◌, ◌>>◌, require, text, byte_text, integer, instant, max_integer,
  validation_error,
}
use copilot_mempalace.Domain.Types.{
  Kind, in_progress, closed, cancelled, opened, status_eq, kind_eq,
}
use copilot_mempalace.Domain.Records.{Task, State, Completion, GoalPolicy}
use copilot_mempalace.Domain.Checks.{
  all_overrides, any_goal_of, configured, is_none, same_flag, same_policy, strings,
}
use copilot_mempalace.Domain.Inputs.{check_task_input}
use copilot_mempalace.Domain.Validation.Attempts.{validate_attempt, validate_recovery}

-- The id under which the task is stored, its content and its policy.
unfoldable pub content_check : State → String → Task → Result (Unit {0})
content_check state id t = do
  require (id == t.id && has_uuid "tsk_" id) validation_error
  normalized ← check_task_input state t (all_overrides t.policy)
  require (same_policy t.policy normalized.policy) validation_error

-- Its counters and its times.
unfoldable pub history_check : State → Task → Result (Unit {0})
history_check state t = do
  integer t.version 1 max_integer
  integer t.claim_generation 0 max_integer
  integer t.lease_revision 0 max_integer
  integer t.automatic_retries_used 0 max_integer
  integer t.retry_budget_granted 0 max_integer
  integer t.graph_revision 0 max_integer
  last ← instant state.last_event_at
  require (leb t.created_at t.updated_at && leb t.updated_at last) validation_error

unfoldable completion_check : State → Option Completion → Result (Unit {0})
completion_check state none = ok tt
completion_check state (some c) = do
  byte_text c.summary 8192
  strings c.evidence 20 true 2048
  text c.actor 256
  config ← configured state
  require (Dict.has c.actor config.actors) validation_error

unfoldable cancellation_check : Option String → Result (Unit {0})
cancellation_check none = ok tt
cancellation_check (some reason) = byte_text reason 8192

-- Who ended it, and how.
unfoldable pub ending_check : State → Task → Result (Unit {0})
unfolding completion_check cancellation_check
ending_check state t = do
  require (same_flag (not (is_none t.completion)) (t.status == closed)) validation_error
  completion_check state t.completion
  require (same_flag (not (is_none t.cancellation_reason)) (t.status == cancelled)) validation_error
  cancellation_check t.cancellation_reason

unfoldable root_check : String → Task → Option GoalPolicy → Result (Unit {0})
root_check id t none = require (not t.sealed && t.graph_revision == 0) validation_error
root_check id t (some p) = do
  require
      (t.kind == Kind.epic
        && t.goal_id == some id
        && same_flag t.sealed (t.status == closed)
        && (t.status == opened || t.status == closed))
      validation_error
  byte_text p.scope 8192
  integer p.max_tasks 1 10000
  integer p.max_batch 1 50
  require (leb 1 t.graph_revision) validation_error

unfoldable membership_check : State → Task → Option String → Result (Unit {0})
membership_check state t none = ok tt
membership_check state t (some goal_id) = do
  goal ← any_goal_of state goal_id
  require (goal.project == t.project) validation_error

-- Its place in a goal, or the goal that it is.
unfoldable pub goal_place_check : State → String → Task → Result (Unit {0})
unfolding root_check membership_check
goal_place_check state id t = do root_check id t t.goal_policy; membership_check state t t.goal_id

-- The body of the loop, for a task without native fields.
unfoldable pub validate_task : State → String → Task → Result (Unit {0})
validate_task state id t = do
  content_check state id t
  history_check state t
  require (same_flag (not (is_none t.assignee)) (t.status == in_progress)) validation_error
  require (is_none t.native) validation_error
  require (same_flag (not (is_none t.lease_expires_at)) (t.status == in_progress)) validation_error
  validate_attempt state t
  validate_recovery t
  ending_check state t
  goal_place_check state id t
