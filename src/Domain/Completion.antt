-- ===== src/Domain/Completion.antt =====
-- _complete for managed tasks, _goal_policy and _close_goal of
-- sidecar/src/mempalace_tasks/domain.py.
use copilot_mempalace.Prelude.{
  ℕ, ◌+◌, String, Bool, true, false, not, ◌&&◌, ◌||◌, Option, none, some, List, [], ◌∷◌, ◌==◌, ◌!=◌,
  any, all, is_empty, select, string_eq, option_eq, if◌then◌else◌,
}
use copilot_mempalace.Prelude.Dict.{Dict, values}
use copilot_mempalace.Prelude.Dict
use copilot_mempalace.Model.{
  Result, ok, ◌>>=◌, ◌>>◌, require, or_fail, byte_text, validation_error, not_ready, not_owner,
  invalid_transition, recovery_required, key_error,
}
use copilot_mempalace.Domain.Types.{
  Kind, Status, kind_eq, status_eq, edge_type_eq, class_eq, attempt_status_eq, opened, closed,
  cancelled, running, settled, completed, parent_child, isolated,
}
use copilot_mempalace.Domain.Records.{Task, Edge, State, Resource, Reservation, Attempt}
use copilot_mempalace.Domain.Commands.{CompletionInput, GoalClose, Tokens}
use copilot_mempalace.Domain.Checks.{is_none, strings, admin, goal_of, expected}
use copilot_mempalace.Domain.Inputs.{save}
use copilot_mempalace.Domain.Attempts.{
  live, owner_or_supervisor, settlement_evidence, release_resources,
}
use copilot_mempalace.Domain.Readiness.{wait_reasons}

-- status in TERMINAL
abbrev pub is_terminal : Status → Bool
is_terminal s = s == closed || s == cancelled

-- state.tasks[edge["target"]]["status"] in TERMINAL, for the children of an epic
unfoldable pub children_done : Dict Task → String → List Edge → Result Bool
children_done tasks id [] = ok true
children_done tasks id (e ∷ rest) = do
  more ← children_done tasks id rest
  if e.edge_type == parent_child && e.source == id
      then (do
        child ← or_fail (Dict.get e.target tasks) key_error
        ok (is_terminal child.status && more))
      else ok more

-- text(command.get(...)) of a text that may be missing
unfoldable pub given_text : Option String → Result String
given_text value = do s ← or_fail value validation_error; byte_text s 8192; ok s

unfoldable pub given_evidence : Option (List String) → Result (List String)
given_evidence value = do xs ← or_fail value validation_error; strings xs 20 true 2048; ok xs

-- The gates that every completion passes.
unfoldable pub gates : State → Task → ℕ → Result (Unit {0})
gates state t at = do
  waiting ← wait_reasons state t at
  require (is_empty waiting) not_ready
  require t.admitted not_ready

unfoldable pub settlement_check : Task → Attempt → Result (Unit {0})
settlement_check t attempt = if t.execution_class == some isolated then ok tt else (do
  evidence ← or_fail attempt.settlement recovery_required
  settlement_evidence t.execution_class evidence)

-- The task branch of _complete: the task gives its resources back and its lease up.
unfoldable pub complete_attempt :
    State → Task → CompletionInput → String → ℕ → Result (State × Task)
unfolding gates settlement_check
complete_attempt state t input actor at = do
  live state t input.tokens actor at owner_or_supervisor
  gates state t at
  attempt ← live state t input.tokens actor at owner_or_supervisor
  require (t.assignee == some actor) not_owner
  require (attempt.status == running || attempt.status == settled) invalid_transition
  settlement_check t attempt
  released ← release_resources state t
  ok (
    released,
    record t {
      attempt = some (record attempt { status = completed });
      assignee = none;
      lease_expires_at = none;
      lease_revision = t.lease_revision + 1;
    },
  )

-- The epic branch of _complete.
unfoldable pub complete_epic : State → Task → String → ℕ → Result (State × Task)
unfolding gates
complete_epic state t actor at = do
  gates state t at
  admin state actor
  require (t.status == opened) invalid_transition
  done ← children_done state.tasks t.id state.edges
  require done not_ready
  ok (state, t)

unfoldable pub closed_task : Task → String → List String → ℕ → String → Task
closed_task t summary evidence at actor = record t {
  status = closed;
  completion = some (record { summary = summary; evidence = evidence; at = at; actor = actor });
}

unfoldable pub complete_kind :
    Kind → State → Task → CompletionInput → String → ℕ → Result (State × Task)
unfolding complete_attempt complete_epic
complete_kind Kind.task state t input actor at = complete_attempt state t input actor at
complete_kind Kind.epic state t input actor at = complete_epic state t actor at

-- _complete
unfoldable pub complete : State → Task → CompletionInput → String → ℕ → Result (State × Task)
unfolding complete_kind closed_task
complete state t input actor at = do
  summary ← given_text input.summary
  evidence ← given_evidence input.evidence
  (state', t') ← complete_kind t.kind state t input actor at
  let t'' = closed_task t' summary evidence at actor
  ok (save state' t'', t'')

-- [t for t in state.tasks.values() if t["goal_id"] == goal["id"] and t["id"] != goal["id"]]
unfoldable pub members : State → String → List Task
members state goal_id =
    select (λ t. t.goal_id == some goal_id && t.id != goal_id) (values state.tasks)

abbrev reserves_for : List Task → Option Reservation → Bool
reserves_for ts none = false
reserves_for ts (some r) = any (λ t. t.id == r.task_id) ts

-- The checks of _close_goal on the goal's members.
unfoldable pub goal_done : State → String → Result (Unit {0})
goal_done state goal_id = do
  let ms = members state goal_id
  require (any (λ t. t.status == closed) ms) not_ready
  require (all (λ t. is_terminal t.status && is_none t.recovery) ms) not_ready
  require (not (any (λ (r : Resource). reserves_for ms r.reservation) (values state.resources)))
      not_ready

unfoldable pub sealed_goal : Task → Task
sealed_goal goal = record goal { sealed = true; graph_revision = goal.graph_revision + 1 }

abbrev no_tokens : Tokens
no_tokens = record { attempt_id = none; claim_generation = none }

-- _close_goal
unfoldable pub close_goal : State → GoalClose → String → ℕ → Result State
unfolding sealed_goal
close_goal state command actor at = do
  goal ← goal_of state command.goal_id
  expected goal.version command.expected_version
  expected goal.graph_revision command.expected_graph_revision
  goal_done state goal.id
  (state', goal') ←
      complete state goal
        (record {
          tokens = no_tokens;
          summary = some command.summary;
          evidence = some command.evidence;
        })
        actor at
  ok (save state' (sealed_goal goal'))
