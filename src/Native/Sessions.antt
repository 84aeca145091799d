-- ===== src/Native/Sessions.antt =====
-- execute of sidecar/src/mempalace_tasks/native.py: the actions of a session on its goal and on the
-- goal's tasks. The JSON schema of a command is its type here.
pub mod Takeover
use copilot_mempalace.Prelude.{
  ℕ, ◌+◌, String, Bool, true, false, not, ◌&&◌, ◌||◌, none, some, List, [], ◌==◌, ◌!=◌, is_empty,
  string_eq, nat_eq, option_eq, if◌then◌else◌,
}
use copilot_mempalace.Prelude.Dict
use copilot_mempalace.Model.{
  ◌>>=◌, ◌>>◌, Result, ok, require, integer, validation_error, not_owner, not_ready,
  invalid_transition, coordination_mode_mismatch, max_integer,
}
use copilot_mempalace.Domain.Types.{
  Kind, status_eq, kind_eq, attempt_status_eq, in_progress, running, edge_type_eq,
}
use copilot_mempalace.Domain.Records.{Task, State}
use copilot_mempalace.Domain.Commands.{Tokens, GoalClose}
use copilot_mempalace.Domain.Checks.{is_none, strings, task_of, goal_of, expected}
use copilot_mempalace.Domain.Inputs.{save}
use copilot_mempalace.Domain.Revocation.{record_checkpoint}
use copilot_mempalace.Domain.Readiness.{task_eligibility}
use copilot_mempalace.Domain.Completion.{given_text, given_evidence, goal_done, sealed_goal}
use copilot_mempalace.Domain.Claim.{attempt_id_for}
use copilot_mempalace.Domain.Expand.{
  Expand, Bootstrap, Batch, Caller, SourceDisposition, expand, bootstrap,
}
use copilot_mempalace.Native.Attempts.{
  Session, Outcome, observations, tokens_attempt, live_attempt, interrupt, complete_task,
}
use copilot_mempalace.Native.Actions.{
  native_object, request_changes, Action, update_native, cancel_native, claimed_native,
  reconcile_task, start_task, complete_native, completes_epic, adopted, update, cancel, claim,
  start, checkpoint, complete, request_changes_action, release, reconcile,
}

-- The goal that an action is about, and the project that it names.
pub record GoalScope : Type 0 where
  pub project : String
  pub goal_id : String

unfoldable pub scoped_goal : State → GoalScope → Result Task
scoped_goal state scope = do
  goal ← goal_of state scope.goal_id
  require (not (is_none goal.native) && goal.project == scope.project) not_owner
  ok goal

-- The goal of the session that owns it, with the goal's generation.
unfoldable pub owned_goal : State → GoalScope → String → Result (Task × Session)
unfolding scoped_goal
owned_goal state scope session_id = do
  goal ← scoped_goal state scope
  n ← native_object goal
  require (n.session_id == session_id) not_owner
  ok (goal, record { session_id = session_id; session_generation = n.session_generation })

pub record Resume : Type 0 where
  pub scope : GoalScope
  pub expected_version : ℕ
  pub expected_session_id : String
  pub reason : String
  pub observed : List String

-- action == "resume": the goal passes to another session, under the next generation
unfoldable pub resume : State → Resume → String → ℕ → Result State
unfolding scoped_goal
resume state c session_id at = do
  goal ← scoped_goal state c.scope
  expected goal.version c.expected_version
  n ← native_object goal
  require (n.session_id == c.expected_session_id) not_owner
  require (session_id != c.expected_session_id) validation_error
  observations c.reason c.observed
  integer (n.session_generation + 1) 1 max_integer
  ok (
      save state (record goal {
        native = some (record n {
          session_id = session_id;
          session_generation = n.session_generation + 1;
          transfer = some (record {
            from_session_id = c.expected_session_id;
            reason = c.reason;
            observations = c.observed;
            at = at;
          });
        });
      }))

-- operation == "native_interrupt"
unfoldable pub native_interrupt :
    State → String → ℕ → Tokens → String → List String → ℕ → Result State
native_interrupt state id version tokens reason observed at = do
  t ← task_of state id
  require (not (is_none t.native)) coordination_mode_mismatch
  expected t.version version
  tokens_attempt t tokens
  require (t.status == in_progress) invalid_transition
  t' ← interrupt t at reason observed
  ok (save state t')

-- _close_goal(..., native=True)
unfoldable pub close_native_goal : State → Task → GoalClose → Outcome → Session → ℕ → Result State
unfolding complete_native
close_native_goal state goal c outcome session at = do
  expected goal.version c.expected_version
  expected goal.graph_revision c.expected_graph_revision
  goal_done state goal.id
  summary ← given_text (some c.summary)
  evidence ← given_evidence (some c.evidence)
  goal' ← complete_task state goal outcome session summary evidence at
  ok (save state (sealed_goal goal'))

unfoldable is_complete : SourceDisposition → Bool
is_complete SourceDisposition.complete = true
is_complete _ = false

unfoldable is_yield : SourceDisposition → Bool
is_yield SourceDisposition.yield = true
is_yield _ = false

-- The checks of an expansion by a session, before it is made.
unfoldable expansion_check : Expand → Result (Unit {0})
unfolding is_complete is_yield
expansion_check c = do
  require (not (is_none c.source_task_id) || is_none c.outcome.native_agent_id) validation_error
  require (is_yield c.source_disposition || is_none c.observations) validation_error
  if is_complete c.source_disposition
      then (do given_text c.outcome.parent_acceptance; ok tt)
      else require (is_none c.outcome.parent_acceptance && is_none c.outcome.review_resolution)
          validation_error

module _ (uuid5 : String → String → String) where
  unfoldable claim_native : State → Task → String → Session → ℕ → Result State
  claim_native state t command_id session at = do
    reasons ← task_eligibility state t at
    require (is_empty reasons) not_ready
    ok (save state (claimed_native t (attempt_id_for uuid5 command_id t) session at))

  -- The branches on one task, after it is looked up.
  unfoldable pub act : State → Task → Action → String → Session → ℕ → Result State
  unfolding update_native cancel_native claim_native start_task complete_native
  act state t (update p) command_id session at = update_native state t p
  act state t (cancel reason observed) command_id session at = cancel_native state t reason observed
  act state t claim command_id session at = claim_native state t command_id session at
  act state t (start tokens agent) command_id session at = do
    t' ← start_task t tokens session agent
    ok (save state t')
  act state t (checkpoint tokens agent sequence reference) command_id session at = do
    attempt ← live_attempt t tokens session agent false
    require (attempt.status == running) invalid_transition
    t' ← record_checkpoint t sequence reference at
    ok (save state t')
  act state t (complete outcome summary evidence) command_id session at =
      complete_native state t outcome summary evidence session at
  act state t (request_changes_action tokens agent c) command_id session at = do
    t' ← request_changes t tokens agent c command_id session at
    ok (save state t')
  act state t (release tokens agent reason observed) command_id session at = do
    live_attempt t tokens session agent true
    t' ← interrupt t at reason observed
    ok (save state t')
  act state t (reconcile tokens agent reason observed decision) command_id session at = do
    t' ← reconcile_task t tokens agent reason observed decision at
    ok (save state t')

  -- The branch of the actions on one task of the goal.
  unfoldable pub on_task :
      State → GoalScope → String → ℕ → Action → String → String → ℕ → Result State
  unfolding owned_goal adopted completes_epic
  on_task state scope id version action command_id session_id at = do
    (goal, session) ← owned_goal state scope session_id
    t ← task_of state id
    require (not (is_none t.native) && t.goal_id == some goal.id && t.project == scope.project)
        not_owner
    require (t.kind == Kind.task || (completes_epic action && t.id != goal.id)) invalid_transition
    expected t.version version
    t' ← adopted t session
    act (save state t') t' action command_id session at

  -- action == "goal_close"
  unfoldable pub goal_close : State → GoalScope → GoalClose → Outcome → String → ℕ → Result State
  unfolding owned_goal
  goal_close state scope c outcome session_id at = do
    (goal, session) ← owned_goal state scope session_id
    close_native_goal state goal c outcome session at

  -- action == "expand"
  unfoldable pub native_expand : State → GoalScope → Expand → String → String → ℕ → Result Batch
  unfolding owned_goal expansion_check
  native_expand state scope c command_id session_id at = do
    (goal, session) ← owned_goal state scope session_id
    expansion_check c
    expand uuid5 state c (Caller.session session) command_id at

  -- action == "bootstrap"
  unfoldable pub native_bootstrap :
      State
      → Bootstrap
      → List String
      → String
      → String
      → ℕ
      → Result (State × List String × String × String)
  native_bootstrap state c references command_id session_id at = do
    strings references 20 (not (is_empty references)) 2048
    bootstrap uuid5 state c command_id
        (some (record {
          session_id = session_id;
          issuing_session_id = session_id;
          session_generation = 1;
          plan_references = references;
          parent_acceptance = none;
          transfer = none;
          reconciliation = none;
          review = none;
        }))
        at
