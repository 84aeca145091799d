-- ===== src/Domain/Edits.antt =====
-- The operations update, transition and note of _execute in
-- sidecar/src/mempalace_tasks/domain.py.
use copilot_mempalace.Prelude.{
  ℕ, String, Bool, false, not, ◌&&◌, ◌||◌, Option, none, some, [], ◌==◌, string_eq, option_eq,
  if◌then◌else◌,
}
use copilot_mempalace.Model.{
  Result, ok, ◌>>=◌, ◌>>◌, require, text, byte_text, validation_error, invalid_transition,
  not_owner, not_ready, recovery_required,
}
use copilot_mempalace.Domain.Types.{
  Kind, Role, Disposition, in_progress, opened, cancelled, worker, supervisor, role_eq, status_eq,
}
use copilot_mempalace.Domain.Records.{Task, State}
use copilot_mempalace.Domain.Commands.{Patch, Tokens, Update, Transition, TransitionTarget, Note}
use copilot_mempalace.Domain.Checks.{admin, goal_of, strings, get_or, is_none, all_overrides}
use copilot_mempalace.Domain.Inputs.{check_task_input, save}
use copilot_mempalace.Domain.Attempts.{live, owner_or_supervisor, with_admin}
use copilot_mempalace.Domain.Revocation.{revoke}
use copilot_mempalace.Domain.Completion.{complete, is_terminal, children_done, given_text}

-- TOKENS & command.keys()
abbrev pub has_tokens : Tokens → Bool
has_tokens tokens = not (is_none tokens.attempt_id) || not (is_none tokens.claim_generation)

abbrev pub changes_execution : Patch → Bool
changes_execution p =
    not (is_none p.execution_class)
    || not (is_none p.execution_profile)
    || not (is_none p.resource_keys)
    || not (is_none p.policy)

abbrev pub changes_gates : Patch → Bool
changes_gates p = not (is_none p.hold_reason) || not (is_none p.deferred_until)

abbrev pub is_empty_patch : Patch → Bool
is_empty_patch p =
    is_none p.title
    && is_none p.description
    && is_none p.acceptance
    && is_none p.priority
    && not (changes_gates p)
    && not (changes_execution p)

-- {**task, **patch}, the policy aside
unfoldable pub patched : Task → Patch → Task
patched t p = record t {
  title = get_or p.title t.title;
  description = get_or p.description t.description;
  acceptance = get_or p.acceptance t.acceptance;
  priority = get_or p.priority t.priority;
  hold_reason = get_or p.hold_reason t.hold_reason;
  deferred_until = get_or p.deferred_until t.deferred_until;
  execution_class = get_or p.execution_class t.execution_class;
  execution_profile = get_or p.execution_profile t.execution_profile;
  resource_keys = get_or p.resource_keys t.resource_keys;
}

-- Who may edit: the owner of a live attempt, its content alone, or an administrator, an open task.
unfoldable pub edit_check : State → Task → Update → String → ℕ → Result (Unit {0})
edit_check state t command actor at =
    if t.status == in_progress
    then (do
      live state t command.tokens actor at owner_or_supervisor
      require (t.assignee == some actor) not_owner
      require (not (changes_execution command.patch || changes_gates command.patch))
          invalid_transition)
    else (do
      admin state actor
      require (not (has_tokens command.tokens)) validation_error
      require (t.status == opened) invalid_transition)

unfoldable open_goal_check : State → Option String → Result (Unit {0})
open_goal_check state none = ok tt
open_goal_check state (some goal_id) = do goal_of state goal_id; ok tt

-- op == "update"
unfoldable pub update : State → Task → Update → String → ℕ → Result State
unfolding open_goal_check
update state t command actor at = do
  require (not (is_terminal t.status)) invalid_transition
  require (not (is_empty_patch command.patch)) validation_error
  edit_check state t command actor at
  open_goal_check state t.goal_id
  t' ←
      check_task_input state (patched t command.patch)
        (get_or command.patch.policy (all_overrides t.policy))
  ok (save state t')

-- The cancellation of an active task: its attempt is revoked, and a recovery cancels it.
unfoldable pub cancel_active : State → Task → Transition → String → String → ℕ → Result State
cancel_active state t command reason actor at = do
  live state t command.tokens actor at with_admin
  t' ← revoke state t at (record {
    reason = reason;
    disposition = Disposition.cancel;
    failed = false;
    permanent = false;
  })
  ok (save state t')

unfoldable childless : Kind → State → Task → Result (Unit {0})
childless Kind.task state t = ok tt
childless Kind.epic state t = do
  done ← children_done state.tasks t.id state.edges
  require done not_ready

unfoldable pub cancel_idle : State → Task → String → String → Result State
unfolding childless
cancel_idle state t reason actor = do
  admin state actor
  require (is_none t.recovery) recovery_required
  childless t.kind state t
  ok (save state (record t { status = cancelled; cancellation_reason = some reason }))

-- The cancelling branch of op == "transition".
unfoldable pub cancel : State → Task → Transition → String → ℕ → Result State
unfolding cancel_active cancel_idle
cancel state t command actor at = do
  reason ← given_text command.reason
  require (not (is_terminal t.status)) invalid_transition
  if t.status == in_progress
      then cancel_active state t command reason actor at
      else cancel_idle state t reason actor

unfoldable pub close : State → Task → Transition → String → ℕ → Result State
close state t command actor at = do
  (state', t') ←
      complete state t
        (record { tokens = command.tokens; summary = command.summary; evidence = command.evidence })
        actor at
  ok state'

unfoldable pub by_target : TransitionTarget → State → Task → Transition → String → ℕ → Result State
unfolding close
by_target TransitionTarget.closed state t command actor at = close state t command actor at
by_target TransitionTarget.cancelled state t command actor at = cancel state t command actor at

-- op == "transition"
unfoldable pub transition : State → Task → Transition → String → ℕ → Result State
unfolding by_target
transition state t command actor at = do
  require (is_none t.goal_policy) invalid_transition
  by_target command.target state t command actor at

-- op == "note": a check alone, the text is in the event's command
unfoldable pub note : State → Task → Note → String → Role → ℕ → Result (Unit {0})
note state t command actor role at = do
  if role == worker || role == supervisor
      then (do live state t command.tokens actor at owner_or_supervisor; ok tt)
      else (do admin state actor; require (not (has_tokens command.tokens)) validation_error)
  text command.tag 256
  byte_text command.content 8192
  strings (get_or command.references []) 20 false 2048
