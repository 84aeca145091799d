-- ===== src/Native/Actions.antt =====
-- The actions on one task in execute of sidecar/src/mempalace_tasks/native.py, with reviews. The JSON
-- schema of an action is its type here.
use copilot_mempalace.Prelude.{
  ℕ, ◌+◌, String, Bool, true, false, not, ◌&&◌, Option, none, some, List, [], ◌∷◌, ◌==◌, any, all,
  string_eq, nat_eq, option_eq, if◌then◌else◌,
}
use copilot_mempalace.Prelude.Dict
use copilot_mempalace.Model.{
  Result, ok, ◌>>=◌, ◌>>◌, require, or_fail, text, byte_text, validation_error, not_ready,
  invalid_transition, stale_generation, key_error,
}
use copilot_mempalace.Domain.Types.{
  status_eq, kind_eq, attempt_status_eq, opened, in_progress, recovering, cancelled, preparing,
  running, edge_type_eq, parent_child,
}
use copilot_mempalace.Domain.Records.{
  Task, State, Edge, Attempt, Native, Review, Finding, NextAction, Decision,
}
use copilot_mempalace.Domain.Commands.{Tokens, Patch}
use copilot_mempalace.Domain.Checks.{is_none, strings, all_overrides}
use copilot_mempalace.Domain.Inputs.{check_task_input, save}
use copilot_mempalace.Domain.Completion.{given_text, given_evidence, is_terminal}
use copilot_mempalace.Domain.Edits.{patched, is_empty_patch, changes_execution}
use copilot_mempalace.Domain.Claim.{previous_checkpoint}
use copilot_mempalace.Native.Attempts.{
  Session, Outcome, observations, tokens_attempt, live_attempt, starting_attempt, interrupt,
  pending_review, findings_check, complete_task,
}

-- The payload of request_changes.
pub record Changes : Type 0 where
  pub summary : String
  pub evidence : List String
  pub next_action : NextAction
  pub findings : List Finding

-- The previous finding is among the new ones, with its criterion.
abbrev pub retains : List Finding → Finding → Bool
retains findings previous =
    any (λ (f : Finding). f.id == previous.id && f.criterion == previous.criterion) findings

abbrev pub kept_findings : Option Review → List Finding → Bool
kept_findings none findings = true
kept_findings (some review) findings = all (retains findings) review.findings

-- The native object, which every cooperative task has.
abbrev pub native_object : Task → Result Native
native_object t = or_fail t.native key_error

unfoldable pub reviewed_task : Task → Native → Attempt → Changes → String → Session → ℕ → Task
reviewed_task t n attempt c command_id session at = record t {
  native = some (record n {
    review = some (record {
      id = command_id;
      summary = c.summary;
      evidence = c.evidence;
      next_action = c.next_action;
      findings = c.findings;
      actor = session.session_id;
      at = at;
      attempt_id = attempt.id;
      claim_generation = t.claim_generation;
      resolution = none;
    });
  });
}

unfoldable pub hold_or_rework : NextAction → Task → Changes → ℕ → Result Task
hold_or_rework NextAction.hold t c at = interrupt t at c.summary c.evidence
hold_or_rework NextAction.rework t c at = ok t

-- _request_changes
unfoldable pub request_changes :
    Task → Tokens → Option String → Changes → String → Session → ℕ → Result Task
unfolding reviewed_task hold_or_rework
request_changes t tokens agent c command_id session at = do
  attempt ← live_attempt t tokens session agent false
  require (attempt.status == running) invalid_transition
  byte_text c.summary 8192
  strings c.evidence 20 true 2048
  findings_check c.findings
  require (kept_findings (pending_review t) c.findings) validation_error
  n ← native_object t
  hold_or_rework c.next_action (reviewed_task t n attempt c command_id session at) c at

-- The payloads of the actions on one task.
pub data Action : Type 0 where
  update : Patch → Action
  cancel : String → List String → Action
  claim : Action
  start : Tokens → String → Action
  checkpoint : Tokens → Option String → ℕ → String → Action
  complete : Outcome → String → List String → Action
  request_changes_action : Tokens → Option String → Changes → Action
  release : Tokens → Option String → String → List String → Action
  reconcile : Tokens → Option String → String → List String → Decision → Action

-- action == "update"
unfoldable pub update_native : State → Task → Patch → Result State
update_native state t p = do
  require (t.status == opened && is_none t.recovery && is_none t.assignee) invalid_transition
  require (not (changes_execution p)) validation_error
  require (not (is_empty_patch p)) validation_error
  t' ← check_task_input state (patched t p) (all_overrides t.policy)
  ok (save state t')

-- Children that are terminal and have no recovery.
unfoldable pub children_settled : State → String → List Edge → Result Bool
children_settled state id [] = ok true
children_settled state id (e ∷ rest) = do
  more ← children_settled state id rest
  if e.edge_type == parent_child && e.source == id
      then (do
        child ← or_fail (Dict.get e.target state.tasks) key_error
        ok (is_terminal child.status && is_none child.recovery && more))
      else ok more

-- action == "cancel"
unfoldable pub cancel_native : State → Task → String → List String → Result State
unfolding children_settled
cancel_native state t reason observed = do
  require (t.status == opened && is_none t.recovery && is_none t.assignee) invalid_transition
  observations reason observed
  done ← children_settled state t.id state.edges
  require done not_ready
  ok (save state (record t { status = cancelled; cancellation_reason = some reason }))

-- The task that a session's claim leaves.
unfoldable pub claimed_native : Task → String → Session → ℕ → Task
unfolding previous_checkpoint
claimed_native t attempt_id session at = record t {
  claim_generation = t.claim_generation + 1;
  lease_revision = t.lease_revision + 1;
  attempt = some (record {
    id = attempt_id;
    number = t.claim_generation + 1;
    owner = session.session_id;
    supervisor_id = none;
    session_generation = some session.session_generation;
    native_agent_id = none;
    started_at = at;
    status = preparing;
    progress_deadline = none;
    hard_deadline = none;
    checkpoint = previous_checkpoint t.attempt;
    failure_reason = none;
    resource_fences = [];
    preparation = none;
    settlement = none;
  });
  status = in_progress;
  assignee = some session.session_id;
}

unfoldable pub by_decision : Decision → Task → String → Task
by_decision Decision.hold t reason = t
by_decision Decision.retry t reason = record t { recovery = none; status = opened }
by_decision Decision.cancel t reason = record t {
  recovery = none;
  status = cancelled;
  cancellation_reason = some reason;
}

-- action == "reconcile"
unfoldable pub reconcile_task :
    Task → Tokens → Option String → String → List String → Decision → ℕ → Result Task
unfolding by_decision
reconcile_task t tokens agent reason observed decision at = do
  attempt ← tokens_attempt t tokens
  require (agent == attempt.native_agent_id) stale_generation
  require (t.status == recovering) invalid_transition
  observations reason observed
  n ← native_object t
  let noted : Task = record t {
    native = some (record n {
      reconciliation =
          some (record { reason = reason; observations = observed; decision = decision; at = at });
    });
  }
  ok (by_decision decision noted reason)

-- action == "start"
unfoldable pub start_task : Task → Tokens → Session → String → Result Task
start_task t tokens session agent = do
  attempt ← starting_attempt t tokens session
  text agent 256
  ok (record t {
    attempt = some (record attempt { native_agent_id = some agent; status = running });
  })

-- _complete(..., native=True)
unfoldable pub complete_native :
    State → Task → Outcome → String → List String → Session → ℕ → Result State
complete_native state t outcome summary evidence session at = do
  s ← given_text (some summary)
  e ← given_evidence (some evidence)
  t' ← complete_task state t outcome session s e at
  ok (save state t')

unfoldable pub completes_epic : Action → Bool
completes_epic (complete outcome summary evidence) = true
completes_epic (cancel reason observed) = true
completes_epic (update p) = true
completes_epic _ = false

-- A task takes on the session and its generation.
unfoldable pub adopted : Task → Session → Result Task
adopted t session = do
  n ← native_object t
  ok (record t {
    native = some (record n {
      session_id = session.session_id;
      session_generation = session.session_generation;
    });
  })
