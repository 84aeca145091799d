-- ===== src/Domain/Execute.antt =====
-- _execute of sidecar/src/mempalace_tasks/domain.py: the dispatch of the managed operations, with the
-- event kind, the touched tasks and the response of each.
use copilot_mempalace.Prelude.{
  ℕ, String, Bool, true, false, not, ◌&&◌, Option, none, some, List, [], ◌∷◌, ◌==◌, contains, erase,
  add, is_empty, string_eq, if◌then◌else◌,
}
use copilot_mempalace.Prelude.Dict.{Dict}
use copilot_mempalace.Prelude.Dict
use copilot_mempalace.Model.{
  Result, ok, err, ◌>>=◌, ◌>>◌, require, for_each, byte_text, validation_error, not_found,
  invalid_transition, already_exists, coordination_mode_mismatch,
}
use copilot_mempalace.Domain.Types.{
  Role, Status, status_eq, edge_type_eq, opened, quarantined, parent_child,
}
use copilot_mempalace.Domain.Records.{Task, State, Edge, edge_eq}
use copilot_mempalace.Domain.Commands.{
  AuthorityCreate, TaskInput, GoalClose, Dependency, TaskOperation, ReportKind, TransitionTarget,
}
use copilot_mempalace.Domain.Checks.{
  configuration, role_of, admin, task_of, expected, is_none, get_or,
}
use copilot_mempalace.Domain.Inputs.{new_task}
use copilot_mempalace.Domain.Graph.{edge, add_edge, touch_goals, is_operational, plain}
use copilot_mempalace.Domain.Completion.{close_goal}
use copilot_mempalace.Domain.Expand.{Expand, Bootstrap, expand, bootstrap, task_id_for, Caller}
use copilot_mempalace.Domain.Claim.{claim}
use copilot_mempalace.Domain.Reports.{renew, checkpoint, attempt_report, expire, release}
use copilot_mempalace.Domain.Recover.{recover}
use copilot_mempalace.Domain.Edits.{update, transition, note}

-- A task operation carries the task's id and, but for `renew`, the expected version.
pub data Operation : Type 0 where
  authority_create : AuthorityCreate → Operation
  create : TaskInput → Operation
  bootstrapping : Bootstrap → Operation
  expanding : Expand → Operation
  goal_close : GoalClose → Operation
  add_dependency : Dependency → Operation
  remove_dependency : Dependency → String → Operation
  on_task : String → ℕ → TaskOperation → Operation

-- `prefixes` counts the "mptask_" that stand in front of the operation's name.
pub record Command : Type 0 where
  pub operation : Operation
  pub prefixes : ℕ
  pub command_id : String
  pub actor : String

-- The command under its operation's plain name.
abbrev pub unprefixed : Command → Command
unprefixed command = record command { prefixes = 0 }

-- The names of the events.
pub data EventKind : Type 0 where
  authority_created task_created goal_bootstrapped tasks_expanded goal_closed : EventKind
  dependency_added dependency_removed task_updated task_claimed lease_renewed : EventKind
  progress_recorded attempt_started attempt_settled task_quarantined attempt_failed : EventKind
  attempt_recovery_started lease_expired task_released attempt_recovered task_closed : EventKind
  task_cancelled note_recorded : EventKind

pub data Response : Type 0 where
  of_authority : String → Response
  of_task : String → Response
  of_goal : String → Response
  of_bootstrap : String → String → Response
  of_expansion : String → List String → List String → Response
  empty : Response

-- What _execute returns, with the working state.
pub record Execution : Type 0 where
  pub state : State
  pub kind : EventKind
  pub touched : List String
  pub response : Response

-- state.tasks.get(value) is no cooperative task
abbrev pub is_managed_in : Dict Task → String → Bool
is_managed_in tasks id = elim (Dict.get id tasks) [ none ↦ true | some t ↦ is_none t.native ]

abbrev pub named : Option String → List String → List String
named none ids = ids
named (some id) ids = id ∷ ids

-- The values of task_id, goal_id, source_task_id, source and target in a command.
abbrev pub named_ids : Operation → List String
named_ids (authority_create c) = []
named_ids (create c) = named c.goal_id []
named_ids (bootstrapping c) = []
named_ids (expanding c) = c.goal_id ∷ named c.source_task_id []
named_ids (goal_close c) = c.goal_id ∷ []
named_ids (add_dependency c) = c.source ∷ c.target ∷ []
named_ids (remove_dependency c reason) = c.source ∷ c.target ∷ []
named_ids (on_task id version op) = id ∷ []

-- The loop that keeps cooperative tasks out of the managed operations.
unfoldable pub managed_only : State → Operation → Result (Unit {0})
managed_only state op =
    for_each (λ id. require (is_managed_in state.tasks id) coordination_mode_mismatch)
      (named_ids op)

unfoldable removal_check : Edge → Task → Task → Result (Unit {0})
removal_check e a b =
    if e.edge_type == parent_child
    then (do
      require (a.status == opened && b.status == opened && is_none b.assignee) invalid_transition
      require (is_none b.goal_id) validation_error)
    else ok tt

-- The branches of op in {"add_dependency", "remove_dependency"}, before the goals are touched.
unfoldable link : State → Dependency → Task → Task → Option String → Result (State × List String)
unfolding removal_check
link state c a b none = add_edge state a.id b.id c.edge_type [] plain
link state c a b (some reason) = do
  byte_text reason 8192
  let e = edge a.id b.id c.edge_type
  require (contains e state.edges) not_found
  removal_check e a b
  ok (record state { edges = erase e state.edges }, add b.id (add a.id []))

-- A dependency is added, or removed for a reason.
unfoldable pub dependency :
    State → Dependency → String → Option String → Result (State × List String)
unfolding link
dependency state c actor reason = do
  admin state actor
  a ← task_of state c.source
  b ← task_of state c.target
  expected a.version c.expected_source_version
  expected b.version c.expected_target_version
  (state', touched) ← link state c a b reason
  if is_operational c.edge_type then touch_goals state' a.id b.id touched else ok (state', touched)

-- The kind of an event that depends on whether the task is quarantined after it.
abbrev unless_quarantined : State → String → EventKind → EventKind
unless_quarantined state id kind = elim (Dict.get id state.tasks) [
  | none ↦ kind
  | some t ↦ if t.status == quarantined then task_quarantined else kind
]

unfoldable report_kind : ReportKind → State → String → EventKind
report_kind ReportKind.started state id = attempt_started
report_kind ReportKind.settled state id = attempt_settled
report_kind ReportKind.failed state id = unless_quarantined state id attempt_failed
report_kind ReportKind.recovery_started state id =
    unless_quarantined state id attempt_recovery_started

-- A cancelled task, or one whose active attempt is revoked first.
abbrev cancel_kind : State → String → EventKind
cancel_kind state id = elim (Dict.get id state.tasks) [
  | none ↦ task_cancelled
  | some t ↦ elim t.status [
    | Status.quarantined ↦ task_quarantined
    | Status.recovering ↦ attempt_recovery_started
    | _ ↦ task_cancelled
  ]
]

unfoldable transition_kind : TransitionTarget → State → String → EventKind
transition_kind TransitionTarget.closed state id = task_closed
transition_kind TransitionTarget.cancelled state id = cancel_kind state id

abbrev done : Result State → (State → EventKind) → String → Result Execution
done result kind id = do
  state ← result
  ok (record { state = state; kind = kind state; touched = id ∷ []; response = of_task id })

-- The version check of the operations on one task.
abbrev pub checks_version : TaskOperation → Bool
checks_version (TaskOperation.renew c) = false
checks_version _ = true

module _ (uuid5 : String → String → String) where
  -- The operations on one task, after the version check.
  unfoldable pub apply_operation :
      State → Task → TaskOperation → String → String → Role → ℕ → Result Execution
  unfolding report_kind transition_kind
  apply_operation state t (TaskOperation.update c) command_id actor role at =
      done (update state t c actor at) (λ s. task_updated) t.id
  apply_operation state t (TaskOperation.claim c) command_id actor role at =
      done (claim uuid5 state t c command_id actor role at) (λ s. task_claimed) t.id
  apply_operation state t (TaskOperation.renew c) command_id actor role at = do
    state' ← renew state t c actor at
    ok (record { state = state'; kind = lease_renewed; touched = []; response = of_task t.id })
  apply_operation state t (TaskOperation.checkpoint c) command_id actor role at =
      done (checkpoint state t c actor at) (λ s. progress_recorded) t.id
  apply_operation state t (TaskOperation.attempt_report c) command_id actor role at =
      done (attempt_report state t c actor role at) (λ s. report_kind c.report_kind s t.id) t.id
  apply_operation state t (TaskOperation.expire c) command_id actor role at =
      done (expire state t c role at) (λ s. unless_quarantined s t.id lease_expired) t.id
  apply_operation state t (TaskOperation.release c) command_id actor role at =
      done (release state t c actor at) (λ s. unless_quarantined s t.id task_released) t.id
  apply_operation state t (TaskOperation.recover c) command_id actor role at =
      done (recover state t c actor role at) (λ s. unless_quarantined s t.id attempt_recovered) t.id
  apply_operation state t (TaskOperation.transition c) command_id actor role at =
      done (transition state t c actor at) (λ s. transition_kind c.target s t.id) t.id
  apply_operation state t (TaskOperation.note c) command_id actor role at =
      done (do note state t c actor role at; ok state) (λ s. note_recorded) t.id

  unfoldable pub on_one_task :
      State → String → ℕ → TaskOperation → String → String → Role → ℕ → Result Execution
  on_one_task state id version op command_id actor role at = do
    t ← task_of state id
    if checks_version op then expected t.version version else ok tt
    apply_operation state t op command_id actor role at

  unfoldable create_standalone : State → TaskInput → String → String → ℕ → Result Execution
  create_standalone state inputs command_id actor at = do
    admin state actor
    require (is_none inputs.goal_id) validation_error
    require (is_none inputs.intent_key && get_or inputs.admitted true) validation_error
    id ← task_id_for uuid5 state.authority_id command_id
    (state', t) ← new_task state id inputs at none
    ok (record {
      state = state';
      kind = task_created;
      touched = t.id ∷ [];
      response = of_task t.id;
    })

  -- The operations once the authority is there and its actor is known.
  unfoldable pub dispatch : State → Operation → String → String → Role → ℕ → Result Execution
  unfolding create_standalone
  dispatch state (authority_create c) command_id a role at = err already_exists
  dispatch state (create c) command_id a role at = create_standalone state c command_id a at
  dispatch state (bootstrapping c) command_id a role at = do
    admin state a
    (state', touched, goal_id, planner_id) ← bootstrap uuid5 state c command_id none at
    ok (record {
      state = state';
      kind = goal_bootstrapped;
      touched = touched;
      response = of_bootstrap goal_id planner_id;
    })
  dispatch state (expanding c) command_id a role at = do
    b ← expand uuid5 state c (Caller.actor a) command_id at
    ok (record {
      state = b.state;
      kind = tasks_expanded;
      touched = b.touched;
      response = of_expansion c.goal_id b.admitted b.proposed;
    })
  dispatch state (goal_close c) command_id a role at = do
    admin state a
    state' ← close_goal state c a at
    ok (record {
      state = state';
      kind = goal_closed;
      touched = c.goal_id ∷ [];
      response = of_goal c.goal_id;
    })
  dispatch state (add_dependency c) command_id a role at = do
    (state', touched) ← dependency state c a none
    ok (record { state = state'; kind = dependency_added; touched = touched; response = empty })
  dispatch state (remove_dependency c reason) command_id a role at = do
    (state', touched) ← dependency state c a (some reason)
    ok (record { state = state'; kind = dependency_removed; touched = touched; response = empty })
  dispatch state (on_task id version op) command_id a role at =
      on_one_task state id version op command_id a role at

  unfoldable create_authority : State → AuthorityCreate → String → Result Execution
  create_authority state c a = do
    require (is_none state.configuration && is_empty state.tasks) already_exists
    config ← configuration c a
    ok (record {
      state = record state { configuration = some config };
      kind = authority_created;
      touched = [];
      response = of_authority state.authority_id;
    })

  unfoldable execute_managed : State → Command → ℕ → Result Execution
  execute_managed state command at = do
    require (not (is_none state.configuration)) invalid_transition
    managed_only state command.operation
    role ← role_of state command.actor
    dispatch state command.operation command.command_id command.actor role at

  unfoldable by_operation : Operation → State → Command → ℕ → Result Execution
  unfolding create_authority execute_managed
  by_operation (authority_create c) state command at = create_authority state c command.actor
  by_operation _ state command at = execute_managed state command at

  -- _execute
  unfoldable pub execute : State → Command → ℕ → Result Execution
  unfolding by_operation
  execute state command at = by_operation command.operation state command at
