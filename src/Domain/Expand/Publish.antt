-- ===== src/Domain/Expand/Publish.antt =====
-- _expand of sidecar/src/mempalace_tasks/domain.py around its batch: the edges, the budgets and the
-- source's completion; and _bootstrap.
use copilot_mempalace.Prelude.{
  ℕ, ◌+◌, String, true, not, ◌&&◌, ◌||◌, Option, none, some, List, [], ◌∷◌, leb, ◌==◌, any,
  contains, add, select, is_empty, length, string_eq, nat_eq, option_eq, if◌then◌else◌,
}
use copilot_mempalace.Prelude.Dict.{Dict, values}
use copilot_mempalace.Prelude.Dict
use copilot_mempalace.Model.{
  Result, ok, ◌>>=◌, ◌>>◌, require, or_fail, for_each, text, byte_text, integer, validation_error,
  key_error,
}
use copilot_mempalace.Domain.Types.{Kind, attempt_status_eq, edge_type_eq, parent_child}
use copilot_mempalace.Domain.Records.{Task, State, Edge, GoalPolicy, Native}
use copilot_mempalace.Domain.Commands.{TaskInput}
use copilot_mempalace.Domain.Checks.{get_or, is_none, goal_of, expected}
use copilot_mempalace.Domain.Inputs.{new_task, save}
use copilot_mempalace.Domain.Graph.{add_edge, plain}
use copilot_mempalace.Domain.Completion.{
  complete as complete_managed, members, is_terminal, given_text, given_evidence,
}
use copilot_mempalace.Native.Attempts.{complete_task}
use copilot_mempalace.Domain.Expand.Entries.{
  Caller, actor, session, expected_given, Batch, Scope, expand_entries, task_id_for,
}
use copilot_mempalace.Domain.Expand.Sources.{
  EdgeInput, Expand, completes, yields, source_check, dispose_source,
}

-- aliases[edge["source"]] and aliases[edge["target"]]
unfoldable edge_entries : List EdgeInput → Option String → Batch → Result Batch
edge_entries [] yielding b = ok b
edge_entries (e ∷ rest) yielding b = do
  text e.source 256
  text e.target 256
  source ← or_fail (Dict.get e.source b.aliases) validation_error
  target ← or_fail (Dict.get e.target b.aliases) validation_error
  (state, touched) ←
      add_edge b.state source target e.edge_type b.touched
        (record { reuse = true; yielding = yielding })
  edge_entries rest yielding (record b { state = state; touched = touched })

-- A created task with no parent becomes a child of the goal.
unfoldable adopt_one : String → String → Batch → Result Batch
adopt_one goal_id id b =
    if any (λ (e : Edge). e.edge_type == parent_child && e.target == id) b.state.edges
    then ok b
    else (do
      (state, touched) ← add_edge b.state goal_id id parent_child b.touched plain
      ok (record b { state = state; touched = touched }))

unfoldable adopt : String → List String → Batch → Result Batch
unfolding adopt_one
adopt goal_id [] b = ok b
adopt goal_id (id ∷ rest) b = do b' ← adopt_one goal_id id b; adopt goal_id rest b'

-- A reused task that the expansion touches must be at the version that its entry names.
unfoldable reused_check : Batch → String × Option ℕ → Result (Unit {0})
reused_check b (id, version) =
    if contains id b.touched
    then (do t ← or_fail (Dict.get id b.state.tasks) key_error; expected_given t.version version)
    else ok tt

abbrev pub max_proposals : ℕ
max_proposals = 100

-- The admission budget of the goal and the limit on open proposals.
unfoldable pub budget_check : State → Task → GoalPolicy → Result (Unit {0})
budget_check state goal goal_policy = do
  let ms = members state goal.id
  require (leb (length (select (λ (t : Task). t.admitted) ms)) goal_policy.max_tasks)
      validation_error
  require
      (leb (length (select (λ (t : Task). not t.admitted && not (is_terminal t.status)) ms))
        max_proposals)
      validation_error

-- _complete of the source, by who issues the command
unfoldable complete_source : State → Task → Expand → Caller → ℕ → Result State
complete_source state t command (actor a) at = do
  (state', t') ←
      complete_managed state t
        (record { tokens = command.tokens; summary = command.summary; evidence = command.evidence })
        a at
  ok state'
complete_source state t command (session s) at = do
  summary ← given_text command.summary
  evidence ← given_evidence command.evidence
  t' ← complete_task state t command.outcome s summary evidence at
  ok (save state t')

unfoldable finish_source : Batch → Expand → Caller → ℕ → Option String → Result Batch
unfolding complete_source
finish_source b command caller at none = ok b
finish_source b command caller at (some id) =
    if completes command.source_disposition
    then (do
      t ← or_fail (Dict.get id b.state.tasks) key_error
      state ← complete_source b.state t command caller at
      ok (record b { state = state; touched = add id b.touched }))
    else ok b

-- goal["graph_revision"] += 1, if anything was touched
unfoldable bump_goal : Batch → String → Result Batch
bump_goal b goal_id = if is_empty b.touched then ok b else (do
  goal ← or_fail (Dict.get goal_id b.state.tasks) key_error
  ok (record b {
    state = save b.state (record goal { graph_revision = goal.graph_revision + 1 });
    touched = add goal_id b.touched;
  }))

abbrev goal_aliases : String → Option String → Dict String
goal_aliases goal_id none = ("$goal", goal_id) ∷ []
goal_aliases goal_id (some id) = ("$goal", goal_id) ∷ ("$source", id) ∷ []

abbrev first_batch : State → List String → String → Option String → Batch
first_batch state touched goal_id source_id = record {
  state = state;
  touched = touched;
  aliases = goal_aliases goal_id source_id;
  admitted = [];
  proposed = [];
  created = [];
  reused = [];
  seen = [];
}

-- _goal_policy, whose defaults are filled in
pub record GoalPolicyInput : Type 0 where
  pub scope : String
  pub max_tasks : Option ℕ
  pub max_batch : Option ℕ

unfoldable pub goal_policy : GoalPolicyInput → Result GoalPolicy
goal_policy value = do
  byte_text value.scope 8192
  integer (get_or value.max_tasks 100) 1 10000
  integer (get_or value.max_batch 25) 1 50
  ok (record {
    scope = value.scope;
    max_tasks = get_or value.max_tasks 100;
    max_batch = get_or value.max_batch 25;
  })

-- The command of bootstrap; the planning task's content is a patch of required fields.
pub record Bootstrap : Type 0 where
  pub project : String
  pub title : String
  pub description : String
  pub acceptance : String
  pub priority : Option ℕ
  pub planning_task : TaskInput
  pub goal_policy : GoalPolicyInput

module _ (uuid5 : String → String → String) where
  -- _expand
  unfoldable pub expand : State → Expand → Caller → String → ℕ → Result Batch
  unfolding source_check dispose_source edge_entries adopt reused_check finish_source bump_goal
  expand state command caller command_id at = do
    goal ← goal_of state command.goal_id
    expected goal.graph_revision command.expected_graph_revision
    source_check state goal command caller at command.source_task_id
    limits ← or_fail goal.goal_policy key_error
    require (leb (length command.tasks) limits.max_batch) validation_error
    require (leb (length command.edges) 200) validation_error
    (state', touched) ← dispose_source state command caller at
    require
        (completes command.source_disposition
          || (is_none command.summary && is_none command.evidence))
        validation_error
    let scope : Scope = record {
      goal = goal;
      source_id = command.source_task_id;
      caller = caller;
      command_id = command_id;
      at = at;
    }
    entries ←
        expand_entries uuid5 scope (first_batch state' touched goal.id command.source_task_id)
          command.tasks
    linked ←
        edge_entries command.edges
          (if yields command.source_disposition then command.source_task_id else none) entries
    adopted ← adopt goal.id linked.created linked
    for_each (reused_check adopted) adopted.reused
    budget_check adopted.state goal limits
    finished ← finish_source adopted command caller at command.source_task_id
    bump_goal finished goal.id

  unfoldable goal_input : Bootstrap → String → TaskInput
  goal_input command goal_id = record {
    project = command.project;
    kind = Kind.epic;
    title = command.title;
    description = command.description;
    acceptance = command.acceptance;
    priority = command.priority;
    hold_reason = none;
    deferred_until = none;
    execution_class = none;
    execution_profile = none;
    resource_keys = none;
    policy = none;
    goal_id = some goal_id;
    intent_key = none;
    admitted = none;
  }

  unfoldable planner_input : Bootstrap → String → TaskInput
  planner_input command goal_id = record command.planning_task {
    project = command.project;
    kind = Kind.task;
    goal_id = some goal_id;
    intent_key = some "planning";
    admitted = none;
  }

  -- _bootstrap: the state, the touched tasks, the goal and the planning task
  unfoldable pub bootstrap :
      State
      → Bootstrap
      → String
      → Option Native
      → ℕ
      → Result (State × List String × String × String)
  unfolding goal_input planner_input
  bootstrap state command command_id native at = do
    goal_id ← task_id_for uuid5 state.authority_id command_id
    (state', goal) ← new_task state goal_id (goal_input command goal_id) at native
    limits ← goal_policy command.goal_policy
    let opened = save state' (record goal { goal_policy = some limits; graph_revision = 1 })
    planner_id ← task_id_for uuid5 state.authority_id (uuid5 command_id "planning")
    (planned, planner) ← new_task opened planner_id (planner_input command goal_id) at native
    (linked, touched) ← add_edge planned goal_id planner_id parent_child [] plain
    ok (linked, touched, goal_id, planner_id)
