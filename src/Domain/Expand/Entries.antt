-- ===== src/Domain/Expand/Entries.antt =====
-- The commands of an expansion, who issues it, and one entry of its batch of tasks.
use copilot_mempalace.Prelude.{
  ℕ, String, Bool, true, false, not, ◌&&◌, Option, none, some, List, [], ◌∷◌, ◌++◌, ◌==◌, contains,
  add, string_eq, nat_eq, list_eq, option_eq, if◌then◌else◌,
}
use Prim.Native.String.{◌++◌ as concat}
use copilot_mempalace.Prelude.Dict.{Dict, values}
use copilot_mempalace.Prelude.Dict
use copilot_mempalace.Prelude.Text.{starts_with_dollar}
use copilot_mempalace.Model.{
  Result, ok, ◌>>=◌, ◌>>◌, require, or_fail, text, identifier, validation_error, invalid_transition,
  already_exists,
}
use copilot_mempalace.Domain.Types.{Kind, kind_eq, class_eq, status_eq, opened, discovered_from}
use copilot_mempalace.Domain.Records.{Task, State, Native}
use copilot_mempalace.Domain.Commands.{Patch, TaskInput}
use copilot_mempalace.Domain.Checks.{
  same_flag, same_policy, get_or, is_none, admin, task_of, expected, all_overrides,
}
use copilot_mempalace.Domain.Inputs.{check_task_input, new_task, save}
use copilot_mempalace.Domain.Graph.{add_edge}
use copilot_mempalace.Domain.Edits.{patched, is_empty_patch}
use copilot_mempalace.Native.Attempts.{Session}

-- Who issues an expansion or a completion: a managed actor, or a session with what its command says
-- of the attempt.
pub data Caller : Type 0 where
  actor : String → Caller
  session : Session → Caller

abbrev pub is_native : Caller → Bool
is_native (actor a) = false
is_native (session s) = true

-- _expected of a version that may be missing
unfoldable pub expected_given : ℕ → Option ℕ → Result (Unit {0})
expected_given actual value = do v ← or_fail value validation_error; expected actual v

-- if not native: _admin(state, actor)
unfoldable pub managed_admin : State → Caller → Result (Unit {0})
managed_admin state (actor a) = admin state a
managed_admin state (session s) = ok tt

-- One entry of the batch: content to create or to compare, or a task to reuse.
pub record Spec : Type 0 where
  pub intent_key : String
  pub kind : Option Kind
  pub content : Patch
  pub admitted : Option Bool
  pub reuse_task_id : Option String
  pub expected_version : Option ℕ

-- What the loop over the batch builds up.
pub record Batch : Type 0 where
  pub state : State
  pub touched : List String
  pub aliases : Dict String
  pub admitted : List String
  pub proposed : List String
  pub created : List String
  pub reused : Dict (Option ℕ)
  pub seen : List String

-- What stays the same for the whole batch.
pub record Scope : Type 0 where
  pub goal : Task
  pub source_id : Option String
  pub caller : Caller
  pub command_id : String
  pub at : ℕ

abbrev optional_expected : ℕ → Option ℕ → Result (Unit {0})
optional_expected actual none = ok tt
optional_expected actual (some v) = expected actual v

-- The first task of the goal with the intent key.
unfoldable pub with_intent : String → String → List Task → Option Task
with_intent goal_id key [] = none
with_intent goal_id key (t ∷ rest) =
    if t.goal_id == some goal_id && t.intent_key == some key
    then some t
    else with_intent goal_id key rest

-- target[field] == candidate[field] for every field that an entry may name
unfoldable pub same_definition : Task → Task → Bool
same_definition t c =
    t.kind == c.kind
    && t.title == c.title
    && t.description == c.description
    && t.acceptance == c.acceptance
    && t.priority == c.priority
    && t.hold_reason == c.hold_reason
    && t.deferred_until == c.deferred_until
    && t.execution_class == c.execution_class
    && t.execution_profile == c.execution_profile
    && t.resource_keys == c.resource_keys
    && same_policy t.policy c.policy

unfoldable with_kind : Task → Option Kind → Task
with_kind t none = t
with_kind t (some k) = record t { kind = k }

-- "reuse_task_id" in spec
unfoldable reuse_named : State → Scope → Spec → String → Result (State × Task × Bool)
reuse_named state scope spec task_id = do
  require (is_empty_patch spec.content && is_none spec.kind) validation_error
  target ← task_of state task_id
  expected_given target.version spec.expected_version
  require (target.goal_id == some scope.goal.id && target.intent_key == some spec.intent_key)
      validation_error
  ok (state, target, false)

-- elif existing
unfoldable reuse_intent : State → Spec → Task → Result (State × Task × Bool)
unfolding with_kind
reuse_intent state spec target = do
  optional_expected target.version spec.expected_version
  candidate ←
      check_task_input state (with_kind (patched target spec.content) spec.kind)
        (get_or spec.content.policy (all_overrides target.policy))
  require (same_definition target candidate) already_exists
  ok (state, target, false)

-- The inputs of a new task of the goal.
unfoldable spec_input : Scope → Spec → Result TaskInput
spec_input scope spec = do
  title ← or_fail spec.content.title validation_error
  description ← or_fail spec.content.description validation_error
  acceptance ← or_fail spec.content.acceptance validation_error
  ok (record {
    project = scope.goal.project;
    kind = get_or spec.kind Kind.task;
    title = title;
    description = description;
    acceptance = acceptance;
    priority = spec.content.priority;
    hold_reason = get_or spec.content.hold_reason none;
    deferred_until = get_or spec.content.deferred_until none;
    execution_class = get_or spec.content.execution_class none;
    execution_profile = get_or spec.content.execution_profile none;
    resource_keys = spec.content.resource_keys;
    policy = spec.content.policy;
    goal_id = some scope.goal.id;
    intent_key = some spec.intent_key;
    admitted = spec.admitted;
  })

abbrev pub native_of : Caller → Task → Option Native
native_of (actor a) goal = none
native_of (session s) goal = goal.native

-- The admission of an open proposal.
unfoldable admit : Batch → Scope → Spec → Task → Result (Batch × Task)
admit b scope spec target =
    if same_flag (get_or spec.admitted target.admitted) target.admitted then ok (b, target) else (do
      managed_admin b.state scope.caller
      expected_given target.version spec.expected_version
      require (get_or spec.admitted false && target.status == opened) invalid_transition
      t ← check_task_input b.state (record target { admitted = true }) (all_overrides target.policy)
      ok (record b { state = save b.state t; touched = add t.id b.touched }, t))

-- aliases, admitted and proposed after an entry
unfoldable listed : Batch → Spec → Task → Batch
listed b spec t = record b {
  aliases = Dict.put t.id t.id (Dict.put spec.intent_key t.id b.aliases);
  admitted = if t.admitted then b.admitted ++ t.id ∷ [] else b.admitted;
  proposed = if t.admitted then b.proposed else b.proposed ++ t.id ∷ [];
}

-- The edge from an entry to the work that discovered it.
unfoldable discover : Batch → Option String → String → Result Batch
discover b none id = ok b
discover b (some source_id) id = do
  (state, touched) ←
      add_edge b.state id source_id discovered_from b.touched
        (record { reuse = true; yielding = none })
  ok (record b { state = state; touched = touched })

module _ (uuid5 : String → String → String) where
  -- task_id_for of sidecar/src/mempalace_tasks/codec.py
  unfoldable pub task_id_for : String → String → Result String
  task_id_for authority_id command_id = do
    identifier authority_id
    identifier command_id
    ok (concat "tsk_" (uuid5 authority_id command_id))

  -- else: a new task
  unfoldable create_entry : State → Scope → Spec → Result (State × Task × Bool)
  unfolding spec_input
  create_entry state scope spec = do
    require (is_none spec.expected_version) validation_error
    id ← task_id_for state.authority_id (uuid5 scope.command_id spec.intent_key)
    inputs ← spec_input scope spec
    (state', t) ← new_task state id inputs scope.at (native_of scope.caller scope.goal)
    ok (state', t, true)

  -- The three ways to resolve an entry to a task, which is new in the last.
  unfoldable resolve_intent : State → Scope → Spec → Option Task → Result (State × Task × Bool)
  unfolding reuse_intent create_entry
  resolve_intent state scope spec none = create_entry state scope spec
  resolve_intent state scope spec (some target) = reuse_intent state spec target

  unfoldable resolve : State → Scope → Spec → Option String → Result (State × Task × Bool)
  unfolding reuse_named resolve_intent
  resolve state scope spec (some task_id) = reuse_named state scope spec task_id
  resolve state scope spec none =
      resolve_intent state scope spec
        (with_intent scope.goal.id spec.intent_key (values state.tasks))

  -- The body of the loop over the batch.
  unfoldable pub expand_entry : Scope → Batch → Spec → Result Batch
  unfolding resolve admit listed discover
  expand_entry scope b spec = do
    text spec.intent_key 256
    require (not (starts_with_dollar spec.intent_key) && not (contains spec.intent_key b.seen))
        validation_error
    (state, target, is_new) ← resolve b.state scope spec spec.reuse_task_id
    let created = if is_new then b.created ++ target.id ∷ [] else b.created
    let b' : Batch = record b {
      state = state;
      seen = spec.intent_key ∷ b.seen;
      created = created;
      reused =
          if contains target.id created
          then b.reused
          else Dict.put target.id spec.expected_version b.reused;
    }
    (b'', t) ← admit b' scope spec target
    discover (listed b'' spec t) scope.source_id t.id

  unfoldable pub expand_entries : Scope → Batch → List Spec → Result Batch
  expand_entries scope b [] = ok b
  expand_entries scope b (spec ∷ rest) = do
    b' ← expand_entry scope b spec
    expand_entries scope b' rest
