-- ===== src/Domain/Inputs.antt =====
-- _check_task_input and _new_task of sidecar/src/mempalace_tasks/domain.py: what a task's content
-- must satisfy, and the task that a creation makes.
use copilot_mempalace.Prelude.{
  ℕ, String, Bool, true, false, not, ◌&&◌, ◌||◌, Option, none, some, List, [], ◌∷◌, ◌==◌, is_empty,
  string_eq, if◌then◌else◌,
}
use copilot_mempalace.Prelude.Text.{text_le, starts_with_dollar}
use copilot_mempalace.Prelude.Dict
use copilot_mempalace.Model.{
  Result, ok, ◌>>=◌, ◌>>◌, require, or_fail, text, byte_text, empty_text, integer, validation_error,
  unsupported_execution_profile, already_exists,
}
use copilot_mempalace.Domain.Types.{Kind, ExecutionClass, Status, isolated, kind_eq, class_eq}
use copilot_mempalace.Domain.Records.{Profile, Configuration, Task, State, Native, default_policy}
use copilot_mempalace.Domain.Commands.{PolicyOverrides, TaskInput}
use copilot_mempalace.Domain.Checks.{get_or, is_none, strings, policy, no_overrides, configured}

-- resources == sorted(resources)
abbrev pub in_order : List String → Bool
in_order [] = true
in_order (x ∷ []) = true
in_order (x ∷ y ∷ ys) = text_le x y && in_order (y ∷ ys)

unfoldable optional_text : Option String → (String → Result (Unit {0})) → Result (Unit {0})
optional_text none f = ok tt
optional_text (some s) f = f s

-- profile is not None and profile["execution_class"] == data["execution_class"]
abbrev pub profile_fits : Option Profile → ExecutionClass → Bool
profile_fits none c = false
profile_fits (some p) c = p.execution_class == c

-- The last branches of _check_task_input: which execution fields the task may declare.
unfoldable pub check_execution : Configuration → Task → Result (Unit {0})
check_execution config t =
    let bare =
      is_none t.execution_class && is_none t.execution_profile && is_empty t.resource_keys in
    if not (is_none t.native) || t.kind == Kind.epic then require bare validation_error else do
      class ← or_fail t.execution_class validation_error
      name ← or_fail t.execution_profile validation_error
      text name 256
      require (not t.admitted || profile_fits (Dict.get name config.execution_profiles) class)
          unsupported_execution_profile
      require (if is_empty t.resource_keys then class == isolated else not (class == isolated))
          validation_error

-- _check_task_input, on a task whose policy object is `overrides`: the task with its policy
-- completed. `deferred_until` is normalized already.
unfoldable pub check_task_input : State → Task → PolicyOverrides → Result Task
unfolding optional_text
check_task_input state t overrides = do
  text t.project 256
  text t.title 256
  empty_text t.description 16384
  empty_text t.acceptance 8192
  integer t.priority 0 4
  optional_text t.hold_reason (λ s. byte_text s 8192)
  optional_text t.intent_key
      (λ s. do text s 256; require (not (starts_with_dollar s)) validation_error)
  strings t.resource_keys 32 false 256
  require (in_order t.resource_keys) validation_error
  config ← configured state
  p ← policy overrides config.policy
  check_execution config t
  ok (record t { policy = p })

-- The task of _new_task before its policy is completed.
unfoldable pub fresh_task : String → TaskInput → ℕ → Option Native → Task
fresh_task task_id inputs at native = record {
  id = task_id;
  project = inputs.project;
  kind = inputs.kind;
  title = inputs.title;
  description = inputs.description;
  acceptance = inputs.acceptance;
  priority = get_or inputs.priority 2;
  hold_reason = inputs.hold_reason;
  deferred_until = inputs.deferred_until;
  execution_class = inputs.execution_class;
  execution_profile = inputs.execution_profile;
  resource_keys = get_or inputs.resource_keys [];
  policy = default_policy;
  goal_id = inputs.goal_id;
  intent_key = inputs.intent_key;
  admitted = get_or inputs.admitted true;
  native = native;
  status = Status.opened;
  version = 1;
  claim_generation = 0;
  lease_revision = 0;
  lease_expires_at = none;
  attempt = none;
  automatic_retries_used = 0;
  retry_budget_granted = 0;
  retry_not_before = none;
  recovery = none;
  escalation = none;
  created_at = at;
  updated_at = at;
  completion = none;
  cancellation_reason = none;
  sealed = false;
  graph_revision = 0;
  goal_policy = none;
  assignee = none;
}

-- A write of a task under its own id: state.tasks[task["id"]] = task, and what a mutation of the
-- task object in place does.
unfoldable pub save : State → Task → State
save state t = record state { tasks = Dict.put t.id t state.tasks }

-- _new_task
unfoldable pub new_task : State → String → TaskInput → ℕ → Option Native → Result (State × Task)
new_task state task_id inputs at native = do
  t ←
      check_task_input state (fresh_task task_id inputs at native)
        (get_or inputs.policy no_overrides)
  require (not (Dict.has task_id state.tasks)) already_exists
  ok (save state t, t)
