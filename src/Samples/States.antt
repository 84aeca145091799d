-- ===== src/Samples/States.antt =====
-- One goal-less project with a fenced task, before and after its claim.
use copilot_mempalace.Prelude.{◌+◌, ◌*◌, String, true, false, none, some, [], ◌∷◌}
use copilot_mempalace.Model.{second}
use copilot_mempalace.Domain.Types.{
  Kind, operator, worker, supervisor, system, opened, resource_fenced, in_progress, preparing,
}
use copilot_mempalace.Domain.Records.{
  Task, State, Attempt, Configuration, Reservation, default_policy,
}
use copilot_mempalace.Domain.Commands.{Claim}

-- A stand-in for uuid.uuid5: one identifier for all names.
abbrev pub fixed_uuid : String → String → String
fixed_uuid namespace name = "00000000-0000-4000-8000-000000000001"

abbrev pub config : Configuration
config = record {
  execution_profiles =
      (
        "build",
        record {
          execution_class = resource_fenced;
          available = true;
          supports_fencing = true;
          supports_reconciliation = true;
        },
      )
      ∷ [];
  actors = ("root", operator) ∷ ("host", supervisor) ∷ ("w1", worker) ∷ ("clock", system) ∷ [];
  supervisors = ("host", record { profiles = "build" ∷ []; workers = "w1" ∷ [] }) ∷ [];
  policy = default_policy;
}

abbrev pub task_id : String
task_id = "tsk_00000000-0000-4000-8000-0000000000aa"

abbrev pub ready_task : Task
ready_task = record {
  id = task_id;
  project = "palace";
  kind = Kind.task;
  title = "Index the wing";
  description = "";
  acceptance = "";
  priority = 2;
  hold_reason = none;
  deferred_until = none;
  execution_class = some resource_fenced;
  execution_profile = some "build";
  resource_keys = "db" ∷ [];
  policy = default_policy;
  goal_id = none;
  intent_key = none;
  admitted = true;
  native = none;
  status = opened;
  version = 1;
  claim_generation = 0;
  lease_revision = 0;
  lease_expires_at = none;
  attempt = none;
  automatic_retries_used = 0;
  retry_budget_granted = 0;
  retry_not_before = none;
  recovery = none;
  escalation = none;
  created_at = 0;
  updated_at = 0;
  completion = none;
  cancellation_reason = none;
  sealed = false;
  graph_revision = 0;
  goal_policy = none;
  assignee = none;
}

abbrev pub ready_state : State
ready_state = record {
  authority_id = "00000000-0000-4000-8000-0000000000ff";
  tasks = (task_id, ready_task) ∷ [];
  edges = [];
  resources = [];
  configuration = some config;
  last_event_at = some 0;
}

abbrev pub claim_command : Claim
claim_command = record { supervisor_id = "host"; worker_id = none }

abbrev pub command_id : String
command_id = "00000000-0000-4000-8000-0000000000cc"

abbrev pub running_attempt : Attempt
running_attempt = record {
  id = "att_00000000-0000-4000-8000-000000000001";
  number = 1;
  owner = "w1";
  supervisor_id = some "host";
  session_generation = none;
  native_agent_id = none;
  started_at = 1000;
  status = preparing;
  progress_deadline = some (1000 + 1800 * second);
  hard_deadline = some (1000 + 7200 * second);
  checkpoint = none;
  failure_reason = none;
  resource_fences = ("db", 1) ∷ [];
  preparation = none;
  settlement = none;
}

-- The task once the worker has claimed it, at 1000 microseconds.
abbrev pub running_task : Task
running_task = record ready_task {
  claim_generation = 1;
  lease_revision = 1;
  status = in_progress;
  assignee = some "w1";
  attempt = some running_attempt;
  lease_expires_at = some (1000 + 300 * second);
}

abbrev pub db_reservation : Reservation
db_reservation = record { task_id = task_id; attempt_id = running_attempt.id; claim_generation = 1 }

abbrev pub claimed_state : State
claimed_state = record ready_state {
  tasks = (task_id, running_task) ∷ [];
  resources = ("db", record { counter = 1; reservation = some db_reservation }) ∷ [];
}
