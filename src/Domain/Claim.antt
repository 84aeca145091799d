-- ===== src/Domain/Claim.antt =====
-- The claim of _execute in sidecar/src/mempalace_tasks/domain.py: a worker takes a ready task under
-- a new generation, with its resources fenced and a lease within its deadlines. `uuid5` is
-- uuid.uuid5 of a namespace and a name.
pub mod Fencing
pub mod Deadlines
use copilot_mempalace.Prelude.{
  ℕ, ◌+◌, String, Bool, false, ◌&&◌, ◌||◌, Option, none, some, List, [], ◌∷◌, ◌==◌, is_empty,
  contains, string_eq, min,
}
use copilot_mempalace.Prelude.Dict.{Dict}
use copilot_mempalace.Prelude.Dict
use Prim.Native.String.{◌++◌}
use copilot_mempalace.Model.{
  ◌>>=◌, ◌>>◌, Result, ok, require, or_fail, text, not_owner, not_ready, resource_busy,
  unsupported_execution_profile,
}
use copilot_mempalace.Domain.Types.{
  Kind, Role, worker, supervisor, in_progress, preparing, role_eq, kind_eq,
}
use copilot_mempalace.Domain.Records.{
  Task, State, Attempt, Checkpoint, Resource, Reservation, Supervisor,
}
use copilot_mempalace.Domain.Commands.{Claim}
use copilot_mempalace.Domain.Checks.{configured, deadline, get_or, is_none}
use copilot_mempalace.Domain.Inputs.{save}
use copilot_mempalace.Domain.Readiness.{task_eligibility}

-- state.resources.setdefault(key, {"counter": 0, "reservation": None})
abbrev pub resource_at : Dict Resource → String → Resource
resource_at resources key =
    get_or (Dict.get key resources) (record { counter = 0; reservation = none })

abbrev pub reserved : Resource → Reservation → Resource
reserved r own = record { counter = r.counter + 1; reservation = some own }

-- The loop over the resource keys: each counter grows, each resource is reserved, and the counters
-- are the fences of the attempt.
unfoldable pub reserve :
    Reservation → List String → Dict Resource → Dict ℕ → Result (Dict Resource × Dict ℕ)
reserve own [] resources fences = ok (resources, fences)
reserve own (key ∷ rest) resources fences = do
  let r = resource_at resources key
  require (is_none r.reservation) resource_busy
  reserve own rest (Dict.put key (reserved r own) resources) (Dict.put key (r.counter + 1) fences)

abbrev offers : Option String → Supervisor → Bool
offers none s = false
offers (some name) s = contains name s.profiles

-- The checks of a claim before the task is looked at.
unfoldable pub claim_check : State → Task → Claim → String → Role → Result (Unit {0})
claim_check state t command actor role = do
  require (role == worker || role == supervisor) not_owner
  require (t.kind == Kind.task) not_ready
  text command.supervisor_id 256
  let owner = get_or command.worker_id actor
  text owner 256
  require ((role == worker && owner == actor) || actor == command.supervisor_id) not_owner
  config ← configured state
  s ← or_fail (Dict.get command.supervisor_id config.supervisors) unsupported_execution_profile
  require (contains owner s.workers && offers t.execution_profile s) unsupported_execution_profile

unfoldable pub previous_checkpoint : Option Attempt → Option Checkpoint
previous_checkpoint none = none
previous_checkpoint (some attempt) = attempt.checkpoint

-- The deadlines and the lease of a claim at `at`.
pub record Terms : Type 0 where
  pub hard : ℕ
  pub progress : ℕ
  pub lease : ℕ

unfoldable pub terms : Task → ℕ → Result Terms
terms t at = do
  hard ← deadline at t.policy.hard_timeout_seconds
  stall ← deadline at t.policy.progress_timeout_seconds
  ttl ← deadline at t.policy.lease_ttl_seconds
  let progress = min hard stall
  ok (record { hard = hard; progress = progress; lease = min progress (min hard ttl) })

-- The task after a claim, with its new attempt.
unfoldable pub claimed_task : Task → String → String → String → ℕ → Terms → Dict ℕ → Task
unfolding previous_checkpoint
claimed_task t attempt_id owner supervisor_id at due fences = record t {
  claim_generation = t.claim_generation + 1;
  lease_revision = 1;
  status = in_progress;
  assignee = some owner;
  attempt = some (record {
    id = attempt_id;
    number = t.claim_generation + 1;
    owner = owner;
    supervisor_id = some supervisor_id;
    session_generation = none;
    native_agent_id = none;
    started_at = at;
    status = preparing;
    progress_deadline = some due.progress;
    hard_deadline = some due.hard;
    checkpoint = previous_checkpoint t.attempt;
    failure_reason = none;
    resource_fences = fences;
    preparation = none;
    settlement = none;
  });
  lease_expires_at = some due.lease;
  retry_not_before = none;
}

abbrev pub new_reservation : Task → String → Reservation
new_reservation t attempt_id = record {
  task_id = t.id;
  attempt_id = attempt_id;
  claim_generation = t.claim_generation + 1;
}

module _ (uuid5 : String → String → String) where
  abbrev pub attempt_id_for : String → Task → String
  attempt_id_for command_id t = "att_" ++ uuid5 command_id t.id

  -- op == "claim"
  unfoldable pub claim : State → Task → Claim → String → String → Role → ℕ → Result State
  claim state t command command_id actor role at = do
    claim_check state t command actor role
    reasons ← task_eligibility state t at
    require (is_empty reasons) not_ready
    let attempt_id = attempt_id_for command_id t
    (resources, fences) ← reserve (new_reservation t attempt_id) t.resource_keys state.resources []
    due ← terms t at
    let t' =
        claimed_task t attempt_id (get_or command.worker_id actor) command.supervisor_id at due
          fences
    ok (save (record state { resources = resources }) t')
