-- ===== src/Samples/Leases.antt =====
-- Runs of claim, renew and expire on the project of Samples/States.antt.
use copilot_mempalace.Prelude.{◌+◌, ◌*◌, none, some, [], ◌∷◌, ◌≡◌, ◌≢◌, arith, refl}
use copilot_mempalace.Prelude.Dict
use copilot_mempalace.Prelude.Dict.{get, has, put}
use copilot_mempalace.Prelude.Text.{char_count, is_blank}
use copilot_mempalace.Model.{
  ok, err, ◌>>=◌, require, or_fail, text, second, integer, stale_generation,
}
use copilot_mempalace.Domain.Types.{worker, supervisor, system}
use copilot_mempalace.Domain.Records.{Task, State, Attempt}
use copilot_mempalace.Domain.Commands.{Tokens, Renew, Expire, TaskOperation}
use copilot_mempalace.Domain.Checks.{deadline, expected}
use copilot_mempalace.Domain.Inputs.{save}
use copilot_mempalace.Domain.Attempts.{generation, live, attempt_due, may_act, supervisor_alone}
use copilot_mempalace.Domain.Readiness.{
  task_eligibility, blockers, busy_resources, own_reasons, profile_supported, wait_reasons,
}
use copilot_mempalace.Domain.Claim.{
  claim, claim_check, claimed_task, previous_checkpoint, reserve, terms,
}
use copilot_mempalace.Domain.Readiness.Conditions.{IsReady, task_eligibility-IsReady}
use copilot_mempalace.Domain.Claim.Deadlines.{claim-IsClaimed, claim-stale, IsClaimed}
use copilot_mempalace.Domain.Reports.{renew, expire}
use copilot_mempalace.Domain.Reports.Leases.{renew-IsRenewed, live-not-expire, IsRenewed}
use copilot_mempalace.Domain.Lifecycle.{IsConsistent, Stores}
use copilot_mempalace.Domain.Lifecycle.Endings.{apply_operation-IsConsistent}
use copilot_mempalace.Domain.Execute.{Execution, apply_operation, lease_renewed, of_task}
use copilot_mempalace.Samples.States.{
  fixed_uuid, ready_state, ready_task, claim_command, command_id, claimed_state, running_task,
  running_attempt, task_id,
}

claimed-ok :
    claim fixed_uuid ready_state ready_task claim_command command_id "w1" worker 1000
    ≡ ok claimed_state
unfolding claim claim_check claimed_task previous_checkpoint reserve terms task_eligibility blockers
    busy_resources own_reasons profile_supported wait_reasons deadline ◌>>=◌ require or_fail text
    get has put char_count is_blank save
claimed-ok = refl

abbrev tokens : Tokens
tokens = record { attempt_id = some running_attempt.id; claim_generation = some 1 }

abbrev old_tokens : Tokens
old_tokens = record { attempt_id = some running_attempt.id; claim_generation = some 0 }

old_generation : old_tokens.claim_generation ≢ some running_task.claim_generation
old_generation h = ground arith

stored-ok : Dict.get running_task.id claimed_state.tasks ≡ some running_task
unfolding get
stored-ok = refl

eligible-ok : task_eligibility ready_state ready_task 1000 ≡ ok []
unfolding task_eligibility blockers busy_resources own_reasons profile_supported wait_reasons ◌>>=◌
    require or_fail get
eligible-ok = refl

abbrev renew_command : Renew
renew_command = record { tokens = tokens; expected_lease_revision = 1 }

abbrev expire_command : Expire
expire_command = record { tokens = tokens; expected_lease_revision = 1; reason = none }

abbrev renewed_state : State
renewed_state = record claimed_state {
  tasks =
      (
        task_id,
        record running_task { lease_revision = 2; lease_expires_at = some (2000 + 300 * second) },
      )
      ∷ [];
}

renewed-ok : renew claimed_state running_task renew_command "host" 2000 ≡ ok renewed_state
unfolding renew live generation attempt_due may_act expected integer deadline ◌>>=◌ require or_fail
    put save
renewed-ok = refl

live-ok : live claimed_state running_task tokens "host" 2000 supervisor_alone ≡ ok running_attempt
unfolding live generation attempt_due may_act ◌>>=◌ require or_fail
live-ok = refl

running-IsConsistent : IsConsistent running_task
running-IsConsistent = record {
  assigned = refl;
  leased = refl;
  recovers = refl;
  escalated = refl;
  completes = refl;
  cancels = refl;
  attempted = refl;
  fits = refl;
}

abbrev renewal : TaskOperation
renewal = TaskOperation.renew renew_command

abbrev renewal_execution : Execution
renewal_execution = record {
  state = renewed_state;
  kind = lease_renewed;
  touched = [];
  response = of_task task_id;
}

renewal-ok :
    apply_operation fixed_uuid claimed_state running_task renewal command_id "host" supervisor 2000
    ≡ ok renewal_execution
unfolding apply_operation ◌>>=◌
renewal-ok = rw renewed-ok refl

apply_operation-IsConsistent_example : Stores IsConsistent task_id renewed_state
apply_operation-IsConsistent_example =
    apply_operation-IsConsistent fixed_uuid claimed_state running_task renewal command_id "host"
      supervisor 2000 renewal_execution running-IsConsistent stored-ok renewal-ok

claim-IsClaimed_example :
    IsReady ready_state ready_task 1000
    × (t' : Task) × (Dict.get task_id claimed_state.tasks ≡ some t')
    × IsClaimed ready_task "w1" 1000 t'
claim-IsClaimed_example =
    claim-IsClaimed fixed_uuid ready_state ready_task claim_command command_id "w1" worker 1000
      claimed_state claimed-ok

claim-stale_example :
    (t' : Task) × (Dict.get task_id claimed_state.tasks ≡ some t')
    × (generation t' old_tokens ≡ err stale_generation)
claim-stale_example =
    claim-stale fixed_uuid ready_state ready_task claim_command command_id "w1" worker 1000
      claimed_state old_tokens 0 claimed-ok refl (omega arith)

task_eligibility-IsReady_example : IsReady ready_state ready_task 1000
task_eligibility-IsReady_example =
    task_eligibility-IsReady ready_state ready_task 1000 [] eligible-ok refl

renew-IsRenewed_example :
    (attempt : Attempt) × (t' : Task) × (running_task.attempt ≡ some attempt)
    × (Dict.get task_id renewed_state.tasks ≡ some t')
    × IsRenewed running_task attempt t'
renew-IsRenewed_example =
    renew-IsRenewed claimed_state running_task renew_command "host" 2000 renewed_state renewed-ok

live-not-expire_example :
    expire claimed_state running_task expire_command system 2000 ≢ ok ready_state
live-not-expire_example =
    live-not-expire claimed_state running_task tokens "host" 2000 supervisor_alone running_attempt
      expire_command system ready_state live-ok
