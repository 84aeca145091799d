-- ===== src/Samples/Recoveries.antt =====
-- The list of ready tasks, the recovery and the validation on the project of Samples/States.antt.
use copilot_mempalace.Prelude.{ℕ, ◌+◌, ◌*◌, ◌≤◌, ◌≡◌, true, false, none, some, [], ◌∷◌, refl}
use copilot_mempalace.Prelude.Dict
use copilot_mempalace.Prelude.Dict.{get, has, put}
use copilot_mempalace.Prelude.Sort.{insert, sort}
use copilot_mempalace.Prelude.Text.{byte_count, char_count, has_uuid, is_blank, starts_with_dollar}
use copilot_mempalace.Model.{
  ok, ◌>>=◌, require, or_fail, for_each, text, byte_text, empty_text, integer, second,
}
use copilot_mempalace.Domain.Types.{Disposition, opened, recovering, revoked, supervisor}
use copilot_mempalace.Domain.Records.{Task, State, Evidence, ManagedRecovery, managed}
use copilot_mempalace.Domain.Commands.{Recover, preserve}
use copilot_mempalace.Domain.Checks.{deadline, policy, strings}
use copilot_mempalace.Domain.Inputs.{check_execution, check_task_input, save}
use copilot_mempalace.Domain.Attempts.{
  evidence_check, fence_check, fenced_barrier, fences_check, install_fences, next_fences,
  recovery_barrier, release_keys, release_resources,
}
use copilot_mempalace.Domain.Readiness.{
  Filters, blockers, busy_resources, own_reasons, profile_supported, ready_among, ready_before,
  stamp_rank, ready_tasks, selects, task_eligibility, wait_reasons,
}
use copilot_mempalace.Domain.Readiness.Listing.{IsListing, ready_tasks-IsListing}
use copilot_mempalace.Domain.Recover.{
  disposed, granted, recover, recover_check, requeued_task, settle,
}
use copilot_mempalace.Domain.Recover.Retries.{Recovered, recover-Recovered}
use copilot_mempalace.Domain.Lifecycle.{IsConsistent}
use copilot_mempalace.Domain.Validation.Attempts.{
  active_check, attempt_activity, attempt_check, attempt_evidence, attempt_identity, attempt_times,
  validate_attempt, validate_recovery,
}
use copilot_mempalace.Domain.Validation.Tasks.{
  content_check, ending_check, goal_place_check, history_check, validate_task,
}
use copilot_mempalace.Domain.Validation.Acceptance.{validate_task-IsConsistent}
use copilot_mempalace.Samples.States.{
  claimed_state, ready_state, ready_task, running_attempt, running_task, task_id,
}

abbrev filters : Filters
filters = record {
  project = some "palace";
  goal_id = none;
  priority_ceiling = none;
  limit = some 5;
  execution_profile = none;
}

listing-ok : ready_tasks ready_state filters 1000 ≡ ok (ready_task ∷ [])
unfolding ready_tasks ready_among selects ready_before stamp_rank task_eligibility wait_reasons
    blockers own_reasons busy_resources profile_supported insert sort ◌>>=◌ require or_fail text
    integer get char_count is_blank
listing-ok = refl

ready_tasks-IsListing_example : IsListing ready_state filters 1000 (ready_task ∷ [])
ready_tasks-IsListing_example =
    ready_tasks-IsListing ready_state filters 1000 (ready_task ∷ []) listing-ok

-- A task that is a microsecond younger comes first, where the older one is of a whole second.
younger_first :
    ready_before
      (record ready_task { created_at = 1000001 })
      (record ready_task { created_at = 1000000 })
    ≡ true
unfolding ready_before stamp_rank
younger_first = refl

-- The state that has recorded the claim.
abbrev recorded_state : State
recorded_state = record claimed_state { last_event_at = some 1000 }

validation-ok : validate_task recorded_state task_id running_task ≡ ok tt
unfolding validate_task content_check history_check ending_check goal_place_check validate_attempt
    attempt_check attempt_identity attempt_times attempt_activity active_check attempt_evidence
    validate_recovery check_task_input check_execution policy strings fence_check ◌>>=◌ require
    or_fail for_each text byte_text empty_text integer get has_uuid byte_count char_count is_blank
    starts_with_dollar has
validation-ok = refl

validate_task-IsConsistent_example : IsConsistent running_task
validate_task-IsConsistent_example =
    validate_task-IsConsistent recorded_state task_id running_task validation-ok

abbrev failure : ManagedRecovery
failure = record {
  reason = "worker lost";
  disposition = Disposition.requeue;
  failed = true;
  permanent = false;
  started_at = 2000;
  barrier_satisfied = false;
  evidence = none;
}

-- The task once its attempt has failed.
abbrev failed_task : Task
failed_task = record running_task {
  status = recovering;
  assignee = none;
  lease_expires_at = none;
  attempt = some (record running_attempt { status = revoked });
  recovery = some (managed failure);
}

abbrev failed_state : State
failed_state = record claimed_state { tasks = (task_id, failed_task) ∷ [] }

abbrev reconciled : Evidence
reconciled = record {
  references = "journal/42" ∷ [];
  prepared = none;
  resource_fences = none;
  publication_revoked = none;
  process_stopped = none;
  effects_reconciled = some true;
  installed_fences = some (("db", 2) ∷ []);
  fencing_unavailable = none;
}

abbrev recover_command : Recover
recover_command = record {
  evidence = reconciled;
  retry_decision = preserve;
  additional_retries = none;
}

abbrev recovered_state : State
recovered_state = record failed_state {
  tasks =
      (
        task_id,
        record failed_task {
          status = opened;
          recovery = none;
          automatic_retries_used = 1;
          retry_not_before = some (3000 + 30 * second);
        },
      )
      ∷ [];
  resources = ("db", record { counter = 2; reservation = none }) ∷ [];
}

recover-ok :
    recover failed_state failed_task recover_command "host" supervisor 3000 ≡ ok recovered_state
unfolding recover recover_check granted settle recovery_barrier fenced_barrier next_fences
    install_fences release_resources release_keys evidence_check fences_check fence_check strings
    disposed requeued_task deadline save ◌>>=◌ require or_fail for_each text byte_text integer get
    has put char_count byte_count is_blank
recover-ok = refl

recover-Recovered_example :
    (r : ManagedRecovery) × (n : ℕ) × (t' : Task) × (n ≤ 3)
    × (failed_task.recovery ≡ some (managed r))
    × (Dict.get task_id recovered_state.tasks ≡ some t')
    × Recovered failed_task n 3000 r t'
recover-Recovered_example =
    recover-Recovered failed_state failed_task recover_command "host" supervisor 3000
      recovered_state recover-ok
