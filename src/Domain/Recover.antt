-- ===== src/Domain/Recover.antt =====
-- The recovery of _execute in sidecar/src/mempalace_tasks/domain.py: a revoked attempt's effects are
-- settled once, its resources given back, and the task requeued within its retry budget, cancelled
-- or quarantined.
pub mod Retries
use copilot_mempalace.Prelude.{
  ℕ, ◌+◌, ◌-◌, ◌*◌, ◌^◌, String, Bool, true, false, not, ◌&&◌, ◌||◌, Option, none, some, leb, ◌==◌,
  string_eq, option_eq, min, if◌then◌else◌,
}
use copilot_mempalace.Model.{
  ◌>>=◌, ◌>>◌, Code, Result, ok, err, require, or_fail, integer, validation_error, not_owner,
  invalid_transition, key_error,
}
use copilot_mempalace.Domain.Types.{
  Role, Disposition, EscalationCode, operator, supervisor, opened, recovering, quarantined,
  cancelled, role_eq, status_eq,
}
use copilot_mempalace.Domain.Records.{
  Task, State, Attempt, ManagedRecovery, Escalation, Evidence, managed, cooperative,
}
use copilot_mempalace.Domain.Commands.{Recover, RetryDecision, preserve, grant}
use copilot_mempalace.Domain.Checks.{deadline, admin_operator, is_none}
use copilot_mempalace.Domain.Inputs.{save}
use copilot_mempalace.Domain.Attempts.{evidence_check, recovery_barrier, release_resources}

abbrev supervises : Option Attempt → String → Bool
supervises none actor = false
supervises (some attempt) actor = attempt.supervisor_id == some actor

abbrev pub grants : RetryDecision → Bool
grants preserve = false
grants grant = true

-- task["recovery"] of a managed task; a cooperative one lacks the fields that are read next
unfoldable managed_recovery : Task → Result ManagedRecovery
managed_recovery t = elim t.recovery [
  | none ↦ err invalid_transition
  | some r ↦ elim r [ managed m ↦ ok m | cooperative c ↦ err key_error ]
]

unfoldable settled_error : Option Escalation → Code
settled_error none = key_error
settled_error (some e) = elim e.code [
  | EscalationCode.retry_budget_exhausted ↦ Code.retry_budget_exhausted
  | _ ↦ Code.recovery_required
]

-- The checks of a recovery up to the retry decision.
unfoldable pub recover_check : Task → Recover → String → Role → Result ManagedRecovery
unfolding managed_recovery settled_error
recover_check t command actor role = do
  require (role == operator || (role == supervisor && supervises t.attempt actor)) not_owner
  require ((t.status == recovering || t.status == quarantined) && not (is_none t.recovery))
      invalid_transition
  r ← managed_recovery t
  require (not r.barrier_satisfied || grants command.retry_decision) (settled_error t.escalation)
  ok r

-- The retries that the command grants.
unfoldable pub granted : State → Recover → String → Result ℕ
granted state command actor =
    if grants command.retry_decision
    then (do
      admin_operator state actor
      n ← or_fail command.additional_retries validation_error
      integer n 1 3
      ok n)
    else (do require (is_none command.additional_retries) validation_error; ok 0)

-- The barrier is passed once: then the resources are given back.
unfoldable pub settle : State → Task → ManagedRecovery → Evidence → Result State
settle state t r evidence =
    if r.barrier_satisfied
    then ok state
    else (do state' ← recovery_barrier state t evidence; release_resources state' t)

abbrev pub retry_limit : Task → ℕ
retry_limit t = t.policy.automatic_retries + t.retry_budget_granted

-- The recovery stays open: a permanent failure with no grant, or no retry left.
abbrev pub exhausted : Task → ManagedRecovery → Bool → Bool
exhausted t r has_grant =
    (r.permanent && not has_grant) || (r.failed && leb (retry_limit t) t.automatic_retries_used)

unfoldable pub quarantined_task : Task → ManagedRecovery → Evidence → ℕ → Task
quarantined_task t r evidence at = record t {
  status = quarantined;
  recovery = some (managed (record r { barrier_satisfied = true; evidence = some evidence }));
  escalation = some (record {
    code =
        if r.permanent
        then EscalationCode.permanent_failure
        else EscalationCode.retry_budget_exhausted;
    at = at;
    reason = r.reason;
  });
}

unfoldable pub cancelled_task : Task → ManagedRecovery → Task
cancelled_task t r = record t {
  status = cancelled;
  cancellation_reason = some r.reason;
  recovery = none;
  escalation = none;
}

-- 30 * 2 ** min(automatic_retries_used - 1, 2), after the increment
abbrev pub backoff : ℕ → ℕ
backoff used = 30 * 2 ^ min (used - 1) 2

unfoldable pub requeued_task : Task → ManagedRecovery → ℕ → Result Task
requeued_task t r at =
    if r.failed
    then (do
      due ← deadline at (backoff (t.automatic_retries_used + 1))
      ok (record t {
        status = opened;
        automatic_retries_used = t.automatic_retries_used + 1;
        retry_not_before = some due;
        recovery = none;
        escalation = none;
      }))
    else ok (record t { status = opened; recovery = none; escalation = none })

abbrev pub is_cancel : Disposition → Bool
is_cancel Disposition.cancel = true
is_cancel _ = false

-- The task after its effects are settled.
unfoldable pub disposed : Task → ManagedRecovery → Bool → Evidence → ℕ → Result Task
unfolding quarantined_task cancelled_task requeued_task
disposed t r has_grant evidence at =
    if is_cancel r.disposition
    then ok (cancelled_task t r)
    else if exhausted t r has_grant
    then ok (quarantined_task t r evidence at)
    else requeued_task t r at

abbrev pub with_budget : Task → ℕ → Task
with_budget t n = record t { retry_budget_granted = t.retry_budget_granted + n }

-- op == "recover"
unfoldable pub recover : State → Task → Recover → String → Role → ℕ → Result State
recover state t command actor role at = do
  r ← recover_check t command actor role
  n ← granted state command actor
  evidence_check command.evidence
  state' ← settle state t r command.evidence
  t' ← disposed (with_budget t n) r (grants command.retry_decision) command.evidence at
  ok (save state' t')
