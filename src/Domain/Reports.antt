-- ===== src/Domain/Reports.antt =====
-- The operations of _execute in sidecar/src/mempalace_tasks/domain.py on an attempt that runs:
-- renew, checkpoint, attempt_report, expire and release.
pub mod Leases
use copilot_mempalace.Prelude.{
  ℕ, ◌+◌, String, Bool, true, false, not, ◌&&◌, ◌||◌, Option, none, some, [], ◌∷◌, leb, ◌==◌,
  length, string_eq, nat_eq, option_eq, min, if◌then◌else◌,
}
use copilot_mempalace.Prelude.Dict.{Dict}
use copilot_mempalace.Prelude.Dict
use copilot_mempalace.Model.{
  ◌>>=◌, ◌>>◌, Result, ok, require, or_fail, instant, validation_error, invalid_transition,
  recovery_required, not_owner,
}
use copilot_mempalace.Domain.Types.{
  Role, Disposition, system, preparing, running, settled, resource_fenced, requeue, role_eq,
  class_eq, status_eq, attempt_status_eq,
}
use copilot_mempalace.Domain.Records.{Task, State, Attempt, Evidence, Recovery, managed}
use copilot_mempalace.Domain.Commands.{
  Renew, CheckpointReport, ReportKind, AttemptReport, Expire, Release,
}
use copilot_mempalace.Domain.Checks.{deadline, expected, get_or, is_none}
use copilot_mempalace.Domain.Inputs.{save}
use copilot_mempalace.Domain.Attempts.{
  generation, live, attempt_due, supervisor_alone, with_admin, evidence_check, settlement_evidence,
  is_true,
}
use copilot_mempalace.Domain.Revocation.{revoke, record_checkpoint}

-- op == "renew": the lease is extended, never past the attempt's deadlines
unfoldable pub renew : State → Task → Renew → String → ℕ → Result State
renew state t command actor at = do
  attempt ← live state t command.tokens actor at supervisor_alone
  expected t.lease_revision command.expected_lease_revision
  due ← deadline at t.policy.lease_ttl_seconds
  progress ← instant attempt.progress_deadline
  hard ← instant attempt.hard_deadline
  ok (
      save state (record t {
        lease_revision = t.lease_revision + 1;
        lease_expires_at = some (min due (min progress hard));
      }))

-- op == "checkpoint"
unfoldable pub checkpoint : State → Task → CheckpointReport → String → ℕ → Result State
checkpoint state t command actor at = do
  attempt ← live state t command.tokens actor at supervisor_alone
  require (attempt.status == running) invalid_transition
  t' ← record_checkpoint t command.checkpoint_sequence command.reference at
  ok (save state t')

-- Equality of two fence objects, whose keys have no order.
abbrev pub agrees : Dict ℕ → Dict ℕ → Bool
agrees a [] = true
agrees a ((key, counter) ∷ rest) = Dict.get key a == some counter && agrees a rest

abbrev pub same_fences : Option (Dict ℕ) → Dict ℕ → Bool
same_fences none b = false
same_fences (some a) b = length a == length b && agrees a b

unfoldable pub started_report : State → Task → Attempt → Evidence → Result State
started_report state t attempt evidence = do
  require (attempt.status == preparing) invalid_transition
  require (is_true evidence.prepared) validation_error
  require
      (not (t.execution_class == some resource_fenced)
        || same_fences evidence.resource_fences attempt.resource_fences)
      recovery_required
  ok (
      save state (record t {
        attempt = some (record attempt { status = running; preparation = some evidence });
      }))

unfoldable pub settled_report : State → Task → Attempt → Evidence → Result State
settled_report state t attempt evidence = do
  require (attempt.status == running) invalid_transition
  settlement_evidence t.execution_class evidence
  ok (
      save state (record t {
        attempt = some (record attempt { status = settled; settlement = some evidence });
      }))

unfoldable pub with_evidence : Option Recovery → Evidence → Option Recovery
with_evidence (some (managed r)) evidence = some (managed (record r { evidence = some evidence }))
with_evidence r evidence = r

-- The failed and the recovery_started reports: the attempt is revoked, and the task requeued.
unfoldable pub failure_report :
    State → Task → Bool → Bool → Option String → Evidence → ℕ → Result State
unfolding with_evidence
failure_report state t is_failed permanent reason evidence at = do
  why ← or_fail reason validation_error
  t' ←
      revoke state t at
        (record { reason = why; disposition = requeue; failed = is_failed; permanent = permanent })
  ok (save state (record t' { recovery = with_evidence t'.recovery evidence }))

unfoldable pub by_report : ReportKind → State → Task → Attempt → AttemptReport → ℕ → Result State
unfolding started_report settled_report
by_report ReportKind.started state t attempt command at =
    started_report state t attempt command.evidence
by_report ReportKind.settled state t attempt command at =
    settled_report state t attempt command.evidence
by_report ReportKind.failed state t attempt command at =
    failure_report state t true (get_or command.permanent false) command.reason command.evidence at
by_report ReportKind.recovery_started state t attempt command at =
    failure_report state t false (get_or command.permanent false) command.reason command.evidence at

abbrev pub is_failure : ReportKind → Bool
is_failure ReportKind.failed = true
is_failure ReportKind.recovery_started = true
is_failure _ = false

abbrev starts_recovery : ReportKind → Bool
starts_recovery ReportKind.recovery_started = true
starts_recovery _ = false

-- The system may start the recovery of an attempt whose lease has run out.
unfoldable pub report_attempt : State → Task → AttemptReport → String → Role → ℕ → Result Attempt
report_attempt state t command actor role at =
    if role == system && starts_recovery command.report_kind
    then generation t command.tokens
    else live state t command.tokens actor at supervisor_alone

-- op == "attempt_report"
unfoldable pub attempt_report : State → Task → AttemptReport → String → Role → ℕ → Result State
unfolding by_report report_attempt
attempt_report state t command actor role at = do
  attempt ← report_attempt state t command actor role at
  require (is_failure command.report_kind || (is_none command.reason && is_none command.permanent))
      validation_error
  evidence_check command.evidence
  by_report command.report_kind state t attempt command at

-- op == "expire": the system revokes an attempt that is due
unfoldable pub expire : State → Task → Expire → Role → ℕ → Result State
expire state t command role at = do
  require (role == system) not_owner
  attempt ← generation t command.tokens
  expected t.lease_revision command.expected_lease_revision
  due ← attempt_due t attempt
  require (leb due at) invalid_transition
  t' ← revoke state t at (record {
    reason = get_or command.reason "lease_expired";
    disposition = requeue;
    failed = true;
    permanent = false;
  })
  ok (save state t')

-- op == "release"
unfoldable pub release : State → Task → Release → String → ℕ → Result State
release state t command actor at = do
  live state t command.tokens actor at with_admin
  t' ← revoke state t at (record {
    reason = command.reason;
    disposition = Disposition.release;
    failed = false;
    permanent = false;
  })
  ok (save state t')
