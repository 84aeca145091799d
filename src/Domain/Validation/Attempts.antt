-- ===== src/Domain/Validation/Attempts.antt =====
-- _validate_attempt and _validate_recovery of sidecar/src/mempalace_tasks/domain.py.
use copilot_mempalace.Prelude.{
  String, Bool, false, not, ◌&&◌, ◌||◌, Option, none, some, leb, ◌==◌, contains, string_eq, nat_eq,
  option_eq, min, if◌then◌else◌,
}
use copilot_mempalace.Prelude.Text.{has_uuid}
use copilot_mempalace.Prelude.Dict
use copilot_mempalace.Model.{
  Result, ok, ◌>>=◌, ◌>>◌, require, or_fail, for_each, text, byte_text, integer, instant,
  max_integer, validation_error, key_error,
}
use copilot_mempalace.Domain.Types.{
  AttemptStatus, isolated, in_progress, recovering, quarantined, preparing, running, settled,
  revoked, completed, status_eq, attempt_status_eq, class_eq,
}
use copilot_mempalace.Domain.Records.{
  Task, State, Attempt, Checkpoint, Evidence, Recovery, Escalation, managed, cooperative,
}
use copilot_mempalace.Domain.Checks.{configured, is_none, same_flag}
use copilot_mempalace.Domain.Attempts.{
  evidence_check, fence_check, is_true, same_keys, settlement_evidence,
}

-- Who the attempt is of: its fields, its id, its number, its supervisor and its worker.
unfoldable pub attempt_identity : State → Task → Attempt → Result (Unit {0})
attempt_identity state t a = do
  require (is_none a.session_generation && is_none a.native_agent_id) validation_error
  text a.id 40
  require (has_uuid "att_" a.id) validation_error
  integer a.number 1 max_integer
  require (a.number == t.claim_generation) validation_error
  text a.owner 256
  supervisor_id ← or_fail a.supervisor_id validation_error
  text supervisor_id 256
  config ← configured state
  s ← or_fail (Dict.get supervisor_id config.supervisors) validation_error
  require (contains a.owner s.workers) validation_error

-- The order of its times.
unfoldable pub attempt_times : State → Task → Attempt → Result (Unit {0})
attempt_times state t a = do
  progress ← instant a.progress_deadline
  hard ← instant a.hard_deadline
  require (leb a.started_at progress && leb progress hard) validation_error
  last ← instant state.last_event_at
  require (leb t.created_at a.started_at && leb a.started_at last) validation_error

-- preparing, running or settled
abbrev pub is_working : AttemptStatus → Bool
is_working s = s == preparing || s == running || s == settled

abbrev pub is_over : AttemptStatus → Bool
is_over s = s == revoked || s == completed

unfoldable pub active_check : Task → Attempt → Result (Unit {0})
active_check t a = do
  require (is_working a.status) validation_error
  assignee ← or_fail t.assignee key_error
  require (assignee == a.owner) validation_error
  lease ← instant t.lease_expires_at
  progress ← instant a.progress_deadline
  hard ← instant a.hard_deadline
  require (leb a.started_at lease && leb lease (min progress hard)) validation_error

-- Its status and its owner while the task is in progress, and its status once it is not.
unfoldable pub attempt_activity : Task → Attempt → Result (Unit {0})
attempt_activity t a =
    if t.status == in_progress
    then active_check t a
    else require (is_over a.status) validation_error

unfoldable checkpoint_check : State → Option Checkpoint → Result (Unit {0})
checkpoint_check state none = ok tt
checkpoint_check state (some c) = do
  integer c.sequence 1 max_integer
  byte_text c.reference 2048
  last ← instant state.last_event_at
  require (leb c.at last) validation_error

unfoldable reason_check : Option String → Result (Unit {0})
reason_check none = ok tt
reason_check (some reason) = byte_text reason 8192

unfoldable given_evidence_check : Option Evidence → Result (Unit {0})
given_evidence_check none = ok tt
given_evidence_check (some e) = evidence_check e

abbrev is_prepared : Option Evidence → Bool
is_prepared none = false
is_prepared (some e) = is_true e.prepared

unfoldable settled_check : Task → Attempt → Option Evidence → Result (Unit {0})
settled_check t a none = ok tt
settled_check t a (some e) =
    if a.status == revoked then ok tt else settlement_evidence t.execution_class e

-- Its checkpoint, its fences and its evidence.
unfoldable pub attempt_evidence : State → Task → Attempt → Result (Unit {0})
unfolding checkpoint_check reason_check given_evidence_check settled_check
attempt_evidence state t a = do
  checkpoint_check state a.checkpoint
  reason_check a.failure_reason
  for_each fence_check a.resource_fences
  require
      (not (t.status == in_progress || t.status == recovering || t.status == quarantined)
        || same_keys a.resource_fences t.resource_keys)
      validation_error
  given_evidence_check a.preparation
  given_evidence_check a.settlement
  require
      (not (a.status == running || a.status == settled || a.status == completed)
        || is_prepared a.preparation)
      validation_error
  require
      (not (
          a.status == settled
          || (a.status == completed && not (t.execution_class == some isolated)))
        || not (is_none a.settlement))
      validation_error
  settled_check t a a.settlement

unfoldable pub attempt_check : State → Task → Option Attempt → Result (Unit {0})
attempt_check state t none =
    require (not (t.status == in_progress) && is_none t.recovery) validation_error
attempt_check state t (some a) = do
  attempt_identity state t a
  attempt_times state t a
  attempt_activity t a
  attempt_evidence state t a

-- _validate_attempt
unfoldable pub validate_attempt : State → Task → Result (Unit {0})
validate_attempt state t = do
  require (same_flag (is_none t.attempt) (t.claim_generation == 0)) validation_error
  attempt_check state t t.attempt

-- A cooperative recovery has other fields.
unfoldable recovery_check : Option Recovery → Result (Unit {0})
recovery_check none = ok tt
recovery_check (some (cooperative r)) = require false validation_error
recovery_check (some (managed r)) = do
  byte_text r.reason 8192
  given_evidence_check r.evidence
  require (not r.barrier_satisfied || not (is_none r.evidence)) validation_error

unfoldable escalation_check : Option Escalation → Result (Unit {0})
escalation_check none = ok tt
escalation_check (some e) = byte_text e.reason 8192

-- _validate_recovery
unfoldable pub validate_recovery : Task → Result (Unit {0})
unfolding recovery_check escalation_check given_evidence_check
validate_recovery t = do
  require (same_flag (not (is_none t.recovery)) (t.status == recovering || t.status == quarantined))
      validation_error
  recovery_check t.recovery
  require (same_flag (not (is_none t.escalation)) (t.status == quarantined)) validation_error
  escalation_check t.escalation
