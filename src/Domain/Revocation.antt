-- ===== src/Domain/Revocation.antt =====
-- _revoke and _checkpoint of sidecar/src/mempalace_tasks/domain.py: an attempt loses its lease and
-- the task waits for recovery or is quarantined; a live attempt reports progress.
pub mod Exclusion
pub mod Progress
use copilot_mempalace.Prelude.{
  ℕ, ◌+◌, String, Bool, true, false, not, ◌&&◌, ◌||◌, Option, none, some, ltb, ◌==◌, ◌!=◌,
  string_eq, option_eq, if◌then◌else◌, min,
}
use copilot_mempalace.Prelude.Dict
use copilot_mempalace.Model.{
  ◌>>=◌, ◌>>◌, Result, ok, require, or_fail, byte_text, integer, instant, validation_error,
  key_error, max_integer,
}
use copilot_mempalace.Domain.Types.{
  Disposition, EscalationCode, isolated, class_eq, recovering, quarantined, revoked,
}
use copilot_mempalace.Domain.Records.{Checkpoint, Attempt, Task, State, managed, Profile}
use copilot_mempalace.Domain.Checks.{deadline, configured, is_none}

-- The arguments of a revocation besides the task.
pub record Revocation : Type 0 where
  pub reason : String
  pub disposition : Disposition
  pub failed : Bool
  pub permanent : Bool

-- execution_class != "isolated" and not profile["supports_reconciliation"]
abbrev pub unreconcilable : Task → Profile → Bool
unreconcilable t p = not (t.execution_class == some isolated) && not p.supports_reconciliation

unfoldable pub revoked_task : Task → Attempt → ℕ → Revocation → Bool → Task
revoked_task t attempt at r unavailable =
    let quarantine = unavailable || r.permanent in
    record t {
      assignee = none;
      lease_expires_at = none;
      lease_revision = t.lease_revision + 1;
      attempt = some (record attempt {
        status = revoked;
        failure_reason = if r.failed then some r.reason else none;
      });
      recovery = some (
          managed (record {
            reason = r.reason;
            disposition = r.disposition;
            failed = r.failed;
            permanent = r.permanent;
            started_at = at;
            barrier_satisfied = false;
            evidence = none;
          }));
      status = if quarantine then quarantined else recovering;
      escalation =
          if quarantine
          then some (record {
            code =
                if unavailable
                then EscalationCode.recovery_required
                else EscalationCode.permanent_failure;
            at = at;
            reason = r.reason;
          })
          else t.escalation;
    }

-- _revoke: the task, whose status tells whether it is quarantined
unfoldable pub revoke : State → Task → ℕ → Revocation → Result Task
unfolding revoked_task
revoke state t at r = do
  byte_text r.reason 8192
  attempt ← or_fail t.attempt key_error
  config ← configured state
  name ← or_fail t.execution_profile key_error
  p ← or_fail (Dict.get name config.execution_profiles) key_error
  ok (revoked_task t attempt at r (unreconcilable t p))

-- previous is None or (sequence > previous["sequence"] and reference != previous["reference"])
abbrev pub advances : Option Checkpoint → ℕ → String → Bool
advances none sequence reference = true
advances (some previous) sequence reference =
    ltb previous.sequence sequence && reference != previous.reference

-- The new progress deadline of _checkpoint, which cooperative work does not have.
unfoldable pub next_progress : Task → Attempt → ℕ → Result (Option ℕ)
next_progress t attempt at =
    if is_none t.native
    then (do
      due ← deadline at t.policy.progress_timeout_seconds
      hard ← instant attempt.hard_deadline
      ok (some (min due hard)))
    else ok attempt.progress_deadline

-- _checkpoint
unfoldable pub record_checkpoint : Task → ℕ → String → ℕ → Result Task
record_checkpoint t sequence reference at = do
  integer sequence 1 max_integer
  byte_text reference 2048
  attempt ← or_fail t.attempt key_error
  require (advances attempt.checkpoint sequence reference) validation_error
  progress ← next_progress t attempt at
  ok (record t {
    attempt = some (record attempt {
      checkpoint = some (record { sequence = sequence; reference = reference; at = at });
      progress_deadline = progress;
    });
  })
