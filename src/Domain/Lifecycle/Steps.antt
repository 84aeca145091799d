-- ===== src/Domain/Lifecycle/Steps.antt =====
-- Each way in which an operation rewrites a task keeps the task consistent.
use copilot_mempalace.Prelude.{
  ℕ, ◌≡◌, String, Bool, true, false, ◌||◌, Option, none, some, arith, ◌==◌, nat_eq,
}
use copilot_mempalace.Prelude.Dict.{Dict}
use copilot_mempalace.Domain.Types.{
  status_eq, opened, in_progress, recovering, quarantined, closed, cancelled, completed,
}
use copilot_mempalace.Domain.Records.{Task, Attempt, ManagedRecovery, Evidence, Completion}
use copilot_mempalace.Domain.Checks.{is_none}
use copilot_mempalace.Domain.Claim.{Terms, claimed_task}
use copilot_mempalace.Domain.Revocation.{Revocation, revoked_task}
use copilot_mempalace.Domain.Recover.{quarantined_task, cancelled_task}
use copilot_mempalace.Domain.Completion.{is_terminal}
use copilot_mempalace.Domain.Lifecycle.{IsConsistent, is_active}

pub claimed-IsConsistent :
    (t : Task) (attempt_id owner supervisor_id : String) (at : ℕ) (due : Terms) (fences : Dict ℕ)
    → t.status ≡ opened
    → IsConsistent t
    → IsConsistent (claimed_task t attempt_id owner supervisor_id at due fences)
unfolding claimed_task
claimed-IsConsistent t attempt_id owner supervisor_id at due fences s c = ground arith

pub renewed-IsConsistent :
    (t : Task) (revision lease : ℕ)
    → t.status ≡ in_progress
    → IsConsistent t
    → IsConsistent (record t { lease_revision = revision; lease_expires_at = some lease })
renewed-IsConsistent t revision lease s c = ground arith

-- The attempt of a task in progress may change but stays active.
pub attempt-IsConsistent :
    (t : Task) (attempt : Attempt)
    → t.status ≡ in_progress
    → is_active attempt.status ≡ true
    → IsConsistent t
    → IsConsistent (record t { attempt = some attempt })
attempt-IsConsistent t attempt s a c = ground arith

pub revoked-IsConsistent :
    (t : Task) (attempt : Attempt) (at : ℕ) (r : Revocation) (unavailable : Bool)
    → t.status ≡ in_progress
    → t.attempt ≡ some attempt
    → IsConsistent t
    → IsConsistent (revoked_task t attempt at r unavailable)
unfolding revoked_task
revoked-IsConsistent t attempt at r true s e c = ground arith
revoked-IsConsistent t attempt at r false s e c = ground arith

pub quarantined-IsConsistent :
    (t : Task) (r : ManagedRecovery) (evidence : Evidence) (at : ℕ)
    → (t.status == recovering || t.status == quarantined) ≡ true
    → IsConsistent t
    → IsConsistent (quarantined_task t r evidence at)
unfolding quarantined_task
quarantined-IsConsistent t r evidence at s c = ground arith

pub cancelled-IsConsistent :
    (t : Task) (r : ManagedRecovery)
    → (t.status == recovering || t.status == quarantined) ≡ true
    → IsConsistent t
    → IsConsistent (cancelled_task t r)
unfolding cancelled_task
cancelled-IsConsistent t r s c = ground arith

pub reopened-IsConsistent :
    (t : Task) (used : ℕ) (backoff : Option ℕ)
    → (t.status == recovering || t.status == quarantined) ≡ true
    → IsConsistent t
    → IsConsistent (record t {
      status = opened;
      automatic_retries_used = used;
      retry_not_before = backoff;
      recovery = none;
      escalation = none;
    })
reopened-IsConsistent t used backoff s c = ground arith

-- Completion of a live attempt, and of an open epic.
pub finished-IsConsistent :
    (t : Task) (attempt : Attempt) (revision : ℕ) (completion : Completion)
    → t.status ≡ in_progress
    → t.attempt ≡ some attempt
    → IsConsistent t
    → IsConsistent (record t {
      attempt = some (record attempt { status = completed });
      assignee = none;
      lease_expires_at = none;
      lease_revision = revision;
      status = closed;
      completion = some completion;
    })
finished-IsConsistent t attempt revision completion s e c = ground arith

pub closed-IsConsistent :
    (t : Task) (completion : Completion)
    → t.status ≡ opened
    → IsConsistent t
    → IsConsistent (record t { status = closed; completion = some completion })
closed-IsConsistent t completion s c = ground arith

-- A task that is not active, terminal or recovering is open.
pub idle_opened :
    (t : Task)
    → is_terminal t.status ≡ false
    → (t.status == in_progress) ≡ false
    → is_none t.recovery ≡ true
    → IsConsistent t
    → t.status ≡ opened
idle_opened t a b d c = ground arith

pub withdrawn-IsConsistent :
    (t : Task) (reason : String)
    → t.status ≡ opened
    → IsConsistent t
    → IsConsistent (record t { status = cancelled; cancellation_reason = some reason })
withdrawn-IsConsistent t reason s c = ground arith
