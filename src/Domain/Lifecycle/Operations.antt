-- ===== src/Domain/Lifecycle/Operations.antt =====
-- The operations on a consistent task leave it consistent.
use copilot_mempalace.Prelude.{ℕ, ◌≡◌, String, true, some, arith, nat_eq, refl, subst}
use copilot_mempalace.Model.{Result, ok}
use copilot_mempalace.Model.Ensures.{
  Ensures, Ensures-bind, Ensures-ok, Ensures-require, Ensures-or_fail,
}
use copilot_mempalace.Domain.Types.{Role, status_eq, in_progress}
use copilot_mempalace.Domain.Records.{Task, State, Attempt}
use copilot_mempalace.Domain.Commands.{Claim, Renew, CheckpointReport, Expire, Release}
use copilot_mempalace.Domain.Inputs.{save}
use copilot_mempalace.Domain.Attempts.{supervisor_alone, with_admin}
use copilot_mempalace.Domain.Attempts.Authority.{generation-IsCurrent, live-IsLive}
use copilot_mempalace.Domain.Readiness.Conditions.{task_eligibility-IsReady}
use copilot_mempalace.Domain.Revocation.{Revocation, revoke, revoked_task, record_checkpoint}
use copilot_mempalace.Domain.Claim.{claim, claimed_task}
use copilot_mempalace.Domain.Reports.{renew, checkpoint, expire, release}
use copilot_mempalace.Domain.Lifecycle.{IsConsistent, Stores, Stores-save, is_active}
use copilot_mempalace.Domain.Lifecycle.Steps.{
  claimed-IsConsistent, renewed-IsConsistent, attempt-IsConsistent, revoked-IsConsistent,
}

-- The operation, where it succeeds, stores a consistent task under the task's id.
abbrev pub Keeps : Task → Result State → Type 0
Keeps t r = Ensures (Stores IsConsistent t.id) r

pub claim-Keeps :
    (uuid5 : String → String → String) (state : State) (t : Task) (command : Claim)
    (command_id actor : String) (role : Role) (at : ℕ)
    → IsConsistent t
    → Keeps t (claim uuid5 state t command command_id actor role at)
unfolding claim claimed_task
claim-Keeps uuid5 state t command command_id actor role at c = Ensures-bind _ _ λ _ _.
    Ensures-bind _ _ λ reasons e. Ensures-require _ _ _ λ ready.
      Ensures-bind _ _ λ (resources, fences) _. Ensures-bind _ _ λ due _. Ensures-ok _ (
        Stores-save IsConsistent _ _ (
          claimed-IsConsistent t _ _ _ at due fences
            (task_eligibility-IsReady state t at reasons e ready).open_status c))

pub renew-Keeps :
    (state : State) (t : Task) (command : Renew) (actor : String) (at : ℕ)
    → IsConsistent t
    → Keeps t (renew state t command actor at)
unfolding renew
renew-Keeps state t command actor at c = Ensures-bind _ _ λ attempt alive. Ensures-bind _ _ λ _ _.
    Ensures-bind _ _ λ due _. Ensures-bind _ _ λ progress _. Ensures-bind _ _ λ hard _.
      Ensures-ok _ (
        Stores-save IsConsistent state _ (
          renewed-IsConsistent t _ _
            ((live-IsLive state t command.tokens actor at supervisor_alone).at attempt alive).active
            c))

-- What a rewrite of the task before it is saved promises.
pub record Rewrites (t t' : Task) : Type 0 where
  pub same_id : t'.id ≡ t.id
  pub consistent : IsConsistent t'

pub saved-Keeps : (state : State) (t t' : Task) → Rewrites t t' → Keeps t (ok (save state t'))
saved-Keeps state t t' r = Ensures-ok _ (
    subst (λ id. Stores IsConsistent id (save state t')) r.same_id
      (Stores-save IsConsistent state t' r.consistent))

checkpoint-Rewrites :
    (t : Task) (sequence : ℕ) (reference : String) (at : ℕ) (attempt : Attempt)
    → t.status ≡ in_progress
    → t.attempt ≡ some attempt
    → is_active attempt.status ≡ true
    → IsConsistent t
    → Ensures (Rewrites t) (record_checkpoint t sequence reference at)
unfolding record_checkpoint
checkpoint-Rewrites t sequence reference at attempt s e a c = Ensures-bind _ _ λ _ _.
    Ensures-bind _ _ λ _ _. Ensures-or_fail _ _ _ λ attempt' e'. Ensures-require _ _ _ λ _.
      Ensures-bind _ _ λ progress _.
        Ensures-ok _
          (record { same_id = refl; consistent = attempt-IsConsistent t _ s (ground arith) c })

pub checkpoint-Keeps :
    (state : State) (t : Task) (command : CheckpointReport) (actor : String) (at : ℕ)
    → IsConsistent t
    → Keeps t (checkpoint state t command actor at)
unfolding checkpoint
checkpoint-Keeps state t command actor at c = Ensures-bind _ _ λ attempt alive.
    let l = (live-IsLive state t command.tokens actor at supervisor_alone).at attempt alive in
    Ensures-require _ _ _ λ is_running. Ensures-bind _ _ λ t' e. saved-Keeps state t t' (
      (checkpoint-Rewrites t command.checkpoint_sequence command.reference at attempt l.active
          l.of_task (ground arith) c).at
        t' e)

pub revoke-Rewrites :
    (state : State) (t : Task) (at : ℕ) (r : Revocation)
    → t.status ≡ in_progress
    → IsConsistent t
    → Ensures (Rewrites t) (revoke state t at r)
unfolding revoke revoked_task
revoke-Rewrites state t at r s c = Ensures-bind _ _ λ _ _. Ensures-or_fail _ _ _ λ attempt e.
    Ensures-bind _ _ λ config _. Ensures-or_fail _ _ _ λ name _. Ensures-or_fail _ _ _ λ p _.
      Ensures-ok _ (record {
        same_id = refl;
        consistent = unfold revoked_task in revoked-IsConsistent t attempt at r _ s e c;
      })

pub expire-Keeps :
    (state : State) (t : Task) (command : Expire) (role : Role) (at : ℕ)
    → IsConsistent t
    → Keeps t (expire state t command role at)
unfolding expire
expire-Keeps state t command role at c = Ensures-require _ _ _ λ _. Ensures-bind _ _ λ attempt g.
    Ensures-bind _ _ λ _ _. Ensures-bind _ _ λ due _. Ensures-require _ _ _ λ _.
      Ensures-bind _ _ λ t' e. saved-Keeps state t t' (
        (revoke-Rewrites state t at _ ((generation-IsCurrent t command.tokens).at attempt g).active
            c).at
          t' e)

pub release-Keeps :
    (state : State) (t : Task) (command : Release) (actor : String) (at : ℕ)
    → IsConsistent t
    → Keeps t (release state t command actor at)
unfolding release
release-Keeps state t command actor at c = Ensures-bind _ _ λ attempt alive.
    Ensures-bind _ _ λ t' e. saved-Keeps state t t' (
      (revoke-Rewrites state t at _
          ((live-IsLive state t command.tokens actor at with_admin).at attempt alive).active c).at
        t' e)
