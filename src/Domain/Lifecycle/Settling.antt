-- ===== src/Domain/Lifecycle/Settling.antt =====
-- Reports and recoveries leave a consistent task consistent.
use copilot_mempalace.Prelude.{
  ℕ, ◌≡◌, inl, inr, String, Bool, true, false, ◌||◌, Option, arith, ◌==◌, refl, and_true,
  Bool-cases, if◌then◌else◌,
}
use copilot_mempalace.Model.{ok}
use copilot_mempalace.Model.Ensures.{
  Ensures, Ensures-bind, Ensures-ok, Ensures-require, Ensures-or_fail, Ensures-if,
}
use copilot_mempalace.Domain.Types.{Role, status_eq, in_progress, recovering, quarantined}
use copilot_mempalace.Domain.Records.{Task, State, Attempt, ManagedRecovery, Evidence}
use copilot_mempalace.Domain.Commands.{AttemptReport, Recover, ReportKind}
use copilot_mempalace.Domain.Attempts.{supervisor_alone}
use copilot_mempalace.Domain.Attempts.Authority.{IsCurrent, generation-IsCurrent, live-IsLive}
use copilot_mempalace.Domain.Reports.{
  attempt_report, failure_report, started_report, settled_report, by_report, report_attempt,
  with_evidence,
}
use copilot_mempalace.Domain.Recover.{
  recover, disposed, recover_check, quarantined_task, requeued_task, with_budget, is_cancel,
  exhausted,
}
use copilot_mempalace.Domain.Lifecycle.{IsConsistent, Stores-save}
use copilot_mempalace.Domain.Lifecycle.Steps.{
  attempt-IsConsistent, quarantined-IsConsistent, cancelled-IsConsistent, reopened-IsConsistent,
}
use copilot_mempalace.Domain.Lifecycle.Operations.{Keeps, Rewrites, saved-Keeps, revoke-Rewrites}

report_attempt-IsCurrent :
    (state : State) (t : Task) (command : AttemptReport) (actor : String) (role : Role) (at : ℕ)
    → Ensures (IsCurrent t command.tokens) (report_attempt state t command actor role at)
unfolding report_attempt
report_attempt-IsCurrent state t command actor role at =
    Ensures-if _ _ _ (λ _. generation-IsCurrent t command.tokens)
      (λ _. record {
        at = λ a e. ((live-IsLive state t command.tokens actor at supervisor_alone).at a e).current;
      })

with_evidence-IsConsistent :
    (t : Task) (e : Evidence)
    → IsConsistent t
    → IsConsistent (record t { recovery = with_evidence t.recovery e })
unfolding with_evidence
with_evidence-IsConsistent t e c = ground arith

failure-Keeps :
    (state : State) (t : Task) (is_failed permanent : Bool) (reason : Option String) (e : Evidence)
    (at : ℕ)
    → t.status ≡ in_progress
    → IsConsistent t
    → Keeps t (failure_report state t is_failed permanent reason e at)
unfolding failure_report
failure-Keeps state t is_failed permanent reason e at s c = Ensures-or_fail _ _ _ λ why _.
    Ensures-bind _ _ λ t' q.
      let r = (revoke-Rewrites state t at _ s c).at t' q in
      saved-Keeps state t _
        (record { same_id = r.same_id; consistent = with_evidence-IsConsistent t' e r.consistent })

module _ (state : State) (t : Task) (attempt : Attempt) (c : IsConsistent t)
    (s : t.status ≡ in_progress) where
  started-Keeps : (e : Evidence) → Keeps t (started_report state t attempt e)
  unfolding started_report
  started-Keeps e = Ensures-require _ _ _ λ _. Ensures-require _ _ _ λ _.
      Ensures-require _ _ _
        λ _. Ensures-ok _ (Stores-save IsConsistent state _ (attempt-IsConsistent t _ s refl c))

  settled-Keeps : (e : Evidence) → Keeps t (settled_report state t attempt e)
  unfolding settled_report
  settled-Keeps e = Ensures-require _ _ _ λ _.
      Ensures-bind _ _
        λ _ _. Ensures-ok _ (Stores-save IsConsistent state _ (attempt-IsConsistent t _ s refl c))

  by_report-Keeps :
      (kind : ReportKind) (command : AttemptReport) (at : ℕ)
      → Keeps t (by_report kind state t attempt command at)
  unfolding by_report
  by_report-Keeps ReportKind.started command at = started-Keeps command.evidence
  by_report-Keeps ReportKind.settled command at = settled-Keeps command.evidence
  by_report-Keeps ReportKind.failed command at = failure-Keeps state t true _ _ _ at s c
  by_report-Keeps ReportKind.recovery_started command at = failure-Keeps state t false _ _ _ at s c

pub attempt_report-Keeps :
    (state : State) (t : Task) (command : AttemptReport) (actor : String) (role : Role) (at : ℕ)
    → IsConsistent t
    → Keeps t (attempt_report state t command actor role at)
unfolding attempt_report
attempt_report-Keeps state t command actor role at c = Ensures-bind _ _ λ attempt a.
    Ensures-require _ _ _ λ _. Ensures-bind _ _ λ _ _.
      by_report-Keeps state t attempt c
        ((report_attempt-IsCurrent state t command actor role at).at attempt a).active
        command.report_kind command at

-- The task is recovering or quarantined.
abbrev Awaits : Task → Type 0
Awaits t = (t.status == recovering || t.status == quarantined) ≡ true

recover_check-Ensures :
    (t : Task) (command : Recover) (actor : String) (role : Role)
    → Ensures (λ r. Awaits t) (recover_check t command actor role)
unfolding recover_check
recover_check-Ensures t command actor role = Ensures-require _ _ _ λ _.
    Ensures-require _ _ _
      λ awaits. Ensures-bind _ _ λ r _. Ensures-require _ _ _ λ _. Ensures-ok _ (and_true awaits).0

requeued-Rewrites :
    (t : Task) (r : ManagedRecovery) (at : ℕ)
    → Awaits t
    → IsConsistent t
    → Ensures (Rewrites t) (requeued_task t r at)
unfolding requeued_task
requeued-Rewrites t r at s c = elim (Bool-cases r.failed) [
  | inl e ↦ rw e (
      Ensures-bind _ _ λ due _.
        Ensures-ok _ (record { same_id = refl; consistent = reopened-IsConsistent t _ _ s c }))
  | inr e ↦
      rw e (Ensures-ok _ (record { same_id = refl; consistent = reopened-IsConsistent t _ _ s c }))
]

disposed-Rewrites :
    (t : Task) (r : ManagedRecovery) (has_grant : Bool) (e : Evidence) (at : ℕ)
    → Awaits t
    → IsConsistent t
    → Ensures (Rewrites t) (disposed t r has_grant e at)
unfolding disposed
disposed-Rewrites t r has_grant e at s c =
    Ensures-if (is_cancel r.disposition) _
      (if exhausted t r has_grant then ok (quarantined_task t r e at) else requeued_task t r at)
      (λ _. Ensures-ok _ (record { same_id = refl; consistent = cancelled-IsConsistent t r s c }))
      (λ _.
        Ensures-if (exhausted t r has_grant) _ _
          (λ _.
            Ensures-ok _
              (record { same_id = refl; consistent = quarantined-IsConsistent t r e at s c }))
          (λ _. requeued-Rewrites t r at s c))

pub recover-Keeps :
    (state : State) (t : Task) (command : Recover) (actor : String) (role : Role) (at : ℕ)
    → IsConsistent t
    → Keeps t (recover state t command actor role at)
unfolding recover
recover-Keeps state t command actor role at c = Ensures-bind _ _ λ r checked.
    Ensures-bind _ _ λ n _. Ensures-bind _ _ λ _ _. Ensures-bind _ _ λ state' _.
      Ensures-bind _ _ λ t' e.
        let s = (recover_check-Ensures t command actor role).at r checked in
        let w =
          (disposed-Rewrites (with_budget t n) r _ command.evidence at s (ground arith)).at t' e in
        saved-Keeps state' t t' (record { same_id = w.same_id; consistent = w.consistent })
