-- ===== src/Domain/Validation/Acceptance.antt =====
-- What a validated task satisfies: the lifecycle invariant, and an order of its times.
use copilot_mempalace.Prelude.{
  ◌≡◌, String, Bool, true, false, not, ◌||◌, Option, none, some, arith, refl, ◌==◌, nat_eq,
  and_true,
}
use copilot_mempalace.Model.{Code, ok, require}
use copilot_mempalace.Model.Ensures.{Ensures, Ensures-bind, Ensures-require, Ensures-if}
use copilot_mempalace.Domain.Types.{
  Status, status_eq, attempt_status_eq, in_progress, recovering, quarantined, closed, cancelled,
}
use copilot_mempalace.Domain.Records.{Task, State, Attempt}
use copilot_mempalace.Domain.Checks.{is_none, same_flag}
use copilot_mempalace.Domain.Lifecycle.{IsConsistent, attempt_fits}
use copilot_mempalace.Domain.Validation.Attempts.{
  validate_attempt, validate_recovery, attempt_check, attempt_activity, active_check, is_working,
  is_over,
}
use copilot_mempalace.Domain.Validation.Tasks.{validate_task, ending_check}

true_of_require : (b : Bool) (c : Code) (u : Unit {0}) → require b c ≡ ok u → b ≡ true
unfolding require
true_of_require true c u e = refl
true_of_require false c u e = cc

same_not : (a b : Bool) → same_flag (not a) b ≡ true → a ≡ not b
same_not true b h = ground arith
same_not false b h = ground arith

same_eq : (a b : Bool) → same_flag a b ≡ true → a ≡ b
same_eq true b h = ground arith
same_eq false b h = ground arith

working_fits :
    (s : Status) (a : Attempt)
    → (s == in_progress) ≡ true
    → is_working a.status ≡ true
    → attempt_fits s (some a) ≡ true
working_fits s a e h = ground arith

over_fits :
    (s : Status) (a : Attempt)
    → (s == in_progress) ≡ false
    → is_over a.status ≡ true
    → attempt_fits s (some a) ≡ true
over_fits s a e h = ground arith

idle_fits : (s : Status) → not (s == in_progress) ≡ true → attempt_fits s none ≡ true
idle_fits s h = ground arith

activity_fits :
    (t : Task) (a : Attempt)
    → Ensures (λ _. attempt_fits t.status (some a) ≡ true) (attempt_activity t a)
unfolding attempt_activity active_check
activity_fits t a =
    Ensures-if (t.status == in_progress) _ _
      (λ active. Ensures-require _ _ _ λ working.
        Ensures-bind _ _ λ _ _. record { at = λ _ _. working_fits t.status a active working })
      (λ idle. record { at = λ u e. over_fits t.status a idle (true_of_require _ _ u e) })

attempt_fits_check :
    (state : State) (t : Task) (attempt : Option Attempt)
    → Ensures (λ _. attempt_fits t.status attempt ≡ true) (attempt_check state t attempt)
unfolding attempt_check
attempt_fits_check state t none = record {
  at = λ u e. idle_fits t.status ((and_true (true_of_require _ _ u e)).0);
}
attempt_fits_check state t (some a) = Ensures-bind _ _ λ _ _.
    Ensures-bind _ _
      λ _ _. Ensures-bind _ _ λ u e. record { at = λ _ _. (activity_fits t a).at u e }

-- What the validation of a task's attempt shows.
record HasFitting (t : Task) : Type 0 where
  attempted : is_none t.attempt ≡ (t.claim_generation == 0)
  fits : attempt_fits t.status t.attempt ≡ true

attempt-HasFitting :
    (state : State) (t : Task) → Ensures (λ _. HasFitting t) (validate_attempt state t)
unfolding validate_attempt
attempt-HasFitting state t = Ensures-require _ _ _ λ same. record {
  at = λ u e. record {
    attempted = same_eq _ _ same;
    fits = (attempt_fits_check state t t.attempt).at u e;
  };
}

-- What the validation of its recovery shows.
record HasRecovery (t : Task) : Type 0 where
  recovers : is_none t.recovery ≡ not (t.status == recovering || t.status == quarantined)
  escalated : is_none t.escalation ≡ not (t.status == quarantined)

recovery-HasRecovery : (t : Task) → Ensures (λ _. HasRecovery t) (validate_recovery t)
unfolding validate_recovery
recovery-HasRecovery t = Ensures-require _ _ _ λ r. Ensures-bind _ _ λ _ _.
    Ensures-require _ _ _
      λ e. record { at = λ _ _. record { recovers = same_not _ _ r; escalated = same_not _ _ e } }

-- What the validation of its ending shows.
record HasEnding (t : Task) : Type 0 where
  completes : is_none t.completion ≡ not (t.status == closed)
  cancels : is_none t.cancellation_reason ≡ not (t.status == cancelled)

ending-HasEnding : (state : State) (t : Task) → Ensures (λ _. HasEnding t) (ending_check state t)
unfolding ending_check
ending-HasEnding state t = Ensures-require _ _ _ λ c. Ensures-bind _ _ λ _ _.
    Ensures-require _ _ _
      λ e. record { at = λ _ _. record { completes = same_not _ _ c; cancels = same_not _ _ e } }

validate-Ensures :
    (state : State) (id : String) (t : Task)
    → Ensures (λ _. IsConsistent t) (validate_task state id t)
unfolding validate_task
validate-Ensures state id t = Ensures-bind _ _ λ _ _. Ensures-bind _ _ λ _ _.
    Ensures-require _ _ _ λ assigned. Ensures-require _ _ _ λ _. Ensures-require _ _ _ λ leased.
      Ensures-bind _ _ λ u a. Ensures-bind _ _ λ v r. Ensures-bind _ _ λ w e.
        let fitting = (attempt-HasFitting state t).at u a in
        let recovery = (recovery-HasRecovery t).at v r in
        let ending = (ending-HasEnding state t).at w e in
        record {
          at = λ _ _. record {
            assigned = same_not _ _ assigned;
            leased = same_not _ _ leased;
            recovers = recovery.recovers;
            escalated = recovery.escalated;
            completes = ending.completes;
            cancels = ending.cancels;
            attempted = fitting.attempted;
            fits = fitting.fits;
          };
        }

-- A managed task that the validation of a serialized state accepts is consistent: the validation
-- implies the invariant that every operation keeps.
pub validate_task-IsConsistent :
    (state : State) (id : String) (t : Task) → validate_task state id t ≡ ok tt → IsConsistent t
validate_task-IsConsistent state id t = (validate-Ensures state id t).at tt
