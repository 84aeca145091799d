-- ===== src/Domain/Recover/Retries.antt =====
-- What a recovery does with the retries of a task: the budget and the backoff.
use copilot_mempalace.Prelude.{
  ℕ, ◌+◌, ◌*◌, ◌-◌, ◌≡◌, ◌≤◌, ◌⊎◌, String, Bool, true, false, none, some, leb, min, arith, refl,
  subst, zero, suc, Bool-cases, inl, inr,
}
use copilot_mempalace.Prelude.Dict
use copilot_mempalace.Prelude.Dict.{get-put_self}
use copilot_mempalace.Model.{ok, integer, second, max_instant}
use copilot_mempalace.Model.Ensures.{
  Ensures, Ensures-bind, Ensures-ok, Ensures-err, Ensures-require, Ensures-or_fail, Ensures-if,
}
use copilot_mempalace.Domain.Types.{Role, opened, quarantined, cancelled}
use copilot_mempalace.Domain.Records.{Task, State, Evidence, ManagedRecovery, managed}
use copilot_mempalace.Domain.Commands.{Recover}
use copilot_mempalace.Domain.Checks.{deadline}
use copilot_mempalace.Domain.Inputs.{save}
use copilot_mempalace.Domain.Recover.{
  recover, disposed, requeued_task, quarantined_task, cancelled_task, exhausted, backoff, granted,
  is_cancel, with_budget, grants, recover_check, managed_recovery,
}

-- At most two minutes, at least half a minute.
backoff_range : (used : ℕ) → (30 ≤ backoff used) × (backoff used ≤ 120)
backoff_range zero = (omega arith, omega arith)
backoff_range (suc zero) = (omega arith, omega arith)
backoff_range (suc (suc zero)) = (omega arith, omega arith)
backoff_range (suc (suc (suc n))) =
    let e : min (suc (suc (suc n)) - 1) 2 ≡ 2 = omega arith in
    (rw e (omega arith), rw e (omega arith))

deadline-Ensures :
    (at seconds : ℕ) → Ensures (λ due. due ≡ at + seconds * second) (deadline at seconds)
unfolding deadline
deadline-Ensures at seconds =
    Ensures-if (leb (at + seconds * second) max_instant) _ _ (λ _. Ensures-ok _ refl)
      (λ _. Ensures-err _)

-- What a recovery leaves of the task `t` with `n` more retries granted.
pub data Recovered (t : Task) (n at : ℕ) (r : ManagedRecovery) (t' : Task) : Type 0 where
  withdrawn :
      is_cancel r.disposition ≡ true
      → t'.status ≡ cancelled
      → t'.recovery ≡ none
      → Recovered t n at r t'
  kept :
      (exhausted (with_budget t n) r true ≡ true) ⊎ (r.permanent ≡ true)
      → t'.status ≡ quarantined
      → t'.automatic_retries_used ≡ t.automatic_retries_used
      → Recovered t n at r t'
  retried :
      (due : ℕ)
      → r.failed ≡ true
      → t'.status ≡ opened
      → t'.automatic_retries_used ≡ t.automatic_retries_used + 1
      → t'.automatic_retries_used ≤ t.policy.automatic_retries + t.retry_budget_granted + n
      → t'.retry_not_before ≡ some due
      → at + 30 * second ≤ due
      → due ≤ at + 120 * second
      → Recovered t n at r t'
  returned :
      r.failed ≡ false
      → t'.status ≡ opened
      → t'.automatic_retries_used ≡ t.automatic_retries_used
      → Recovered t n at r t'

requeued-Recovered :
    (t : Task) (n at : ℕ) (r : ManagedRecovery) (has_grant : Bool)
    → exhausted (with_budget t n) r has_grant ≡ false
    → Ensures (λ t'. (t'.id ≡ t.id) × Recovered t n at r t') (requeued_task (with_budget t n) r at)
unfolding requeued_task
requeued-Recovered t n at r has_grant left =
    Ensures-if r.failed _ _
      (λ failed. Ensures-bind _ _ λ due d.
        let e = (deadline-Ensures at _).at due d in
        let range = backoff_range (t.automatic_retries_used + 1) in
        Ensures-ok _ (
          refl,
          retried due failed refl refl (ground arith) refl (omega (arith, e, range.0))
              (omega (arith, e, range.1)),
        ))
      (λ fine. Ensures-ok _ (refl, returned fine refl refl))

exhausted_cause :
    (t : Task) (r : ManagedRecovery) (has_grant : Bool)
    → exhausted t r has_grant ≡ true
    → (exhausted t r true ≡ true) ⊎ (r.permanent ≡ true)
exhausted_cause t r has_grant e = elim (Bool-cases r.permanent) [
  | inl p ↦ inr p
  | inr p ↦ inl (ground arith)
]

disposed-Recovered :
    (t : Task) (n at : ℕ) (r : ManagedRecovery) (has_grant : Bool) (evidence : Evidence)
    → Ensures
        (λ t'. (t'.id ≡ t.id) × Recovered t n at r t')
        (disposed (with_budget t n) r has_grant evidence at)
unfolding disposed quarantined_task cancelled_task
disposed-Recovered t n at r has_grant evidence =
    Ensures-if (is_cancel r.disposition) _ _ (λ c. Ensures-ok _ (refl, withdrawn c refl refl))
      (λ _.
        Ensures-if (exhausted (with_budget t n) r has_grant) _ _
          (λ e.
            Ensures-ok _ (refl, kept (exhausted_cause (with_budget t n) r has_grant e) refl refl))
          (λ left. requeued-Recovered t n at r has_grant left))

granted-Ensures :
    (state : State) (command : Recover) (actor : String)
    → Ensures (λ n. n ≤ 3) (granted state command actor)
unfolding granted integer
granted-Ensures state command actor =
    Ensures-if (grants command.retry_decision) _ _
      (λ _. Ensures-bind _ _ λ _ _.
        Ensures-or_fail _ _ _ λ n _. Ensures-require _ _ _ λ range. Ensures-ok _ (ground arith))
      (λ _. Ensures-require _ _ _ λ _. Ensures-ok _ (omega arith))

recover_check-Ensures :
    (t : Task) (command : Recover) (actor : String) (role : Role)
    → Ensures (λ r. t.recovery ≡ some (managed r)) (recover_check t command actor role)
unfolding recover_check managed_recovery
recover_check-Ensures t command actor role = Ensures-require _ _ _ λ _.
    Ensures-require _ _ _
      λ _. Ensures-bind _ _ λ r m. Ensures-require _ _ _ λ _. Ensures-ok _ (ground arith)

recover-Ensures :
    (state : State) (t : Task) (command : Recover) (actor : String) (role : Role) (at : ℕ)
    → Ensures
        (λ state'.
          (r : ManagedRecovery) × (n : ℕ) × (t' : Task) × (n ≤ 3)
          × (t.recovery ≡ some (managed r))
          × (Dict.get t.id state'.tasks ≡ some t')
          × Recovered t n at r t')
        (recover state t command actor role at)
unfolding recover save
recover-Ensures state t command actor role at = Ensures-bind _ _ λ r c. Ensures-bind _ _ λ n g.
    Ensures-bind _ _ λ _ _. Ensures-bind _ _ λ state' _. Ensures-bind _ _ λ t' d.
      let (same, outcome) = (disposed-Recovered t n at r _ _).at t' d in
      Ensures-ok _ (
        r,
        n,
        t',
        (granted-Ensures state command actor).at n g,
        (recover_check-Ensures t command actor role).at r c,
        subst (λ id. Dict.get id (Dict.put t'.id t' state'.tasks) ≡ some t') same
            (get-put_self t'.id t' state'.tasks),
        outcome,
      )

-- A recovery of a task ends in one of four ways, with `n` retries granted, three at most: the task
-- is cancelled as its attempt was; it stays quarantined, for a permanent failure or for want of
-- retries; after a failure it is open again with one more retry used, within the budget, and waits
-- for between half a minute and two minutes; without a failure it is open again and no retry is used.
pub recover-Recovered :
    (state : State) (t : Task) (command : Recover) (actor : String) (role : Role) (at : ℕ)
    (state' : State)
    → recover state t command actor role at ≡ ok state'
    → (r : ManagedRecovery) × (n : ℕ) × (t' : Task) × (n ≤ 3)
      × (t.recovery ≡ some (managed r))
      × (Dict.get t.id state'.tasks ≡ some t')
      × Recovered t n at r t'
recover-Recovered state t command actor role at state' =
    (recover-Ensures state t command actor role at).at state'
