-- ===== src/Domain/Claim/Deadlines.antt =====
-- The attempt that a claim makes: its generation, its deadlines, and what it shuts out.
use copilot_mempalace.Prelude.{ℕ, ◌+◌, ◌*◌, ◌≡◌, ◌≤◌, String, some, arith, refl, leb}
use copilot_mempalace.Prelude.Dict
use copilot_mempalace.Prelude.Dict.{get-put_self}
use copilot_mempalace.Model.{ok, err, max_instant, second, stale_generation}
use copilot_mempalace.Model.Ensures.{
  Ensures, Ensures-bind, Ensures-ok, Ensures-err, Ensures-require, Ensures-if,
}
use copilot_mempalace.Domain.Types.{Role, in_progress, preparing}
use copilot_mempalace.Domain.Records.{Task, State, Attempt}
use copilot_mempalace.Domain.Commands.{Claim, Tokens}
use copilot_mempalace.Domain.Checks.{deadline, get_or}
use copilot_mempalace.Domain.Inputs.{save}
use copilot_mempalace.Domain.Attempts.{generation}
use copilot_mempalace.Domain.Attempts.Authority.{generation-stale}
use copilot_mempalace.Domain.Readiness.Conditions.{IsReady, task_eligibility-IsReady}
use copilot_mempalace.Domain.Claim.{claim, claimed_task, terms, Terms}

-- `due` is `seconds` after `at`, and no later than the last instant.
deadline-Ensures :
    (at seconds : ℕ)
    → Ensures (λ due. (due ≡ at + seconds * second) × (due ≤ max_instant)) (deadline at seconds)
unfolding deadline
deadline-Ensures at seconds =
    Ensures-if (leb (at + seconds * second) max_instant) _ _
      (λ h. Ensures-ok _ (refl, ground arith)) (λ _. Ensures-err _)

-- The lease ends no later than the attempt's deadlines, and no deadline has passed.
pub record AreOrdered (t : Task) (at : ℕ) (due : Terms) : Type 0 where
  pub hard_at : due.hard ≡ at + t.policy.hard_timeout_seconds * second
  pub in_range : due.hard ≤ max_instant
  pub lease_first : due.lease ≤ due.progress
  pub progress_first : due.progress ≤ due.hard
  pub not_past : at ≤ due.lease

terms-AreOrdered : (t : Task) (at : ℕ) → Ensures (AreOrdered t at) (terms t at)
unfolding terms
terms-AreOrdered t at = Ensures-bind _ _ λ hard h. Ensures-bind _ _ λ stall s.
    Ensures-bind _ _ λ ttl l.
      let p = (deadline-Ensures at t.policy.hard_timeout_seconds).at hard h in
      let q = (deadline-Ensures at t.policy.progress_timeout_seconds).at stall s in
      let r = (deadline-Ensures at t.policy.lease_ttl_seconds).at ttl l in
      Ensures-ok _ (record {
        hard_at = p.0;
        in_range = p.1;
        lease_first = omega arith;
        progress_first = omega arith;
        not_past = omega (arith, p.0, q.0, r.0);
      })

-- The task that a claim at `at` leaves.
pub record IsClaimed (t : Task) (owner : String) (at : ℕ) (t' : Task) : Type 0 where
  pub next_generation : t'.claim_generation ≡ t.claim_generation + 1
  pub active : t'.status ≡ in_progress
  pub owned : t'.assignee ≡ some owner
  pub attempt : Attempt
  pub has_attempt : t'.attempt ≡ some attempt
  pub numbered : attempt.number ≡ t'.claim_generation
  pub not_started : attempt.status ≡ preparing
  pub due : Terms
  pub ordered : AreOrdered t at due
  pub progress_set : attempt.progress_deadline ≡ some due.progress
  pub hard_set : attempt.hard_deadline ≡ some due.hard
  pub lease_set : t'.lease_expires_at ≡ some due.lease

module _ (uuid5 : String → String → String) (state : State) (t : Task) (command : Claim)
    (command_id actor : String) (role : Role) (at : ℕ) where
  claim-Ensures :
      Ensures
        (λ state'.
          IsReady state t at
          × (t' : Task) × (Dict.get t.id state'.tasks ≡ some t')
          × IsClaimed t (get_or command.worker_id actor) at t')
        (claim uuid5 state t command command_id actor role at)
  unfolding claim claimed_task save
  claim-Ensures = Ensures-bind _ _ λ _ _. Ensures-bind _ _ λ reasons e.
      Ensures-require _ _ _ λ ready. Ensures-bind _ _ λ (resources, fences) _.
        Ensures-bind _ _ λ due d. Ensures-ok _ (
          task_eligibility-IsReady state t at reasons e ready,
          _,
          get-put_self t.id _ state.tasks,
          record {
            next_generation = refl;
            active = refl;
            owned = refl;
            attempt = _;
            has_attempt = refl;
            numbered = refl;
            not_started = refl;
            due = due;
            ordered = (terms-AreOrdered t at).at due d;
            progress_set = refl;
            hard_set = refl;
            lease_set = refl;
          },
        )

  -- A claim succeeds on a ready task only. It puts the task in progress for its owner under the next
  -- generation, with an attempt that is not started; the lease ends no earlier than the claim and no
  -- later than the progress deadline, which is no later than the hard deadline, and that is the hard
  -- timeout after the claim, within the range of instants.
  pub claim-IsClaimed :
      (state' : State)
      → claim uuid5 state t command command_id actor role at ≡ ok state'
      → IsReady state t at
        × (t' : Task) × (Dict.get t.id state'.tasks ≡ some t')
        × IsClaimed t (get_or command.worker_id actor) at t'
  claim-IsClaimed = claim-Ensures.at

  -- Fencing of zombies: after a claim, a command that carries the generation of any attempt before
  -- it is refused as stale.
  pub claim-stale :
      (state' : State) (tokens : Tokens) (n : ℕ)
      → claim uuid5 state t command command_id actor role at ≡ ok state'
      → tokens.claim_generation ≡ some n
      → n ≤ t.claim_generation
      → (t' : Task) × (Dict.get t.id state'.tasks ≡ some t')
        × (generation t' tokens ≡ err stale_generation)
  claim-stale state' tokens n h e le =
      let (_, t', found, claimed) = claim-IsClaimed state' h in
      (t', found, generation-stale t' tokens (λ p. ground (arith, claimed.next_generation)))
