-- ===== src/Domain/Reports/Leases.antt =====
-- Leases under `renew` and `expire`.
use copilot_mempalace.Prelude.{ℕ, ◌+◌, ◌≤◌, ◌≡◌, String, some, arith, min, ◌≢◌, refl, sym, ◌∙◌, ap}
use copilot_mempalace.Prelude.Dict
use copilot_mempalace.Prelude.Dict.{get-put_self}
use copilot_mempalace.Model.{ok}
use copilot_mempalace.Model.Ensures.{
  ok-injective, Ensures, Ensures-bind, Ensures-ok, Ensures-require, Ensures-or_fail,
}
use copilot_mempalace.Domain.Types.{Role}
use copilot_mempalace.Domain.Records.{Task, State, Attempt}
use copilot_mempalace.Domain.Commands.{Renew, Expire, Tokens}
use copilot_mempalace.Domain.Inputs.{save}
use copilot_mempalace.Domain.Attempts.{live, attempt_due, LiveOptions, supervisor_alone}
use copilot_mempalace.Domain.Attempts.Authority.{
  IsCurrent, IsLive, generation-IsCurrent, live-IsLive,
}
use copilot_mempalace.Domain.Reports.{renew, expire}

-- What a renewal at `at` promises of the task that it writes.
pub record IsRenewed (t : Task) (attempt : Attempt) (t' : Task) : Type 0 where
  pub revision : t'.lease_revision ≡ t.lease_revision + 1
  pub same_attempt : t'.attempt ≡ t.attempt
  pub same_generation : t'.claim_generation ≡ t.claim_generation
  pub lease : ℕ
  pub lease_set : t'.lease_expires_at ≡ some lease
  pub progress : ℕ
  pub progress_set : attempt.progress_deadline ≡ some progress
  pub hard : ℕ
  pub hard_set : attempt.hard_deadline ≡ some hard
  pub within_progress : lease ≤ progress
  pub within_hard : lease ≤ hard

abbrev renewed_task : Task → ℕ → ℕ → ℕ → Task
renewed_task t due progress hard = record t {
  lease_revision = t.lease_revision + 1;
  lease_expires_at = some (min due (min progress hard));
}

renew-Ensures :
    (state : State) (t : Task) (command : Renew) (actor : String) (at : ℕ)
    → Ensures
        (λ state'.
          (attempt : Attempt) × (t' : Task) × (t.attempt ≡ some attempt)
          × (Dict.get t.id state'.tasks ≡ some t')
          × IsRenewed t attempt t')
        (renew state t command actor at)
unfolding renew save
renew-Ensures state t command actor at = Ensures-bind _ _ λ attempt alive.
    Ensures-bind _ _ λ _ fresh. Ensures-bind _ _ λ due _. Ensures-or_fail _ _ _ λ progress p.
      Ensures-or_fail _ _ _ λ hard q. Ensures-ok _ (
        attempt,
        renewed_task t due progress hard,
        ((live-IsLive state t command.tokens actor at supervisor_alone).at attempt alive).of_task,
        get-put_self t.id _ state.tasks,
        record {
          revision = refl;
          same_attempt = refl;
          same_generation = refl;
          lease = min due (min progress hard);
          lease_set = refl;
          progress = progress;
          progress_set = p;
          hard = hard;
          hard_set = q;
          within_progress = omega arith;
          within_hard = omega arith;
        },
      )

-- A renewal that succeeds sets the lease of the task's attempt, under the next lease revision, no
-- later than the attempt's progress deadline and its hard deadline; the attempt and the generation
-- stay.
pub renew-IsRenewed :
    (state : State) (t : Task) (command : Renew) (actor : String) (at : ℕ) (state' : State)
    → renew state t command actor at ≡ ok state'
    → (attempt : Attempt) × (t' : Task) × (t.attempt ≡ some attempt)
      × (Dict.get t.id state'.tasks ≡ some t')
      × IsRenewed t attempt t'
renew-IsRenewed state t command actor at state' = (renew-Ensures state t command actor at).at state'

-- What `expire` has found when it succeeds.
record IsExpired (t : Task) (tokens : Tokens) (at : ℕ) : Type 0 where
  attempt : Attempt
  current : IsCurrent t tokens attempt
  due : ℕ
  due_at : attempt_due t attempt ≡ ok due
  late : due ≤ at

expire-Ensures :
    (state : State) (t : Task) (command : Expire) (role : Role) (at : ℕ)
    → Ensures (λ state'. IsExpired t command.tokens at) (expire state t command role at)
unfolding expire
expire-Ensures state t command role at = Ensures-require _ _ _ λ _. Ensures-bind _ _ λ attempt g.
    Ensures-bind _ _ λ _ _. Ensures-bind _ _ λ due d. Ensures-require _ _ _ λ late.
      Ensures-bind _ _ λ _ _. Ensures-ok _ (record {
        attempt = attempt;
        current = (generation-IsCurrent t command.tokens).at attempt g;
        due = due;
        due_at = d;
        late = ground arith;
      })

not_both :
    (t : Task) (tokens : Tokens) (at : ℕ) (attempt : Attempt) (other : Tokens)
    → IsLive t tokens at attempt
    → ¬ IsExpired t other at
not_both t tokens at attempt other l x =
    let same : x.attempt ≡ attempt = cc (x.current.of_task, l.of_task) in
    let e : ok x.due ≡ ok l.due = sym x.due_at ∙ ap (attempt_due t) same ∙ l.due_at in
    omega (arith, ok-injective e, x.late, l.in_time)

-- An attempt that may still act at a time cannot be expired at that time, and one that the system
-- can expire cannot act: no instant lets both through.
pub live-not-expire :
    (state : State) (t : Task) (tokens : Tokens) (actor : String) (at : ℕ) (options : LiveOptions)
    (attempt : Attempt) (command : Expire) (role : Role) (state' : State)
    → live state t tokens actor at options ≡ ok attempt
    → expire state t command role at ≢ ok state'
live-not-expire state t tokens actor at options attempt command role state' l x =
    not_both t tokens at attempt command.tokens
      ((live-IsLive state t tokens actor at options).at attempt l)
      ((expire-Ensures state t command role at).at state' x)
