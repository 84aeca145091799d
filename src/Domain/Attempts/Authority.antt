-- ===== src/Domain/Attempts/Authority.antt =====
-- What `_generation` and `_live` let through: the current attempt alone, in time.
use copilot_mempalace.Prelude.{
  ℕ, ◌<◌, ◌≡◌, ◌≢◌, String, true, some, arith, nat_eq, string_eq, option_eq, ◌==◌, ◌&&◌, and_true,
  eq_of_==, ==_of_ne, Option-cases, inl, inr,
}
use copilot_mempalace.Model.{ok, err, ◌>>=◌, require, or_fail, stale_generation}
use copilot_mempalace.Model.Ensures.{
  Ensures, Ensures-bind, Ensures-ok, Ensures-require, Ensures-or_fail,
}
use copilot_mempalace.Domain.Types.{in_progress, status_eq}
use copilot_mempalace.Domain.Records.{Task, State, Attempt}
use copilot_mempalace.Domain.Commands.{Tokens}
use copilot_mempalace.Domain.Attempts.{generation, live, attempt_due, LiveOptions}

-- The command names the attempt that the task is in.
pub record IsCurrent (t : Task) (tokens : Tokens) (attempt : Attempt) : Type 0 where
  pub of_task : t.attempt ≡ some attempt
  pub active : t.status ≡ in_progress
  pub named : tokens.attempt_id ≡ some attempt.id
  pub numbered : tokens.claim_generation ≡ some t.claim_generation

IsCurrent-of_test :
    (t : Task) (tokens : Tokens) (attempt : Attempt)
    → t.attempt ≡ some attempt
    → (t.status == in_progress
        && tokens.attempt_id == some attempt.id
        && tokens.claim_generation == some t.claim_generation)
      ≡ true
    → IsCurrent t tokens attempt
IsCurrent-of_test t tokens attempt e h =
    let (first, numbered) = and_true h in
    let (active, named) = and_true first in
    record {
      of_task = e;
      active = eq_of_== active;
      named = eq_of_== named;
      numbered = eq_of_== numbered;
    }

pub generation-IsCurrent :
    (t : Task) (tokens : Tokens) → Ensures (IsCurrent t tokens) (generation t tokens)
unfolding generation
generation-IsCurrent t tokens = Ensures-or_fail _ _ _ λ attempt e.
    Ensures-require _ _ _ λ named. Ensures-ok _ (IsCurrent-of_test t tokens attempt e named)

-- An attempt that is live is current and not yet due.
pub record IsLive (t : Task) (tokens : Tokens) (at : ℕ) (attempt : Attempt) : Type 0 where
  pub current : IsCurrent t tokens attempt
  pub open current use *
  pub due : ℕ
  pub due_at : attempt_due t attempt ≡ ok due
  pub in_time : at < due

pub live-IsLive :
    (state : State) (t : Task) (tokens : Tokens) (actor : String) (at : ℕ) (options : LiveOptions)
    → Ensures (IsLive t tokens at) (live state t tokens actor at options)
unfolding live
live-IsLive state t tokens actor at options = Ensures-bind _ _ λ attempt g.
    Ensures-bind _ _ λ allowed _. Ensures-require _ _ _ λ _. Ensures-bind _ _ λ due d.
      Ensures-require _ _ _ λ early. Ensures-ok attempt (record {
        current = (generation-IsCurrent t tokens).at attempt g;
        due = due;
        due_at = d;
        in_time = ground arith;
      })

-- Tokens of another generation are refused, whoever sends them and whenever.
pub generation-stale :
    (t : Task) (tokens : Tokens)
    → tokens.claim_generation ≢ some t.claim_generation
    → generation t tokens ≡ err stale_generation
unfolding generation ◌>>=◌ require or_fail
generation-stale t tokens old = elim (Option-cases t.attempt) [
  | inl e ↦ rw e
  | inr (attempt, e) ↦ rw (e, ==_of_ne old) (ground arith)
]
