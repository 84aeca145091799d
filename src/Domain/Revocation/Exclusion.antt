-- ===== src/Domain/Revocation/Exclusion.antt =====
-- A revoked attempt is shut out.
use copilot_mempalace.Prelude.{ℕ, ◌≡◌, Bool, true, false, refl, arith, string_eq, nat_eq, option_eq}
use copilot_mempalace.Model.{ok, err, ◌>>=◌, require, or_fail, stale_generation}
use copilot_mempalace.Model.Ensures.{Ensures, Ensures-bind, Ensures-ok, Ensures-or_fail}
use copilot_mempalace.Domain.Types.{status_eq}
use copilot_mempalace.Domain.Records.{Task, State, Attempt}
use copilot_mempalace.Domain.Commands.{Tokens}
use copilot_mempalace.Domain.Attempts.{generation}
use copilot_mempalace.Domain.Revocation.{Revocation, revoke, revoked_task}

revoked-generation :
    (t : Task) (attempt : Attempt) (at : ℕ) (r : Revocation) (unavailable : Bool) (tokens : Tokens)
    → generation (revoked_task t attempt at r unavailable) tokens ≡ err stale_generation
unfolding revoked_task generation ◌>>=◌ require or_fail
revoked-generation t attempt at r true tokens = refl
revoked-generation t attempt at r false tokens = ground arith

revoke-Ensures :
    (state : State) (t : Task) (at : ℕ) (r : Revocation) (tokens : Tokens)
    → Ensures (λ t'. generation t' tokens ≡ err stale_generation) (revoke state t at r)
unfolding revoke
revoke-Ensures state t at r tokens = Ensures-bind _ _ λ _ _. Ensures-or_fail _ _ _ λ attempt _.
    Ensures-or_fail _ _ _ λ config _. Ensures-or_fail _ _ _ λ name _.
      Ensures-or_fail _ _ _ λ profile _. Ensures-ok _ (revoked-generation t attempt at r _ tokens)

-- Once a task is revoked, for whatever reason and whether it is then recovering or quarantined, the
-- generation check refuses all tokens for it as stale.
pub generation-revoke :
    (state : State) (t : Task) (at : ℕ) (r : Revocation) (tokens : Tokens) (t' : Task)
    → revoke state t at r ≡ ok t'
    → generation t' tokens ≡ err stale_generation
generation-revoke state t at r tokens t' = (revoke-Ensures state t at r tokens).at t'
