-- ===== src/Domain/Revocation/Progress.antt =====
-- What a checkpoint of a live attempt records.
use copilot_mempalace.Prelude.{
  ℕ, ◌≡◌, ◌≤◌, ◌<◌, ◌⊎◌, inl, inr, String, true, false, Option, none, some, arith, refl, min,
}
use copilot_mempalace.Model.{ok}
use copilot_mempalace.Model.Ensures.{
  Ensures, Ensures-bind, Ensures-ok, Ensures-require, Ensures-or_fail, Ensures-if,
}
use copilot_mempalace.Domain.Records.{Task, Attempt, Checkpoint}
use copilot_mempalace.Domain.Checks.{is_none}
use copilot_mempalace.Domain.Revocation.{record_checkpoint, next_progress, advances}

-- The sequence is above the one before, if there is one.
abbrev pub IsAbove : Option Checkpoint → ℕ → Type 0
IsAbove none sequence = Unit
IsAbove (some previous) sequence = previous.sequence < sequence

-- The progress deadline of managed work is there and within the hard deadline; cooperative work
-- keeps what it has.
abbrev pub IsWithin : Task → Attempt → Option ℕ → Type 0
IsWithin t attempt progress =
    ((due : ℕ) × (hard : ℕ) × (progress ≡ some due)
      × (attempt.hard_deadline ≡ some hard)
      × (due ≤ hard))
    ⊎ ((is_none t.native ≡ false) × (progress ≡ attempt.progress_deadline))

next_progress-IsWithin :
    (t : Task) (attempt : Attempt) (at : ℕ)
    → Ensures (IsWithin t attempt) (next_progress t attempt at)
unfolding next_progress
next_progress-IsWithin t attempt at =
    Ensures-if (is_none t.native) _ _
      (λ _. Ensures-bind _ _ λ due _.
        Ensures-or_fail _ _ _
          λ hard h. Ensures-ok _ (inl (min due hard, hard, refl, h, omega arith)))
      (λ cooperative. Ensures-ok _ (inr (cooperative, refl)))

IsAbove-of_advances :
    (c : Option Checkpoint) (sequence : ℕ) (reference : String)
    → advances c sequence reference ≡ true
    → IsAbove c sequence
IsAbove-of_advances none sequence reference h = tt
IsAbove-of_advances (some previous) sequence reference h = ground arith

-- The task that a checkpoint leaves.
pub record IsRecorded (t : Task) (sequence : ℕ) (reference : String) (at : ℕ) (t' : Task)
    : Type 0 where
  pub attempt : Attempt
  pub before : t.attempt ≡ some attempt
  pub attempt' : Attempt
  pub now : t'.attempt ≡ some attempt'
  pub same_status : t'.status ≡ t.status
  pub same_generation : t'.claim_generation ≡ t.claim_generation
  pub recorded :
      attempt'.checkpoint ≡ some (record { sequence = sequence; reference = reference; at = at })
  pub above : IsAbove attempt.checkpoint sequence
  pub same_hard : attempt'.hard_deadline ≡ attempt.hard_deadline
  pub within : IsWithin t attempt attempt'.progress_deadline

IsRecorded-Ensures :
    (t : Task) (sequence : ℕ) (reference : String) (at : ℕ)
    → Ensures (IsRecorded t sequence reference at) (record_checkpoint t sequence reference at)
unfolding record_checkpoint
IsRecorded-Ensures t sequence reference at = Ensures-bind _ _ λ _ _. Ensures-bind _ _ λ _ _.
    Ensures-or_fail _ _ _ λ attempt e. Ensures-require _ _ _ λ fresh. Ensures-bind _ _ λ progress p.
      Ensures-ok _ (record {
        attempt = attempt;
        before = e;
        attempt' = _;
        now = refl;
        same_status = refl;
        same_generation = refl;
        recorded = refl;
        above = IsAbove-of_advances attempt.checkpoint sequence reference fresh;
        same_hard = refl;
        within = (next_progress-IsWithin t attempt at).at progress p;
      })

-- A checkpoint is recorded only above the sequence before it, for the attempt of the task, which
-- stays in its status and generation; the hard deadline stays, and managed work is given a progress
-- deadline that is no later than it.
pub record_checkpoint-IsRecorded :
    (t : Task) (sequence : ℕ) (reference : String) (at : ℕ) (t' : Task)
    → record_checkpoint t sequence reference at ≡ ok t'
    → IsRecorded t sequence reference at t'
record_checkpoint-IsRecorded t sequence reference at t' =
    (IsRecorded-Ensures t sequence reference at).at t'
