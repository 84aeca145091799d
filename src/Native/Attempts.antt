-- ===== src/Native/Attempts.antt =====
-- The attempts of cooperative work in sidecar/src/mempalace_tasks/native.py: ownership by a session
-- and its generation, interruption, reviews and completion.
use copilot_mempalace.Prelude.{
  ℕ, String, Bool, true, false, ◌&&◌, ◌||◌, Option, none, some, List, leb, ◌==◌, all, contains,
  distinct, map, is_empty, length, string_eq, nat_eq, option_eq, if◌then◌else◌,
}
use copilot_mempalace.Model.{
  Result, ok, ◌>>=◌, ◌>>◌, require, or_fail, for_each, byte_text, identifier, validation_error,
  stale_generation, invalid_transition, not_ready, key_error,
}
use copilot_mempalace.Domain.Types.{
  Kind, status_eq, attempt_status_eq, opened, in_progress, recovering, closed, revoked, running,
  preparing, completed,
}
use copilot_mempalace.Domain.Records.{
  Task, State, Attempt, cooperative, Native, Review, Finding, ResolvedFinding, Resolution,
}
use copilot_mempalace.Domain.Commands.{Tokens}
use copilot_mempalace.Domain.Checks.{strings, is_none}
use copilot_mempalace.Domain.Readiness.{wait_reasons}
use copilot_mempalace.Domain.Completion.{given_text, children_done}

-- The session that issues a command, with the goal's current generation.
pub record Session : Type 0 where
  pub session_id : String
  pub session_generation : ℕ

-- _observations
unfoldable pub observations : String → List String → Result (Unit {0})
observations reason observed = do byte_text reason 8192; strings observed 20 true 2048

-- _tokens
unfoldable pub tokens_attempt : Task → Tokens → Result Attempt
tokens_attempt t tokens = do
  attempt ← or_fail t.attempt stale_generation
  require
      (tokens.attempt_id == some attempt.id && tokens.claim_generation == some t.claim_generation)
      stale_generation
  ok attempt

-- attempt["owner"] == session and attempt["session_generation"] == its generation
abbrev pub owns : Attempt → Session → Bool
owns attempt session =
    attempt.owner == session.session_id
    && attempt.session_generation == some session.session_generation

-- The ownership test of live_attempt.
unfoldable pub active_attempt : Task → Tokens → Session → Bool → Result Attempt
active_attempt t tokens session allow_inherited = do
  attempt ← tokens_attempt t tokens
  require (t.status == in_progress && (owns attempt session || allow_inherited)) stale_generation
  ok attempt

-- live_attempt
unfoldable pub live_attempt : Task → Tokens → Session → Option String → Bool → Result Attempt
live_attempt t tokens session agent allow_inherited = do
  attempt ← active_attempt t tokens session allow_inherited
  require (agent == attempt.native_agent_id) stale_generation
  ok attempt

-- live_attempt(..., starting=True)
unfoldable pub starting_attempt : Task → Tokens → Session → Result Attempt
starting_attempt t tokens session = do
  attempt ← active_attempt t tokens session false
  require (attempt.status == preparing && is_none attempt.native_agent_id) invalid_transition
  ok attempt

-- interrupt
unfoldable pub interrupt : Task → ℕ → String → List String → Result Task
interrupt t at reason observed = do
  observations reason observed
  attempt ← or_fail t.attempt key_error
  ok (record t {
    assignee = none;
    attempt = some (record attempt { status = revoked });
    status = recovering;
    recovery =
        some (cooperative (record { reason = reason; observations = observed; started_at = at }));
  })

-- pending_review: the review that is not resolved
unfoldable pub pending_review : Task → Option Review
pending_review t = elim t.native [
  | none ↦ none
  | some n ↦ elim n.review [ none ↦ none | some r ↦ if is_none r.resolution then some r else none ]
]

unfoldable finding_check : Finding → Result (Unit {0})
finding_check f = do byte_text f.id 128; byte_text f.criterion 2048; byte_text f.feedback 2048

-- _findings
unfoldable pub findings_check : List Finding → Result (Unit {0})
unfolding finding_check
findings_check fs = do
  require (leb 1 (length fs) && leb (length fs) 20) validation_error
  for_each finding_check fs
  require (distinct (map (λ (f : Finding). f.id) fs)) validation_error

unfoldable resolved_check : ResolvedFinding → Result (Unit {0})
resolved_check f = do byte_text f.id 128; byte_text f.summary 8192; strings f.evidence 20 true 2048

-- _findings(..., resolved=True)
unfoldable pub resolved_findings_check : List ResolvedFinding → Result (Unit {0})
unfolding resolved_check
resolved_findings_check fs = do
  require (leb 1 (length fs) && leb (length fs) 20) validation_error
  for_each resolved_check fs
  require (distinct (map (λ (f : ResolvedFinding). f.id) fs)) validation_error

abbrev pub finding_ids : List Finding → List String
finding_ids = map λ f. f.id

abbrev pub resolved_ids : List ResolvedFinding → List String
resolved_ids = map λ f. f.id

abbrev pub same_set : List String → List String → Bool
same_set xs ys = all (λ x. contains x ys) xs && all (λ y. contains y xs) ys

-- _resolution
unfoldable pub resolution_check : Review → Resolution → Result (Unit {0})
resolution_check review r = do
  identifier r.review_id
  require (r.review_id == review.id) validation_error
  resolved_findings_check r.findings
  require (same_set (resolved_ids r.findings) (finding_ids review.findings)) validation_error

-- What a completion by a session reads of its command.
pub record Outcome : Type 0 where
  pub tokens : Tokens
  pub native_agent_id : Option String
  pub parent_acceptance : Option String
  pub review_resolution : Option Resolution

-- The review after the completion: resolved if one was pending.
unfoldable pub resolve_review :
    Task → Attempt → Option Review → Option Resolution → Session → ℕ → Result (Option Review)
resolve_review t attempt none given session at = do
  require (is_none given) validation_error
  ok none
resolve_review t attempt (some review) given session at = do
  r ← or_fail given validation_error
  resolution_check review r
  ok (
      some (record review {
        resolution = some (record {
          resolution = r;
          actor = session.session_id;
          at = at;
          attempt_id = attempt.id;
          claim_generation = t.claim_generation;
        });
      }))

unfoldable with_review : Native → Option Review → Native
with_review n none = n
with_review n (some r) = record n { review = some r }

-- The task branch of complete_task.
unfoldable complete_native_attempt : Task → Native → Outcome → Session → ℕ → Result Task
unfolding with_review
complete_native_attempt t n outcome session at = do
  attempt ← live_attempt t outcome.tokens session outcome.native_agent_id false
  require (attempt.status == running) invalid_transition
  review ← resolve_review t attempt (pending_review t) outcome.review_resolution session at
  ok (record t {
    attempt = some (record attempt { status = completed });
    assignee = none;
    native = some (with_review n review);
  })

-- The epic branch of complete_task.
unfoldable complete_native_epic : State → Task → Outcome → Result Task
complete_native_epic state t outcome = do
  require (is_none outcome.review_resolution) validation_error
  require
      (is_none outcome.tokens.attempt_id
        && is_none outcome.tokens.claim_generation
        && is_none outcome.native_agent_id)
      validation_error
  require (t.status == opened) invalid_transition
  done ← children_done state.tasks t.id state.edges
  require done not_ready
  ok t

unfoldable complete_native_kind : Kind → State → Task → Native → Outcome → Session → ℕ → Result Task
unfolding complete_native_attempt complete_native_epic
complete_native_kind Kind.task state t n outcome session at =
    complete_native_attempt t n outcome session at
complete_native_kind Kind.epic state t n outcome session at = complete_native_epic state t outcome

unfoldable accepted_native : Option Native → String → Option Native
accepted_native none acceptance = none
accepted_native (some n) acceptance = some (record n { parent_acceptance = some acceptance })

-- complete_task
unfoldable pub complete_task :
    State → Task → Outcome → Session → String → List String → ℕ → Result Task
unfolding complete_native_kind accepted_native
complete_task state t outcome session summary evidence at = do
  acceptance ← given_text outcome.parent_acceptance
  waiting ← wait_reasons state t at
  require (t.admitted && is_empty waiting) not_ready
  n ← or_fail t.native key_error
  t' ← complete_native_kind t.kind state t n outcome session at
  ok (record t' {
    status = closed;
    completion =
        some
          (record { summary = summary; evidence = evidence; at = at; actor = session.session_id });
    native = accepted_native t'.native acceptance;
  })
