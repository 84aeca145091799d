-- ===== src/Samples/Takeovers.antt =====
-- A cooperative goal whose session is replaced, a checkpoint and a revocation.
use copilot_mempalace.Prelude.{◌+◌, ◌*◌, ◌≡◌, String, none, some, [], ◌∷◌, true, false, refl}
use copilot_mempalace.Prelude.Dict.{get, put}
use copilot_mempalace.Prelude.Text.{byte_count, char_count, is_blank}
use copilot_mempalace.Model.{
  ok, err, ◌>>=◌, require, or_fail, for_each, text, byte_text, integer, second, stale_generation,
}
use copilot_mempalace.Domain.Types.{Disposition, Kind}
use copilot_mempalace.Domain.Records.{Task, State, Native, Attempt}
use copilot_mempalace.Domain.Commands.{Tokens}
use copilot_mempalace.Domain.Checks.{any_goal_of, deadline, expected, goal_of, strings, task_of}
use copilot_mempalace.Domain.Inputs.{save}
use copilot_mempalace.Domain.Attempts.{generation}
use copilot_mempalace.Domain.Revocation.Exclusion.{generation-revoke}
use copilot_mempalace.Domain.Revocation.{
  Revocation, revoke, revoked_task, next_progress, record_checkpoint,
}
use copilot_mempalace.Domain.Revocation.Progress.{IsRecorded, record_checkpoint-IsRecorded}
use copilot_mempalace.Native.Attempts.{Session, observations}
use copilot_mempalace.Native.Sessions.{Resume, resume, scoped_goal}
use copilot_mempalace.Native.Sessions.Takeover.{IsTakenOver, resume-IsTakenOver, taken_over}
use copilot_mempalace.Samples.States.{
  claimed_state, ready_state, ready_task, running_attempt, running_task, task_id,
}

abbrev old_session : String
old_session = "00000000-0000-4000-8000-00000000000a"

abbrev new_session : String
new_session = "00000000-0000-4000-8000-00000000000b"

abbrev native : Native
native = record {
  session_id = old_session;
  issuing_session_id = old_session;
  session_generation = 1;
  plan_references = [];
  parent_acceptance = none;
  transfer = none;
  reconciliation = none;
  review = none;
}

abbrev goal : Task
goal = record ready_task {
  kind = Kind.epic;
  goal_id = some task_id;
  execution_class = none;
  execution_profile = none;
  resource_keys = [];
  native = some native;
  graph_revision = 1;
  goal_policy = some (record { scope = "Index"; max_tasks = 100; max_batch = 25 });
}

abbrev goal_state : State
goal_state = record ready_state { tasks = (task_id, goal) ∷ [] }

abbrev command : Resume
command = record {
  scope = record { project = "palace"; goal_id = task_id };
  expected_version = 1;
  expected_session_id = old_session;
  reason = "window closed";
  observed = "no process" ∷ [];
}

abbrev resumed_state : State
resumed_state = record goal_state {
  tasks = (task_id, taken_over goal native command new_session 500) ∷ [];
}

resume-ok : resume goal_state command new_session 500 ≡ ok resumed_state
unfolding resume scoped_goal goal_of any_goal_of task_of expected observations strings save ◌>>=◌
    require or_fail for_each text byte_text integer get put char_count byte_count is_blank
resume-ok = refl

goal-stored : get task_id goal_state.tasks ≡ some goal
unfolding get
goal-stored = refl

resume-IsTakenOver_example : IsTakenOver native command new_session resumed_state
resume-IsTakenOver_example =
    resume-IsTakenOver goal_state command new_session 500 goal native resumed_state goal-stored refl
      refl resume-ok

abbrev new_owner : Session
new_owner = record { session_id = new_session; session_generation = 2 }

abbrev started : Attempt
started = record running_attempt { owner = old_session; session_generation = some 1 }

abbrev started_task : Task
started_task = record running_task { attempt = some started }

abbrev tokens : Tokens
tokens = record { attempt_id = some started.id; claim_generation = some 1 }

abbrev reported_task : Task
reported_task = record running_task {
  attempt = some (record running_attempt {
    checkpoint = some (record { sequence = 3; reference = "commit/abc"; at = 2000 });
    progress_deadline = some (2000 + 1800 * second);
  });
}

checkpoint-ok : record_checkpoint running_task 3 "commit/abc" 2000 ≡ ok reported_task
unfolding record_checkpoint next_progress deadline ◌>>=◌ require or_fail byte_text integer
    byte_count is_blank
checkpoint-ok = refl

record_checkpoint-IsRecorded_example : IsRecorded running_task 3 "commit/abc" 2000 reported_task
record_checkpoint-IsRecorded_example =
    record_checkpoint-IsRecorded running_task 3 "commit/abc" 2000 reported_task checkpoint-ok

abbrev revocation : Revocation
revocation = record {
  reason = "lease_expired";
  disposition = Disposition.requeue;
  failed = true;
  permanent = false;
}

abbrev revoked_running : Task
revoked_running = revoked_task running_task running_attempt 400000000 revocation false

revoke-ok : revoke claimed_state running_task 400000000 revocation ≡ ok revoked_running
unfolding revoke revoked_task ◌>>=◌ require or_fail byte_text get byte_count is_blank
revoke-ok = refl

generation-revoke_example : generation revoked_running tokens ≡ err stale_generation
generation-revoke_example =
    generation-revoke claimed_state running_task 400000000 revocation tokens revoked_running
      revoke-ok
