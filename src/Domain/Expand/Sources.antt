-- ===== src/Domain/Expand/Sources.antt =====
-- The command of _expand in sidecar/src/mempalace_tasks/domain.py, and what it does with the task
-- whose work has found the new tasks.
use copilot_mempalace.Prelude.{
  ℕ, String, Bool, true, false, not, ◌&&◌, ◌||◌, Option, none, some, List, [], ◌∷◌, ◌==◌, string_eq,
  nat_eq, option_eq, if◌then◌else◌,
}
use copilot_mempalace.Prelude.Dict.{Dict, values}
use copilot_mempalace.Prelude.Dict
use copilot_mempalace.Model.{
  Result, ok, err, ◌>>=◌, ◌>>◌, require, or_fail, validation_error, invalid_transition, key_error,
}
use copilot_mempalace.Domain.Types.{
  EdgeType, Disposition, attempt_status_eq, edge_type_eq, running, settled,
}
use copilot_mempalace.Domain.Records.{Task, State, Attempt}
use copilot_mempalace.Domain.Commands.{Tokens}
use copilot_mempalace.Domain.Checks.{is_none, task_of}
use copilot_mempalace.Domain.Inputs.{save}
use copilot_mempalace.Domain.Attempts.{live, owner_or_supervisor}
use copilot_mempalace.Domain.Revocation.{revoke, record_checkpoint}
use copilot_mempalace.Domain.Edits.{has_tokens}
use copilot_mempalace.Native.Attempts.{Outcome, live_attempt, interrupt}
use copilot_mempalace.Domain.Expand.Entries.{
  Caller, actor, session, managed_admin, expected_given, Spec,
}

pub data SourceDisposition : Type 0 where
  continue yield complete : SourceDisposition

pub record CheckpointInput : Type 0 where
  pub sequence : ℕ
  pub reference : String

pub record EdgeInput : Type 0 where
  pub source : String
  pub target : String
  pub edge_type : EdgeType

-- The command of expand. `native_agent_id` and `outcome` are those of a session's command.
pub record Expand : Type 0 where
  pub goal_id : String
  pub expected_graph_revision : ℕ
  pub source_task_id : Option String
  pub expected_version : Option ℕ
  pub tokens : Tokens
  pub outcome : Outcome
  pub tasks : List Spec
  pub edges : List EdgeInput
  pub source_disposition : SourceDisposition
  pub checkpoint : Option CheckpointInput
  pub reason : Option String
  pub observations : Option (List String)
  pub summary : Option String
  pub evidence : Option (List String)

abbrev pub completes : SourceDisposition → Bool
completes SourceDisposition.complete = true
completes _ = false

abbrev pub yields : SourceDisposition → Bool
yields SourceDisposition.yield = true
yields _ = false

abbrev pub continues : SourceDisposition → Bool
continues SourceDisposition.continue = true
continues _ = false

-- live_attempt or _live, by who issues the command
unfoldable pub source_attempt : State → Task → Expand → Caller → ℕ → Result Attempt
source_attempt state t command (actor a) at = live state t command.tokens a at owner_or_supervisor
source_attempt state t command (session s) at =
    live_attempt t command.tokens s command.outcome.native_agent_id false

-- The checks of the source, up to the batch.
unfoldable pub source_check : State → Task → Expand → Caller → ℕ → Option String → Result (Unit {0})
unfolding source_attempt
source_check state goal command caller at none = do
  managed_admin state caller
  require
      (continues command.source_disposition
        && not (has_tokens command.tokens)
        && is_none command.expected_version)
      validation_error
source_check state goal command caller at (some id) = do
  source ← task_of state id
  require (source.goal_id == some goal.id && source.admitted) validation_error
  attempt ← source_attempt state source command caller at
  expected_given source.version command.expected_version
  require
      (attempt.status == running
        || (completes command.source_disposition && attempt.status == settled))
      invalid_transition

-- interrupt or _revoke
unfoldable pub stop_source : State → Task → Expand → Caller → ℕ → Result Task
stop_source state t command (session s) at = do
  reason ← or_fail command.reason validation_error
  observed ← or_fail command.observations validation_error
  interrupt t at reason observed
stop_source state t command (actor a) at = do
  reason ← or_fail command.reason validation_error
  revoke state t at (record {
    reason = reason;
    disposition = Disposition.release;
    failed = false;
    permanent = false;
  })

-- disposition == "yield": a checkpoint, then the source stops
unfoldable pub yield_source :
    State → Expand → Caller → ℕ → Option String → Result (State × List String)
unfolding stop_source
yield_source state command caller at none = err key_error
yield_source state command caller at (some id) = do
  checkpoint ← or_fail command.checkpoint validation_error
  source ← or_fail (Dict.get id state.tasks) key_error
  t ← record_checkpoint source checkpoint.sequence checkpoint.reference at
  t' ← stop_source state t command caller at
  ok (save state t', id ∷ [])

unfoldable pub dispose_source : State → Expand → Caller → ℕ → Result (State × List String)
unfolding yield_source
dispose_source state command caller at =
    if yields command.source_disposition
    then yield_source state command caller at command.source_task_id
    else (do
      require (is_none command.checkpoint && is_none command.reason) validation_error
      ok (state, []))
