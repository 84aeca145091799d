-- ===== src/Domain/Commands.antt =====
-- The commands that `decide` admits, one record for each operation of SCHEMAS in
-- sidecar/src/mempalace_tasks/domain.py: a required field is a field, an optional one an option.
-- In a patch a field that may be set to null is an option of an option.
use copilot_mempalace.Prelude.{ℕ, String, Bool, Option, List}
use copilot_mempalace.Prelude.Dict.{Dict}
use copilot_mempalace.Domain.Types.{Kind, ExecutionClass, Role, EdgeType}
use copilot_mempalace.Domain.Records.{Supervisor, Evidence}

-- A policy object of a command: any of the keys of DEFAULT_POLICY.
pub record PolicyOverrides : Type 0 where
  pub lease_ttl_seconds : Option ℕ
  pub renewal_seconds : Option ℕ
  pub sweep_seconds : Option ℕ
  pub progress_timeout_seconds : Option ℕ
  pub hard_timeout_seconds : Option ℕ
  pub automatic_retries : Option ℕ

pub record ProfileInput : Type 0 where
  pub execution_class : ExecutionClass
  pub available : Option Bool
  pub supports_fencing : Option Bool
  pub supports_reconciliation : Option Bool

pub record AuthorityCreate : Type 0 where
  pub execution_profiles : Dict ProfileInput
  pub actors : Dict Role
  pub supervisors : Dict Supervisor
  pub policy : Option PolicyOverrides

-- TASK_INPUT
pub record TaskInput : Type 0 where
  pub project : String
  pub kind : Kind
  pub title : String
  pub description : String
  pub acceptance : String
  pub priority : Option ℕ
  pub hold_reason : Option String
  pub deferred_until : Option ℕ
  pub execution_class : Option ExecutionClass
  pub execution_profile : Option String
  pub resource_keys : Option (List String)
  pub policy : Option PolicyOverrides
  pub goal_id : Option String
  pub intent_key : Option String
  pub admitted : Option Bool

-- CONTENT | EXECUTION
pub record Patch : Type 0 where
  pub title : Option String
  pub description : Option String
  pub acceptance : Option String
  pub priority : Option ℕ
  pub hold_reason : Option (Option String)
  pub deferred_until : Option (Option ℕ)
  pub execution_class : Option (Option ExecutionClass)
  pub execution_profile : Option (Option String)
  pub resource_keys : Option (List String)
  pub policy : Option PolicyOverrides

-- TOKENS
pub record Tokens : Type 0 where
  pub attempt_id : Option String
  pub claim_generation : Option ℕ

pub record Update : Type 0 where
  pub tokens : Tokens
  pub patch : Patch

pub record Claim : Type 0 where
  pub supervisor_id : String
  pub worker_id : Option String

pub record Renew : Type 0 where
  pub tokens : Tokens
  pub expected_lease_revision : ℕ

pub record CheckpointReport : Type 0 where
  pub tokens : Tokens
  pub checkpoint_sequence : ℕ
  pub reference : String

pub data ReportKind : Type 0 where
  started settled failed recovery_started : ReportKind

pub record AttemptReport : Type 0 where
  pub tokens : Tokens
  pub report_kind : ReportKind
  pub evidence : Evidence
  pub reason : Option String
  pub permanent : Option Bool

pub record Expire : Type 0 where
  pub tokens : Tokens
  pub expected_lease_revision : ℕ
  pub reason : Option String

pub record Release : Type 0 where
  pub tokens : Tokens
  pub reason : String

pub data RetryDecision : Type 0 where
  preserve grant : RetryDecision

pub record Recover : Type 0 where
  pub evidence : Evidence
  pub retry_decision : RetryDecision
  pub additional_retries : Option ℕ

pub data TransitionTarget : Type 0 where
  closed cancelled : TransitionTarget

pub record Transition : Type 0 where
  pub tokens : Tokens
  pub target : TransitionTarget
  pub summary : Option String
  pub evidence : Option (List String)
  pub reason : Option String

pub record Note : Type 0 where
  pub tokens : Tokens
  pub tag : String
  pub content : String
  pub references : Option (List String)

pub record Dependency : Type 0 where
  pub source : String
  pub target : String
  pub edge_type : EdgeType
  pub expected_source_version : ℕ
  pub expected_target_version : ℕ

-- What a completion reads of its command: the session and the acceptance are those of native
-- commands.
pub record CompletionInput : Type 0 where
  pub tokens : Tokens
  pub summary : Option String
  pub evidence : Option (List String)

pub record GoalClose : Type 0 where
  pub goal_id : String
  pub expected_version : ℕ
  pub expected_graph_revision : ℕ
  pub summary : String
  pub evidence : List String

-- The operations on one task that has been looked up.
pub data TaskOperation : Type 0 where
  update : Update → TaskOperation
  claim : Claim → TaskOperation
  renew : Renew → TaskOperation
  checkpoint : CheckpointReport → TaskOperation
  attempt_report : AttemptReport → TaskOperation
  expire : Expire → TaskOperation
  release : Release → TaskOperation
  recover : Recover → TaskOperation
  transition : Transition → TaskOperation
  note : Note → TaskOperation
