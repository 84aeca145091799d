-- ===== src/Domain/Records.antt =====
-- The records of a state: policy, configuration, tasks with their attempts and recoveries, edges
-- and resources (sidecar/src/mempalace_tasks/domain.py, native.py, model.py).
use copilot_mempalace.Prelude.{
  ℕ, String, Bool, true, ◌&&◌, Option, List, ◌≡◌, ◌↔◌, arith, eq_iff, ◌==◌, Eq, string_eq,
}
use copilot_mempalace.Prelude.Dict.{Dict}
use copilot_mempalace.Domain.Types.{
  Kind, ExecutionClass, Role, Status, EdgeType, AttemptStatus, Disposition, EscalationCode,
  edge_type_eq, edge_type_beq_iff,
}

pub record Policy : Type 0 where
  pub lease_ttl_seconds : ℕ
  pub renewal_seconds : ℕ
  pub sweep_seconds : ℕ
  pub progress_timeout_seconds : ℕ
  pub hard_timeout_seconds : ℕ
  pub automatic_retries : ℕ

-- DEFAULT_POLICY
abbrev pub default_policy : Policy
default_policy = record {
  lease_ttl_seconds = 300;
  renewal_seconds = 100;
  sweep_seconds = 15;
  progress_timeout_seconds = 1800;
  hard_timeout_seconds = 7200;
  automatic_retries = 3;
}

pub record Profile : Type 0 where
  pub execution_class : ExecutionClass
  pub available : Bool
  pub supports_fencing : Bool
  pub supports_reconciliation : Bool

pub record Supervisor : Type 0 where
  pub profiles : List String
  pub workers : List String

pub record Configuration : Type 0 where
  pub execution_profiles : Dict Profile
  pub actors : Dict Role
  pub supervisors : Dict Supervisor
  pub policy : Policy

pub record Evidence : Type 0 where
  pub references : List String
  pub prepared : Option Bool
  pub resource_fences : Option (Dict ℕ)
  pub publication_revoked : Option Bool
  pub process_stopped : Option Bool
  pub effects_reconciled : Option Bool
  pub installed_fences : Option (Dict ℕ)
  pub fencing_unavailable : Option Bool

pub record Checkpoint : Type 0 where
  pub sequence : ℕ
  pub reference : String
  pub at : ℕ

-- A managed attempt has a supervisor and deadlines; a cooperative one has a session generation and
-- may have an agent.
pub record Attempt : Type 0 where
  pub id : String
  pub number : ℕ
  pub owner : String
  pub supervisor_id : Option String
  pub session_generation : Option ℕ
  pub native_agent_id : Option String
  pub started_at : ℕ
  pub status : AttemptStatus
  pub progress_deadline : Option ℕ
  pub hard_deadline : Option ℕ
  pub checkpoint : Option Checkpoint
  pub failure_reason : Option String
  pub resource_fences : Dict ℕ
  pub preparation : Option Evidence
  pub settlement : Option Evidence

pub record ManagedRecovery : Type 0 where
  pub reason : String
  pub disposition : Disposition
  pub failed : Bool
  pub permanent : Bool
  pub started_at : ℕ
  pub barrier_satisfied : Bool
  pub evidence : Option Evidence

-- The recovery that native.py writes; its barrier_satisfied is always false.
pub record NativeRecovery : Type 0 where
  pub reason : String
  pub observations : List String
  pub started_at : ℕ

pub data Recovery : Type 0 where
  managed : ManagedRecovery → Recovery
  cooperative : NativeRecovery → Recovery

pub record Escalation : Type 0 where
  pub code : EscalationCode
  pub at : ℕ
  pub reason : String

pub record Completion : Type 0 where
  pub summary : String
  pub evidence : List String
  pub at : ℕ
  pub actor : String

pub record GoalPolicy : Type 0 where
  pub scope : String
  pub max_tasks : ℕ
  pub max_batch : ℕ

pub record Transfer : Type 0 where
  pub from_session_id : String
  pub reason : String
  pub observations : List String
  pub at : ℕ

pub data Decision : Type 0 where
  hold retry cancel : Decision

pub record Reconciliation : Type 0 where
  pub reason : String
  pub observations : List String
  pub decision : Decision
  pub at : ℕ

pub record Finding : Type 0 where
  pub id : String
  pub criterion : String
  pub feedback : String

pub record ResolvedFinding : Type 0 where
  pub id : String
  pub summary : String
  pub evidence : List String

pub record Resolution : Type 0 where
  pub review_id : String
  pub findings : List ResolvedFinding

-- An accepted review's resolution, with who gave it and for which attempt.
pub record Accepted : Type 0 where
  pub resolution : Resolution
  pub actor : String
  pub at : ℕ
  pub attempt_id : String
  pub claim_generation : ℕ

pub data NextAction : Type 0 where
  rework hold : NextAction

-- `resolution` is there exactly if the review's status is "accepted"; without it the status is
-- "changes_requested".
pub record Review : Type 0 where
  pub id : String
  pub summary : String
  pub evidence : List String
  pub next_action : NextAction
  pub findings : List Finding
  pub actor : String
  pub at : ℕ
  pub attempt_id : String
  pub claim_generation : ℕ
  pub resolution : Option Accepted

pub record Native : Type 0 where
  pub session_id : String
  pub issuing_session_id : String
  pub session_generation : ℕ
  pub plan_references : List String
  pub parent_acceptance : Option String
  pub transfer : Option Transfer
  pub reconciliation : Option Reconciliation
  pub review : Option Review

pub record Task : Type 0 where
  pub id : String
  pub project : String
  pub kind : Kind
  pub title : String
  pub description : String
  pub acceptance : String
  pub priority : ℕ
  pub hold_reason : Option String
  pub deferred_until : Option ℕ
  pub execution_class : Option ExecutionClass
  pub execution_profile : Option String
  pub resource_keys : List String
  pub policy : Policy
  pub goal_id : Option String
  pub intent_key : Option String
  pub admitted : Bool
  pub native : Option Native
  pub status : Status
  pub version : ℕ
  pub claim_generation : ℕ
  pub lease_revision : ℕ
  pub lease_expires_at : Option ℕ
  pub attempt : Option Attempt
  pub automatic_retries_used : ℕ
  pub retry_budget_granted : ℕ
  pub retry_not_before : Option ℕ
  pub recovery : Option Recovery
  pub escalation : Option Escalation
  pub created_at : ℕ
  pub updated_at : ℕ
  pub completion : Option Completion
  pub cancellation_reason : Option String
  pub sealed : Bool
  pub graph_revision : ℕ
  pub goal_policy : Option GoalPolicy
  pub assignee : Option String

pub record Edge : Type 0 where
  pub source : String
  pub target : String
  pub edge_type : EdgeType

pub edge_beq_iff :
    (a b : Edge)
    → ((a.source == b.source && a.target == b.target && a.edge_type == b.edge_type) ≡ true)
      ↔ (a ≡ b)
edge_beq_iff a b = ground (
  arith,
  eq_iff a.source b.source,
  eq_iff a.target b.target,
  edge_type_beq_iff a.edge_type b.edge_type,
)

instance abbrev pub edge_eq : Eq Edge
edge_eq = record {
  same = λ a b. a.source == b.source && a.target == b.target && a.edge_type == b.edge_type;
  same_iff = edge_beq_iff;
}

pub record Reservation : Type 0 where
  pub task_id : String
  pub attempt_id : String
  pub claim_generation : ℕ

pub record Resource : Type 0 where
  pub counter : ℕ
  pub reservation : Option Reservation

pub record State : Type 0 where
  pub authority_id : String
  pub tasks : Dict Task
  pub edges : List Edge
  pub resources : Dict Resource
  pub configuration : Option Configuration
  pub last_event_at : Option ℕ
