-- ===== src/Protocol/Records.antt =====
-- The payloads and the raw records of the log, and LogState (sidecar/src/mempalace_tasks/protocol.py).
use copilot_mempalace.Prelude.{ℕ, String, Bool, Option, none, List, []}
use copilot_mempalace.Prelude.Dict.{Dict}
use copilot_mempalace.Domain.Records.{State}
use copilot_mempalace.Domain.Execute.{Command, Response}
use copilot_mempalace.Domain.Decide.{Event}

-- An attempt to activate an epoch.
pub record EpochPayload : Type 0 where
  pub authority_id : String
  pub epoch_id : String
  pub activation_id : String
  pub previous_activation_id : Option String
  pub at : ℕ
  pub payload_hash : String

-- A proposed command with the event that was decided for it.
pub record Proposal : Type 0 where
  pub authority_id : String
  pub epoch_id : String
  pub command_id : String
  pub command_hash : String
  pub task_ids : List String
  pub ordinal : ℕ
  pub previous_event_id : Option String
  pub event : Event
  pub payload_hash : String

pub record Settlement : Type 0 where
  pub authority_id : String
  pub epoch_id : String
  pub command_id : String
  pub command_hash : String
  pub task_ids : List String
  pub proposal_hash : String
  pub control_id : String
  pub payload_hash : String

-- The record types mptask.epoch, mptask.command and mptask.settle.
pub data Payload : Type 0 where
  epoch : EpochPayload → Payload
  proposal : Proposal → Payload
  settlement : Settlement → Payload

-- The metadata of a raw record that is looked at; `identity` is its activation_id or command_id.
pub record Metadata : Type 0 where
  pub authority_id : Option String
  pub identity : Option String
  pub epoch_id : Option String

pub record Raw : Type 0 where
  pub id : String
  pub stream : String
  pub room : String
  pub record_type : String
  pub from_agent : String
  pub correlation_id : String
  pub created_at : String
  pub body : String
  pub body_truncated : Bool
  pub metadata : Metadata

-- What json, hashlib and uuid compute: texts of values, digests of them, and what a body holds,
-- which is none where it is not the JSON text of an object with the fields of a payload.
pub record Codec : Type 0 where
  pub uuid5 : String → String → String
  pub event_text : Event → String
  pub payload_text : Payload → String
  pub metadata_text : Metadata → String
  pub command_digest : Command → String
  pub payload_digest : Payload → String
  pub raw_digest : Option String → Raw → String
  pub loads : String → Option Payload

pub data Verdict : Type 0 where
  committed abandoned : Verdict

-- The outcome of a command in its epoch; the ordinal and the response are those of a committed one.
pub record Outcome : Type 0 where
  pub verdict : Verdict
  pub command_id : String
  pub command_hash : String
  pub proposal_hash : String
  pub task_ids : List String
  pub event_id : String
  pub ordinal : Option ℕ
  pub response : Option Response
  pub command : Option Command
  pub authority_id : String
  pub epoch_id : String

-- activation_attempts: whether the attempt was accepted, and its payload
pub record Activation : Type 0 where
  pub accepted : Bool
  pub event_id : String
  pub payload : EpochPayload

pub data Disposition : Type 0 where
  activated stale duplicate accepted settled refused : Disposition

pub record Entry : Type 0 where
  pub record_seq : ℕ
  pub event_id : String
  pub payload : Payload
  pub disposition : Disposition

-- accepted_records
pub record Accepted : Type 0 where
  pub event_id : String
  pub ordinal : ℕ
  pub event : Event

-- LogState. `scoped_outcomes` is keyed by the epoch and then by the command, since the authority of
-- its keys is always the log's.
pub record LogState : Type 0 where
  pub authority_id : String
  pub state : State
  pub epoch_id : Option String
  pub activation_id : Option String
  pub activation_at : Option ℕ
  pub activation_event_id : Option String
  pub activation_attempts : Dict Activation
  pub used_epochs : Dict String
  pub scoped_outcomes : Dict (Dict Outcome)
  pub outcomes : Dict Outcome
  pub proposals : Dict String
  pub controls : Dict String
  pub raw_cursor : Option String
  pub raw_hash : Option String
  pub domain_head : Option String
  pub domain_ordinal : ℕ
  pub history : List Entry
  pub accepted_records : List Accepted
  pub raw_ids : List String

-- new_state
abbrev pub new_state : String → State
new_state authority_id = record {
  authority_id = authority_id;
  tasks = [];
  edges = [];
  resources = [];
  configuration = none;
  last_event_at = none;
}

-- LogState(authority_id)
abbrev pub new_log : String → LogState
new_log authority_id = record {
  authority_id = authority_id;
  state = new_state authority_id;
  epoch_id = none;
  activation_id = none;
  activation_at = none;
  activation_event_id = none;
  activation_attempts = [];
  used_epochs = [];
  scoped_outcomes = [];
  outcomes = [];
  proposals = [];
  controls = [];
  raw_cursor = none;
  raw_hash = none;
  domain_head = none;
  domain_ordinal = 0;
  history = [];
  accepted_records = [];
  raw_ids = [];
}
