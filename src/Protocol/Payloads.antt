-- ===== src/Protocol/Payloads.antt =====
-- The validation of payloads and of raw records, and the payloads that an authority makes
-- (sidecar/src/mempalace_tasks/protocol.py).
use copilot_mempalace.Prelude.{
  ℕ, ◌+◌, ◌*◌, String, Bool, true, not, ◌&&◌, Option, none, some, List, leb, ◌==◌, all, map,
  contains, distinct, string_eq, nat_eq, option_eq, list_eq,
}
use copilot_mempalace.Prelude.Sort.{sort}
use copilot_mempalace.Prelude.Text.{byte_count, has_uuid, is_digest, is_routing_value, text_le}
use Prim.Native.String.{◌++◌}
use copilot_mempalace.Model.{
  Result, ok, err, ◌>>=◌, ◌>>◌, require, or_fail, identifier, invariant_violation,
  payload_too_large, max_instant, validation_error,
}
use copilot_mempalace.Domain.Records.{Task}
use copilot_mempalace.Domain.Execute.{Command, unprefixed}
use copilot_mempalace.Domain.Inputs.{in_order}
use copilot_mempalace.Domain.Decide.{Event, decide}
use copilot_mempalace.Protocol.Records.{
  Codec, EpochPayload, LogState, Payload, Proposal, Raw, Settlement, epoch, proposal, settlement,
}

-- except DomainError as error: raise ProtocolError("invariant_violation", ...)
unfoldable pub as_violation {ℓ} : {A : Type ℓ} → Result A → Result A
as_violation (ok a) = ok a
as_violation (err e) = err invariant_violation

-- _require
abbrev pub demand : Bool → Result (Unit {0})
demand test = require test invariant_violation

abbrev pub max_payload_bytes : ℕ
max_payload_bytes = 240 * 1024

-- normalize_command
unfoldable pub normalize_command : Command → Result Command
normalize_command command = do
  require (leb command.prefixes 1) validation_error
  identifier command.command_id
  ok (unprefixed command)

abbrev pub authority_of : Payload → String
authority_of (epoch p) = p.authority_id
authority_of (proposal p) = p.authority_id
authority_of (settlement p) = p.authority_id

abbrev pub epoch_of : Payload → String
epoch_of (epoch p) = p.epoch_id
epoch_of (proposal p) = p.epoch_id
epoch_of (settlement p) = p.epoch_id

abbrev pub hash_of : Payload → String
hash_of (epoch p) = p.payload_hash
hash_of (proposal p) = p.payload_hash
hash_of (settlement p) = p.payload_hash

-- payload["activation_id"] or payload["command_id"]
abbrev pub identity_of : Payload → String
identity_of (epoch p) = p.activation_id
identity_of (proposal p) = p.command_id
identity_of (settlement p) = p.command_id

abbrev pub type_of : Payload → String
type_of (epoch p) = "mptask.epoch"
type_of (proposal p) = "mptask.command"
type_of (settlement p) = "mptask.settle"

-- The payload without its hash, which is what payload_hash hashes.
abbrev pub unsealed : Payload → Payload
unsealed (epoch p) = epoch (record p { payload_hash = "" })
unsealed (proposal p) = proposal (record p { payload_hash = "" })
unsealed (settlement p) = settlement (record p { payload_hash = "" })

abbrev pub task_id_of : Task → String
task_id_of t = t.id

-- sorted(task["id"] for task in event["tasks"])
unfoldable pub affected : Event → List String
affected event = sort text_le (map task_id_of event.tasks)

unfoldable optional_identifier : Option String → Result (Unit {0})
optional_identifier none = ok tt
optional_identifier (some id) = identifier id

abbrev is_predecessor : Option String → Bool
is_predecessor none = true
is_predecessor (some id) = is_routing_value id

-- task_ids of a proposal or a settlement
unfoldable pub task_ids_check : List String → Result (Unit {0})
task_ids_check ids = do
  demand (distinct ids && in_order ids)
  demand (all (λ id. has_uuid "tsk_" id) ids)

module _ (codec : Codec) where
  -- payload_hash of codec.py
  abbrev pub payload_hash : Payload → String
  payload_hash p = codec.payload_digest (unsealed p)

  -- _control_id
  unfoldable pub control_id_for : String → String → String → String → String
  control_id_for authority_id command_id proposal_hash epoch_id =
      codec.uuid5 authority_id
        ("mptask.settle:" ++ (epoch_id ++ (":" ++ (command_id ++ (":" ++ proposal_hash)))))

  unfoldable epoch_check : EpochPayload → Result (Unit {0})
  unfolding optional_identifier
  epoch_check p = do
    identifier p.activation_id
    optional_identifier p.previous_activation_id
    demand (leb p.at max_instant)

  -- The checks of a proposal's event. Its fields have their types; its response holds no other
  -- snapshots of its tasks.
  unfoldable pub proposal_check : Proposal → String → Result (Unit {0})
  proposal_check p authority_id = do
    identifier p.command_id
    demand (is_digest p.command_hash)
    task_ids_check p.task_ids
    demand (leb 1 p.ordinal)
    demand (is_predecessor p.previous_event_id)
    demand (p.event.authority_id == authority_id)
    demand (leb p.event.at max_instant)
    normalized ← normalize_command p.event.command
    demand (p.event.command.prefixes == 0)
    demand (normalized.command_id == p.command_id)
    demand (codec.command_digest normalized == p.command_hash)
    demand (affected p.event == p.task_ids)

  unfoldable pub settlement_check : Settlement → String → Result (Unit {0})
  settlement_check p authority_id = do
    identifier p.command_id
    demand (is_digest p.command_hash)
    task_ids_check p.task_ids
    demand (is_digest p.proposal_hash)
    identifier p.control_id
    demand (p.control_id == control_id_for authority_id p.command_id p.proposal_hash p.epoch_id)

  unfoldable by_type_check : Payload → String → Result (Unit {0})
  unfolding epoch_check
  by_type_check (epoch p) authority_id = epoch_check p
  by_type_check (proposal p) authority_id = proposal_check p authority_id
  by_type_check (settlement p) authority_id = settlement_check p authority_id

  unfoldable payload_check : Payload → String → Result (Unit {0})
  unfolding by_type_check
  payload_check p authority_id = do
    identifier (authority_of p)
    demand (authority_of p == authority_id)
    identifier (epoch_of p)
    demand (is_digest (hash_of p))
    demand (payload_hash p == hash_of p)
    demand (leb (byte_count (codec.payload_text p)) max_payload_bytes)
    by_type_check p authority_id

  -- _validate_payload
  unfoldable pub validate_payload : Payload → String → Result (Unit {0})
  unfolding payload_check
  validate_payload p authority_id = as_violation (payload_check p authority_id)

  -- _seal, once the payload has its hash
  unfoldable pub seal : Payload → Result Payload
  seal p = do
    require (leb (byte_count (codec.payload_text p)) max_payload_bytes) payload_too_large
    validate_payload p (authority_of p)
    ok p

  -- make_epoch
  unfoldable pub make_epoch : LogState → String → String → ℕ → Result Payload
  make_epoch log epoch_id activation_id now =
      let p : EpochPayload = record {
        authority_id = log.authority_id;
        epoch_id = epoch_id;
        activation_id = activation_id;
        previous_activation_id = log.activation_id;
        at = now;
        payload_hash = "";
      } in
      seal (epoch (record p { payload_hash = payload_hash (epoch p) }))

  -- The proposal of an event that is decided, in the log's epoch.
  unfoldable pub proposed : LogState → String → Command → Event → Proposal
  proposed log epoch_id command event =
      let p : Proposal = record {
        authority_id = log.authority_id;
        epoch_id = epoch_id;
        command_id = command.command_id;
        command_hash = codec.command_digest command;
        task_ids = affected event;
        ordinal = log.domain_ordinal + 1;
        previous_event_id = log.domain_head;
        event = event;
        payload_hash = "";
      } in
      record p { payload_hash = payload_hash (proposal p) }

  -- make_proposal
  unfoldable pub make_proposal : LogState → Command → ℕ → Result Payload
  make_proposal log command now = do
    epoch_id ← or_fail log.epoch_id invariant_violation
    normalized ← normalize_command command
    event ← decide codec.uuid5 codec.event_text log.state normalized now
    seal (proposal (proposed log epoch_id normalized event))

  unfoldable pub settling : Proposal → Settlement
  settling p =
      let s : Settlement = record {
        authority_id = p.authority_id;
        epoch_id = p.epoch_id;
        command_id = p.command_id;
        command_hash = p.command_hash;
        task_ids = p.task_ids;
        proposal_hash = p.payload_hash;
        control_id = control_id_for p.authority_id p.command_id p.payload_hash p.epoch_id;
        payload_hash = "";
      } in
      record s { payload_hash = payload_hash (settlement s) }

  -- make_settlement, of a proposal
  unfoldable pub make_settlement : Proposal → Result Payload
  make_settlement p = do
    validate_payload (proposal p) p.authority_id
    seal (settlement (settling p))

  unfoldable raw_check : LogState → Raw → Result Payload
  raw_check log raw = do
    demand (
        is_routing_value raw.id
        && is_routing_value raw.stream
        && is_routing_value raw.room
        && is_routing_value raw.record_type
        && is_routing_value raw.from_agent
        && is_routing_value raw.correlation_id
        && is_routing_value raw.created_at)
    demand (not (contains raw.id log.raw_ids))
    demand (
        raw.stream == "mptask/" ++ log.authority_id
        && raw.room == "tasks"
        && raw.from_agent == "mempalace-tasks")
    demand (not raw.body_truncated)
    demand (leb (byte_count raw.body) max_payload_bytes)
    payload ← or_fail (codec.loads raw.body) invariant_violation
    validate_payload payload log.authority_id
    demand (raw.record_type == type_of payload && raw.correlation_id == identity_of payload)
    demand (
        raw.metadata.authority_id == some log.authority_id
        && raw.metadata.identity == some (identity_of payload))
    demand (raw.metadata.epoch_id == some (epoch_of payload))
    demand (leb (byte_count (codec.metadata_text raw.metadata)) (64 * 1024))
    ok payload

  -- _decode_raw
  unfoldable pub decode_raw : LogState → Raw → Result Payload
  unfolding raw_check
  decode_raw log raw = as_violation (raw_check log raw)
