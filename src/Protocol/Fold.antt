-- ===== src/Protocol/Fold.antt =====
-- fold_record of sidecar/src/mempalace_tasks/protocol.py: what one raw record does to the log. The
-- log is changed only once the whole record is validated, so an error carries no log.
use copilot_mempalace.Prelude.{
  ◌+◌, String, Bool, true, false, not, ◌&&◌, Option, none, some, List, [], ◌∷◌, ◌++◌, ◌==◌, length,
  add, string_eq, nat_eq, option_eq, list_eq, if◌then◌else◌,
}
use copilot_mempalace.Prelude.Dict.{Dict}
use copilot_mempalace.Prelude.Dict
use copilot_mempalace.Model.{Result, ok, ◌>>=◌, ◌>>◌, or_fail, identifier, key_error}
use copilot_mempalace.Domain.Checks.{get_or}
use copilot_mempalace.Domain.Records.{State}
use copilot_mempalace.Domain.Decide.{apply_event}
use copilot_mempalace.Protocol.Records.{
  Activation, Codec, Disposition, EpochPayload, LogState, Outcome, Payload, Proposal, Raw,
  Settlement, abandoned, accepted, activated, committed, duplicate, epoch, proposal, refused,
  settled, settlement, stale,
}
use copilot_mempalace.Protocol.Payloads.{as_violation, decode_raw, demand}

abbrev pub scoped_in : String → String → Dict (Dict Outcome) → Option Outcome
scoped_in epoch_id command_id scopes = Dict.get command_id (get_or (Dict.get epoch_id scopes) [])

-- LogState.historical_outcome: scoped_outcomes.get((authority_id, epoch_id, command_id))
unfoldable pub historical_outcome : LogState → String → String → Result (Option Outcome)
historical_outcome log epoch_id command_id = do
  identifier epoch_id
  identifier command_id
  ok (scoped_in epoch_id command_id log.scoped_outcomes)

-- log.outcomes[command_id] = outcome, and the same under its epoch
unfoldable pub settle_outcome : LogState → String → Outcome → LogState
settle_outcome log epoch_id o = record log {
  outcomes = Dict.put o.command_id o log.outcomes;
  scoped_outcomes =
      Dict.put epoch_id
        (Dict.put o.command_id o (get_or (Dict.get epoch_id log.scoped_outcomes) []))
        log.scoped_outcomes;
}

abbrev pub is_abandoned : Option Outcome → Bool
is_abandoned none = false
is_abandoned (some o) = elim o.verdict [ committed ↦ false | abandoned ↦ true ]

-- (command_hash, proposal_hash, task_ids) of a known outcome are those of the payload.
abbrev pub same_command : Option Outcome → String → String → List String → Bool
same_command none command_hash proposal_hash task_ids = true
same_command (some o) command_hash proposal_hash task_ids =
    o.command_hash == command_hash && o.proposal_hash == proposal_hash && o.task_ids == task_ids

-- setdefault
abbrev pub put_new {ℓ} : {V : Type ℓ} → String → V → Dict V → Dict V
put_new key v d = if Dict.has key d then d else Dict.put key v d

module _ (codec : Codec) where
  -- _advance_raw
  unfoldable pub advance_raw : LogState → Raw → Payload → Disposition → LogState
  advance_raw log raw payload disposition = record log {
    raw_ids = add raw.id log.raw_ids;
    raw_cursor = some raw.id;
    raw_hash = some (codec.raw_digest log.raw_hash raw);
    history =
        log.history
        ++ record {
          record_seq = length log.history + 1;
          event_id = raw.id;
          payload = payload;
          disposition = disposition;
        }
          ∷ [];
  }

  -- The log once an epoch is activated.
  unfoldable pub activate : LogState → Raw → EpochPayload → LogState
  activate log raw p = record log {
    epoch_id = some p.epoch_id;
    activation_id = some p.activation_id;
    activation_at = some p.at;
    activation_event_id = some raw.id;
    outcomes = [];
    proposals = [];
    controls = [];
  }

  -- The log that knows the attempt.
  unfoldable pub attempted : LogState → Raw → EpochPayload → Bool → LogState
  attempted log raw p is_accepted = record log {
    activation_attempts =
        Dict.put p.activation_id (record { accepted = is_accepted; event_id = raw.id; payload = p })
          log.activation_attempts;
    used_epochs = put_new p.epoch_id p.activation_id log.used_epochs;
  }

  -- payload["previous_activation_id"] == log.activation_id and epoch_id not in log.used_epochs
  abbrev pub follows : LogState → EpochPayload → Bool
  follows log p =
      p.previous_activation_id == log.activation_id && not (Dict.has p.epoch_id log.used_epochs)

  unfoldable pub fold_attempt : LogState → Raw → EpochPayload → Option Activation → Result LogState
  unfolding advance_raw activate attempted
  fold_attempt log raw p (some known) = do
    demand (codec.payload_text (epoch known.payload) == codec.payload_text (epoch p))
    ok (advance_raw log raw (epoch p) duplicate)
  fold_attempt log raw p none =
      if follows log p
      then ok (advance_raw (activate (attempted log raw p true) raw p) raw (epoch p) activated)
      else ok (advance_raw (attempted log raw p false) raw (epoch p) stale)

  -- _fold_epoch
  unfoldable pub fold_epoch : LogState → Raw → EpochPayload → Result LogState
  unfolding fold_attempt
  fold_epoch log raw p = fold_attempt log raw p (Dict.get p.activation_id log.activation_attempts)

  unfoldable pub committed_outcome : LogState → Raw → Proposal → Outcome
  committed_outcome log raw p = record {
    verdict = committed;
    command_id = p.command_id;
    command_hash = p.command_hash;
    proposal_hash = p.payload_hash;
    task_ids = p.task_ids;
    event_id = raw.id;
    ordinal = some p.ordinal;
    response = some p.event.response;
    command = some p.event.command;
    authority_id = log.authority_id;
    epoch_id = p.epoch_id;
  }

  unfoldable pub abandoned_outcome : LogState → Raw → Settlement → Outcome
  abandoned_outcome log raw p = record {
    verdict = abandoned;
    command_id = p.command_id;
    command_hash = p.command_hash;
    proposal_hash = p.proposal_hash;
    task_ids = p.task_ids;
    event_id = raw.id;
    ordinal = none;
    response = none;
    command = none;
    authority_id = log.authority_id;
    epoch_id = p.epoch_id;
  }

  -- log.proposals[command_id] = encoded
  unfoldable pub with_proposal : LogState → Proposal → LogState
  with_proposal log p = record log {
    proposals = Dict.put p.command_id (codec.payload_text (proposal p)) log.proposals;
  }

  -- The log once a proposal's event is applied.
  unfoldable pub commit : LogState → Raw → Proposal → State → LogState
  unfolding settle_outcome with_proposal committed_outcome
  commit log raw p state =
      record (with_proposal (settle_outcome log p.epoch_id (committed_outcome log raw p)) p) {
        state = state;
        domain_head = some raw.id;
        domain_ordinal = p.ordinal;
        accepted_records =
            log.accepted_records
            ++ record { event_id = raw.id; ordinal = p.ordinal; event = p.event } ∷ [];
      }

  -- disposition == "accepted": the next record of the chain, whose event is decided once more
  unfoldable pub accept_proposal : LogState → Raw → Proposal → Result LogState
  unfolding commit advance_raw
  accept_proposal log raw p = do
    demand (p.ordinal == log.domain_ordinal + 1 && p.previous_event_id == log.domain_head)
    state ← as_violation (apply_event codec.uuid5 codec.event_text log.state p.event)
    ok (advance_raw (commit log raw p state) raw (proposal p) accepted)

  -- The branches of a proposal, by the previous proposal of its command. The outcome of a duplicate
  -- is read from the known one.
  unfoldable pub fold_new :
      LogState → Raw → Proposal → Option Outcome → Option String → Result LogState
  unfolding accept_proposal advance_raw with_proposal
  fold_new log raw p known (some previous) = do
    demand (previous == codec.payload_text (proposal p))
    or_fail known key_error
    ok (advance_raw (with_proposal log p) raw (proposal p) duplicate)
  fold_new log raw p known none =
      if is_abandoned known
      then ok (advance_raw (with_proposal log p) raw (proposal p) refused)
      else accept_proposal log raw p

  unfoldable pub fold_proposal : LogState → Raw → Proposal → Result LogState
  unfolding fold_new
  fold_proposal log raw p = do
    let known = Dict.get p.command_id log.outcomes
    demand (same_command known p.command_hash p.payload_hash p.task_ids)
    fold_new log raw p known (Dict.get p.command_id log.proposals)

  unfoldable pub with_control : LogState → Settlement → LogState
  with_control log p = record log {
    controls = Dict.put p.control_id (codec.payload_text (settlement p)) log.controls;
  }

  -- A settlement abandons a command that has no outcome yet.
  unfoldable pub abandon : LogState → Raw → Settlement → Option Outcome → LogState
  unfolding settle_outcome abandoned_outcome
  abandon log raw p none = settle_outcome log p.epoch_id (abandoned_outcome log raw p)
  abandon log raw p (some o) = log

  unfoldable pub fold_control :
      LogState → Raw → Settlement → Option Outcome → Option String → Result LogState
  unfolding abandon advance_raw with_control
  fold_control log raw p known (some previous) = do
    demand (previous == codec.payload_text (settlement p))
    or_fail known key_error
    ok (advance_raw (with_control log p) raw (settlement p) duplicate)
  fold_control log raw p known none =
      ok (advance_raw (with_control (abandon log raw p known) p) raw (settlement p) settled)

  unfoldable pub fold_settlement : LogState → Raw → Settlement → Result LogState
  unfolding fold_control
  fold_settlement log raw p = do
    let known = Dict.get p.command_id log.outcomes
    demand (same_command known p.command_hash p.proposal_hash p.task_ids)
    fold_control log raw p known (Dict.get p.control_id log.controls)

  -- A record of another epoch is history only.
  unfoldable pub fold_payload : LogState → Raw → Payload → Result LogState
  unfolding fold_epoch fold_proposal fold_settlement advance_raw
  fold_payload log raw (epoch p) = fold_epoch log raw p
  fold_payload log raw (proposal p) =
      if some p.epoch_id == log.epoch_id
      then fold_proposal log raw p
      else ok (advance_raw log raw (proposal p) stale)
  fold_payload log raw (settlement p) =
      if some p.epoch_id == log.epoch_id
      then fold_settlement log raw p
      else ok (advance_raw log raw (settlement p) stale)

  -- fold_record
  unfoldable pub fold_record : LogState → Raw → Result LogState
  unfolding fold_payload
  fold_record log raw = do payload ← decode_raw codec log raw; fold_payload log raw payload

  -- The records of a stream, in order.
  unfoldable pub fold_all : LogState → List Raw → Result LogState
  unfolding fold_record
  fold_all log [] = ok log
  fold_all log (raw ∷ rest) = do log' ← fold_record log raw; fold_all log' rest
