-- ===== src/Samples/Logs.antt =====
-- A log that activates an epoch, commits the creation of its authority, and settles a command.
use copilot_mempalace.Prelude.{
  ◌≡◌, String, true, false, none, some, [], ◌∷◌, refl, if◌then◌else◌, ◌==◌, string_eq,
}
use copilot_mempalace.Model.{ok, ◌>>=◌, require, or_fail, identifier, text, for_each, integer}
use copilot_mempalace.Prelude.Dict.{get, has, put}
use copilot_mempalace.Prelude.Text.{
  byte_count, char_count, is_blank, is_canonical_uuid, is_digest, is_routing_value,
}
use copilot_mempalace.Prelude.Sort.{sort}
use copilot_mempalace.Domain.Execute.{execute}
use copilot_mempalace.Domain.Checks.{configuration, normalized_profiles, policy}
use copilot_mempalace.Domain.Types.{operator}
use copilot_mempalace.Domain.Records.{Configuration, default_policy}
use copilot_mempalace.Domain.Execute.{Command, authority_create, authority_created, of_authority}
use copilot_mempalace.Domain.Decide.{Event, decide}
use copilot_mempalace.Samples.States.{fixed_uuid}
use copilot_mempalace.Protocol.Records.{
  Codec, abandoned, activated, settled, refused, EpochPayload, LogState, Outcome, Proposal, Raw,
  epoch, new_log, new_state, proposal, settlement,
}
use copilot_mempalace.Protocol.Payloads.{
  as_violation, validate_payload, task_ids_check, affected, control_id_for, normalize_command,
  proposal_check, settlement_check, seal, make_proposal, proposed, settling, decode_raw,
}
use copilot_mempalace.Protocol.Fold.{
  abandon, activate, advance_raw, attempted, fold_all, fold_record, historical_outcome, scoped_in,
  settle_outcome, with_control, with_proposal, abandoned_outcome,
}
use copilot_mempalace.Protocol.Chain.{IsChained, fold_all-IsChained}
use copilot_mempalace.Protocol.Permanence.{fold_all-historical_outcome}
use copilot_mempalace.Protocol.Commit.{Steps, Unmoved, fold_record-Steps}
use copilot_mempalace.Protocol.Proposals.{committed_log, fold_record-make_proposal}
use copilot_mempalace.Protocol.Settling.{fold_record-Unmoved}
use copilot_mempalace.Domain.Decide.{stamp, event_of, changes_of, changed_tasks, changed_resources}

abbrev authority : String
authority = "00000000-0000-4000-8000-0000000000f1"

abbrev first_epoch : String
first_epoch = "00000000-0000-4000-8000-0000000000f2"

abbrev activation : String
activation = "00000000-0000-4000-8000-0000000000f3"

abbrev command_id : String
command_id = "00000000-0000-4000-8000-0000000000f4"

abbrev digest : String
digest = "0123456789abcdef0123456789abcdef0123456789abcdef0123456789abcdef"

-- One digest for all values, and the text of a payload is its type.
abbrev plain_codec : Codec
plain_codec = record {
  uuid5 = fixed_uuid;
  event_text = λ event. "";
  payload_text = λ payload. "";
  metadata_text = λ metadata. "";
  command_digest = λ command. digest;
  payload_digest = λ payload. digest;
  raw_digest = λ before raw. digest;
  loads = λ body. none;
}

abbrev creation : Command
creation = record {
  operation = authority_create (record {
    execution_profiles = [];
    actors = ("root", operator) ∷ [];
    supervisors = [];
    policy = none;
  });
  prefixes = 0;
  command_id = command_id;
  actor = "root";
}

abbrev activating : EpochPayload
activating = record {
  authority_id = authority;
  epoch_id = first_epoch;
  activation_id = activation;
  previous_activation_id = none;
  at = 1000;
  payload_hash = digest;
}

abbrev created_configuration : Configuration
created_configuration = record {
  execution_profiles = [];
  actors = ("root", operator) ∷ [];
  supervisors = [];
  policy = default_policy;
}

abbrev created : Event
created = record {
  authority_id = authority;
  kind = authority_created;
  command = creation;
  at = 2000;
  tasks = [];
  edges_added = [];
  edges_removed = [];
  resources = [];
  configuration = some created_configuration;
  changes = record {
    task_versions = [];
    lease_revisions = [];
    resource_counters = [];
    resource_reservations = [];
  };
  response = of_authority authority;
}

abbrev first_proposal : Proposal
first_proposal = record {
  authority_id = authority;
  epoch_id = first_epoch;
  command_id = command_id;
  command_hash = digest;
  task_ids = [];
  ordinal = 1;
  previous_event_id = none;
  event = created;
  payload_hash = digest;
}

abbrev codec : Codec
codec = record plain_codec {
  loads = λ body.
      if body == "epoch"
      then some (epoch activating)
      else if body == "command"
      then some (proposal first_proposal)
      else some (settlement (settling plain_codec first_proposal));
}

abbrev raw_of : String → String → String → String → Raw
raw_of id record_type identity body = record {
  id = id;
  stream = "mptask/00000000-0000-4000-8000-0000000000f1";
  room = "tasks";
  record_type = record_type;
  from_agent = "mempalace-tasks";
  correlation_id = identity;
  created_at = "2026-01-01";
  body = body;
  body_truncated = false;
  metadata = record {
    authority_id = some authority;
    identity = some identity;
    epoch_id = some first_epoch;
  };
}

abbrev epoch_raw : Raw
epoch_raw = raw_of "r1" "mptask.epoch" activation "epoch"

abbrev command_raw : Raw
command_raw = raw_of "r2" "mptask.command" command_id "command"

abbrev settle_raw : Raw
settle_raw = raw_of "r3" "mptask.settle" command_id "settle"

abbrev opened_log : LogState
opened_log =
    advance_raw codec
      (activate codec (attempted codec (new_log authority) epoch_raw activating true) epoch_raw
        activating)
      epoch_raw (epoch activating) activated

epoch-ok : fold_all codec (new_log authority) (epoch_raw ∷ []) ≡ ok opened_log
unfolding fold_all fold_record decode_raw ◌>>=◌ as_violation require is_routing_value byte_count
    or_fail validate_payload identifier text is_blank char_count is_canonical_uuid is_digest get has
epoch-ok = refl

created-ok : decide fixed_uuid (λ event. "") (new_state authority) creation 2000 ≡ ok created
unfolding decide ◌>>=◌ text require is_blank char_count identifier is_canonical_uuid execute
    configuration for_each get normalized_profiles policy integer stamp byte_count event_of
    changes_of changed_tasks changed_resources sort
created-ok = refl

made-ok : make_proposal codec opened_log creation 2000 ≡ ok (proposal first_proposal)
unfolding make_proposal proposed seal normalize_command as_violation validate_payload or_fail
    is_digest proposal_check task_ids_check affected decide ◌>>=◌ text require is_blank char_count
    identifier is_canonical_uuid execute configuration for_each get normalized_profiles policy
    integer stamp byte_count event_of changes_of changed_tasks changed_resources sort advance_raw
    activate attempted
made-ok = refl

decoded-ok : decode_raw codec opened_log command_raw ≡ ok (proposal first_proposal)
unfolding decode_raw ◌>>=◌ as_violation require is_routing_value byte_count or_fail validate_payload
    identifier text is_blank char_count is_canonical_uuid is_digest normalize_command proposal_check
    task_ids_check affected sort advance_raw activate attempted
decoded-ok = refl

-- The log that settles the command before its proposal comes.
abbrev settled_log : LogState
settled_log =
    advance_raw codec
      (with_control codec (abandon codec opened_log settle_raw (settling codec first_proposal) none)
        (settling codec first_proposal))
      settle_raw (settlement (settling codec first_proposal)) settled

settled-ok : fold_all codec (new_log authority) (epoch_raw ∷ settle_raw ∷ []) ≡ ok settled_log
unfolding fold_all fold_record decode_raw ◌>>=◌ as_violation require is_routing_value byte_count
    or_fail validate_payload identifier text is_blank char_count is_canonical_uuid is_digest get has
    settling advance_raw activate attempted settlement_check task_ids_check control_id_for
settled-ok = refl

abbrev refused_log : LogState
refused_log =
    advance_raw codec (with_proposal codec settled_log first_proposal) command_raw
      (proposal first_proposal) refused

late-ok : decode_raw codec settled_log command_raw ≡ ok (proposal first_proposal)
unfolding decode_raw ◌>>=◌ as_violation require is_routing_value byte_count or_fail validate_payload
    identifier text is_blank char_count is_canonical_uuid is_digest normalize_command proposal_check
    task_ids_check affected sort advance_raw with_control abandon settle_outcome activate attempted
late-ok = refl

refused-ok : fold_record codec settled_log command_raw ≡ ok refused_log
unfolding fold_record decode_raw ◌>>=◌ as_violation require is_routing_value byte_count or_fail
    validate_payload identifier text is_blank char_count is_canonical_uuid is_digest
    normalize_command proposal_check task_ids_check affected sort advance_raw with_control abandon
    settle_outcome settling get activate attempted put
refused-ok = refl

unsettled-ok : get command_id opened_log.outcomes ≡ none
unfolding get advance_raw activate attempted
unsettled-ok = refl

new-ok : get command_id opened_log.proposals ≡ none
unfolding get advance_raw activate attempted
new-ok = refl

fold_record-make_proposal_example :
    fold_record codec opened_log command_raw
    ≡ ok (committed_log codec opened_log command_raw first_proposal)
fold_record-make_proposal_example =
    fold_record-make_proposal codec opened_log command_raw first_proposal creation 2000 made-ok
      decoded-ok unsettled-ok new-ok

commit-ok :
    fold_all codec opened_log (command_raw ∷ [])
    ≡ ok (committed_log codec opened_log command_raw first_proposal)
unfolding fold_all ◌>>=◌
commit-ok = rw fold_record-make_proposal_example refl

fold_record-Steps_example :
    Steps codec opened_log command_raw (committed_log codec opened_log command_raw first_proposal)
fold_record-Steps_example =
    fold_record-Steps codec opened_log command_raw
      (committed_log codec opened_log command_raw first_proposal) fold_record-make_proposal_example

first_record-ok : fold_record codec (new_log authority) epoch_raw ≡ ok opened_log
unfolding fold_record decode_raw ◌>>=◌ as_violation require is_routing_value byte_count or_fail
    validate_payload identifier text is_blank char_count is_canonical_uuid is_digest get has
first_record-ok = refl

both-ok :
    fold_all codec (new_log authority) (epoch_raw ∷ command_raw ∷ [])
    ≡ ok (committed_log codec opened_log command_raw first_proposal)
unfolding fold_all ◌>>=◌
both-ok = rw (first_record-ok, fold_record-make_proposal_example) refl

fold_all-IsChained_example :
    IsChained codec (committed_log codec opened_log command_raw first_proposal)
fold_all-IsChained_example =
    fold_all-IsChained codec authority (epoch_raw ∷ command_raw ∷ [])
      (committed_log codec opened_log command_raw first_proposal) both-ok

abbrev abandoned_first : Outcome
abandoned_first = abandoned_outcome codec opened_log settle_raw (settling codec first_proposal)

known-ok : scoped_in first_epoch command_id settled_log.scoped_outcomes ≡ some abandoned_first
unfolding get put advance_raw with_control abandon settle_outcome settling activate attempted
    abandoned_outcome
known-ok = refl

abandoned-ok : abandoned_first.verdict ≡ abandoned
unfolding abandoned_outcome
abandoned-ok = refl

stay-ok : fold_all codec settled_log [] ≡ ok settled_log
unfolding fold_all
stay-ok = refl

fold_record-Unmoved_example : Unmoved settled_log refused_log
fold_record-Unmoved_example =
    fold_record-Unmoved codec authority (epoch_raw ∷ settle_raw ∷ []) settled_log [] settled_log
      command_raw refused_log first_proposal abandoned_first settled-ok known-ok abandoned-ok
      stay-ok late-ok refused-ok

historical-ok : historical_outcome settled_log first_epoch command_id ≡ ok (some abandoned_first)
unfolding historical_outcome ◌>>=◌ identifier text require is_blank char_count is_canonical_uuid get
    put advance_raw with_control abandon settle_outcome settling activate attempted
    abandoned_outcome
historical-ok = refl

late_all-ok : fold_all codec settled_log (command_raw ∷ []) ≡ ok refused_log
unfolding fold_all ◌>>=◌
late_all-ok = rw refused-ok refl

fold_all-historical_outcome_example :
    historical_outcome refused_log first_epoch command_id ≡ ok (some abandoned_first)
fold_all-historical_outcome_example =
    fold_all-historical_outcome codec authority (epoch_raw ∷ settle_raw ∷ []) settled_log
      (command_raw ∷ []) refused_log first_epoch command_id abandoned_first settled-ok late_all-ok
      historical-ok
