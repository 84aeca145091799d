-- ===== src/Protocol/Commit.antt =====
-- What a record does to the state of the log: a proposal is committed once, in the log's own epoch
-- and in its place of the chain; every other record leaves the state as it is.
use copilot_mempalace.Prelude.{
  ◌+◌, ◌≡◌, String, Bool, true, false, Option, none, some, refl, sym, ap, ◌∙◌, inl, inr, ◌⊎◌,
  eq_of_==, and_true, ◌==◌, string_eq, nat_eq, option_eq,
}
use copilot_mempalace.Prelude.Dict
use copilot_mempalace.Model.{Result, ok, err}
use copilot_mempalace.Model.Ensures.{
  Ensures, Ensures-bind, Ensures-ok, Ensures-require, Ensures-or_fail, Ensures-if,
}
use copilot_mempalace.Domain.Decide.{apply_event}
use copilot_mempalace.Protocol.Records.{
  Activation, Codec, Disposition, EpochPayload, LogState, Outcome, Payload, Proposal, Raw,
  Settlement, epoch, proposal, settlement,
}
use copilot_mempalace.Protocol.Payloads.{as_violation, decode_raw}
use copilot_mempalace.Protocol.Fold.{
  abandon, accept_proposal, activate, advance_raw, attempted, commit, fold_attempt, fold_control,
  fold_epoch, fold_new, fold_payload, fold_proposal, fold_record, fold_settlement, follows,
  is_abandoned, settle_outcome, with_control, with_proposal,
}

-- Nothing of the task state, of its history of accepted records or of its place in the chain changes.
pub record Unmoved (before after : LogState) : Type 0 where
  pub state : after.state ≡ before.state
  pub head : after.domain_head ≡ before.domain_head
  pub ordinal : after.domain_ordinal ≡ before.domain_ordinal
  pub records : after.accepted_records ≡ before.accepted_records

-- The proposal is the next one of the log's epoch, and its event led to the state after.
pub record Committed (codec : Codec) (before after : LogState) (raw : Raw) (p : Proposal)
    : Type 0 where
  pub decoded : decode_raw codec before raw ≡ ok (proposal p)
  pub current : before.epoch_id ≡ some p.epoch_id
  pub next : p.ordinal ≡ before.domain_ordinal + 1
  pub predecessor : p.previous_event_id ≡ before.domain_head
  pub unsettled : is_abandoned (Dict.get p.command_id before.outcomes) ≡ false
  pub new : Dict.get p.command_id before.proposals ≡ none
  pub applied : apply_event codec.uuid5 codec.event_text before.state p.event ≡ ok after.state
  pub ordinal : after.domain_ordinal ≡ p.ordinal
  pub head : after.domain_head ≡ some raw.id

abbrev pub Steps : Codec → LogState → Raw → LogState → Type 0
Steps codec before raw after =
    Unmoved before after ⊎ ((p : Proposal) × Committed codec before after raw p)

ok_of_as_violation {ℓ} : {A : Type ℓ} (r : Result A) (a : A) → as_violation r ≡ ok a → r ≡ ok a
unfolding as_violation
ok_of_as_violation (ok b) a e = e
ok_of_as_violation (err c) a e = cc

module _ (codec : Codec) (log : LogState) (raw : Raw) where
  unmoved : Unmoved log log
  unmoved = record { state = refl; head = refl; ordinal = refl; records = refl }

  advance-Unmoved :
      (log' : LogState) (p : Payload) (d : Disposition)
      → Unmoved log log'
      → Ensures (Steps codec log raw) (ok (advance_raw codec log' raw p d))
  unfolding advance_raw
  advance-Unmoved log' p d u =
      Ensures-ok _
        (inl (record { state = u.state; head = u.head; ordinal = u.ordinal; records = u.records }))

  with_proposal-Unmoved : (p : Proposal) → Unmoved log (with_proposal codec log p)
  unfolding with_proposal
  with_proposal-Unmoved p = record { state = refl; head = refl; ordinal = refl; records = refl }

  abandon-Unmoved :
      (p : Settlement) (known : Option Outcome)
      → Unmoved log (with_control codec (abandon codec log raw p known) p)
  unfolding abandon settle_outcome with_control
  abandon-Unmoved p none = record { state = refl; head = refl; ordinal = refl; records = refl }
  abandon-Unmoved p (some o) = record { state = refl; head = refl; ordinal = refl; records = refl }

  attempted-Unmoved :
      (p : EpochPayload) (is_accepted : Bool) → Unmoved log (attempted codec log raw p is_accepted)
  unfolding attempted
  attempted-Unmoved p is_accepted = record {
    state = refl;
    head = refl;
    ordinal = refl;
    records = refl;
  }

  activate-Unmoved :
      (p : EpochPayload) → Unmoved log (activate codec (attempted codec log raw p true) raw p)
  unfolding attempted activate
  activate-Unmoved p = record { state = refl; head = refl; ordinal = refl; records = refl }

  accept-Steps :
      (p : Proposal)
      → decode_raw codec log raw ≡ ok (proposal p)
      → log.epoch_id ≡ some p.epoch_id
      → is_abandoned (Dict.get p.command_id log.outcomes) ≡ false
      → Dict.get p.command_id log.proposals ≡ none
      → Ensures (Steps codec log raw) (accept_proposal codec log raw p)
  unfolding accept_proposal advance_raw commit with_proposal settle_outcome
  accept-Steps p decoded q unabandoned unknown = Ensures-require _ _ _ λ next.
      Ensures-bind _ _ λ state applied. Ensures-ok _ (
        inr (
          p,
          record {
            decoded = decoded;
            current = q;
            next = eq_of_== ((and_true next).0);
            predecessor = eq_of_== ((and_true next).1);
            unsettled = unabandoned;
            new = unknown;
            applied = ok_of_as_violation _ state applied;
            ordinal = refl;
            head = refl;
          },
        ))

  fold_new-Steps :
      (p : Proposal) (known : Option Outcome) (previous : Option String)
      → decode_raw codec log raw ≡ ok (proposal p)
      → log.epoch_id ≡ some p.epoch_id
      → Dict.get p.command_id log.outcomes ≡ known
      → Dict.get p.command_id log.proposals ≡ previous
      → Ensures (Steps codec log raw) (fold_new codec log raw p known previous)
  unfolding fold_new
  fold_new-Steps p known (some previous) d q e f =
      Ensures-require _ _ _
        λ _. Ensures-or_fail _ _ _ λ _ _. advance-Unmoved _ _ _ (with_proposal-Unmoved p)
  fold_new-Steps p known none d q e f =
      Ensures-if (is_abandoned known) _ _ (λ _. advance-Unmoved _ _ _ (with_proposal-Unmoved p))
        (λ t. accept-Steps p d q (ap is_abandoned e ∙ t) f)

  fold_control-Steps :
      (p : Settlement) (known : Option Outcome) (previous : Option String)
      → Ensures (Steps codec log raw) (fold_control codec log raw p known previous)
  unfolding fold_control with_control
  fold_control-Steps p known (some previous) = Ensures-require _ _ _ λ _.
      Ensures-or_fail _ _ _ λ _ _.
        advance-Unmoved (with_control codec log p) _ _
          (record { state = refl; head = refl; ordinal = refl; records = refl })
  fold_control-Steps p known none = advance-Unmoved _ _ _ (abandon-Unmoved p known)

  fold_attempt-Steps :
      (p : EpochPayload) (known : Option Activation)
      → Ensures (Steps codec log raw) (fold_attempt codec log raw p known)
  unfolding fold_attempt
  fold_attempt-Steps p (some known) = Ensures-require _ _ _ λ _. advance-Unmoved log _ _ unmoved
  fold_attempt-Steps p none =
      Ensures-if (follows codec log p) _ _ (λ _. advance-Unmoved _ _ _ (activate-Unmoved p))
        (λ _. advance-Unmoved _ _ _ (attempted-Unmoved p false))

  fold_payload-Steps :
      (p : Payload)
      → decode_raw codec log raw ≡ ok p
      → Ensures (Steps codec log raw) (fold_payload codec log raw p)
  unfolding fold_payload fold_epoch fold_proposal fold_settlement
  fold_payload-Steps (epoch p) d = fold_attempt-Steps p _
  fold_payload-Steps (proposal p) d =
      Ensures-if (some p.epoch_id == log.epoch_id) _ _
        (λ t. Ensures-require _ _ _ λ _. fold_new-Steps p _ _ d (sym (eq_of_== t)) refl refl)
        (λ _. advance-Unmoved log _ _ unmoved)
  fold_payload-Steps (settlement p) d =
      Ensures-if (some p.epoch_id == log.epoch_id) _ _
        (λ _. Ensures-require _ _ _ λ _. fold_control-Steps p _ _)
        (λ _. advance-Unmoved log _ _ unmoved)

-- A record that folds leaves the state, the accepted records and their head and ordinal as they
-- are, or is committed: a proposal of the log's own epoch, which is new, whose command was not
-- abandoned, whose ordinal is the next one and whose predecessor is the log's head; the state after
-- is that of applying its event, and the record is the new head.
pub fold_record-Steps :
    (codec : Codec) (log : LogState) (raw : Raw) (log' : LogState)
    → fold_record codec log raw ≡ ok log'
    → Steps codec log raw log'
unfolding fold_record
fold_record-Steps codec log raw = (Ensures-bind _ _ λ p d. fold_payload-Steps codec log raw p d).at
