-- ===== src/Protocol/Proposals.antt =====
-- A proposal that an authority makes for its log is committed by that log.
use copilot_mempalace.Prelude.{
  ℕ, ◌+◌, ◌≡◌, subst, true, none, some, refl, sym, ap, ◌∙◌, ==_of_eq, ◌==◌, string_eq, nat_eq,
  option_eq,
}
use copilot_mempalace.Prelude.Dict
use copilot_mempalace.Model.{ok, ◌>>=◌, require}
use copilot_mempalace.Model.Ensures.{
  Ensures, Ensures-bind, Ensures-ok, Ensures-require, Ensures-or_fail,
}
use copilot_mempalace.Domain.Execute.{Command}
use copilot_mempalace.Domain.Decide.{updated, apply_event}
use copilot_mempalace.Domain.Replay.{apply_event-decide}
use copilot_mempalace.Protocol.Records.{
  Codec, LogState, Payload, Proposal, Raw, accepted, epoch, proposal, settlement,
}
use copilot_mempalace.Protocol.Payloads.{as_violation, decode_raw, make_proposal, proposed, seal}
use copilot_mempalace.Protocol.Fold.{
  accept_proposal, advance_raw, commit, fold_new, fold_payload, fold_proposal, fold_record,
}

module _ (codec : Codec) (log : LogState) where
  -- The log's epoch, place in the chain and state are those of the proposal.
  pub record Suits (payload : Payload) : Type 0 where
    pub proposal_of : Proposal
    pub is_proposal : payload ≡ proposal proposal_of
    pub current : log.epoch_id ≡ some proposal_of.epoch_id
    pub next : proposal_of.ordinal ≡ log.domain_ordinal + 1
    pub predecessor : proposal_of.previous_event_id ≡ log.domain_head
    pub applies :
        apply_event codec.uuid5 codec.event_text log.state proposal_of.event
        ≡ ok (updated log.state proposal_of.event)

  make_proposal-Suits :
      (command : Command) (now : ℕ) → Ensures Suits (make_proposal codec log command now)
  unfolding make_proposal proposed seal
  make_proposal-Suits command now = Ensures-or_fail _ _ _ λ epoch_id current.
      Ensures-bind _ _ λ normalized _. Ensures-bind _ _ λ event decided. Ensures-require _ _ _ λ _.
        Ensures-bind _ _ λ _ _. Ensures-ok _ (record {
          proposal_of = proposed codec log epoch_id normalized event;
          is_proposal = refl;
          current = current;
          next = refl;
          predecessor = refl;
          applies =
              apply_event-decide codec.uuid5 codec.event_text log.state normalized now event
                decided;
        })

module _ (codec : Codec) (log : LogState) (raw : Raw) (p : Proposal) where
  -- The log after the proposal.
  abbrev pub committed_log : LogState
  committed_log =
      advance_raw codec (commit codec log raw p (updated log.state p.event)) raw (proposal p)
        accepted

  accept_proposal-commit :
      p.ordinal ≡ log.domain_ordinal + 1
      → p.previous_event_id ≡ log.domain_head
      → apply_event codec.uuid5 codec.event_text log.state p.event ≡ ok (updated log.state p.event)
      → accept_proposal codec log raw p ≡ ok committed_log
  unfolding accept_proposal ◌>>=◌ require as_violation
  accept_proposal-commit next predecessor applies =
      let n : (p.ordinal == log.domain_ordinal + 1) ≡ true = ==_of_eq next in
      let h : (p.previous_event_id == log.domain_head) ≡ true = ==_of_eq predecessor in
      rw (n, h, applies) refl

  fold_proposal-commit :
      Dict.get p.command_id log.outcomes ≡ none
      → Dict.get p.command_id log.proposals ≡ none
      → accept_proposal codec log raw p ≡ ok committed_log
      → fold_proposal codec log raw p ≡ ok committed_log
  unfolding fold_proposal fold_new ◌>>=◌ require
  fold_proposal-commit unsettled new e = rw (unsettled, new) e

  fold_record-commit :
      log.epoch_id ≡ some p.epoch_id
      → decode_raw codec log raw ≡ ok (proposal p)
      → fold_proposal codec log raw p ≡ ok committed_log
      → fold_record codec log raw ≡ ok committed_log
  unfolding fold_record fold_payload ◌>>=◌
  fold_record-commit current decoded e =
      let t : (some p.epoch_id == log.epoch_id) ≡ true = ==_of_eq (sym current) in rw (decoded, t) e

pub proposal-injective : {p q : Proposal} → proposal p ≡ proposal q → p ≡ q
proposal-injective {p} e = ap the_proposal e
  where
    the_proposal : Payload → Proposal
    the_proposal (epoch _) = p
    the_proposal (proposal q) = q
    the_proposal (settlement _) = p

-- A proposal that make_proposal makes for a log, once it is a record that the log decodes and its
-- command has no outcome and no proposal yet, is committed by fold_record: the state of the log is
-- updated by the proposal's event, and the record is accepted.
pub fold_record-make_proposal :
    (codec : Codec) (log : LogState) (raw : Raw) (p : Proposal) (command : Command) (now : ℕ)
    → make_proposal codec log command now ≡ ok (proposal p)
    → decode_raw codec log raw ≡ ok (proposal p)
    → Dict.get p.command_id log.outcomes ≡ none
    → Dict.get p.command_id log.proposals ≡ none
    → fold_record codec log raw ≡ ok (committed_log codec log raw p)
fold_record-make_proposal codec log raw p command now made decoded unsettled new =
    let s = (make_proposal-Suits codec log command now).at (proposal p) made in
    let same = proposal-injective s.is_proposal in
    commit_of s.proposal_of (sym same) s.current s.next s.predecessor s.applies
  where
    commit_of :
        (q : Proposal)
        → q ≡ p
        → log.epoch_id ≡ some q.epoch_id
        → q.ordinal ≡ log.domain_ordinal + 1
        → q.previous_event_id ≡ log.domain_head
        → apply_event codec.uuid5 codec.event_text log.state q.event
          ≡ ok (updated log.state q.event)
        → fold_record codec log raw ≡ ok (committed_log codec log raw p)
    commit_of q e current next predecessor applies =
        fold_record-commit codec log raw p (current ∙ ap (λ r. some r.epoch_id) e) decoded (
          fold_proposal-commit codec log raw p unsettled new (
            accept_proposal-commit codec log raw p (ap (λ r. r.ordinal) (sym e) ∙ next)
              (ap (λ r. r.previous_event_id) (sym e) ∙ predecessor)
              (subst
                (λ r.
                  apply_event codec.uuid5 codec.event_text log.state r.event
                  ≡ ok (updated log.state r.event))
                e applies)))
