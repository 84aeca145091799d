-- ===== src/Protocol/Settling.antt =====
-- A settled command stays abandoned: no later proposal of it is committed in that epoch.
use copilot_mempalace.Prelude.{
  ◌≡◌, subst, String, true, false, Option, none, some, List, sym, ap, ◌∙◌, inl, inr,
}
use copilot_mempalace.Prelude.Dict.{Dict}
use copilot_mempalace.Prelude.Dict
use copilot_mempalace.Model.{ok}
use copilot_mempalace.Model.Ensures.{ok-injective}
use copilot_mempalace.Protocol.Records.{
  Codec, LogState, Outcome, Proposal, Raw, abandoned, committed, new_log, proposal,
}
use copilot_mempalace.Protocol.Payloads.{decode_raw}
use copilot_mempalace.Protocol.Fold.{fold_all, fold_record, is_abandoned, scoped_in}
use copilot_mempalace.Protocol.Commit.{Unmoved, fold_record-Steps}
use copilot_mempalace.Protocol.Proposals.{proposal-injective}
use copilot_mempalace.Protocol.Outcomes.{IsCurrent, Remains}
use copilot_mempalace.Protocol.Permanence.{fold_all-Keeps, new_log-IsScoped}

current-abandoned :
    (epoch_id : Option String) (used : Dict String) (scopes : Dict (Dict Outcome))
    (outcomes : Dict Outcome) (e c : String) (o : Outcome)
    → IsCurrent epoch_id used scopes outcomes
    → epoch_id ≡ some e
    → scoped_in e c scopes ≡ some o
    → Dict.get c outcomes ≡ some o
current-abandoned none used scopes outcomes e c o k q h = absurd cc
current-abandoned (some d) used scopes outcomes e c o k q h =
    sym (k.1 c) ∙ subst (λ x. scoped_in x c scopes ≡ some o) (sym (some-injective q)) h
  where
    some-injective : {x y : String} → some x ≡ some y → x ≡ y
    some-injective {x} i = ap (or_first x) i
      where
        or_first : String → Option String → String
        or_first a none = a
        or_first a (some b) = b

still_known :
    (before later : Dict (Dict Outcome)) (e c : String) (o : Outcome)
    → Remains before later
    → scoped_in e c before ≡ some o
    → scoped_in e c later ≡ some o
still_known before later e c o r h = elim (r e c) [ inl i ↦ absurd (cc (h, i)) | inr i ↦ i ∙ h ]

-- Once a command is abandoned in an epoch, by a log that started empty, no proposal of it in that
-- epoch is committed after any further records: the record that brings it leaves the state, the
-- accepted records and their head and ordinal as they are.
pub fold_record-Unmoved :
    (codec : Codec) (authority_id : String) (before : List Raw) (log : LogState) (later : List Raw)
    (log' : LogState) (raw : Raw) (log'' : LogState) (p : Proposal) (o : Outcome)
    → fold_all codec (new_log authority_id) before ≡ ok log
    → scoped_in p.epoch_id p.command_id log.scoped_outcomes ≡ some o
    → o.verdict ≡ abandoned
    → fold_all codec log later ≡ ok log'
    → decode_raw codec log' raw ≡ ok (proposal p)
    → fold_record codec log' raw ≡ ok log''
    → Unmoved log' log''
fold_record-Unmoved codec a before log later log' raw log'' p o b known verdict l decoded folded =
    let s = (fold_all-Keeps codec (new_log a) before (new_log-IsScoped a)).at log b in
    let k = (fold_all-Keeps codec log later s.sound).at log' l in
    elim (fold_record-Steps codec log' raw log'' folded) [
      | inl u ↦ u
      | inr (q, t) ↦
          let same = proposal-injective (ok-injective (sym t.decoded ∙ decoded)) in
          let open_epoch = t.current ∙ ap (λ r. some r.epoch_id) same in
          let settled =
            current-abandoned log'.epoch_id log'.used_epochs log'.scoped_outcomes log'.outcomes
              p.epoch_id p.command_id o k.sound.current open_epoch
              (still_known log.scoped_outcomes log'.scoped_outcomes p.epoch_id p.command_id o
                k.remains known) in
          absurd (
            not_both o verdict (
              ap is_abandoned (sym settled)
              ∙ ap (λ r. is_abandoned (Dict.get r.command_id log'.outcomes)) (sym same)
              ∙ t.unsettled))
    ]
  where
    not_both : (o : Outcome) → o.verdict ≡ abandoned → ¬ (is_abandoned (some o) ≡ false)
    not_both o v h =
        absurd (cc (sym (ap (λ x. elim x [ committed ↦ false | abandoned ↦ true ]) v) ∙ h))
