-- ===== src/Protocol/Permanence.antt =====
-- Outcomes are permanent: each branch of fold_record keeps what the log knows.
use copilot_mempalace.Prelude.{
  ◌≡◌, subst, String, Bool, true, false, Option, none, some, List, [], ◌∷◌, refl, sym, ◌∙◌, inl,
  inr, ◌⊎◌, eq_of_==, ◌==◌, ◌&&◌, not, string_eq, nat_eq, option_eq,
}
use copilot_mempalace.Prelude.Dict.{Dict}
use copilot_mempalace.Prelude.Dict
use copilot_mempalace.Protocol.Records.{
  Activation, Codec, EpochPayload, LogState, Outcome, Payload, Proposal, Raw, Settlement, epoch,
  new_log, proposal, settlement, stale,
}
use copilot_mempalace.Protocol.Fold.{
  accept_proposal, advance_raw, fold_all, fold_attempt, fold_control, fold_epoch, fold_new,
  fold_payload, fold_proposal, fold_record, fold_settlement, follows, historical_outcome,
  is_abandoned, with_control,
}
use copilot_mempalace.Model.{Result, ok, err, ◌>>=◌, ◌>>◌, identifier}
use copilot_mempalace.Model.Ensures.{
  Ensures, Ensures-bind, Ensures-ok, Ensures-require, Ensures-or_fail, Ensures-if,
}
use copilot_mempalace.Protocol.Outcomes.{
  IsScoped, Keeps, Remains-refl, Remains-trans, activate-Keeps, abandon-Keeps, attempted-Keeps,
  commit-Keeps, is_committed, none_of_open, with_proposal-Keeps,
}

not_used : (a b : Bool) → (a && not b) ≡ true → b ≡ false
not_used true true h = absurd cc
not_used false true h = absurd cc
not_used a false h = refl

module _ (codec : Codec) (log : LogState) (raw : Raw) (s : IsScoped log) where
  accept-Keeps :
      (p : Proposal)
      → log.epoch_id ≡ some p.epoch_id
      → Dict.get p.command_id log.outcomes ≡ none
      → Ensures (Keeps log) (accept_proposal codec log raw p)
  unfolding accept_proposal advance_raw
  accept-Keeps p q unsettled = Ensures-require _ _ _ λ _. Ensures-bind _ _ λ state _.
      let k = commit-Keeps codec log raw s p state q unsettled in
      Ensures-ok _ (record { sound = k.sound; remains = k.remains })

  fold_new-Keeps :
      (p : Proposal) (known : Option Outcome) (previous : Option String)
      → log.epoch_id ≡ some p.epoch_id
      → Dict.get p.command_id log.outcomes ≡ known
      → Dict.get p.command_id log.proposals ≡ previous
      → Ensures (Keeps log) (fold_new codec log raw p known previous)
  unfolding fold_new advance_raw
  fold_new-Keeps p known (some previous) q e f = Ensures-require _ _ _ λ _.
      Ensures-or_fail _ _ _ λ _ _.
        let k = with_proposal-Keeps codec log raw s p in
        Ensures-ok _ (record { sound = k.sound; remains = k.remains })
  fold_new-Keeps p known none q e f =
      Ensures-if (is_abandoned known) _ _
        (λ _.
          let k = with_proposal-Keeps codec log raw s p in
          Ensures-ok _ (record { sound = k.sound; remains = k.remains }))
        (λ unabandoned.
          accept-Keeps p q
            (e ∙ none_of_open known unabandoned (uncommitted p.command_id known e f)))
    where
      uncommitted :
          (c : String) (known : Option Outcome)
          → Dict.get c log.outcomes ≡ known
          → Dict.get c log.proposals ≡ none
          → is_committed known ≡ false
      uncommitted c known e f = elim (s.proposed c) [
        | inl h ↦ absurd (cc (Dict.has_of_get c log.proposals f, h))
        | inr h ↦ subst (λ x. is_committed x ≡ false) e h
      ]

  fold_control-Keeps :
      (p : Settlement) (known : Option Outcome) (previous : Option String)
      → log.epoch_id ≡ some p.epoch_id
      → Dict.get p.command_id log.outcomes ≡ known
      → Ensures (Keeps log) (fold_control codec log raw p known previous)
  unfolding fold_control advance_raw with_control
  fold_control-Keeps p known (some previous) q e = Ensures-require _ _ _ λ _.
      Ensures-or_fail _ _ _
        λ _ _. Ensures-ok _ (record { sound = s; remains = Remains-refl log.scoped_outcomes })
  fold_control-Keeps p known none q e =
      let k = abandon-Keeps codec log raw s p known q e in
      Ensures-ok _ (record { sound = k.sound; remains = k.remains })

  fold_attempt-Keeps :
      (p : EpochPayload) (known : Option Activation)
      → Ensures (Keeps log) (fold_attempt codec log raw p known)
  unfolding fold_attempt advance_raw
  fold_attempt-Keeps p (some known) =
      Ensures-require _ _ _
        λ _. Ensures-ok _ (record { sound = s; remains = Remains-refl log.scoped_outcomes })
  fold_attempt-Keeps p none =
      Ensures-if (follows codec log p) _ _
        (λ t.
          let k = activate-Keeps codec log raw s p (not_used _ _ t) in
          Ensures-ok _ (record { sound = k.sound; remains = k.remains }))
        (λ _.
          let k = attempted-Keeps codec log raw s p false in
          Ensures-ok _ (record { sound = k.sound; remains = k.remains }))

  stale-Keeps : (p : Payload) → Ensures (Keeps log) (ok (advance_raw codec log raw p stale))
  unfolding advance_raw
  stale-Keeps p = Ensures-ok _ (record { sound = s; remains = Remains-refl log.scoped_outcomes })

  fold_payload-Keeps : (p : Payload) → Ensures (Keeps log) (fold_payload codec log raw p)
  unfolding fold_payload fold_epoch fold_proposal fold_settlement
  fold_payload-Keeps (epoch p) = fold_attempt-Keeps p _
  fold_payload-Keeps (proposal p) =
      Ensures-if (some p.epoch_id == log.epoch_id) _ _
        (λ t. Ensures-require _ _ _ λ _. fold_new-Keeps p _ _ (sym (eq_of_== t)) refl refl)
        (λ _. stale-Keeps (proposal p))
  fold_payload-Keeps (settlement p) =
      Ensures-if (some p.epoch_id == log.epoch_id) _ _
        (λ t. Ensures-require _ _ _ λ _. fold_control-Keeps p _ _ (sym (eq_of_== t)) refl)
        (λ _. stale-Keeps (settlement p))

  fold_record-Keeps : Ensures (Keeps log) (fold_record codec log raw)
  unfolding fold_record
  fold_record-Keeps = Ensures-bind _ _ λ p _. fold_payload-Keeps p

pub fold_all-Keeps :
    (codec : Codec) (log : LogState) (raws : List Raw)
    → IsScoped log
    → Ensures (Keeps log) (fold_all codec log raws)
unfolding fold_all
fold_all-Keeps codec log [] s =
    Ensures-ok _ (record { sound = s; remains = Remains-refl log.scoped_outcomes })
fold_all-Keeps codec log (raw ∷ rest) s = Ensures-bind _ _ λ log' e.
    let k = (fold_record-Keeps codec log raw s).at log' e in
    record {
      at = λ end f.
          let l = (fold_all-Keeps codec log' rest k.sound).at end f in
          record {
            sound = l.sound;
            remains =
                Remains-trans log.scoped_outcomes log'.scoped_outcomes end.scoped_outcomes k.remains
                  l.remains;
          };
    }

pub new_log-IsScoped : (authority_id : String) → IsScoped (new_log authority_id)
unfolding Dict.get
new_log-IsScoped authority_id = record {
  current = tt;
  fresh = λ e c. inr refl;
  proposed = λ c. inr refl;
}

kept :
    (m n : Result (Unit {0})) (x y : Option Outcome) (o : Outcome)
    → (x ≡ none) ⊎ (y ≡ x)
    → (do m; n; ok x) ≡ ok (some o)
    → (do m; n; ok y) ≡ ok (some o)
unfolding ◌>>=◌
kept (ok _) (ok _) x y o (inl h) e = absurd cc
kept (ok _) (ok _) x y o (inr h) e = cc
kept (ok _) (err _) x y o h e = absurd cc
kept (err _) n x y o h e = absurd cc

-- Once a log that started empty knows the outcome of a command in an epoch, that outcome is the one
-- it gives after any further records, those of other epochs included.
pub fold_all-historical_outcome :
    (codec : Codec) (authority_id : String) (before : List Raw) (log : LogState) (later : List Raw)
    (log' : LogState) (epoch_id command_id : String) (o : Outcome)
    → fold_all codec (new_log authority_id) before ≡ ok log
    → fold_all codec log later ≡ ok log'
    → historical_outcome log epoch_id command_id ≡ ok (some o)
    → historical_outcome log' epoch_id command_id ≡ ok (some o)
unfolding historical_outcome
fold_all-historical_outcome codec a before log later log' e c o b l =
    let s = ((fold_all-Keeps codec (new_log a) before (new_log-IsScoped a)).at log b).sound in
    let k = (fold_all-Keeps codec log later s).at log' l in
    kept (identifier e) (identifier c) _ _ o (k.remains e c)
