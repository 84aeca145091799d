-- ===== src/Protocol/Chain.antt =====
-- The accepted records of a log: a chain of numbered events whose replay is the log's state.
use copilot_mempalace.Prelude.{
  ℕ, ◌+◌, ◌≡◌, String, Option, none, some, List, [], ◌∷◌, ◌++◌, length, arith, refl, sym, inl, inr,
  eq_of_==, and_true, ◌==◌, string_eq, nat_eq, option_eq,
}
use copilot_mempalace.Model.{Result, ok, err, ◌>>=◌}
use copilot_mempalace.Model.Ensures.{
  Ensures, Ensures-bind, Ensures-ok, Ensures-require, Ensures-or_fail, Ensures-if, Result-cases,
  ok-injective,
}
use copilot_mempalace.Domain.Records.{State}
use copilot_mempalace.Domain.Decide.{apply_event}
use copilot_mempalace.Protocol.Records.{
  Accepted, Activation, Codec, EpochPayload, LogState, Outcome, Payload, Proposal, Raw, Settlement,
  epoch, new_log, new_state, proposal, settlement,
}
use copilot_mempalace.Protocol.Payloads.{as_violation}
use copilot_mempalace.Protocol.Fold.{
  abandon, accept_proposal, activate, advance_raw, attempted, commit, fold_all, fold_attempt,
  fold_control, fold_epoch, fold_new, fold_payload, fold_proposal, fold_record, fold_settlement,
  settle_outcome, with_control, with_proposal, follows, is_abandoned,
}

-- The id of the last accepted record.
abbrev pub last_id : Option String → List Accepted → Option String
last_id before [] = before
last_id before (a ∷ rest) = last_id (some a.event_id) rest

-- The ordinals count up from the one given.
abbrev pub AreNumbered : ℕ → List Accepted → Type 0
AreNumbered n [] = Unit
AreNumbered n (a ∷ rest) = (a.ordinal ≡ n) × AreNumbered (n + 1) rest

last_id-append :
    (before : Option String) (xs : List Accepted) (a : Accepted)
    → last_id before (xs ++ a ∷ []) ≡ some a.event_id
last_id-append before [] a = refl
last_id-append before (b ∷ rest) a = last_id-append (some b.event_id) rest a

AreNumbered-append :
    (n : ℕ) (xs : List Accepted) (a : Accepted)
    → AreNumbered n xs
    → a.ordinal ≡ n + length xs
    → AreNumbered n (xs ++ a ∷ [])
AreNumbered-append n [] a h e = (omega (arith, e), tt)
AreNumbered-append n (b ∷ rest) a h e =
    (h.0, AreNumbered-append (n + 1) rest a h.1 (omega (arith, e)))

length-append_one : (xs : List Accepted) (a : Accepted) → length (xs ++ a ∷ []) ≡ length xs + 1
length-append_one [] a = omega arith
length-append_one (b ∷ rest) a = omega (arith, length-append_one rest a)

module _ (codec : Codec) where
  -- The events applied one after the other: what a log's state stands for.
  unfoldable pub replay : State → List Accepted → Result State
  replay s [] = ok s
  replay s (a ∷ rest) = do s' ← apply_event codec.uuid5 codec.event_text s a.event; replay s' rest

  replay-append :
      (s t u : State) (xs : List Accepted) (a : Accepted)
      → replay s xs ≡ ok t
      → apply_event codec.uuid5 codec.event_text t a.event ≡ ok u
      → replay s (xs ++ a ∷ []) ≡ ok u
  unfolding replay ◌>>=◌
  replay-append s t u [] a r e = rw (ok-injective r, e) refl
  replay-append s t u (b ∷ rest) a r e =
      elim (Result-cases (apply_event codec.uuid5 codec.event_text s b.event)) [
        | inl (s', f) ↦ rw f (replay-append s' t u rest a (rw f at r) e)
        | inr (c, f) ↦ absurd (cc (rw f at r))
      ]

  -- The chain of records, up to an ordinal, a head and a state.
  pub record HasChain (ordinal : ℕ) (head : Option String) (records : List Accepted)
      (start end : State) : Type 0 where
    pub counted : ordinal ≡ length records
    pub headed : head ≡ last_id none records
    pub numbered : AreNumbered 1 records
    pub replayed : replay start records ≡ ok end

  abbrev pub IsChained : LogState → Type 0
  IsChained log =
      HasChain log.domain_ordinal log.domain_head log.accepted_records (new_state log.authority_id)
        log.state

  -- The record that an accepted proposal adds.
  commit-IsChained :
      (log : LogState) (raw : Raw) (p : Proposal) (state : State)
      → p.ordinal ≡ log.domain_ordinal + 1
      → apply_event codec.uuid5 codec.event_text log.state p.event ≡ ok state
      → IsChained log
      → IsChained (commit codec log raw p state)
  unfolding commit with_proposal settle_outcome
  commit-IsChained log raw p state next applied c =
      let a : Accepted = record { event_id = raw.id; ordinal = p.ordinal; event = p.event } in
      record {
        counted = omega (arith, next, c.counted, length-append_one log.accepted_records a);
        headed = sym (last_id-append none log.accepted_records a);
        numbered =
            AreNumbered-append 1 log.accepted_records a c.numbered (omega (arith, next, c.counted));
        replayed = replay-append _ log.state state log.accepted_records a c.replayed applied;
      }

  ok_of_as_violation {ℓ} : {A : Type ℓ} (r : Result A) (a : A) → as_violation r ≡ ok a → r ≡ ok a
  unfolding as_violation
  ok_of_as_violation (ok b) a e = e
  ok_of_as_violation (err c) a e = cc

  accept-IsChained :
      (log : LogState) (raw : Raw) (p : Proposal)
      → IsChained log
      → Ensures IsChained (accept_proposal codec log raw p)
  unfolding accept_proposal advance_raw
  accept-IsChained log raw p c = Ensures-require _ _ _ λ next. Ensures-bind _ _ λ state applied.
      Ensures-ok _ (
        commit-IsChained log raw p state (eq_of_== ((and_true next).0))
          (ok_of_as_violation _ state applied) c)

  fold_new-IsChained :
      (log : LogState) (raw : Raw) (p : Proposal) (known : Option Outcome)
      (previous : Option String)
      → IsChained log
      → Ensures IsChained (fold_new codec log raw p known previous)
  unfolding fold_new advance_raw with_proposal
  fold_new-IsChained log raw p known (some previous) c =
      Ensures-require _ _ _ λ _. Ensures-or_fail _ _ _ λ _ _. Ensures-ok _ c
  fold_new-IsChained log raw p known none c =
      Ensures-if (is_abandoned known) _ _ (λ _. Ensures-ok _ c) (λ _. accept-IsChained log raw p c)

  abandon-IsChained :
      (log : LogState) (raw : Raw) (p : Settlement) (known : Option Outcome)
      → IsChained log
      → IsChained (abandon codec log raw p known)
  unfolding abandon settle_outcome
  abandon-IsChained log raw p none c = c
  abandon-IsChained log raw p (some o) c = c

  fold_control-IsChained :
      (log : LogState) (raw : Raw) (p : Settlement) (known : Option Outcome)
      (previous : Option String)
      → IsChained log
      → Ensures IsChained (fold_control codec log raw p known previous)
  unfolding fold_control advance_raw with_control
  fold_control-IsChained log raw p known (some previous) c =
      Ensures-require _ _ _ λ _. Ensures-or_fail _ _ _ λ _ _. Ensures-ok _ c
  fold_control-IsChained log raw p known none c = Ensures-ok _ (abandon-IsChained log raw p known c)

  fold_attempt-IsChained :
      (log : LogState) (raw : Raw) (p : EpochPayload) (known : Option Activation)
      → IsChained log
      → Ensures IsChained (fold_attempt codec log raw p known)
  unfolding fold_attempt advance_raw activate attempted
  fold_attempt-IsChained log raw p (some known) c = Ensures-require _ _ _ λ _. Ensures-ok _ c
  fold_attempt-IsChained log raw p none c =
      Ensures-if (follows codec log p) _ _ (λ _. Ensures-ok _ c) (λ _. Ensures-ok _ c)

  fold_payload-IsChained :
      (log : LogState) (raw : Raw) (p : Payload)
      → IsChained log
      → Ensures IsChained (fold_payload codec log raw p)
  unfolding fold_payload fold_epoch fold_proposal fold_settlement advance_raw
  fold_payload-IsChained log raw (epoch p) c = fold_attempt-IsChained log raw p _ c
  fold_payload-IsChained log raw (proposal p) c =
      Ensures-if (some p.epoch_id == log.epoch_id) _ _
        (λ _. Ensures-require _ _ _ λ _. fold_new-IsChained log raw p _ _ c) (λ _. Ensures-ok _ c)
  fold_payload-IsChained log raw (settlement p) c =
      Ensures-if (some p.epoch_id == log.epoch_id) _ _
        (λ _. Ensures-require _ _ _ λ _. fold_control-IsChained log raw p _ _ c)
        (λ _. Ensures-ok _ c)

  fold_record-IsChained :
      (log : LogState) (raw : Raw) → IsChained log → Ensures IsChained (fold_record codec log raw)
  unfolding fold_record
  fold_record-IsChained log raw c =
      Ensures-bind _ _ λ payload _. fold_payload-IsChained log raw payload c

  fold_from-IsChained :
      (log : LogState) (raws : List Raw)
      → IsChained log
      → Ensures IsChained (fold_all codec log raws)
  unfolding fold_all
  fold_from-IsChained log [] c = Ensures-ok _ c
  fold_from-IsChained log (raw ∷ rest) c =
      Ensures-bind _ _
        λ log' e. fold_from-IsChained log' rest ((fold_record-IsChained log raw c).at log' e)

  new_log-IsChained : (authority_id : String) → IsChained (new_log authority_id)
  unfolding replay
  new_log-IsChained authority_id = record {
    counted = refl;
    headed = refl;
    numbered = tt;
    replayed = refl;
  }

  -- Whatever records a new log folds, its accepted records are a chain: their ordinals count up from
  -- one, the log's ordinal and head are those of the last, and applying their events one after the
  -- other to the empty state gives the log's state.
  pub fold_all-IsChained :
      (authority_id : String) (raws : List Raw) (log : LogState)
      → fold_all codec (new_log authority_id) raws ≡ ok log
      → IsChained log
  fold_all-IsChained authority_id raws log =
      (fold_from-IsChained (new_log authority_id) raws (new_log-IsChained authority_id)).at log
