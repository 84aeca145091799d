-- ===== src/Protocol/Outcomes.antt =====
-- The outcomes of a log, by epoch and command, and the changes of a log that keep them.
use copilot_mempalace.Prelude.{
  ◌≡◌, subst, String, Bool, true, false, Option, none, some, [], arith, refl, sym, ◌∙◌, inl, inr,
  ◌⊎◌, ◌==◌, ◌&&◌, string_eq, nat_eq, option_eq, if◌then◌else◌,
}
use text.Mathlib.TextEquality.{eq_iff}
use text.Mathlib.TextPositions.{eq_refl}
use copilot_mempalace.Prelude.Dict.{Dict}
use copilot_mempalace.Prelude.Dict
use copilot_mempalace.Domain.Checks.{get_or}
use copilot_mempalace.Protocol.Records.{
  Codec, EpochPayload, LogState, Outcome, Proposal, Raw, Settlement, Verdict, proposal, committed,
  abandoned,
}
use copilot_mempalace.Protocol.Fold.{
  abandon, abandoned_outcome, activate, attempted, commit, committed_outcome, is_abandoned, put_new,
  scoped_in, settle_outcome, with_proposal,
}
use copilot_mempalace.Domain.Records.{State}

scoped_in-put :
    (e c : String) (o : Outcome) (scopes : Dict (Dict Outcome)) (e' c' : String)
    → scoped_in e' c' (Dict.put e (Dict.put c o (get_or (Dict.get e scopes) [])) scopes)
      ≡ (if e == e' && c == c' then some o else scoped_in e' c' scopes)
scoped_in-put e c o scopes e' c' =
    let inner = get_or (Dict.get e scopes) [] in
    ground
      (arith, Dict.get-put e e' (Dict.put c o inner) scopes, Dict.get-put c c' o inner, eq_iff e e')

abbrev pub is_committed : Option Outcome → Bool
is_committed none = false
is_committed (some o) = elim o.verdict [ committed ↦ true | abandoned ↦ false ]

pub none_of_open :
    (known : Option Outcome)
    → is_abandoned known ≡ false
    → is_committed known ≡ false
    → known ≡ none
none_of_open none a c = refl
none_of_open (some o) a c = go o.verdict a c
  where
    go :
        (v : Verdict)
        → (elim v [ committed ↦ false | abandoned ↦ true ]) ≡ false
        → (elim v [ committed ↦ true | abandoned ↦ false ]) ≡ false
        → some o ≡ none
    go committed a c = absurd cc
    go abandoned a c = absurd cc

-- The outcomes of the current epoch are those under its name, which is a used one.
abbrev pub IsCurrent : Option String → Dict String → Dict (Dict Outcome) → Dict Outcome → Type 0
IsCurrent none used scopes outcomes = Unit
IsCurrent (some e) used scopes outcomes =
    (Dict.has e used ≡ true) × ((c : String) → scoped_in e c scopes ≡ Dict.get c outcomes)

pub record AreScoped (epoch_id : Option String) (used : Dict String) (scopes : Dict (Dict Outcome))
    (outcomes : Dict Outcome) (proposals : Dict String) : Type 0 where
  pub current : IsCurrent epoch_id used scopes outcomes
  pub fresh : (e c : String) → (Dict.has e used ≡ true) ⊎ (scoped_in e c scopes ≡ none)
  pub proposed :
      (c : String) → (Dict.has c proposals ≡ true) ⊎ (is_committed (Dict.get c outcomes) ≡ false)

abbrev pub IsScoped : LogState → Type 0
IsScoped log = AreScoped log.epoch_id log.used_epochs log.scoped_outcomes log.outcomes log.proposals

-- No outcome that the first holds is another in the second.
abbrev pub Remains : Dict (Dict Outcome) → Dict (Dict Outcome) → Type 0
Remains before after =
    (e c : String) → (scoped_in e c before ≡ none) ⊎ (scoped_in e c after ≡ scoped_in e c before)

pub record Keeps (before after : LogState) : Type 0 where
  pub sound : IsScoped after
  pub remains : Remains before.scoped_outcomes after.scoped_outcomes

pub Remains-refl : (scopes : Dict (Dict Outcome)) → Remains scopes scopes
Remains-refl scopes e c = inr refl

pub Remains-trans : (a b d : Dict (Dict Outcome)) → Remains a b → Remains b d → Remains a d
Remains-trans a b d f g e c = elim (f e c) [
  | inl h ↦ inl h
  | inr h ↦ elim (g e c) [ inl i ↦ inl (sym h ∙ i) | inr i ↦ inr (i ∙ h) ]
]

has-put_new :
    (k v j : String) (d : Dict String) → Dict.has j d ≡ true → Dict.has j (put_new k v d) ≡ true
has-put_new k v j d h = ground (arith, Dict.has-put k j v d)

has-put_new_self : (k v : String) (d : Dict String) → Dict.has k (put_new k v d) ≡ true
has-put_new_self k v d = ground (arith, Dict.has-put k k v d, eq_refl k)

module _ (used : Dict String) (k v : String) where
  fresh_of_used :
      (scopes : Dict (Dict Outcome))
      → ((e c : String) → (Dict.has e used ≡ true) ⊎ (scoped_in e c scopes ≡ none))
      → (e c : String) → (Dict.has e (put_new k v used) ≡ true) ⊎ (scoped_in e c scopes ≡ none)
  fresh_of_used scopes f e c = elim (f e c) [
    | inl h ↦ inl (has-put_new k v e used h)
    | inr h ↦ inr h
  ]

  IsCurrent-put_new :
      (epoch_id : Option String) (scopes : Dict (Dict Outcome)) (outcomes : Dict Outcome)
      → IsCurrent epoch_id used scopes outcomes
      → IsCurrent epoch_id (put_new k v used) scopes outcomes
  IsCurrent-put_new none scopes outcomes h = tt
  IsCurrent-put_new (some e) scopes outcomes h = (has-put_new k v e used h.0, h.1)

-- settle_outcome on the dictionaries
abbrev outcomes_with : Dict Outcome → Outcome → Dict Outcome
outcomes_with outcomes o = Dict.put o.command_id o outcomes

abbrev scopes_with : String → Dict (Dict Outcome) → Outcome → Dict (Dict Outcome)
scopes_with e scopes o = Dict.put e (Dict.put o.command_id o (get_or (Dict.get e scopes) [])) scopes

module _ (e : String) (scopes : Dict (Dict Outcome)) (outcomes : Dict Outcome) (o : Outcome) where
  settled-Remains :
      (used : Dict String)
      → IsCurrent (some e) used scopes outcomes
      → Dict.get o.command_id outcomes ≡ none
      → Remains scopes (scopes_with e scopes o)
  settled-Remains used h unsettled e' c =
      ground (
        arith,
        scoped_in-put e o.command_id o scopes e' c,
        eq_iff e e',
        eq_iff o.command_id c,
        h.1 c,
      )

  settled-AreScoped :
      (used proposals proposals' : Dict String)
      → AreScoped (some e) used scopes outcomes proposals
      → ((c : String)
          → (Dict.has c proposals' ≡ true)
            ⊎ (is_committed (Dict.get c (outcomes_with outcomes o)) ≡ false))
      → AreScoped (some e) used (scopes_with e scopes o) (outcomes_with outcomes o) proposals'
  settled-AreScoped used proposals proposals' s h = record {
    current = (
      s.current.0,
      λ c. ground (
        arith,
        scoped_in-put e o.command_id o scopes e c,
        eq_refl e,
        Dict.get-put o.command_id c o outcomes,
        s.current.1 c,
      ),
    );
    fresh = λ e' c.
        ground (
          arith,
          scoped_in-put e o.command_id o scopes e' c,
          eq_iff e e',
          s.current.0,
          s.fresh e' c,
        );
    proposed = h;
  }

module _ (codec : Codec) (log : LogState) (raw : Raw) (s : IsScoped log) where
  settled-Keeps :
      (e : String) (o : Outcome) (proposals : Dict String)
      → log.epoch_id ≡ some e
      → Dict.get o.command_id log.outcomes ≡ none
      → ((c : String)
          → (Dict.has c proposals ≡ true)
            ⊎ (is_committed (Dict.get c (outcomes_with log.outcomes o)) ≡ false))
      → Keeps log (record (settle_outcome log e o) { proposals = proposals })
  unfolding settle_outcome
  settled-Keeps e o proposals q unsettled h =
      let s' =
        subst (λ x. AreScoped x log.used_epochs log.scoped_outcomes log.outcomes log.proposals) q
          s in
      record {
        sound =
            subst
              (λ x.
                AreScoped x log.used_epochs (scopes_with e log.scoped_outcomes o)
                  (outcomes_with log.outcomes o) proposals)
              (sym q)
              (settled-AreScoped e log.scoped_outcomes log.outcomes o log.used_epochs log.proposals
                proposals s' h);
        remains =
            settled-Remains e log.scoped_outcomes log.outcomes o log.used_epochs s'.current
              unsettled;
      }

  pub commit-Keeps :
      (p : Proposal) (state : State)
      → log.epoch_id ≡ some p.epoch_id
      → Dict.get p.command_id log.outcomes ≡ none
      → Keeps log (commit codec log raw p state)
  unfolding commit with_proposal settle_outcome committed_outcome
  commit-Keeps p state q unsettled =
      let k =
        settled-Keeps p.epoch_id (committed_outcome codec log raw p)
          (Dict.put p.command_id (codec.payload_text (proposal p)) log.proposals) q unsettled
          (λ c. ground (
            arith,
            Dict.has-put p.command_id c (codec.payload_text (proposal p)) log.proposals,
            Dict.get-put p.command_id c (committed_outcome codec log raw p) log.outcomes,
            s.proposed c,
          )) in
      record { sound = k.sound; remains = k.remains }

  pub abandon-Keeps :
      (p : Settlement) (known : Option Outcome)
      → log.epoch_id ≡ some p.epoch_id
      → Dict.get p.command_id log.outcomes ≡ known
      → Keeps log (abandon codec log raw p known)
  unfolding abandon settle_outcome abandoned_outcome
  abandon-Keeps p none q unsettled =
      let k =
        settled-Keeps p.epoch_id (abandoned_outcome codec log raw p) log.proposals q unsettled (λ c.
          ground (
            arith,
            Dict.get-put p.command_id c (abandoned_outcome codec log raw p) log.outcomes,
            s.proposed c,
          )) in
      record { sound = k.sound; remains = k.remains }
  abandon-Keeps p (some o) q known = record {
    sound = s;
    remains = Remains-refl log.scoped_outcomes;
  }

  pub with_proposal-Keeps : (p : Proposal) → Keeps log (with_proposal codec log p)
  unfolding with_proposal
  with_proposal-Keeps p =
      let text = codec.payload_text (proposal p) in
      record {
        sound = record {
          current = s.current;
          fresh = s.fresh;
          proposed =
              λ c. ground (arith, Dict.has-put p.command_id c text log.proposals, s.proposed c);
        };
        remains = Remains-refl log.scoped_outcomes;
      }

  pub attempted-Keeps :
      (p : EpochPayload) (is_accepted : Bool) → Keeps log (attempted codec log raw p is_accepted)
  unfolding attempted
  attempted-Keeps p is_accepted = record {
    sound = record {
      current =
          IsCurrent-put_new log.used_epochs p.epoch_id p.activation_id log.epoch_id
            log.scoped_outcomes log.outcomes s.current;
      fresh = fresh_of_used log.used_epochs p.epoch_id p.activation_id log.scoped_outcomes s.fresh;
      proposed = s.proposed;
    };
    remains = Remains-refl log.scoped_outcomes;
  }

  pub activate-Keeps :
      (p : EpochPayload)
      → Dict.has p.epoch_id log.used_epochs ≡ false
      → Keeps log (activate codec (attempted codec log raw p true) raw p)
  unfolding attempted activate Dict.get
  activate-Keeps p unused = record {
    sound = record {
      current = (
        has-put_new_self p.epoch_id p.activation_id log.used_epochs,
        λ c. elim (s.fresh p.epoch_id c) [ inl h ↦ absurd (cc (h, unused)) | inr h ↦ h ],
      );
      fresh = fresh_of_used log.used_epochs p.epoch_id p.activation_id log.scoped_outcomes s.fresh;
      proposed = λ c. inr refl;
    };
    remains = Remains-refl log.scoped_outcomes;
  }
