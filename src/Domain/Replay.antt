-- ===== src/Domain/Replay.antt =====
-- An event that decide returns is one that apply_event accepts.
use Prim.Native.String.{String}
use copilot_mempalace.Prelude.{
  ℕ, ◌≡◌, true, refl, ap, ◌∙◌, string_eq, ◌==◌, leb, inl, inr, Bool-cases,
}
use text.Mathlib.TextPositions.{eq_refl}
use copilot_mempalace.Model.{ok, ◌>>=◌, require}
use copilot_mempalace.Model.Ensures.{Ensures, Ensures-bind, Ensures-ok, Ensures-require}
use copilot_mempalace.Domain.Records.{State}
use copilot_mempalace.Domain.Execute.{Command, unprefixed}
use copilot_mempalace.Domain.Decide.{Event, apply_event, decide, event_of, updated}

-- The event names its authority, its command and its time.
pub record IsDecided (state : State) (command : Command) (at : ℕ) (event : Event) : Type 0 where
  pub authority : event.authority_id ≡ state.authority_id
  pub of_command : event.command ≡ unprefixed command
  pub timed : event.at ≡ at

module _ (uuid5 : String → String → String) (canonical_json : Event → String) where
  pub decide-IsDecided :
      (state : State) (command : Command) (at : ℕ)
      → Ensures (IsDecided state command at) (decide uuid5 canonical_json state command at)
  unfolding decide event_of
  decide-IsDecided state command at = Ensures-require _ _ _ λ _. Ensures-bind _ _ λ _ _.
      Ensures-bind _ _ λ _ _. Ensures-require _ _ _ λ _. Ensures-require _ _ _ λ _.
        Ensures-bind _ _ λ done _. Ensures-bind _ _ λ tasks _.
          Ensures-require _ _ _
            λ _. Ensures-ok _ (record { authority = refl; of_command = refl; timed = refl })

  -- Deciding the command that an event holds decides the command that it was made for.
  decide-unprefixed :
      (state : State) (command : Command) (at : ℕ) (event : Event)
      → decide uuid5 canonical_json state command at ≡ ok event
      → decide uuid5 canonical_json state (unprefixed command) at ≡ ok event
  unfolding decide ◌>>=◌ require
  decide-unprefixed state command at event e = elim (Bool-cases (leb command.prefixes 1)) [
    | inl h ↦ rw h at e
    | inr h ↦ absurd (let k = rw h at e in cc)
  ]

  -- An event that decide returns for a state is accepted by apply_event on that state, and the
  -- result is the state updated by it.
  pub apply_event-decide :
      (state : State) (command : Command) (at : ℕ) (event : Event)
      → decide uuid5 canonical_json state command at ≡ ok event
      → apply_event uuid5 canonical_json state event ≡ ok (updated state event)
  unfolding apply_event ◌>>=◌ require
  apply_event-decide state command at event e =
      let d = (decide-IsDecided state command at).at event e in
      let authority : (event.authority_id == state.authority_id) ≡ true =
        rw d.authority (eq_refl state.authority_id) in
      let again =
        ap (λ c. decide uuid5 canonical_json state c event.at) d.of_command
        ∙ ap (decide uuid5 canonical_json state (unprefixed command)) d.timed
        ∙ decide-unprefixed state command at event e in
      rw (authority, again, eq_refl (canonical_json event)) refl
