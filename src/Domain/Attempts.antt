-- ===== src/Domain/Attempts.antt =====
-- What the operations of sidecar/src/mempalace_tasks/domain.py on a live attempt share: who may act
-- on it and until when, the evidence of its effects, the release of its resources, and its
-- revocation.
pub mod Authority
use copilot_mempalace.Prelude.{
  ℕ, ◌+◌, String, Bool, true, false, not, ◌&&◌, ◌||◌, Option, none, some, List, [], ◌∷◌, ltb, ◌==◌,
  all, contains, string_eq, nat_eq, if◌then◌else◌, option_eq, min,
}
use copilot_mempalace.Prelude.Dict.{Dict, keys}
use copilot_mempalace.Prelude.Dict
use copilot_mempalace.Model.{
  ◌>>=◌, ◌>>◌, Result, ok, require, or_fail, for_each, text, integer, instant, not_owner,
  stale_generation, lease_expired, recovery_required, invariant_violation, key_error, max_integer,
}
use copilot_mempalace.Domain.Types.{
  ExecutionClass, operator, role_eq, status_eq, class_eq, in_progress,
}
use copilot_mempalace.Domain.Records.{Evidence, Attempt, Task, Resource, Reservation, State}
use copilot_mempalace.Domain.Commands.{Tokens}
use copilot_mempalace.Domain.Checks.{strings, role_of}

-- _generation: the command names the task's current attempt by its id and its generation
unfoldable pub generation : Task → Tokens → Result Attempt
generation t tokens = do
  attempt ← or_fail t.attempt stale_generation
  require
      (t.status == in_progress
        && tokens.attempt_id == some attempt.id
        && tokens.claim_generation == some t.claim_generation)
      stale_generation
  ok attempt

-- min(instant(lease_expires_at), instant(progress_deadline), instant(hard_deadline))
unfoldable pub attempt_due : Task → Attempt → Result ℕ
attempt_due t attempt = do
  lease ← instant t.lease_expires_at
  progress ← instant attempt.progress_deadline
  hard ← instant attempt.hard_deadline
  ok (min lease (min progress hard))

-- The keyword arguments of _live.
pub record LiveOptions : Type 0 where
  pub supervisor_only : Bool
  pub allow_admin : Bool

abbrev pub owner_or_supervisor : LiveOptions
owner_or_supervisor = record { supervisor_only = false; allow_admin = false }

abbrev pub supervisor_alone : LiveOptions
supervisor_alone = record { supervisor_only = true; allow_admin = false }

abbrev pub with_admin : LiveOptions
with_admin = record { supervisor_only = false; allow_admin = true }

-- actor in allowed
unfoldable pub may_act : State → Task → Attempt → LiveOptions → String → Result Bool
may_act state t attempt options actor = do
  let owns =
      attempt.supervisor_id == some actor
      || (not options.supervisor_only && t.assignee == some actor)
  if options.allow_admin
      then (do role ← role_of state actor; ok (owns || role == operator))
      else ok owns

-- _live
unfoldable pub live : State → Task → Tokens → String → ℕ → LiveOptions → Result Attempt
live state t tokens actor at options = do
  attempt ← generation t tokens
  allowed ← may_act state t attempt options actor
  require allowed not_owner
  due ← attempt_due t attempt
  require (ltb at due) lease_expired
  ok attempt

unfoldable pub fence_check : String × ℕ → Result (Unit {0})
fence_check (resource, counter) = do text resource 256; integer counter 1 max_integer

unfoldable pub fences_check : Option (Dict ℕ) → Result (Unit {0})
fences_check none = ok tt
fences_check (some fences) = for_each fence_check fences

-- _evidence
unfoldable pub evidence_check : Evidence → Result (Unit {0})
evidence_check e = do
  strings e.references 20 true 2048
  fences_check e.resource_fences
  fences_check e.installed_fences

-- value is True
abbrev pub is_true : Option Bool → Bool
is_true (some true) = true
is_true _ = false

-- The conditions of _settlement_evidence on a class's evidence.
abbrev pub settles : Option ExecutionClass → Evidence → Bool
settles (some ExecutionClass.shared_unfenced) e =
    is_true e.process_stopped && is_true e.effects_reconciled
settles (some ExecutionClass.resource_fenced) e =
    is_true e.effects_reconciled && not (is_true e.fencing_unavailable)
settles _ e = true

-- _settlement_evidence, and _barrier(..., recovering=False)
unfoldable pub settlement_evidence : Option ExecutionClass → Evidence → Result (Unit {0})
settlement_evidence class e = do evidence_check e; require (settles class e) recovery_required

-- set(counters) == set(task["resource_keys"])
abbrev pub same_keys : Dict ℕ → List String → Bool
same_keys counters names =
    all (λ k. contains k names) (keys counters) && all (λ k. Dict.has k counters) names

-- state.resources[key]["counter"] + 1 == counter, for each installed fence, with a KeyError where
-- the resource is missing
unfoldable pub next_fences : Dict Resource → Dict ℕ → Result Bool
next_fences resources [] = ok true
next_fences resources ((key, counter) ∷ rest) = do
  r ← or_fail (Dict.get key resources) key_error
  more ← next_fences resources rest
  ok (counter == r.counter + 1 && more)

-- evidence.get("installed_fences", {})
abbrev pub fences : Option (Dict ℕ) → Dict ℕ
fences none = []
fences (some counters) = counters

unfoldable set_counter : Option Resource → ℕ → String → Dict Resource → Dict Resource
set_counter none counter key resources = resources
set_counter (some r) counter key resources = Dict.put key (record r { counter = counter }) resources

unfoldable pub install_fences : Dict Resource → Dict ℕ → Dict Resource
unfolding set_counter
install_fences resources [] = resources
install_fences resources ((key, counter) ∷ rest) =
    install_fences (set_counter (Dict.get key resources) counter key resources) rest

-- The fenced branch of _barrier while recovering.
unfoldable pub fenced_barrier : State → Task → Evidence → Result State
fenced_barrier state t e = do
  require (is_true e.effects_reconciled) recovery_required
  if is_true e.fencing_unavailable
      then (do require (is_true e.process_stopped) recovery_required; ok state)
      else (do
        let counters = fences e.installed_fences
        require (same_keys counters t.resource_keys) recovery_required
        next ← next_fences state.resources counters
        require next recovery_required
        ok (record state { resources = install_fences state.resources counters }))

unfoldable barrier_by_class : Option ExecutionClass → State → Task → Evidence → Result State
unfolding fenced_barrier
barrier_by_class (some ExecutionClass.isolated) state t e = do
  require (is_true e.publication_revoked) recovery_required
  ok state
barrier_by_class (some ExecutionClass.shared_unfenced) state t e = do
  require (is_true e.process_stopped && is_true e.effects_reconciled) recovery_required
  ok state
barrier_by_class _ state t e = fenced_barrier state t e

-- _barrier(..., recovering=True)
unfoldable pub recovery_barrier : State → Task → Evidence → Result State
unfolding barrier_by_class
recovery_barrier state t e = do evidence_check e; barrier_by_class t.execution_class state t e

-- The reservation that an attempt of the task holds on its resources.
abbrev pub own_reservation : Task → Attempt → Reservation
own_reservation t attempt = record {
  task_id = t.id;
  attempt_id = attempt.id;
  claim_generation = t.claim_generation;
}

abbrev pub holds : Option Reservation → Reservation → Bool
holds none own = false
holds (some r) own =
    r.task_id == own.task_id
    && r.attempt_id == own.attempt_id
    && r.claim_generation == own.claim_generation

-- The loop of _release_resources.
unfoldable pub release_keys : Reservation → List String → Dict Resource → Result (Dict Resource)
release_keys own [] resources = ok resources
release_keys own (key ∷ rest) resources = do
  r ← or_fail (Dict.get key resources) key_error
  require (holds r.reservation own) invariant_violation
  release_keys own rest (Dict.put key (record r { reservation = none }) resources)

-- _release_resources
unfoldable pub release_resources : State → Task → Result State
release_resources state t = elim t.resource_keys [
  | [] ↦ ok state
  | key ∷ rest ↦ do
    attempt ← or_fail t.attempt key_error
    resources ← release_keys (own_reservation t attempt) t.resource_keys state.resources
    ok (record state { resources = resources })
]
