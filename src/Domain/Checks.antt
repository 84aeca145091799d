-- ===== src/Domain/Checks.antt =====
-- The checks of sidecar/src/mempalace_tasks/domain.py on policies, configurations, actors and task
-- contents, which every operation starts with.
use copilot_mempalace.Prelude.{
  ℕ, ◌+◌, ◌*◌, String, Bool, true, false, not, ◌&&◌, ◌||◌, Option, none, some, List, [], ◌∷◌, leb,
  ltb, ◌==◌, length, all, distinct, is_empty, string_eq, nat_eq, if◌then◌else◌, option_eq,
}
use copilot_mempalace.Prelude.Dict.{Dict, values, keys}
use copilot_mempalace.Prelude.Dict
use copilot_mempalace.Model.{
  Result, ok, err, ◌>>=◌, ◌>>◌, require, or_fail, for_each, text, byte_text, integer,
  validation_error, not_owner, not_found, version_conflict, invalid_transition, key_error,
  unsupported_execution_profile, max_integer, max_instant, second,
}
use copilot_mempalace.Domain.Types.{
  Kind, Role, Status, operator, coordinator, supervisor, worker, resource_fenced, kind_eq, class_eq,
  role_eq, status_eq,
}
use copilot_mempalace.Domain.Records.{
  Policy, Profile, Supervisor, Configuration, Task, State, default_policy,
}
use copilot_mempalace.Domain.Commands.{PolicyOverrides, ProfileInput, AuthorityCreate}

abbrev pub get_or {ℓ} : {A : Type ℓ} → Option A → A → A
get_or none a = a
get_or (some b) a = b

-- value is None
abbrev pub is_none {ℓ} : {A : Type ℓ} → Option A → Bool
is_none none = true
is_none (some a) = false

-- a == b of two conditions
abbrev pub same_flag : Bool → Bool → Bool
same_flag true b = b
same_flag false b = not b

-- _deadline: microseconds, refused past the last datetime
unfoldable pub deadline : ℕ → ℕ → Result ℕ
deadline at seconds =
    let due = at + seconds * second in if leb due max_instant then ok due else err validation_error

-- _strings: each text within `width` bytes, at most `maximum` of them, all distinct
unfoldable pub strings : List String → ℕ → Bool → ℕ → Result (Unit {0})
strings value maximum nonempty width = do
  require (leb (length value) maximum && (not nonempty || not (is_empty value))) validation_error
  for_each (λ item. byte_text item width) value
  require (distinct value) validation_error

-- {**base, **overrides}
abbrev pub with_overrides : Policy → PolicyOverrides → Policy
with_overrides base o = record {
  lease_ttl_seconds = get_or o.lease_ttl_seconds base.lease_ttl_seconds;
  renewal_seconds = get_or o.renewal_seconds base.renewal_seconds;
  sweep_seconds = get_or o.sweep_seconds base.sweep_seconds;
  progress_timeout_seconds = get_or o.progress_timeout_seconds base.progress_timeout_seconds;
  hard_timeout_seconds = get_or o.hard_timeout_seconds base.hard_timeout_seconds;
  automatic_retries = get_or o.automatic_retries base.automatic_retries;
}

-- a == b of two policy objects
abbrev pub same_policy : Policy → Policy → Bool
same_policy p q =
    p.lease_ttl_seconds == q.lease_ttl_seconds
    && p.renewal_seconds == q.renewal_seconds
    && p.sweep_seconds == q.sweep_seconds
    && p.progress_timeout_seconds == q.progress_timeout_seconds
    && p.hard_timeout_seconds == q.hard_timeout_seconds
    && p.automatic_retries == q.automatic_retries

-- _policy
unfoldable pub policy : PolicyOverrides → Policy → Result Policy
policy overrides base = do
  let p = with_overrides base overrides
  integer p.lease_ttl_seconds 1 86400
  integer p.renewal_seconds 1 86400
  integer p.sweep_seconds 1 86400
  integer p.progress_timeout_seconds 1 86400
  integer p.hard_timeout_seconds 1 86400
  integer p.automatic_retries 0 3
  require (ltb p.renewal_seconds p.lease_ttl_seconds) validation_error
  require (leb p.progress_timeout_seconds p.hard_timeout_seconds) validation_error
  ok p

abbrev pub no_overrides : PolicyOverrides
no_overrides = record {
  lease_ttl_seconds = none;
  renewal_seconds = none;
  sweep_seconds = none;
  progress_timeout_seconds = none;
  hard_timeout_seconds = none;
  automatic_retries = none;
}

-- A whole policy as the overrides that name it: what an update leaves alone is checked again.
abbrev pub all_overrides : Policy → PolicyOverrides
all_overrides p = record {
  lease_ttl_seconds = some p.lease_ttl_seconds;
  renewal_seconds = some p.renewal_seconds;
  sweep_seconds = some p.sweep_seconds;
  progress_timeout_seconds = some p.progress_timeout_seconds;
  hard_timeout_seconds = some p.hard_timeout_seconds;
  automatic_retries = some p.automatic_retries;
}

-- The loop over the profiles in _configuration.
unfoldable pub profile : ProfileInput → Result Profile
profile input = do
  let p : Profile = record {
    execution_class = input.execution_class;
    available = get_or input.available true;
    supports_fencing = get_or input.supports_fencing false;
    supports_reconciliation = get_or input.supports_reconciliation false;
  }
  require
      (not (p.execution_class == resource_fenced)
        || (p.supports_fencing && p.supports_reconciliation))
      unsupported_execution_profile
  ok p

unfoldable pub normalized_profiles : Dict ProfileInput → Result (Dict Profile)
normalized_profiles [] = ok []
normalized_profiles ((name, input) ∷ rest) = do
  p ← profile input
  ps ← normalized_profiles rest
  ok ((name, p) ∷ ps)

-- The loop over the supervisors in _configuration.
unfoldable pub supervisor_check :
    Dict ProfileInput → Dict Role → String × Supervisor → Result (Unit {0})
supervisor_check profiles actors (name, s) = do
  require (Dict.get name actors == some supervisor) validation_error
  strings s.profiles 500 true 256
  strings s.workers 500 true 256
  require (all (λ p. Dict.has p profiles) s.profiles) validation_error
  require (all (λ w. Dict.get w actors == some worker) s.workers) validation_error

-- _configuration
unfoldable pub configuration : AuthorityCreate → String → Result Configuration
configuration command actor = do
  require (leb (length command.execution_profiles) 500) validation_error
  for_each (λ key. text key 256) (keys command.execution_profiles)
  require (leb (length command.actors) 500) validation_error
  for_each (λ key. text key 256) (keys command.actors)
  require (leb (length command.supervisors) 500) validation_error
  for_each (λ key. text key 256) (keys command.supervisors)
  require (Dict.get actor command.actors == some operator) not_owner
  profiles ← normalized_profiles command.execution_profiles
  for_each (supervisor_check command.execution_profiles command.actors) command.supervisors
  p ← policy (get_or command.policy no_overrides) default_policy
  ok (record {
    execution_profiles = profiles;
    actors = command.actors;
    supervisors = command.supervisors;
    policy = p;
  })

-- state.configuration[...]
abbrev pub configured : State → Result Configuration
configured state = or_fail state.configuration key_error

-- _role
unfoldable pub role_of : State → String → Result Role
role_of state actor = do config ← configured state; or_fail (Dict.get actor config.actors) not_owner

-- _admin
unfoldable pub admin : State → String → Result (Unit {0})
admin state actor = do
  role ← role_of state actor
  require (role == operator || role == coordinator) not_owner

-- _admin(..., operator=True)
unfoldable pub admin_operator : State → String → Result (Unit {0})
admin_operator state actor = do role ← role_of state actor; require (role == operator) not_owner

-- _task
unfoldable pub task_of : State → String → Result Task
task_of state task_id = do text task_id 40; or_fail (Dict.get task_id state.tasks) not_found

-- _expected: of a version, a lease revision or a graph revision
unfoldable pub expected : ℕ → ℕ → Result (Unit {0})
expected actual value = do integer value 0 max_integer; require (value == actual) version_conflict

-- _goal(..., open_only=False)
unfoldable pub any_goal_of : State → String → Result Task
any_goal_of state goal_id = do
  goal ← task_of state goal_id
  require (goal.kind == Kind.epic && goal.goal_id == some goal_id && not (is_none goal.goal_policy))
      validation_error
  ok goal

-- _goal
unfoldable pub goal_of : State → String → Result Task
goal_of state goal_id = do
  goal ← any_goal_of state goal_id
  require (not goal.sealed && goal.status == Status.opened) invalid_transition
  ok goal
