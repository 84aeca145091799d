-- ===== src/Domain/Readiness.antt =====
-- Which tasks may be claimed: _wait_reasons, task_eligibility and ready_tasks of
-- sidecar/src/mempalace_tasks/domain.py. The snapshot that task_eligibility may be given in place of
-- a task id has to be the current task, so the model takes the current task.
pub mod Conditions
pub mod Listing
use copilot_mempalace.Prelude.{
  ℕ, String, Bool, true, false, not, ◌&&◌, ◌||◌, Option, none, some, List, [], ◌∷◌, ◌++◌, ltb, leb,
  ◌==◌, ◌!=◌, ◌+◌, ◌%◌, any, contains, is_empty, string_eq, nat_eq, option_eq, if◌then◌else◌, take,
}
use copilot_mempalace.Prelude.Dict.{Dict, values}
use copilot_mempalace.Prelude.Dict
use copilot_mempalace.Prelude.Sort.{sort}
use copilot_mempalace.Prelude.Text.{text_le}
use copilot_mempalace.Model.{◌>>=◌, ◌>>◌, Result, ok, or_fail, second, text, integer, key_error}
use copilot_mempalace.Domain.Types.{
  Kind, Status, kind_eq, status_eq, edge_type_eq, class_eq, opened, closed, in_progress, blocks,
}
use copilot_mempalace.Domain.Records.{
  Task, Edge, State, Resource, Reservation, Profile, Supervisor, Configuration, Attempt, Native,
}
use copilot_mempalace.Domain.Checks.{configured, is_none, any_goal_of, get_or}

-- The codes of the reasons that a task is not ready, with what they name.
pub data Reason : Type 0 where
  held : String → Reason
  deferred : ℕ → Reason
  blocked : String → Reason
  is_epic : Reason
  has_status : Status → Reason
  assigned : String → Reason
  awaiting_admission recovery_pending : Reason
  retry_backoff : ℕ → Reason
  goal_sealed native_reconciliation_required : Reason
  resource_busy : String → String → Reason
  unsupported_profile : Reason

-- reasons.append(reason) under a condition
abbrev pub when : Bool → Reason → List Reason
when true reason = reason ∷ []
when false reason = []

abbrev pub before : ℕ → Option ℕ → (ℕ → Reason) → List Reason
before at none reason = []
before at (some until) reason = when (ltb at until) (reason until)

abbrev pub each : Option String → (String → Reason) → List Reason
each none reason = []
each (some s) reason = reason s ∷ []

-- The loop over the edges in _wait_reasons.
unfoldable pub blockers : Dict Task → String → List Edge → Result (List Reason)
blockers tasks id [] = ok []
blockers tasks id (e ∷ rest) = do
  more ← blockers tasks id rest
  if e.edge_type == blocks && e.target == id
      then (do
        source ← or_fail (Dict.get e.source tasks) key_error
        ok (when (source.status != closed) (blocked e.source) ++ more))
      else ok more

-- _wait_reasons
unfoldable pub wait_reasons : State → Task → ℕ → Result (List Reason)
wait_reasons state t at = do
  blocking ← blockers state.tasks t.id state.edges
  ok (each t.hold_reason held ++ (before at t.deferred_until deferred ++ blocking))

-- The attempt's owner and generation are not those of the goal's current session.
abbrev pub outdated : Option Attempt → Option Native → Bool
outdated (some attempt) (some native) =
    not (attempt.owner == native.session_id)
    || not (attempt.session_generation == some native.session_generation)
outdated _ _ = false

unfoldable goal_reasons : State → Task → Option String → Result (List Reason)
goal_reasons state t none = ok []
goal_reasons state t (some goal_id) = do
  goal ← any_goal_of state goal_id
  ok (
      when (goal.sealed || goal.status != opened) goal_sealed
      ++ when (not (is_none t.native) && t.status == in_progress && outdated t.attempt goal.native)
          native_reconciliation_required)

-- The loop over the resource keys.
abbrev pub reserved_by : Option Resource → Option Reservation
reserved_by none = none
reserved_by (some r) = r.reservation

abbrev pub busy : String → Option Reservation → List Reason
busy key none = []
busy key (some r) = resource_busy key r.task_id ∷ []

unfoldable pub busy_resources : Dict Resource → List String → List Reason
busy_resources resources [] = []
busy_resources resources (key ∷ rest) =
    busy key (reserved_by (Dict.get key resources)) ++ busy_resources resources rest

-- The registered profile serves the task, and some supervisor offers it.
unfoldable usable_profile : Task → Option Profile → Bool
usable_profile t none = false
usable_profile t (some p) = t.execution_class == some p.execution_class && p.available

unfoldable offered : Option String → Dict Supervisor → Bool
offered none supervisors = false
offered (some name) supervisors = any (λ s. contains name s.profiles) (values supervisors)

unfoldable profile_of : Configuration → Option String → Option Profile
profile_of config none = none
profile_of config (some name) = Dict.get name config.execution_profiles

unfoldable pub profile_supported : Configuration → Task → Bool
unfolding usable_profile offered profile_of
profile_supported config t =
    usable_profile t (profile_of config t.execution_profile)
    && offered t.execution_profile config.supervisors

-- The reasons of task_eligibility that the task's own fields give.
unfoldable pub own_reasons : Task → List Reason
own_reasons t =
    when (t.kind != Kind.task) is_epic
    ++ (when (t.status != opened) (has_status t.status)
        ++ (each t.assignee assigned ++ when (not t.admitted) awaiting_admission))

-- task_eligibility: the reasons; the task is ready if there is none
unfoldable pub task_eligibility : State → Task → ℕ → Result (List Reason)
unfolding goal_reasons
task_eligibility state t at = do
  waiting ← wait_reasons state t at
  of_goal ← goal_reasons state t t.goal_id
  config ← configured state
  ok (
      own_reasons t
      ++ (waiting
          ++ (when (not (is_none t.recovery)) recovery_pending
              ++ (before at t.retry_not_before retry_backoff
                  ++ (of_goal
                      ++ (busy_resources state.resources t.resource_keys
                          ++ when
                              (t.kind == Kind.task
                                && is_none t.native
                                && not (profile_supported config t))
                              unsupported_profile))))))

-- The filters of ready_tasks.
pub record Filters : Type 0 where
  pub project : Option String
  pub goal_id : Option String
  pub priority_ceiling : Option ℕ
  pub limit : Option ℕ
  pub execution_profile : Option String

abbrev pub matches : Option String → Option String → Bool
matches none value = true
matches (some wanted) value = value == some wanted

unfoldable pub selects : Filters → ℕ → Task → Bool
selects f ceiling t =
    leb t.priority ceiling
    && (matches f.project (some t.project)
        && (matches f.goal_id t.goal_id && matches f.execution_profile t.execution_profile))

-- created_at as a sort key. It is the text of utc, which leaves the fraction of a whole second out:
-- "00:00:01Z" is above "00:00:01.000001Z" and "00:00:01.999999Z", as "Z" is above ".", and below all
-- of the next second. So a whole second ranks above the fractions that follow it.
unfoldable pub stamp_rank : ℕ → ℕ
stamp_rank at = if at % second == 0 then at + second else at

-- (priority, created_at, id) as the sort key
unfoldable pub ready_before : Task → Task → Bool
unfolding stamp_rank
ready_before a b =
    ltb a.priority b.priority
    || (a.priority == b.priority
        && (ltb (stamp_rank a.created_at) (stamp_rank b.created_at)
            || (stamp_rank a.created_at == stamp_rank b.created_at && text_le a.id b.id)))

-- The comprehension of ready_tasks, over state.tasks.values(). Eligibility is asked only of tasks
-- that the filters select.
unfoldable pub ready_among : State → Filters → ℕ → ℕ → List Task → Result (List Task)
ready_among state f ceiling at [] = ok []
ready_among state f ceiling at (t ∷ rest) =
    let more = ready_among state f ceiling at rest in
    if selects f ceiling t
    then (do
      reasons ← task_eligibility state t at
      ts ← more
      ok (if is_empty reasons then t ∷ ts else ts))
    else more

unfoldable optional_name : Option String → Result (Unit {0})
optional_name none = ok tt
optional_name (some s) = text s 256

-- ready_tasks
unfoldable pub ready_tasks : State → Filters → ℕ → Result (List Task)
unfolding optional_name
ready_tasks state f at = do
  optional_name f.project
  optional_name f.goal_id
  optional_name f.execution_profile
  integer (get_or f.limit 100) 1 500
  integer (get_or f.priority_ceiling 4) 0 4
  found ← ready_among state f (get_or f.priority_ceiling 4) at (values state.tasks)
  ok (take (get_or f.limit 100) (sort ready_before found))
