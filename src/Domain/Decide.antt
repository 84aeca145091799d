-- ===== src/Domain/Decide.antt =====
-- decide and apply_event of sidecar/src/mempalace_tasks/domain.py: a command is executed on a copy of
-- the state, and the event holds what changed; applying an event decides its command once more.
-- `canonical_json` is the text of an event, which json.dumps makes.
use Prim.Native.String.{String}
use copilot_mempalace.Prelude.{
  ℕ, ◌+◌, ◌*◌, Bool, true, not, Option, none, some, List, [], ◌∷◌, ◌++◌, leb, ◌==◌, ◌!=◌, map,
  contains, erase, select, string_eq, nat_eq, option_eq, if◌then◌else◌,
}
use mathlib.Core.Bool.{decide as holds}
use copilot_mempalace.Prelude.Dict.{Dict, keys, values}
use copilot_mempalace.Prelude.Dict
use copilot_mempalace.Prelude.Sort.{sort}
use copilot_mempalace.Prelude.Text.{text_le, byte_count}
use copilot_mempalace.Model.{
  Result, ok, ◌>>=◌, ◌>>◌, require, or_fail, text, identifier, validation_error,
  invariant_violation, key_error, max_instant,
}
use copilot_mempalace.Domain.Records.{
  Task, State, Edge, Resource, Reservation, Configuration, edge_eq,
}
use copilot_mempalace.Domain.Equality.{
  Reservation-discrete, Task-discrete, Resource-discrete, Configuration-discrete,
}
use copilot_mempalace.Domain.Execute.{Command, Execution, EventKind, Response, execute, unprefixed}

-- event["changes"]
pub record EventChanges : Type 0 where
  pub task_versions : List String
  pub lease_revisions : List String
  pub resource_counters : List String
  pub resource_reservations : List String

pub record Event : Type 0 where
  pub authority_id : String
  pub kind : EventKind
  pub command : Command
  pub at : ℕ
  pub tasks : List Task
  pub edges_added : List Edge
  pub edges_removed : List Edge
  pub resources : Dict Resource
  pub configuration : Option Configuration
  pub changes : EventChanges
  pub response : Response

-- `in state.tasks`, and the snapshot there is another one
unfoldable changed_task : Dict Task → String × Task → Bool
changed_task old (id, t) = elim (Dict.get id old) [
  | none ↦ true
  | some u ↦ not (holds (Task-discrete t u))
]

unfoldable changed_resource : Dict Resource → String × Resource → Bool
changed_resource old (key, r) = elim (Dict.get key old) [
  | none ↦ true
  | some q ↦ not (holds (Resource-discrete r q))
]

unfoldable changed_configuration :
    Option Configuration → Option Configuration → Option Configuration
changed_configuration none new = new
changed_configuration (some old) none = none
changed_configuration (some old) (some new) =
    if holds (Configuration-discrete new old) then none else some new

-- The version of a touched task that was there before is one more; each touched task is stamped.
unfoldable stamped : Option Task → Task → ℕ → Task
stamped none t at = record t { updated_at = at }
stamped (some old) t at = record t { version = old.version + 1; updated_at = at }

-- The loop over the touched tasks.
unfoldable pub stamp : Dict Task → ℕ → List String → Dict Task → Result (Dict Task)
unfolding stamped
stamp old at [] tasks = ok tasks
stamp old at (id ∷ rest) tasks = do
  t ← or_fail (Dict.get id tasks) key_error
  stamp old at rest (Dict.put id (stamped (Dict.get id old) t at) tasks)

abbrev by_key {ℓ} : {V : Type ℓ} → String × V → String × V → Bool
by_key (a, v) (b, w) = text_le a b

-- The entries of a new dictionary that the old one lacks or has otherwise, in the order of keys.
unfoldable pub changed_tasks : Dict Task → Dict Task → Dict Task
unfolding changed_task
changed_tasks old new = select (changed_task old) (sort by_key new)

unfoldable pub changed_resources : Dict Resource → Dict Resource → Dict Resource
unfolding changed_resource
changed_resources old new = select (changed_resource old) (sort by_key new)

-- The lease revision is not the one before, which is 0 for a new task.
unfoldable has_new_revision : Dict Task → Task → Bool
has_new_revision old t = elim (Dict.get t.id old) [
  | none ↦ t.lease_revision != 0
  | some u ↦ t.lease_revision != u.lease_revision
]

-- The counter is not the one before, which is 0 for a new resource.
unfoldable has_new_counter : Dict Resource → String × Resource → Bool
has_new_counter old (key, r) = elim (Dict.get key old) [
  | none ↦ r.counter != 0
  | some q ↦ r.counter != q.counter
]

abbrev reservation_of : Option Resource → Option Reservation
reservation_of none = none
reservation_of (some q) = q.reservation

-- The reservation is not the one before, which a new resource does not have.
unfoldable has_new_reservation : Dict Resource → String × Resource → Bool
has_new_reservation old (key, r) =
    not (holds (Reservation-discrete r.reservation (reservation_of (Dict.get key old))))

abbrev id_of : Task → String
id_of t = t.id

unfoldable pub changes_of : State → Execution → Dict Task → Dict Resource → EventChanges
unfolding has_new_revision has_new_counter has_new_reservation
changes_of state done tasks resources = record {
  task_versions = sort text_le done.touched;
  lease_revisions = map id_of (select (has_new_revision state.tasks) (values tasks));
  resource_counters = keys (select (has_new_counter state.resources) resources);
  resource_reservations = keys (select (has_new_reservation state.resources) resources);
}

abbrev pub not_in : List Edge → Edge → Bool
not_in edges e = not (contains e edges)

abbrev no_later : Option ℕ → ℕ → Bool
no_later none at = true
no_later (some last) at = leb last at

abbrev pub max_event_bytes : ℕ
max_event_bytes = 240 * 1024

-- The event of an execution, from the state before to the working state.
unfoldable pub event_of : State → Command → ℕ → Execution → Dict Task → Event
unfolding changed_configuration changes_of
event_of state command at done tasks =
    let changed = changed_tasks state.tasks tasks in
    let resources = changed_resources state.resources done.state.resources in
    record {
      authority_id = state.authority_id;
      kind = done.kind;
      command = command;
      at = at;
      tasks = values changed;
      edges_added = select (not_in state.edges) done.state.edges;
      edges_removed = select (not_in done.state.edges) state.edges;
      resources = resources;
      configuration = changed_configuration state.configuration done.state.configuration;
      changes = changes_of state done changed resources;
      response = done.response;
    }

-- result.tasks[task["id"]] = task
unfoldable pub put_tasks : List Task → Dict Task → Dict Task
put_tasks [] tasks = tasks
put_tasks (t ∷ rest) tasks = put_tasks rest (Dict.put t.id t tasks)

-- result.resources.update(...)
unfoldable pub put_resources : Dict Resource → Dict Resource → Dict Resource
put_resources [] resources = resources
put_resources ((key, r) ∷ rest) resources = put_resources rest (Dict.put key r resources)

unfoldable pub remove_edges : List Edge → List Edge → List Edge
remove_edges [] edges = edges
remove_edges (e ∷ rest) edges = remove_edges rest (erase e edges)

abbrev newer : Option Configuration → Option Configuration → Option Configuration
newer none old = old
newer (some new) old = some new

-- The state after an event, once it is checked.
unfoldable pub updated : State → Event → State
updated state event = record {
  authority_id = state.authority_id;
  tasks = put_tasks event.tasks state.tasks;
  edges = remove_edges event.edges_removed state.edges ++ event.edges_added;
  resources = put_resources event.resources state.resources;
  configuration = newer event.configuration state.configuration;
  last_event_at = some event.at;
}

module _ (uuid5 : String → String → String) (canonical_json : Event → String) where
  -- decide: removeprefix takes one prefix off, and the operation under another one is unknown
  unfoldable pub decide : State → Command → ℕ → Result Event
  decide state command at = do
    require (leb command.prefixes 1) validation_error
    text command.actor 256
    identifier command.command_id
    let normalized = unprefixed command
    require (leb at max_instant) validation_error
    require (no_later state.last_event_at at) validation_error
    done ← execute uuid5 state normalized at
    tasks ← stamp state.tasks at done.touched done.state.tasks
    let event = event_of state normalized at done tasks
    require (leb (byte_count (canonical_json event)) max_event_bytes) validation_error
    ok event

  -- apply_event
  unfoldable pub apply_event : State → Event → Result State
  apply_event state event = do
    require (event.authority_id == state.authority_id) invariant_violation
    expected ← decide state event.command event.at
    require (canonical_json expected == canonical_json event) invariant_violation
    ok (updated state event)
