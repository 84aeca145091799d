-- ===== src/Domain/Validation/Links.antt =====
-- The loops of validate_state over edges, reservations and resources
-- (sidecar/src/mempalace_tasks/domain.py).
use copilot_mempalace.Prelude.{
  String, Bool, true, false, not, ◌&&◌, ◌||◌, Option, none, some, List, [], ◌∷◌, ◌==◌, contains,
  distinct, string_eq, nat_eq, option_eq, if◌then◌else◌,
}
use copilot_mempalace.Prelude.Dict.{Dict}
use copilot_mempalace.Prelude.Dict
use copilot_mempalace.Model.{
  Result, ok, ◌>>=◌, ◌>>◌, require, or_fail, text, integer, max_integer, validation_error,
  key_error,
}
use copilot_mempalace.Domain.Types.{
  Kind, in_progress, recovering, quarantined, parent_child, status_eq, kind_eq, edge_type_eq,
}
use copilot_mempalace.Domain.Records.{
  Task, State, Edge, Attempt, Resource, Reservation, Recovery, managed, cooperative, edge_eq,
}
use copilot_mempalace.Domain.Checks.{is_none, task_of}
use copilot_mempalace.Domain.Attempts.{holds, own_reservation}
use copilot_mempalace.Domain.Graph.{acyclic, edge, is_operational}

-- The ends of an edge, its normal form, and the goal of its ends.
unfoldable pub edge_check : Edge → Task → Task → Result (Unit {0})
edge_check e a b = do
  require (not (a.id == b.id) && a.project == b.project) validation_error
  require (edge a.id b.id e.edge_type == e) validation_error
  require (not (is_operational e.edge_type) || a.goal_id == b.goal_id) validation_error

-- The loop over the edges, which records the parents that it meets.
unfoldable pub parents_of : State → List Edge → Dict String → Result (Dict String)
parents_of state [] parents = ok parents
parents_of state (e ∷ rest) parents = do
  a ← task_of state e.source
  b ← task_of state e.target
  edge_check e a b
  require
      (not (e.edge_type == parent_child) || (a.kind == Kind.epic && not (Dict.has b.id parents)))
      validation_error
  parents_of state rest
      (if e.edge_type == parent_child then Dict.put b.id a.id parents else parents)

unfoldable pub validate_edges : State → Result (Unit {0})
validate_edges state = do
  parents_of state state.edges []
  require (distinct state.edges) validation_error
  acyclic state

-- A barrier that is not satisfied keeps the resources.
abbrev pub awaits_barrier : Option Recovery → Bool
awaits_barrier none = false
awaits_barrier (some (managed r)) = not r.barrier_satisfied
awaits_barrier (some (cooperative r)) = true

unfoldable reserved_check : State → Task → Attempt → List String → Result (Unit {0})
reserved_check state t a [] = ok tt
reserved_check state t a (key ∷ rest) = do
  r ← or_fail (Dict.get key state.resources) validation_error
  require (holds r.reservation (own_reservation t a)) validation_error
  fence ← or_fail (Dict.get key a.resource_fences) key_error
  require (r.counter == fence) validation_error
  reserved_check state t a rest

unfoldable keeps_resources : State → Task → List String → Result (Unit {0})
unfolding reserved_check
keeps_resources state t [] = ok tt
keeps_resources state t (key ∷ rest) = do
  a ← or_fail t.attempt key_error
  reserved_check state t a (key ∷ rest)

-- A task in progress, or before its barrier, holds its resources under its fences.
unfoldable pub validate_reserved : State → Task → Result (Unit {0})
unfolding keeps_resources
validate_reserved state t =
    if t.status == in_progress || awaits_barrier t.recovery
    then keeps_resources state t t.resource_keys
    else ok tt

unfoldable reservation_check : State → String → Option Reservation → Result (Unit {0})
reservation_check state key none = ok tt
reservation_check state key (some r) = do
  t ← task_of state r.task_id
  a ← or_fail t.attempt validation_error
  require
      (r.attempt_id == a.id
        && r.claim_generation == t.claim_generation
        && (t.status == in_progress || t.status == recovering || t.status == quarantined)
        && (is_none t.recovery || awaits_barrier t.recovery)
        && contains key t.resource_keys)
      validation_error

-- A reservation is held by the current attempt of a task that lists the resource.
unfoldable pub validate_resource : State → String × Resource → Result (Unit {0})
unfolding reservation_check
validate_resource state (key, r) = do
  text key 256
  integer r.counter 1 max_integer
  reservation_check state key r.reservation
