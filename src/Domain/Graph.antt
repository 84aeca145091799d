-- ===== src/Domain/Graph.antt =====
-- The relationships between tasks in sidecar/src/mempalace_tasks/domain.py: _edge, _acyclic,
-- _add_edge and _touch_goals. A set is a list of its members.
use copilot_mempalace.Prelude.{
  ℕ, zero, suc, ◌+◌, ◌-◌, String, Bool, false, not, ◌&&◌, ◌||◌, Option, none, some, List, [], ◌∷◌,
  ◌++◌, ◌==◌, ◌!=◌, any, contains, add, length, string_eq, nat_eq, option_eq, if◌then◌else◌,
}
use copilot_mempalace.Prelude.Dict.{Dict, keys}
use copilot_mempalace.Prelude.Dict
use copilot_mempalace.Prelude.Text.{text_le}
use copilot_mempalace.Model.{
  Result, ok, ◌>>=◌, ◌>>◌, require, or_fail, for_each, validation_error, key_error, already_exists,
  invalid_transition, dependency_cycle,
}
use copilot_mempalace.Domain.Types.{
  EdgeType, kind_eq, status_eq, edge_type_eq, opened, recovering, quarantined, blocks, parent_child,
  related, epic,
}
use copilot_mempalace.Domain.Records.{Task, Edge, State, edge_eq}
use copilot_mempalace.Domain.Checks.{is_none, task_of, goal_of}
use copilot_mempalace.Domain.Inputs.{save}

-- _edge: the endpoints of a related edge are in order
unfoldable pub edge : String → String → EdgeType → Edge
edge source target edge_type =
    if edge_type == related && not (text_le source target)
    then record { source = target; target = source; edge_type = edge_type }
    else record { source = source; target = target; edge_type = edge_type }

-- An arc of the wait graph: a task comes after what blocks it, and an epic before its children.
pub record Arc : Type 0 where
  pub tail : String
  pub head : String

-- The loop over the edges in _acyclic; an edge that is not operational adds no arc.
unfoldable pub arc : Edge → Option Arc
arc e =
    if e.edge_type == blocks
    then some (record { tail = e.target; head = e.source })
    else if e.edge_type == parent_child
    then some (record { tail = e.source; head = e.target })
    else none

abbrev pub same_arc : Arc → Arc → Bool
same_arc a b = a.tail == b.tail && a.head == b.head

abbrev with_arc : Option Arc → List Arc → List Arc
with_arc none arcs = arcs
with_arc (some a) arcs = if any (same_arc a) arcs then arcs else a ∷ arcs

-- graph, as the list of its arcs; each `graph[n]` is a set, so no arc stands twice
unfoldable pub arcs : List Edge → List Arc
arcs [] = []
arcs (e ∷ rest) = with_arc (arc e) (arcs rest)

-- graph[node]
unfoldable pub heads : String → List Arc → List String
heads node [] = []
heads node (a ∷ rest) = if a.tail == node then a.head ∷ heads node rest else heads node rest

-- incoming[node], before the elimination
unfoldable pub arcs_into : String → List Arc → ℕ
arcs_into node [] = 0
arcs_into node (a ∷ rest) =
    if a.head == node then suc (arcs_into node rest) else arcs_into node rest

unfoldable pub incoming : List String → List Arc → Dict ℕ
incoming [] graph = []
incoming (node ∷ rest) graph = (node, arcs_into node graph) ∷ incoming rest graph

abbrev pub count_of : Option ℕ → ℕ
count_of none = 0
count_of (some n) = n

-- The `for target in graph[node]` loop: one less incoming arc for each target, and the targets that
-- have none left go on the stack. The head of `pending` is the end of the source's list.
unfoldable pub relax : List String → Dict ℕ → List String → Dict ℕ × List String
relax [] counts pending = (counts, pending)
relax (target ∷ rest) counts pending =
    let left = count_of (Dict.get target counts) - 1 in
    relax rest (Dict.put target left counts) (if left == 0 then target ∷ pending else pending)

-- The `while pending` loop, with the number of rounds left; the nodes that it visits, last first.
unfoldable pub eliminate : ℕ → List Arc → Dict ℕ → List String → List String → List String
eliminate zero graph counts pending visited = visited
eliminate (suc fuel) graph counts [] visited = visited
eliminate (suc fuel) graph counts (node ∷ rest) visited =
    let (counts', pending') = relax (heads node graph) counts rest in
    eliminate fuel graph counts' pending' (node ∷ visited)

-- [node for node, count in incoming.items() if count == 0], pushed in order
unfoldable pub sources : Dict ℕ → List String → List String
sources [] pending = pending
sources ((node, count) ∷ rest) pending =
    sources rest (if count == 0 then node ∷ pending else pending)

-- The nodes that the elimination visits. A node is pushed at most once, so as many rounds as there
-- are nodes are enough.
unfoldable pub visited : List String → List Arc → List String
visited nodes graph =
    let counts = incoming nodes graph in
    eliminate (length nodes) graph counts (sources counts []) []

-- graph[...].add and incoming[...] += 1 raise a KeyError at a task that is not there.
unfoldable arc_ends : Dict Task → Arc → Result (Unit {0})
arc_ends tasks a = require (Dict.has a.tail tasks && Dict.has a.head tasks) key_error

-- _acyclic
unfoldable pub acyclic : State → Result (Unit {0})
unfolding arc_ends
acyclic state = do
  let graph = arcs state.edges
  for_each (arc_ends state.tasks) graph
  require (length (visited (keys state.tasks) graph) == length (keys state.tasks)) dependency_cycle

-- The arguments `reuse` and `yielding` of _add_edge.
pub record EdgeOptions : Type 0 where
  pub reuse : Bool
  pub yielding : Option String

abbrev pub plain : EdgeOptions
plain = record { reuse = false; yielding = none }

abbrev pub is_operational : EdgeType → Bool
is_operational k = k == blocks || k == parent_child

unfoldable goal_check : State → Option String → Result (Unit {0})
goal_check state none = ok tt
goal_check state (some goal_id) = do goal_of state goal_id; ok tt

unfoldable operational_check : State → EdgeType → Task → Task → Result (Unit {0})
operational_check state edge_type a b =
    if is_operational edge_type
    then (do require (a.goal_id == b.goal_id) validation_error; goal_check state a.goal_id)
    else ok tt

unfoldable blocks_check : EdgeType → Task → String → Option String → Result (Unit {0})
blocks_check edge_type b target yielding =
    if edge_type == blocks
    then require
        (b.status == opened
          || (yielding == some target && (b.status == recovering || b.status == quarantined)))
        invalid_transition
    else ok tt

unfoldable parent_check : List Edge → EdgeType → Task → Task → String → Result (Unit {0})
parent_check edges edge_type a b target =
    if edge_type == parent_child
    then (do
      require (a.kind == epic && a.status == opened && b.status == opened && is_none b.assignee)
          invalid_transition
      require (not (any (λ e. e.edge_type == parent_child && e.target == target) edges))
          invalid_transition)
    else ok tt

-- _add_edge: the state and the touched tasks
unfoldable pub add_edge :
    State → String → String → EdgeType → List String → EdgeOptions → Result (State × List String)
unfolding goal_check operational_check blocks_check parent_check
add_edge state source target edge_type touched options = do
  a ← task_of state source
  b ← task_of state target
  require (source != target && a.project == b.project) validation_error
  let e = edge source target edge_type
  if contains e state.edges
      then (do require options.reuse already_exists; ok (state, touched))
      else (do
        operational_check state edge_type a b
        blocks_check edge_type b target options.yielding
        parent_check state.edges edge_type a b target
        let state' : State = record state { edges = state.edges ++ e ∷ [] }
        acyclic state'
        ok (state', add target (add source touched)))

-- goal["graph_revision"] += 1 for each goal, which joins the touched tasks
unfoldable touch_each : State → List String → List String → Result (State × List String)
touch_each state [] touched = ok (state, touched)
touch_each state (goal_id ∷ rest) touched = do
  goal ← goal_of state goal_id
  touch_each (save state (record goal { graph_revision = goal.graph_revision + 1 })) rest
      (add goal_id touched)

abbrev goal_set : Option String → List String → List String
goal_set none goals = goals
goal_set (some g) goals = add g goals

-- _touch_goals of the two ends of an edge
unfoldable pub touch_goals : State → String → String → List String → Result (State × List String)
unfolding touch_each
touch_goals state source target touched = do
  a ← or_fail (Dict.get source state.tasks) key_error
  b ← or_fail (Dict.get target state.tasks) key_error
  touch_each state (goal_set b.goal_id (goal_set a.goal_id [])) touched
