-- ===== src/Dreaming/Closure.antt =====
-- deductive_closure of skills/dreaming/scripts/dream_lib.py. A dictionary keyed by two ids is a list
-- of entries that hold their ids, in insertion order; what `update` adds to one is never there yet.
use copilot_mempalace.Prelude.{
  ℕ, zero, suc, ◌+◌, String, Bool, true, false, not, ◌&&◌, ◌||◌, Option, none, some, List, [], ◌∷◌,
  ◌++◌, leb, min, any, contains, is_empty, length, map, nat_beq, select, ◌==◌, string_eq, pair_eq,
  if◌then◌else◌,
}
use copilot_mempalace.Prelude.Dict.{Dict, values}
use copilot_mempalace.Prelude.Dict
use copilot_mempalace.Model.{Result, ok, ◌>>=◌, or_fail, key_error}
use copilot_mempalace.Dreaming.Records.{Candidate, Edge, Host, Key, Rule, Triple}
use copilot_mempalace.Dreaming.Predicates.{
  derived_predicate_for, enabled_rules, normalize_predicate, ontology_version, triple_id_key,
}
use copilot_mempalace.Dreaming.Candidates.{entity_name_map, mk_candidate, premise_interval}

-- out, emitted_conclusion_keys and truncated
pub record Emitted : Type 0 where
  pub out : Dict Candidate
  pub keys : List Key
  pub truncated : Bool

abbrev pub nothing_emitted : Emitted
nothing_emitted = record { out = []; keys = []; truncated = false }

-- triple_id_key of a candidate's conclusion
abbrev pub conclusion_key : Host → Candidate → Key
conclusion_key host c =
    (c.conclusion.0, (normalize_predicate host c.conclusion.1.0, c.conclusion.1.1))

-- The key is reflexive, active, or emitted before, or the candidate's id is.
abbrev pub is_known : List Key → Emitted → Key → String → Bool
is_known active st key id =
    key.0 == key.1.1 || contains key active || contains key st.keys || Dict.has id st.out

abbrev pub with_candidate : Emitted → Key → Candidate → Emitted
with_candidate st key c = record st {
  out = Dict.put c.candidate_id c st.out;
  keys = st.keys ++ key ∷ [];
}

-- emit
unfoldable pub emit : Host → List Key → ℕ → Option Candidate → Emitted → Emitted
emit host active max_candidates none st = st
emit host active max_candidates (some c) st =
    let key = conclusion_key host c in
    if is_known active st key c.candidate_id
    then st
    else if leb max_candidates (length st.out)
    then record st { truncated = true }
    else with_candidate st key c

-- (tail, head) in edges
abbrev pub joins : String → String → List Edge → Bool
joins tail head edges = any (λ e. e.tail == tail && e.head == head) edges

-- int(rule.get("max_depth", max_depth) or max_depth)
abbrev pub depth_limit : Option ℕ → ℕ → ℕ
depth_limit none max_depth = max_depth
depth_limit (some n) max_depth = if nat_beq n 0 then max_depth else n

-- The edge of a step of the frontier over a base edge.
abbrev pub extended : Edge → Edge → Edge
extended e b = record {
  tail = e.tail;
  head = b.head;
  premises = e.premises ++ b.premises;
  depth = e.depth + 1;
}

abbrev pub has_interval : List Triple → Bool
has_interval premises = elim (premise_interval premises) [ none ↦ false | some interval ↦ true ]

module _ (depth_cap : ℕ) (reached : List Edge) where
  -- The body of the loop over base edges.
  abbrev pub may_extend : List Edge → Edge → Edge → Bool
  may_extend new e b =
      e.head == b.tail
      && not (e.tail == b.head)
      && leb (e.depth + 1) depth_cap
      && not (joins e.tail b.head reached || joins e.tail b.head new)
      && has_interval (e.premises ++ b.premises)

  unfoldable pub extend_over : Edge → List Edge → List Edge → List Edge
  extend_over e [] new = new
  extend_over e (b ∷ rest) new =
      extend_over e rest (if may_extend new e b then new ++ extended e b ∷ [] else new)

  -- One iteration: new_edges.
  unfoldable pub extend_all : List Edge → List Edge → List Edge → List Edge
  unfolding extend_over
  extend_all base [] new = new
  extend_all base (e ∷ rest) new = extend_all base rest (extend_over e base new)

abbrev pub base_edge : Triple → Edge
base_edge t = record { tail = t.subject_id; head = t.object_id; premises = t ∷ []; depth = 1 }

module _ (host : Host) where
  abbrev pub is_base : Rule → Triple → Bool
  is_base rule t =
      normalize_predicate host t.predicate == normalize_predicate host rule.predicate
      || normalize_predicate host t.predicate == derived_predicate_for host rule

  -- base_edges
  unfoldable pub base_from : Rule → List Triple → List Edge → List Edge
  base_from rule [] edges = edges
  base_from rule (t ∷ rest) edges = base_from rule rest (
      if is_base rule t && not (joins t.subject_id t.object_id edges)
      then edges ++ base_edge t ∷ []
      else edges)

abbrev pub is_transitive : Rule → Bool
is_transitive rule = rule.family == "transitive"

module _ (host : Host) (triples : List Triple) (onto_version : String)
    (max_depth max_iterations max_candidates : ℕ) where
  abbrev pub active_keys : List Key
  active_keys = map (triple_id_key host) triples

  abbrev pub derive : Rule → String → String → String → List Triple → ℕ → Emitted → Emitted
  derive rule subject_id predicate object_id premises depth st =
      emit host active_keys max_candidates
        (mk_candidate host (entity_name_map triples) rule onto_version subject_id predicate
          object_id premises depth)
        st

  -- The triples of a predicate, turned around.
  unfoldable pub reverse_each : Rule → String → String → List Triple → Emitted → Emitted
  unfolding emit mk_candidate
  reverse_each rule predicate derived [] st = st
  reverse_each rule predicate derived (t ∷ rest) st = reverse_each rule predicate derived rest (
      if normalize_predicate host t.predicate == predicate
      then derive rule t.object_id derived t.subject_id (t ∷ []) 1 st
      else st)

  unfoldable pub reverse_by : Rule → Emitted → Result Emitted
  unfolding reverse_each
  reverse_by rule st =
      let predicate = normalize_predicate host rule.predicate in
      if rule.family == "inverse"
      then (do
        inverse ← or_fail rule.inverse_predicate key_error
        ok (reverse_each rule predicate (normalize_predicate host inverse) triples st))
      else if rule.family == "symmetric"
      then ok (reverse_each rule predicate predicate triples st)
      else ok st

  -- The families that are not transitive.
  unfoldable pub reverse_rules : List Rule → Emitted → Result Emitted
  unfolding reverse_by
  reverse_rules [] st = ok st
  reverse_rules (rule ∷ rest) st = do st' ← reverse_by rule st; reverse_rules rest st'

  unfoldable pub emit_edges : Rule → List Edge → Emitted → Emitted
  unfolding emit mk_candidate
  emit_edges rule [] st = st
  emit_edges rule (e ∷ rest) st =
      emit_edges rule rest
        (derive rule e.tail (derived_predicate_for host rule) e.head e.premises e.depth st)

  -- The iterations, the first argument of which bounds their number.
  unfoldable pub iterate : ℕ → Rule → ℕ → List Edge → List Edge → List Edge → Emitted → Emitted
  unfolding extend_all emit_edges
  iterate zero rule depth_cap base reached frontier st = st
  iterate (suc n) rule depth_cap base reached frontier st =
      let new = extend_all depth_cap reached base frontier [] in
      elim new [
        | [] ↦ st
        | e ∷ rest ↦
            iterate n rule depth_cap base (reached ++ e ∷ rest) (e ∷ rest)
              (emit_edges rule (e ∷ rest) st)
      ]

  unfoldable pub close_rule : Rule → Emitted → Emitted
  unfolding base_from iterate
  close_rule rule st =
      let depth_cap = depth_limit rule.max_depth max_depth in
      let base = base_from host rule triples [] in
      iterate (min max_iterations depth_cap) rule depth_cap base base base st

  unfoldable pub close_rules : List Rule → Emitted → Emitted
  unfolding close_rule
  close_rules [] st = st
  close_rules (rule ∷ rest) st = close_rules rest (close_rule rule st)

  unfoldable pub derive_all : List Rule → Result Emitted
  unfolding reverse_rules close_rules
  derive_all rules = do
    st ← reverse_rules rules nothing_emitted
    ok (close_rules (select is_transitive rules) st)

abbrev pub mark : Candidate → Candidate
mark c = record c { truncated = true }

abbrev pub marked : Bool → List Candidate → List Candidate
marked false candidates = candidates
marked true candidates = map mark candidates

module _ (host : Host) where
  -- deductive_closure
  unfoldable pub deductive_closure : List Triple → List Rule → ℕ → ℕ → ℕ → Result (List Candidate)
  unfolding derive_all enabled_rules ontology_version
  deductive_closure triples rules max_depth max_iterations max_candidates =
      if is_empty (enabled_rules rules) then ok [] else do
        st ←
            derive_all host triples (ontology_version host rules) max_depth max_iterations
              max_candidates (enabled_rules rules)
        ok (marked st.truncated (values st.out))
