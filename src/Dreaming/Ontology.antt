-- ===== src/Dreaming/Ontology.antt =====
-- skills/dreaming/scripts/dream_ontology.py: rule candidates from the names of predicates and from
-- observed triples, and their union with the rules that are there. A set is a list of its members,
-- and what the source iterates over it is put in order afterwards.
use Prim.Native.String.{◌++◌ as concat}
use mathlib.Core.List.{◌++◌}
use copilot_mempalace.Prelude.{
  ℕ, ◌+◌, String, Bool, false, ◌&&◌, Option, none, some, List, [], ◌∷◌, length, ◌==◌, add, contains,
  map, string_eq, pair_eq, if◌then◌else◌,
}
use copilot_mempalace.Prelude.Dict.{Dict, values, keys}
use copilot_mempalace.Prelude.Dict
use copilot_mempalace.Prelude.Sort.{sort}
use copilot_mempalace.Prelude.Text.{text_le}

pub record RuleCandidate : Type 0 where
  pub id : String
  pub family : String
  pub predicate : String
  pub inverse_predicate : Option String
  pub derived_predicate : Option String
  pub enabled : Bool
  pub rationale : String

-- A triple as it is observed: a field that is missing, or is no text, is none.
pub record Observation : Type 0 where
  pub subject : Option String
  pub subject_id : Option String
  pub predicate : Option String
  pub object : Option String
  pub object_id : Option String

-- _TRANSITIVE_PREDICATES
abbrev pub transitive_predicates : List String
transitive_predicates =
    "depends_on" ∷ "part_of" ∷ "contains" ∷ "subclass_of" ∷ "subclass" ∷ "located_in"
    ∷ "ancestor_of" ∷ "precedes" ∷ "before" ∷ "after" ∷ "causes" ∷ "leads_to" ∷ "blocks"
    ∷ "requires" ∷ "includes" ∷ "parent_of" ∷ []

-- _SYMMETRIC_PREDICATES
abbrev pub symmetric_predicates : List String
symmetric_predicates =
    "co_authored" ∷ "collaborates_with" ∷ "collaborates" ∷ "sibling_of" ∷ "related_to"
    ∷ "connected_to" ∷ "married_to" ∷ "adjacent_to" ∷ "near" ∷ "same_as" ∷ "synonym_of"
    ∷ "co_occurs_with" ∷ []

-- _OF_INVERSE_PAIRS
abbrev pub of_inverse_pairs : List (String × String)
of_inverse_pairs = ("ancestor_of", "descendant_of") ∷ ("parent_of", "child_of") ∷ []

abbrev transitive_rationale : String
transitive_rationale = "heuristic: predicate name suggests transitivity — REVIEW before enabling"

abbrev symmetric_rationale : String
symmetric_rationale = "heuristic: predicate name suggests symmetry — REVIEW before enabling"

abbrev inverse_rationale : String
inverse_rationale =
    "heuristic: predicate names suggest inverse relationship — REVIEW before enabling"

abbrev pub Rules : Type 0
Rules = Dict RuleCandidate

-- _add_rule
unfoldable pub add_rule : RuleCandidate → Rules → Rules
add_rule rule rules = if Dict.has rule.id rules then rules else Dict.put rule.id rule rules

abbrev pub transitive_rule : String → String → RuleCandidate
transitive_rule predicate rationale = record {
  id = concat "transitive:" predicate;
  family = "transitive";
  predicate = predicate;
  inverse_predicate = none;
  derived_predicate = some (concat predicate "_closure");
  enabled = false;
  rationale = rationale;
}

abbrev pub symmetric_rule : String → String → RuleCandidate
symmetric_rule predicate rationale = record {
  id = concat "symmetric:" predicate;
  family = "symmetric";
  predicate = predicate;
  inverse_predicate = none;
  derived_predicate = none;
  enabled = false;
  rationale = rationale;
}

abbrev pub inverse_rule : String → String → String → RuleCandidate
inverse_rule predicate inverse rationale = record {
  id = concat "inverse:" (concat predicate (concat ":" inverse));
  family = "inverse";
  predicate = predicate;
  inverse_predicate = some inverse;
  derived_predicate = none;
  enabled = false;
  rationale = rationale;
}

-- The loop over the set of predicates, by their names.
unfoldable pub by_name : List String → Rules → Rules
unfolding add_rule
by_name [] rules = rules
by_name (p ∷ rest) rules =
    let first =
      if contains p transitive_predicates
      then add_rule (transitive_rule p transitive_rationale) rules
      else rules in
    by_name rest (
      if contains p symmetric_predicates
      then add_rule (symmetric_rule p symmetric_rationale) first
      else first)

abbrev prefixed : String → Option String → Option String
prefixed c none = none
prefixed c (some s) = some (concat c s)

-- passive[:-len("_by")] of a text that ends with "_by"
unfoldable pub without_by : String → Option String
without_by String.[] = none
without_by (String.◌∷◌ c s) =
    let rest = without_by s in
    if String.◌∷◌ c s == "_by" then some "" else prefixed (String.◌∷◌ c String.[]) rest

abbrev pub add_passive : List String → String → Option String → Rules → Rules
add_passive all passive none rules = rules
add_passive all passive (some active) rules =
    if contains active all
    then add_rule (inverse_rule active passive inverse_rationale) rules
    else rules

-- The loop over passive names.
unfoldable pub by_passive : List String → List String → Rules → Rules
unfolding add_rule without_by
by_passive all [] rules = rules
by_passive all (p ∷ rest) rules = by_passive all rest (add_passive all p (without_by p) rules)

unfoldable pub by_pairs : List String → List (String × String) → Rules → Rules
unfolding add_rule
by_pairs all [] rules = rules
by_pairs all ((predicate, inverse) ∷ rest) rules = by_pairs all rest (
    if contains predicate all && contains inverse all
    then add_rule (inverse_rule predicate inverse inverse_rationale) rules
    else rules)

abbrev pub by_id : String × RuleCandidate → String × RuleCandidate → Bool
by_id (a, r) (b, s) = text_le a b

-- _rules_sorted_by_id
unfoldable pub rules_sorted_by_id : Rules → List RuleCandidate
rules_sorted_by_id rules = values (sort by_id rules)

-- {p for p in predicates if p}
unfoldable pub predicate_set : List String → List String
predicate_set [] = []
predicate_set (p ∷ rest) =
    let others = predicate_set rest in if p == "" then others else add p others

unfoldable pub suggest_rules_from_predicates : List String → List RuleCandidate
unfolding by_name by_passive by_pairs rules_sorted_by_id predicate_set
suggest_rules_from_predicates predicates =
    let all = predicate_set predicates in
    rules_sorted_by_id (by_pairs all of_inverse_pairs (by_passive all all (by_name all [])))

-- merged and the ids of `seen`: the loop over the new rules, in the order of their ids
pub record Merge : Type 0 where
  pub to_add : List RuleCandidate
  pub seen : List String
  pub skipped_existing : ℕ

abbrev pub id_of : RuleCandidate → String
id_of r = r.id

abbrev pub id_le : RuleCandidate → RuleCandidate → Bool
id_le a b = text_le a.id b.id

unfoldable pub merge_one : RuleCandidate → Merge → Merge
merge_one r m =
    if contains r.id m.seen
    then record m { skipped_existing = m.skipped_existing + 1 }
    else record m { to_add = m.to_add ++ r ∷ []; seen = m.seen ++ r.id ∷ [] }

unfoldable pub merge_each : List RuleCandidate → Merge → Merge
unfolding merge_one
merge_each [] m = m
merge_each (r ∷ rest) m = merge_each rest (merge_one r m)

-- The merged rules, and how many were added and skipped.
pub record Merged : Type 0 where
  pub rules : List RuleCandidate
  pub added : ℕ
  pub skipped_existing : ℕ

unfoldable pub merge_ontology_candidates : List RuleCandidate → List RuleCandidate → Merged
unfolding merge_each
merge_ontology_candidates existing new =
    let m =
      merge_each (sort id_le new)
        (record { to_add = []; seen = map id_of existing; skipped_existing = 0 }) in
    record {
      rules = existing ++ m.to_add;
      added = length m.to_add;
      skipped_existing = m.skipped_existing;
    }
