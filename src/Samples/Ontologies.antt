-- ===== src/Samples/Ontologies.antt =====
-- Suggested, induced and merged rules of a small ontology.
use copilot_mempalace.Prelude.{map, ◌≡◌, refl, ℕ, true, String, none, some, List, [], ◌∷◌, All, max}
use copilot_mempalace.Prelude.Dict.{get, has, put}
use copilot_mempalace.Prelude.Sort.{sort}
use copilot_mempalace.Prelude.Text.{text_le}
use copilot_mempalace.Dreaming.Ontology.{
  Observation, RuleCandidate, merge_ontology_candidates, suggest_rules_from_predicates,
  symmetric_rule, transitive_rule,
}
use copilot_mempalace.Dreaming.Induction.{induce_rules_from_triples}
use copilot_mempalace.Dreaming.Suggested.{IsSuggested, suggest_rules_from_predicates-IsSuggested}
use copilot_mempalace.Dreaming.Induced.{IsInduced, induce_rules_from_triples-IsInduced}
use copilot_mempalace.Dreaming.BaseTriples.{filter_base_triples}
use copilot_mempalace.Dreaming.Filtering.{
  IsAboutBase, induce_rules_from_triples-filter_base_triples,
}
use copilot_mempalace.Dreaming.Merging.{IsUnion, merge_ontology_candidates-IsUnion}

abbrev names : List String
names = "part_of" ∷ "owns" ∷ "owns_by" ∷ "near" ∷ []

suggest_rules_from_predicates-IsSuggested_example :
    All (IsSuggested names) (suggest_rules_from_predicates names)
suggest_rules_from_predicates-IsSuggested_example = suggest_rules_from_predicates-IsSuggested names

abbrev observed : String → String → String → Observation
observed subject predicate object = record {
  subject = some subject;
  subject_id = none;
  predicate = some predicate;
  object = some object;
  object_id = none;
}

abbrev observations : List Observation
observations =
    observed "ann" "knows" "bob"
    ∷ observed "bob" "knows" "ann"
    ∷ observed "bob" "knows" "cid"
    ∷ observed "cid" "known_to" "bob"
    ∷ []

abbrev one_text : ℕ → String
one_text n = "n"

induce_rules_from_triples-IsInduced_example :
    All (IsInduced (max 1 1) observations) (induce_rules_from_triples one_text observations 1)
induce_rules_from_triples-IsInduced_example =
    induce_rules_from_triples-IsInduced one_text observations 1

abbrev approved : RuleCandidate
approved = record (symmetric_rule "near" "approved") { enabled = true }

abbrev existing_rules : List RuleCandidate
existing_rules = approved ∷ []

abbrev new_rules : List RuleCandidate
new_rules = transitive_rule "part_of" "new" ∷ symmetric_rule "near" "again" ∷ []

merge_ontology_candidates-IsUnion_example :
    IsUnion existing_rules new_rules (merge_ontology_candidates existing_rules new_rules)
merge_ontology_candidates-IsUnion_example =
    merge_ontology_candidates-IsUnion existing_rules new_rules

abbrev id_of_rule : RuleCandidate → String
id_of_rule r = r.id

suggested-ok :
    map id_of_rule (suggest_rules_from_predicates names)
    ≡ "inverse:owns:owns_by" ∷ "symmetric:near" ∷ "transitive:part_of" ∷ []
unfolding suggest_rules_from_predicates sort has put text_le
suggested-ok = refl

induced-ok :
    map id_of_rule (induce_rules_from_triples one_text observations 1)
    ≡ "inverse:known_to:knows" ∷ "symmetric:knows" ∷ "transitive:knows" ∷ []
unfolding induce_rules_from_triples sort put text_le get has
induced-ok = refl

induce_rules_from_triples-filter_base_triples_example :
    All
      (IsAboutBase new_rules)
      (induce_rules_from_triples one_text (filter_base_triples observations new_rules) 1)
induce_rules_from_triples-filter_base_triples_example =
    induce_rules_from_triples-filter_base_triples one_text observations new_rules 1
