-- ===== src/Dreaming/Records.antt =====
-- Triples, rules and candidates of the derivation (skills/dreaming/scripts/dream_lib.py).
use copilot_mempalace.Prelude.{ℕ, String, Bool, Option, List}

-- An active triple of the graph. Its instants are numbers, and a confidence is a float's text.
pub record Triple : Type 0 where
  pub triple_id : String
  pub subject_id : String
  pub predicate : String
  pub object_id : String
  pub subject : Option String
  pub object : Option String
  pub valid_from : Option ℕ
  pub valid_to : Option ℕ
  pub confidence : Option String
  pub source_drawer_id : Option String
  pub inherited_status : Option String
  pub epistemic_status : Option String
  pub conditional_on : Option String

pub record Rule : Type 0 where
  pub id : String
  pub family : String
  pub predicate : String
  pub inverse_predicate : Option String
  pub derived_predicate : Option String
  pub enabled : Bool
  pub max_depth : Option ℕ

-- (subject_id, predicate, object_id)
abbrev pub Key : Type 0
Key = String × (String × String)

pub record Candidate : Type 0 where
  pub candidate_id : String
  pub conclusion : Key
  pub subject : Option String
  pub object : Option String
  pub rule_id : String
  pub family : String
  pub predicate : String
  pub depth : ℕ
  pub premise_ids : List String
  pub premise_drawer_ids : List (Option String)
  pub entailed_given : List String
  pub confidence : String
  pub valid_from : Option ℕ
  pub valid_to : Option ℕ
  pub epistemic_status : String
  pub inherited_status : String
  pub truncated : Bool

-- An entry of base_edges, reached or new_edges, with its key.
pub record Edge : Type 0 where
  pub tail : String
  pub head : String
  pub premises : List Triple
  pub depth : ℕ

-- A rule as ontology_version hashes it.
pub record RuleText : Type 0 where
  pub predicate : String
  pub family : String
  pub inverse_predicate : String
  pub derived_predicate : String
  pub enabled : Bool
  pub max_depth : ℕ

-- What Python's str, json and hashlib give: str(s).strip().lower(), the entries of a JSON list of
-- texts (none where it is not one), the digest of a candidate's payload and of a list of rules, and
-- the least of a list of confidences, where a missing one counts as 1.0.
pub record Host : Type 0 where
  pub lowered : String → String
  pub loads : String → Option (List String)
  pub candidate_digest : Key → String → List String → String → String
  pub rules_digest : List RuleText → String
  pub least : List (Option String) → String
