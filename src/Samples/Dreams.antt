-- ===== src/Samples/Dreams.antt =====
-- Two triples of a transitive predicate, and the conclusion that they prove.
use Prim.Native.String.{◌++◌}
use copilot_mempalace.Prelude.{◌≡◌, ◌+◌, String, true, false, none, some, List, [], ◌∷◌, All, refl}
use copilot_mempalace.Prelude.Dict.{get, has, put}
use copilot_mempalace.Prelude.Sort.{sort}
use copilot_mempalace.Model.{ok, ◌>>=◌}
use copilot_mempalace.Dreaming.Records.{Candidate, Host, Rule, Triple}
use copilot_mempalace.Dreaming.Predicates.{
  derived_predicate_for, normalize_predicate, triple_id_key,
}
use copilot_mempalace.Dreaming.Candidates.{names_from, weakest_from}
use mathlib.Core.Logic.{◌↔◌}
use copilot_mempalace.Dreaming.Closure.{
  base_from, deductive_closure, has_interval, iterate, nothing_emitted,
}
use copilot_mempalace.Dreaming.Overlap.{AreOverlapping, has_interval-AreOverlapping}
use copilot_mempalace.Dreaming.Rounds.{iterate-base_from}
use copilot_mempalace.Dreaming.Derivations.{IsDerived}
use copilot_mempalace.Dreaming.Derived.{
  AreNew, deductive_closure-AreNew, deductive_closure-IsDerived,
}

-- Texts that are lower case already, and digests that are the ids.
abbrev plain_host : Host
plain_host = record {
  lowered = λ s. s;
  loads = λ s. some [];
  candidate_digest = λ key rule_id ids version. key.0 ++ (":" ++ key.1.1);
  rules_digest = λ rules. "rules";
  least = λ confidences. "1.0";
}

abbrev part_of : String → String → String → Triple
part_of id subject object = record {
  triple_id = id;
  subject_id = subject;
  predicate = "part_of";
  object_id = object;
  subject = some subject;
  object = some object;
  valid_from = some 3;
  valid_to = none;
  confidence = none;
  source_drawer_id = none;
  inherited_status = none;
  epistemic_status = none;
  conditional_on = none;
}

abbrev parts : List Triple
parts = part_of "t1" "wheel" "car" ∷ part_of "t2" "car" "fleet" ∷ []

abbrev transitive_rule : Rule
transitive_rule = record {
  id = "transitive:part_of";
  family = "transitive";
  predicate = "part_of";
  inverse_predicate = none;
  derived_predicate = some "part_of_closure";
  enabled = true;
  max_depth = none;
}

abbrev derived_parts : List Candidate
derived_parts =
    record {
      candidate_id = "derive:wheel:fleet";
      conclusion = ("wheel", ("part_of_closure", "fleet"));
      subject = some "wheel";
      object = some "fleet";
      rule_id = "transitive:part_of";
      family = "transitive";
      predicate = "part_of";
      depth = 2;
      premise_ids = "t1" ∷ "t2" ∷ [];
      premise_drawer_ids = none ∷ none ∷ [];
      entailed_given = [];
      confidence = "1.0";
      valid_from = some 3;
      valid_to = none;
      epistemic_status = "deduced";
      inherited_status = "asserted";
      truncated = false;
    }
    ∷ []

closure-ok : deductive_closure plain_host parts (transitive_rule ∷ []) 4 4 10 ≡ ok derived_parts
unfolding deductive_closure ◌>>=◌ normalize_predicate triple_id_key derived_predicate_for has put
    get sort weakest_from names_from
closure-ok = refl

deductive_closure-IsDerived_example :
    All (IsDerived plain_host parts (transitive_rule ∷ []) 4) derived_parts
deductive_closure-IsDerived_example =
    deductive_closure-IsDerived plain_host parts (transitive_rule ∷ []) 4 4 10 derived_parts
      closure-ok

deductive_closure-AreNew_example : AreNew plain_host parts 10 derived_parts
deductive_closure-AreNew_example =
    deductive_closure-AreNew plain_host parts (transitive_rule ∷ []) 4 4 10 derived_parts closure-ok

-- Two triples with the same ends that hold at different times: the first alone is a base edge, so
-- what the second would prove with a third is not derived.
abbrev twice_joined : List Triple
twice_joined =
    record (part_of "t1" "wheel" "car") { valid_from = none; valid_to = some 5 }
    ∷ record (part_of "t2" "wheel" "car") { valid_from = some 10 }
    ∷ record (part_of "t3" "car" "fleet") { valid_from = some 10 }
    ∷ []

shadowed-ok : deductive_closure plain_host twice_joined (transitive_rule ∷ []) 4 4 10 ≡ ok []
unfolding deductive_closure ◌>>=◌ normalize_predicate triple_id_key derived_predicate_for has put
    get sort weakest_from names_from
shadowed-ok = refl

has_interval-AreOverlapping_example : (has_interval parts ≡ true) ↔ AreOverlapping parts
has_interval-AreOverlapping_example = has_interval-AreOverlapping parts

iterate-base_from_example :
    iterate plain_host parts "v" 4 4 10
      (2 + 3)
      transitive_rule
      2
      (base_from plain_host transitive_rule parts [])
      (base_from plain_host transitive_rule parts [])
      (base_from plain_host transitive_rule parts [])
      nothing_emitted
    ≡ iterate plain_host parts "v" 4 4 10 2 transitive_rule 2
        (base_from plain_host transitive_rule parts [])
        (base_from plain_host transitive_rule parts [])
        (base_from plain_host transitive_rule parts [])
        nothing_emitted
iterate-base_from_example =
    iterate-base_from plain_host parts "v" 4 4 10 transitive_rule 2 3 nothing_emitted
