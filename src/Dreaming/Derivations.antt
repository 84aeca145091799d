-- ===== src/Dreaming/Derivations.antt =====
-- How a rule proves a candidate of deductive_closure (skills/dreaming/scripts/dream_lib.py).
use mathlib.Core.List.{Mem}
use copilot_mempalace.Prelude.{
  ℕ, ◌≤◌, ◌≡◌, String, true, some, List, [], ◌∷◌, All, length, map, ◌⊎◌, string_eq, pair_eq,
}
use copilot_mempalace.Dreaming.Records.{Candidate, Host, Rule, Triple}
use copilot_mempalace.Dreaming.Predicates.{derived_predicate_for, normalize_predicate}
use copilot_mempalace.Dreaming.Closure.{depth_limit, has_interval}
use copilot_mempalace.Dreaming.Proofs.{IsLinked, IsPremise}

-- The conclusion turns a listed triple around, under the rule's inverse predicate or, for a symmetric
-- rule, under the predicate itself.
pub record IsReversal (host : Host) (triples : List Triple) (rule : Rule) (c : Candidate)
    : Type 0 where
  pub premise : Triple
  pub listed : Mem premise triples
  pub applies : normalize_predicate host premise.predicate ≡ normalize_predicate host rule.predicate
  pub subject : c.conclusion.0 ≡ premise.object_id
  pub object : c.conclusion.1.1 ≡ premise.subject_id
  pub ids : c.premise_ids ≡ premise.triple_id ∷ []
  pub predicate :
      ((rule.family ≡ "symmetric") × (c.conclusion.1.0 ≡ normalize_predicate host rule.predicate))
      ⊎ ((inverse : String) × ((rule.inverse_predicate ≡ some inverse)
            × (c.conclusion.1.0 ≡ normalize_predicate host inverse)))

-- The conclusion joins the ends of a path of listed triples, whose number is the depth, within the
-- limit, and which hold at a common time.
pub record IsChain (host : Host) (triples : List Triple) (max_depth : ℕ) (rule : Rule)
    (c : Candidate) : Type 0 where
  pub premises : List Triple
  pub premised : All (IsPremise host triples rule) premises
  pub linked : IsLinked c.conclusion.0 c.conclusion.1.1 premises
  pub predicate : c.conclusion.1.0 ≡ derived_predicate_for host rule
  pub counted : c.depth ≡ length premises
  pub capped : c.depth ≤ depth_limit rule.max_depth max_depth
  pub consistent : has_interval premises ≡ true
  pub ids : c.premise_ids ≡ map (λ t. t.triple_id) premises

-- A rule that is given and enabled proves the candidate.
pub record IsDerived (host : Host) (triples : List Triple) (rules : List Rule) (max_depth : ℕ)
    (c : Candidate) : Type 0 where
  pub rule : Rule
  pub listed : Mem rule rules
  pub enabled : rule.enabled ≡ true
  pub proof : IsReversal host triples rule c ⊎ IsChain host triples max_depth rule c

-- A rule as it is used.
pub record IsUsable (rules : List Rule) (r : Rule) : Type 0 where
  pub listed : Mem r rules
  pub enabled : r.enabled ≡ true
