-- ===== src/Dreaming/Induced.antt =====
-- The rules that observed triples suggest (skills/dreaming/scripts/dream_ontology.py): each has the
-- support that is asked for.
use copilot_mempalace.Prelude.{
  ℕ, ◌≤◌, ◌≡◌, String, true, false, some, List, [], ◌∷◌, All, leb, leb→le, max, ◌⊎◌, refl, inl, inr,
  Eq, distinct, length, string_eq, pair_eq,
}
use copilot_mempalace.Prelude.Dict.{keys}
use copilot_mempalace.Prelude.Sort.{sort}
use copilot_mempalace.Prelude.Text.{text_le}
use copilot_mempalace.Dreaming.Ontology.{
  Observation, RuleCandidate, Rules, inverse_rule, symmetric_rule, transitive_rule,
}
use copilot_mempalace.Dreaming.Induction.{
  edges_of, induce_inverse, induce_inverse_of, induce_rules_from_triples, induce_symmetric,
  induce_transitive, inverse_support, supported, symmetric_support, transitive_support,
}
use copilot_mempalace.Dreaming.Induction.{inverse_note, symmetric_note, transitive_note}
use copilot_mempalace.Dreaming.Evidence.{observed_edges, observed_edges-AreEdges}
use copilot_mempalace.Dreaming.Supports.{
  IsAnswered, IsChain, IsReciprocated, inverse-IsAnswered, symmetric_pairs-IsReciprocated,
}
use copilot_mempalace.Dreaming.Chains.{adjacency-IsChain}
use copilot_mempalace.Dreaming.Suggested.{All-rules_sorted_by_id, Each, Each-if}

-- At least so many entries, none of them twice, that have the property.
pub record HasEvidence {A : Type 0} ⦃e : Eq A⦄ (least : ℕ) (P : A → Type 0) : Type 0 where
  pub found : List A
  pub unique : distinct found ≡ true
  pub enough : least ≤ length found
  pub valid : All P found

-- The triples give the rule so much evidence: for a symmetric rule, pairs that the predicate relates
-- both ways; for a transitive one, chains of its predicate; for an inverse one, pairs that the
-- predicate relates and its inverse relates back.
abbrev pub IsSupported : ℕ → List Observation → RuleCandidate → Type 0
IsSupported least triples r =
    ((r.family ≡ "symmetric") × HasEvidence least (IsReciprocated triples r.predicate))
    ⊎ (((r.family ≡ "transitive") × HasEvidence least (IsChain triples r.predicate))
        ⊎ ((r.family ≡ "inverse")
            × ((q : String) × ((r.inverse_predicate ≡ some q)
                  × HasEvidence least (IsAnswered triples r.predicate q)))))

pub record IsInduced (least : ℕ) (triples : List Observation) (r : RuleCandidate) : Type 0 where
  pub disabled : r.enabled ≡ false
  pub supported : IsSupported least triples r

module _ (triples : List Observation) (least : ℕ) where
  symmetric_support-HasEvidence :
      (p : String)
      → least ≤ (symmetric_support (edges_of (observed_edges triples) p)).0
      → HasEvidence least (IsReciprocated triples p)
  unfolding symmetric_support
  symmetric_support-HasEvidence p h =
      let observed = (observed_edges-AreEdges triples).observed p in
      let pairs = symmetric_pairs-IsReciprocated triples p _ _ observed observed in
      record { found = _; unique = pairs.1; enough = h; valid = pairs.0 }

  transitive_support-HasEvidence :
      (p : String)
      → least ≤ (transitive_support (edges_of (observed_edges triples) p)).0
      → HasEvidence least (IsChain triples p)
  unfolding transitive_support
  transitive_support-HasEvidence p h =
      let found = adjacency-IsChain triples p _ ((observed_edges-AreEdges triples).observed p) in
      record { found = _; unique = found.1; enough = h; valid = found.0 }

  inverse_support-HasEvidence :
      (p q : String)
      → least
        ≤ (inverse_support
            (edges_of (observed_edges triples) p)
            p
            (edges_of (observed_edges triples) q)
            q).0
      → HasEvidence least (IsAnswered triples p q)
  unfolding inverse_support
  inverse_support-HasEvidence p q h =
      let are = observed_edges-AreEdges triples in
      let found =
        inverse-IsAnswered triples p q _ (are.observed q) _ (are.observed p) (are.distinctly p) in
      record { found = _; unique = found.1; enough = h; valid = found.0 }

module _ (decimal : ℕ → String) (least : ℕ) (triples : List Observation) where
  abbrev Induces : Rules → Type 0
  Induces rules = Each (IsInduced least triples) rules

  supported-Induces :
      (support : ℕ × String) (rule : ℕ → String → RuleCandidate) (rules : Rules)
      → Induces rules
      → (leb least support.0 ≡ true → IsInduced least triples (rule support.0 support.1))
      → Induces (supported decimal least support rule rules)
  supported-Induces (support, example) rule rules h p =
      Each-if (IsInduced least triples) (leb least support) (rule support example) rules h p

  induce_symmetric-Induces :
      (predicates : List String) (rules : Rules)
      → Induces rules
      → Induces (induce_symmetric decimal least (observed_edges triples) predicates rules)
  unfolding induce_symmetric
  induce_symmetric-Induces [] rules h = h
  induce_symmetric-Induces (p ∷ rest) rules h = induce_symmetric-Induces rest _ (
      supported-Induces (symmetric_support (edges_of (observed_edges triples) p))
        (λ n example. symmetric_rule p (symmetric_note decimal least n example)) rules h
        (λ t. record {
          disabled = refl;
          supported = inl (refl, symmetric_support-HasEvidence triples least p (leb→le _ _ t));
        }))

  induce_inverse_of-Induces :
      (p : String) (others : List String) (rules : Rules)
      → Induces rules
      → Induces (induce_inverse_of decimal least (observed_edges triples) p others rules)
  unfolding induce_inverse_of
  induce_inverse_of-Induces p [] rules h = h
  induce_inverse_of-Induces p (q ∷ rest) rules h = induce_inverse_of-Induces p rest _ (
      supported-Induces
        (inverse_support (edges_of (observed_edges triples) p) p
          (edges_of (observed_edges triples) q) q)
        (λ n example. inverse_rule p q (inverse_note decimal least n example)) rules h
        (λ t. record {
          disabled = refl;
          supported = inr (
              inr
                (refl, (q, (refl, inverse_support-HasEvidence triples least p q (leb→le _ _ t)))));
        }))

  induce_inverse-Induces :
      (predicates : List String) (rules : Rules)
      → Induces rules
      → Induces (induce_inverse decimal least (observed_edges triples) predicates rules)
  unfolding induce_inverse
  induce_inverse-Induces [] rules h = h
  induce_inverse-Induces (p ∷ rest) rules h =
      induce_inverse-Induces rest _ (induce_inverse_of-Induces p rest rules h)

  induce_transitive-Induces :
      (predicates : List String) (rules : Rules)
      → Induces rules
      → Induces (induce_transitive decimal least (observed_edges triples) predicates rules)
  unfolding induce_transitive
  induce_transitive-Induces [] rules h = h
  induce_transitive-Induces (p ∷ rest) rules h = induce_transitive-Induces rest _ (
      supported-Induces (transitive_support (edges_of (observed_edges triples) p))
        (λ n example. transitive_rule p (transitive_note decimal least n example)) rules h
        (λ t. record {
          disabled = refl;
          supported =
              inr (inl (refl, transitive_support-HasEvidence triples least p (leb→le _ _ t)));
        }))

-- Each rule that is induced from triples is disabled, and for as many as are asked for, one at least,
-- none of them counted twice, the triples relate by its predicate: two different ids both ways, for a
-- symmetric rule, with a pair counted in one order only; three different ids in a chain, for a
-- transitive rule; two different ids that its inverse predicate relates back, for an inverse rule.
pub induce_rules_from_triples-IsInduced :
    (decimal : ℕ → String) (triples : List Observation) (min_support : ℕ)
    → All
        (IsInduced (max 1 min_support) triples)
        (induce_rules_from_triples decimal triples min_support)
unfolding induce_rules_from_triples
induce_rules_from_triples-IsInduced decimal triples min_support =
    let edges = observed_edges triples in
    let least = max 1 min_support in
    let predicates = sort text_le (keys edges) in
    All-rules_sorted_by_id (IsInduced least triples) _ (
      induce_transitive-Induces decimal least triples predicates _ (
        induce_inverse-Induces decimal least triples predicates _
          (induce_symmetric-Induces decimal least triples predicates [] tt)))
