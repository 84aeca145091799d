-- ===== src/Dreaming.antt =====
-- skills/dreaming/scripts/dream_lib.py and dream_ontology.py: the rules of an ontology applied to the
-- triples of a knowledge graph, where such rules come from, and the decisions that are applied.
pub mod Records
pub mod Predicates
pub mod BaseTriples
pub mod Candidates
pub mod Chains
pub mod Closure
pub mod Overlap
pub mod Rounds
pub mod Emission
pub mod Evidence
pub mod Proofs
pub mod Derivations
pub mod Distinct
pub mod Passes
pub mod Derived
pub mod Ontology
pub mod Induction
pub mod Suggested
pub mod Supports
pub mod Induced
pub mod Merging
pub mod Filtering
pub mod Decisions
pub mod Grounded
