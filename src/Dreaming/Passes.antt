-- ===== src/Dreaming/Passes.antt =====
-- Each pass of deductive_closure emits proved candidates only (skills/dreaming/scripts/dream_lib.py).
use mathlib.Core.List.{Mem}
use copilot_mempalace.Prelude.{
  ℕ, zero, suc, ◌≡◌, String, Option, none, some, List, [], ◌∷◌, ◌++◌, All, map, min, refl, ◌∙◌,
  ◌==◌, ◌⊎◌, string_eq, pair_eq, Bool-cases, inl, inr, eq_of_==,
}
use copilot_mempalace.Model.Ensures.{Ensures, Ensures-bind, Ensures-if, Ensures-ok, Ensures-or_fail}
use copilot_mempalace.Dreaming.Records.{Edge, Host, Rule, Triple}
use copilot_mempalace.Dreaming.Predicates.{
  derived_predicate_for, normalize_predicate, triple_id_key,
}
use copilot_mempalace.Dreaming.Candidates.{
  candidate_of, entity_name_map, mk_candidate, premise_interval,
}
use copilot_mempalace.Dreaming.Closure.{
  Emitted, base_from, close_rule, close_rules, depth_limit, derive, emit, emit_edges, extend_all,
  iterate, reverse_by, reverse_each, reverse_rules,
}
use copilot_mempalace.Dreaming.Emission.{IsSound, emit_one-IsSound}
use copilot_mempalace.Dreaming.Proofs.{
  All-Mem_self, IsBaseEdge, IsPath, IsStep, base_from-IsBaseEdge, extend_all-IsStep,
}
use copilot_mempalace.Dreaming.Derivations.{IsDerived, IsUsable}

module _ (host : Host) (triples : List Triple) (onto_version : String)
    (max_depth max_iterations max_candidates : ℕ) (rules : List Rule) where
  abbrev pub Sound : Emitted → Type 0
  Sound st =
      IsSound host (map (triple_id_key host) triples) max_candidates
        (IsDerived host triples rules max_depth) st

  derive-Sound :
      (rule : Rule) (subject_id predicate object_id : String) (premises : List Triple) (depth : ℕ)
      (st : Emitted)
      → ((interval : Option ℕ × Option ℕ)
          → IsDerived host triples rules max_depth (
              candidate_of host
                (entity_name_map triples)
                rule
                onto_version
                subject_id
                predicate
                object_id
                premises
                depth
                interval))
      → Sound st
      → Sound (
          derive host triples onto_version max_depth max_iterations max_candidates rule subject_id
            predicate object_id premises depth st)
  unfolding mk_candidate emit
  derive-Sound rule subject_id predicate object_id premises depth st p s =
      elim (premise_interval premises)
        as (λ known. Sound (
          emit host (map (triple_id_key host) triples) max_candidates
            (elim known [
              | none ↦ none
              | some interval ↦ some (
                  candidate_of host (entity_name_map triples) rule onto_version subject_id predicate
                    object_id premises depth interval)
            ])
            st)) [
              | none ↦ s
              | some interval ↦
                  emit_one-IsSound host (map (triple_id_key host) triples) max_candidates
                    (IsDerived host triples rules max_depth) st _ (p interval) s
            ]

  reverse_each-Sound :
      (rule : Rule) (predicate derived : String) (rest : List Triple) (st : Emitted)
      → IsUsable rules rule
      → predicate ≡ normalize_predicate host rule.predicate
      → ((rule.family ≡ "symmetric") × (derived ≡ normalize_predicate host rule.predicate))
        ⊎ ((inverse : String) × ((rule.inverse_predicate ≡ some inverse)
              × (derived ≡ normalize_predicate host inverse)))
      → All (λ t. Mem t triples) rest
      → Sound st
      → Sound (
          reverse_each host triples onto_version max_depth max_iterations max_candidates rule
            predicate derived rest st)
  unfolding reverse_each candidate_of
  reverse_each-Sound rule predicate derived [] st u e k m s = s
  reverse_each-Sound rule predicate derived (t ∷ rest) st u e k m s =
      elim (Bool-cases (normalize_predicate host t.predicate == predicate)) [
        | inl q ↦ rw q (
            reverse_each-Sound rule predicate derived rest _ u e k m.1 (
              derive-Sound rule t.object_id derived t.subject_id (t ∷ []) 1 st
                (λ interval. record {
                  rule = rule;
                  listed = u.listed;
                  enabled = u.enabled;
                  proof = inl (record {
                    premise = t;
                    listed = m.0;
                    applies = eq_of_== q ∙ e;
                    subject = refl;
                    object = refl;
                    ids = refl;
                    predicate = k;
                  });
                })
                s))
        | inr q ↦ rw q (reverse_each-Sound rule predicate derived rest st u e k m.1 s)
      ]

  reverse_by-Sound :
      (rule : Rule) (st : Emitted)
      → IsUsable rules rule
      → Sound st
      → Ensures Sound
          (reverse_by host triples onto_version max_depth max_iterations max_candidates rule st)
  unfolding reverse_by
  reverse_by-Sound rule st u s =
      Ensures-if (rule.family == "inverse") _ _
        (λ _. Ensures-or_fail _ _ _ λ inverse given. Ensures-ok _ (
          reverse_each-Sound rule _ (normalize_predicate host inverse) triples st u refl
            (inr (inverse, (given, refl))) (All-Mem_self triples) s))
        (λ _.
          Ensures-if (rule.family == "symmetric") _ _
            (λ t. Ensures-ok _ (
              reverse_each-Sound rule _ _ triples st u refl (inl (eq_of_== t, refl))
                (All-Mem_self triples) s))
            (λ _. Ensures-ok _ s))

  pub reverse_rules-Sound :
      (rest : List Rule) (st : Emitted)
      → All (IsUsable rules) rest
      → Sound st
      → Ensures Sound
          (reverse_rules host triples onto_version max_depth max_iterations max_candidates rest st)
  unfolding reverse_rules
  reverse_rules-Sound [] st u s = Ensures-ok _ s
  reverse_rules-Sound (rule ∷ rest) st u s =
      Ensures-bind _ _
        λ st' e. reverse_rules-Sound rest st' u.1 ((reverse_by-Sound rule st u.0 s).at st' e)

  emit_edges-Sound :
      (rule : Rule) (edges : List Edge) (st : Emitted)
      → IsUsable rules rule
      → All (IsStep host triples rule (depth_limit rule.max_depth max_depth)) edges
      → Sound st
      → Sound (
          emit_edges host triples onto_version max_depth max_iterations max_candidates rule edges
            st)
  unfolding emit_edges candidate_of
  emit_edges-Sound rule [] st u h s = s
  emit_edges-Sound rule (e ∷ rest) st u h s = emit_edges-Sound rule rest _ u h.1 (
      derive-Sound rule e.tail (derived_predicate_for host rule) e.head e.premises e.depth st
        (λ interval. record {
          rule = rule;
          listed = u.listed;
          enabled = u.enabled;
          proof = inr (record {
            premises = e.premises;
            premised = h.0.path.premised;
            linked = h.0.path.linked;
            predicate = refl;
            counted = h.0.path.counted;
            capped = h.0.capped;
            consistent = h.0.consistent;
            ids = refl;
          });
        })
        s)

  All-IsPath :
      (rule : Rule) (depth_cap : ℕ) (edges : List Edge)
      → All (IsStep host triples rule depth_cap) edges
      → All (IsPath host triples rule) edges
  All-IsPath rule depth_cap [] h = tt
  All-IsPath rule depth_cap (e ∷ rest) h = (h.0.path, All-IsPath rule depth_cap rest h.1)

  iterate-Sound :
      (n : ℕ) (rule : Rule) (base reached frontier : List Edge) (st : Emitted)
      → IsUsable rules rule
      → All (IsBaseEdge host triples rule) base
      → All (IsPath host triples rule) frontier
      → Sound st
      → Sound (
          iterate host triples onto_version max_depth max_iterations max_candidates n rule
            (depth_limit rule.max_depth max_depth)
            base
            reached
            frontier
            st)
  unfolding iterate
  iterate-Sound zero rule base reached frontier st u b f s = s
  iterate-Sound (suc n) rule base reached frontier st u b f s =
      (elim (extend_all (depth_limit rule.max_depth max_depth) reached base frontier [])
          as (λ new.
            All (IsStep host triples rule (depth_limit rule.max_depth max_depth)) new
            → Sound (elim new [
              | [] ↦ st
              | e ∷ rest ↦
                  iterate host triples onto_version max_depth max_iterations max_candidates n rule
                    (depth_limit rule.max_depth max_depth) base (reached ++ e ∷ rest) (e ∷ rest)
                    (emit_edges host triples onto_version max_depth max_iterations max_candidates
                      rule (e ∷ rest) st)
            ])) [
              | [] ↦ λ h. s
              | e ∷ rest ↦ λ h.
                  iterate-Sound n rule base (reached ++ e ∷ rest) (e ∷ rest) _ u b
                    (All-IsPath rule (depth_limit rule.max_depth max_depth) (e ∷ rest) h)
                    (emit_edges-Sound rule (e ∷ rest) st u h s)
            ])
        (extend_all-IsStep host triples rule (depth_limit rule.max_depth max_depth) reached base
          frontier [] f b tt)

  All-IsPath_of_base :
      (rule : Rule) (edges : List Edge)
      → All (IsBaseEdge host triples rule) edges
      → All (IsPath host triples rule) edges
  All-IsPath_of_base rule [] h = tt
  All-IsPath_of_base rule (e ∷ rest) h = (h.0.path, All-IsPath_of_base rule rest h.1)

  pub close_rules-Sound :
      (rest : List Rule) (st : Emitted)
      → All (IsUsable rules) rest
      → Sound st
      → Sound
          (close_rules host triples onto_version max_depth max_iterations max_candidates rest st)
  unfolding close_rules close_rule
  close_rules-Sound [] st u s = s
  close_rules-Sound (rule ∷ rest) st u s =
      let base = base_from host rule triples [] in
      let b = base_from-IsBaseEdge host triples rule triples [] (All-Mem_self triples) tt in
      close_rules-Sound rest _ u.1 (
        iterate-Sound (min max_iterations (depth_limit rule.max_depth max_depth)) rule base base
          base st u.0 b (All-IsPath_of_base rule base b) s)
