-- ===== src/Dreaming/Derived.antt =====
-- deductive_closure: what it derives is proved by listed triples, new, and no more than asked for.
use mathlib.Core.List.{Mem}
use copilot_mempalace.Prelude.{
  ℕ, ◌≤◌, ◌≡◌, String, Bool, true, false, List, [], ◌∷◌, All, distinct, is_empty, length, map, refl,
  sym, ap, ◌∙◌, subst, arith, string_eq, pair_eq, Bool-cases, inl, inr, select,
}
use copilot_mempalace.Prelude.Dict.{values}
use copilot_mempalace.Model.{ok}
use copilot_mempalace.Model.Ensures.{Ensures, Ensures-bind, Ensures-if, Ensures-ok}
use copilot_mempalace.Dreaming.Records.{Candidate, Host, Key, Rule, Triple}
use copilot_mempalace.Dreaming.Predicates.{
  enabled_rules, is_enabled, ontology_version, triple_id_key,
}
use copilot_mempalace.Dreaming.Closure.{
  Emitted, conclusion_key, deductive_closure, derive_all, is_transitive, mark, marked,
  nothing_emitted,
}
use copilot_mempalace.Dreaming.Emission.{IsFresh, nothing-IsSound}
use copilot_mempalace.Dreaming.Proofs.{All-Mem_self}
use copilot_mempalace.Dreaming.Derivations.{IsDerived, IsUsable}
use copilot_mempalace.Dreaming.Passes.{Sound, close_rules-Sound, reverse_rules-Sound}

All-IsUsable :
    (rules rest : List Rule)
    → All (λ r. Mem r rules) rest
    → All (IsUsable rules) (enabled_rules rest)
unfolding enabled_rules
All-IsUsable rules [] m = tt
All-IsUsable rules (r ∷ rest) m =
    let others = All-IsUsable rules rest m.1 in
    elim (Bool-cases (is_enabled r)) [
      | inl t ↦ rw t (record { listed = m.0; enabled = ground arith }, others)
      | inr f ↦ rw f others
    ]

All-select :
    (rules rest : List Rule)
    → All (IsUsable rules) rest
    → All (IsUsable rules) (select is_transitive rest)
All-select rules [] u = tt
All-select rules (r ∷ rest) u =
    let others = All-select rules rest u.1 in
    elim (Bool-cases (is_transitive r)) [ inl t ↦ rw t (u.0, others) | inr f ↦ rw f others ]

module _ (host : Host) (triples : List Triple) (rules : List Rule) (max_depth : ℕ) where
  mark-IsDerived :
      (c : Candidate)
      → IsDerived host triples rules max_depth c
      → IsDerived host triples rules max_depth (mark c)
  mark-IsDerived c d = record {
    rule = d.rule;
    listed = d.listed;
    enabled = d.enabled;
    proof = elim d.proof [
      | inl r ↦ inl (record {
        premise = r.premise;
        listed = r.listed;
        applies = r.applies;
        subject = r.subject;
        object = r.object;
        ids = r.ids;
        predicate = r.predicate;
      })
      | inr k ↦ inr (record {
        premises = k.premises;
        premised = k.premised;
        linked = k.linked;
        predicate = k.predicate;
        counted = k.counted;
        capped = k.capped;
        consistent = k.consistent;
        ids = k.ids;
      })
    ];
  }

  marked-IsDerived :
      (truncated : Bool) (cs : List Candidate)
      → All (IsDerived host triples rules max_depth) cs
      → All (IsDerived host triples rules max_depth) (marked truncated cs)
  marked-IsDerived false cs h = h
  marked-IsDerived true [] h = tt
  marked-IsDerived true (c ∷ rest) h = (mark-IsDerived c h.0, marked-IsDerived true rest h.1)

abbrev pub conclusions : Host → List Candidate → List Key
conclusions host cs = map (λ c. conclusion_key host c) cs

conclusions-marked :
    (host : Host) (truncated : Bool) (cs : List Candidate)
    → conclusions host (marked truncated cs) ≡ conclusions host cs
conclusions-marked host false cs = refl
conclusions-marked host true [] = refl
conclusions-marked host true (c ∷ rest) =
    ap (λ ks. conclusion_key host c ∷ ks) (conclusions-marked host true rest)

length-conclusions : (host : Host) (cs : List Candidate) → length (conclusions host cs) ≡ length cs
length-conclusions host [] = refl
length-conclusions host (c ∷ rest) = ground (arith, length-conclusions host rest)

length-values {ℓ} : {V : Type ℓ} (d : List (String × V)) → length (values d) ≡ length d
length-values [] = refl
length-values ((k, v) ∷ rest) = ground (arith, length-values rest)

-- The conclusions are no more than the limit, each is given once, and none is reflexive or active.
pub record AreNew (host : Host) (triples : List Triple) (max_candidates : ℕ) (cs : List Candidate)
    : Type 0 where
  pub bounded : length cs ≤ max_candidates
  pub unique : distinct (conclusions host cs) ≡ true
  pub fresh : All (IsFresh (map (triple_id_key host) triples)) (conclusions host cs)

module _ (host : Host) (triples : List Triple) (rules : List Rule)
    (max_depth max_iterations max_candidates : ℕ) where
  derive_all-Sound :
      Ensures
        (Sound host triples
          (ontology_version host rules)
          max_depth
          max_iterations
          max_candidates
          rules)
        (derive_all host triples
          (ontology_version host rules)
          max_depth
          max_iterations
          max_candidates
          (enabled_rules rules))
  unfolding derive_all
  derive_all-Sound =
      let usable = All-IsUsable rules rules (All-Mem_self rules) in
      Ensures-bind _ _ λ st e. Ensures-ok _ (
        close_rules-Sound host triples (ontology_version host rules) max_depth max_iterations
          max_candidates rules (select is_transitive (enabled_rules rules)) st
          (All-select rules (enabled_rules rules) usable)
          ((reverse_rules-Sound host triples (ontology_version host rules) max_depth max_iterations
              max_candidates rules (enabled_rules rules) nothing_emitted usable
              (nothing-IsSound host _ _ _)).at
            st e))

  marked-AreNew :
      (st : Emitted)
      → Sound host triples
          (ontology_version host rules)
          max_depth
          max_iterations
          max_candidates
          rules
          st
      → AreNew host triples max_candidates (marked st.truncated (values st.out))
  marked-AreNew st s =
      let same = conclusions-marked host st.truncated (values st.out) ∙ s.concluded in
      record {
        bounded = omega (
          arith,
          s.bounded,
          length-values st.out,
          length-conclusions host (values st.out),
          length-conclusions host (marked st.truncated (values st.out)),
          ap length (conclusions-marked host st.truncated (values st.out)),
        );
        unique = subst (λ ks. distinct ks ≡ true) (sym same) s.unique;
        fresh = subst (All (IsFresh (map (triple_id_key host) triples))) (sym same) s.fresh;
      }

  -- Each candidate of a closure that succeeds is proved by an enabled rule of the list: it turns a
  -- listed triple around under the rule's predicates, or it joins the ends of a path of listed
  -- triples of the rule's predicate or of the one it derives, as long as its depth, within the depth
  -- limit, and with a common interval; its premise ids are those of these triples.
  pub deductive_closure-IsDerived :
      (cs : List Candidate)
      → deductive_closure host triples rules max_depth max_iterations max_candidates ≡ ok cs
      → All (IsDerived host triples rules max_depth) cs
  unfolding deductive_closure
  deductive_closure-IsDerived =
      (Ensures-if (is_empty (enabled_rules rules)) _ _ (λ _. Ensures-ok _ tt)
        (λ _. Ensures-bind _ _ λ st e. Ensures-ok _ (
          marked-IsDerived host triples rules max_depth st.truncated (values st.out)
            (derive_all-Sound.at st e).proved))).at

  -- The candidates of a closure that succeeds are at most as many as asked for; no conclusion is
  -- given twice, none relates an id to itself, and none is a listed triple's already.
  pub deductive_closure-AreNew :
      (cs : List Candidate)
      → deductive_closure host triples rules max_depth max_iterations max_candidates ≡ ok cs
      → AreNew host triples max_candidates cs
  unfolding deductive_closure
  deductive_closure-AreNew =
      (Ensures-if (is_empty (enabled_rules rules)) _ _
        (λ _. Ensures-ok _ (record { bounded = ground arith; unique = refl; fresh = tt }))
        (λ _.
          Ensures-bind _ _ λ st e. Ensures-ok _ (marked-AreNew st (derive_all-Sound.at st e)))).at
