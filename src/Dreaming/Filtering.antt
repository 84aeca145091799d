-- ===== src/Dreaming/Filtering.antt =====
-- What is induced from the triples that filter_base_triples of
-- skills/dreaming/scripts/dream_ontology.py leaves.
use copilot_mempalace.Prelude.{
  ℕ, ◌≡◌, subst, arith, String, true, false, Option, none, some, List, [], ◌∷◌, All, leb, max,
  select, contains, add, inl, inr, ◌==◌, string_eq, pair_eq, Bool-cases,
}
use copilot_mempalace.Prelude.Dict.{Dict, keys}
use copilot_mempalace.Prelude.Dict
use copilot_mempalace.Prelude.Sort.{sort}
use copilot_mempalace.Prelude.Every.{All-append_one, All-sort}
use copilot_mempalace.Prelude.Text.{text_le}
use text.Mathlib.TextEquality.{eq_iff}
use copilot_mempalace.Dreaming.Records.{Key}
use copilot_mempalace.Dreaming.Ontology.{
  Observation, RuleCandidate, Rules, inverse_rule, symmetric_rule, transitive_rule,
}
use copilot_mempalace.Dreaming.Induction.{
  Pair, add_key, edges_by_predicate, edges_of, endpoint, induce_inverse, induce_inverse_of,
  induce_rules_from_triples, induce_symmetric, induce_transitive, inverse_note, inverse_support,
  supported, symmetric_note, symmetric_support, transitive_note, transitive_support, triple_set,
}
use copilot_mempalace.Dreaming.Suggested.{All-rules_sorted_by_id, Each, Each-if}
use copilot_mempalace.Dreaming.BaseTriples.{
  IsBaseOf, derived_predicates, filter_base_triples, is_base_name, is_base_name-IsBaseOf,
  is_base_triple,
}

module _ (rules : List RuleCandidate) where
  abbrev IsTested : String → Type 0
  IsTested p = is_base_name (derived_predicates rules) p ≡ true

  abbrev IsBase : String → Type 0
  IsBase p = IsBaseOf rules p

  -- The predicate of a triple, where it has one.
  abbrev IsTestedOrNone : Option String → Type 0
  IsTestedOrNone none = Unit
  IsTestedOrNone (some p) = IsTested p

  base_of_test :
      (predicate : Option String)
      → (elim predicate [ none ↦ false | some p ↦ is_base_name (derived_predicates rules) p ])
        ≡ true
      → IsTestedOrNone predicate
  base_of_test none h = tt
  base_of_test (some p) h = h

  select-IsTested :
      (triples : List Observation)
      → All
          (λ t. IsTestedOrNone t.predicate)
          (select (is_base_triple (derived_predicates rules)) triples)
  select-IsTested [] = tt
  select-IsTested (t ∷ rest) = elim (Bool-cases (is_base_triple (derived_predicates rules) t)) [
    | inl e ↦ rw e (base_of_test t.predicate e, select-IsTested rest)
    | inr e ↦ rw e (select-IsTested rest)
  ]

  abbrev AreBase : List Key → Type 0
  AreBase set = All (λ k. IsBase k.1.0) set

  add-AreBase : (k : Key) (set : List Key) → IsBase k.1.0 → AreBase set → AreBase (add k set)
  add-AreBase k set p h = elim (Bool-cases (contains k set)) [
    | inl e ↦ rw e h
    | inr e ↦ rw e (All-append_one (λ j. IsBase j.1.0) set k h p)
  ]

  add_key-AreBase :
      (subject predicate object : Option String) (set : List Key)
      → IsTestedOrNone predicate
      → AreBase set
      → AreBase (add_key subject predicate object set)
  add_key-AreBase none none none set b h = h
  add_key-AreBase none none (some o) set b h = h
  add_key-AreBase none (some p) none set b h = h
  add_key-AreBase none (some p) (some o) set b h = h
  add_key-AreBase (some s) none none set b h = h
  add_key-AreBase (some s) none (some o) set b h = h
  add_key-AreBase (some s) (some p) none set b h = h
  add_key-AreBase (some s) (some p) (some o) set b h = elim (Bool-cases (p == "")) [
    | inl e ↦ rw e h
    | inr e ↦ rw e (
        add-AreBase (s, (p, o)) set
          (is_base_name-IsBaseOf rules p (λ q. ground (arith, eq_iff p "")) b) h)
  ]

  triple_set-AreBase :
      (triples : List Observation) (set : List Key)
      → All (λ t. IsTestedOrNone t.predicate) triples
      → AreBase set
      → AreBase (triple_set triples set)
  unfolding triple_set
  triple_set-AreBase [] set b h = h
  triple_set-AreBase (t ∷ rest) set b h = triple_set-AreBase rest _ b.1 (
      add_key-AreBase (endpoint t.subject t.subject_id) t.predicate (endpoint t.object t.object_id)
        set b.0 h)

  keys-put :
      (p : String) (v : List Pair) (d : Dict (List Pair))
      → IsBase p
      → All IsBase (keys d)
      → All IsBase (keys (Dict.put p v d))
  unfolding Dict.put
  keys-put p v [] b h = (b, tt)
  keys-put p v ((k, w) ∷ rest) b h = elim (Bool-cases (k == p)) [
    | inl e ↦ rw e h
    | inr e ↦ rw e (h.0, keys-put p v rest b h.1)
  ]

  keys-edges_by_predicate :
      (set : List Key) (edges : Dict (List Pair))
      → AreBase set
      → All IsBase (keys edges)
      → All IsBase (keys (edges_by_predicate set edges))
  unfolding edges_by_predicate
  keys-edges_by_predicate [] edges b h = h
  keys-edges_by_predicate ((s, (p, o)) ∷ rest) edges b h =
      keys-edges_by_predicate rest _ b.1 (keys-put p _ edges b.0 h)

  -- The rule's predicate is a base predicate, and so is its inverse predicate, where it has one.
  pub record IsAboutBase (r : RuleCandidate) : Type 0 where
    pub predicate : IsBaseOf rules r.predicate
    pub inverse : (q : String) → r.inverse_predicate ≡ some q → IsBaseOf rules q

  module _ (decimal : ℕ → String) (least : ℕ) (edges : Dict (List Pair)) where
    supported-IsAboutBase :
        (support : ℕ × String) (rule : ℕ → String → RuleCandidate) (found : Rules)
        → Each IsAboutBase found
        → IsAboutBase (rule support.0 support.1)
        → Each IsAboutBase (supported decimal least support rule found)
    supported-IsAboutBase (support, example) rule found h p =
        Each-if IsAboutBase (leb least support) (rule support example) found h (λ _. p)

    symmetric-IsAboutBase :
        (predicates : List String) (found : Rules)
        → All IsBase predicates
        → Each IsAboutBase found
        → Each IsAboutBase (induce_symmetric decimal least edges predicates found)
    unfolding induce_symmetric
    symmetric-IsAboutBase [] found b h = h
    symmetric-IsAboutBase (p ∷ rest) found b h = symmetric-IsAboutBase rest _ b.1 (
        supported-IsAboutBase (symmetric_support (edges_of edges p))
          (λ n example. symmetric_rule p (symmetric_note decimal least n example)) found h
          (record { predicate = b.0; inverse = λ q e. cc }))

    inverse_of-IsAboutBase :
        (p : String) (others : List String) (found : Rules)
        → IsBase p
        → All IsBase others
        → Each IsAboutBase found
        → Each IsAboutBase (induce_inverse_of decimal least edges p others found)
    unfolding induce_inverse_of
    inverse_of-IsAboutBase p [] found c b h = h
    inverse_of-IsAboutBase p (q ∷ rest) found c b h = inverse_of-IsAboutBase p rest _ c b.1 (
        supported-IsAboutBase (inverse_support (edges_of edges p) p (edges_of edges q) q)
          (λ n example. inverse_rule p q (inverse_note decimal least n example)) found h
          (record { predicate = c; inverse = λ r e. subst (IsBaseOf rules) (cc) b.0 }))

    inverse-IsAboutBase :
        (predicates : List String) (found : Rules)
        → All IsBase predicates
        → Each IsAboutBase found
        → Each IsAboutBase (induce_inverse decimal least edges predicates found)
    unfolding induce_inverse
    inverse-IsAboutBase [] found b h = h
    inverse-IsAboutBase (p ∷ rest) found b h =
        inverse-IsAboutBase rest _ b.1 (inverse_of-IsAboutBase p rest found b.0 b.1 h)

    transitive-IsAboutBase :
        (predicates : List String) (found : Rules)
        → All IsBase predicates
        → Each IsAboutBase found
        → Each IsAboutBase (induce_transitive decimal least edges predicates found)
    unfolding induce_transitive
    transitive-IsAboutBase [] found b h = h
    transitive-IsAboutBase (p ∷ rest) found b h = transitive-IsAboutBase rest _ b.1 (
        supported-IsAboutBase (transitive_support (edges_of edges p))
          (λ n example. transitive_rule p (transitive_note decimal least n example)) found h
          (record { predicate = b.0; inverse = λ q e. cc }))

-- A rule that is induced from the triples that the filter leaves is about base predicates only:
-- neither its predicate nor its inverse predicate is empty, or ends with "_closure", or is the derived
-- or the inverse predicate of one of the rules that the filter is given.
pub induce_rules_from_triples-filter_base_triples :
    (decimal : ℕ → String) (triples : List Observation) (rules : List RuleCandidate)
    (min_support : ℕ)
    → All
        (IsAboutBase rules)
        (induce_rules_from_triples decimal (filter_base_triples triples rules) min_support)
unfolding induce_rules_from_triples filter_base_triples
induce_rules_from_triples-filter_base_triples decimal triples rules min_support =
    let kept = select (is_base_triple (derived_predicates rules)) triples in
    let edges = edges_by_predicate (triple_set kept []) [] in
    let least = max 1 min_support in
    let predicates = sort text_le (keys edges) in
    let based = All-sort (IsBaseOf rules) text_le (keys edges) (
      keys-edges_by_predicate rules (triple_set kept []) []
        (triple_set-AreBase rules kept [] (select-IsTested rules triples) tt) tt) in
    All-rules_sorted_by_id (IsAboutBase rules) _ (
      transitive-IsAboutBase rules decimal least edges predicates _ based (
        inverse-IsAboutBase rules decimal least edges predicates _ based
          (symmetric-IsAboutBase rules decimal least edges predicates [] based tt)))
