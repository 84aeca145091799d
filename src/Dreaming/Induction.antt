-- ===== src/Dreaming/Induction.antt =====
-- induce_rules_from_triples and filter_base_triples of skills/dreaming/scripts/dream_ontology.py:
-- how many observed pairs support a rule, with the first of them as an example. `decimal` is the text
-- of a number, which Python's str gives.
use Prim.Native.String.{◌++◌ as concat}
use mathlib.Core.List.{◌++◌}
use copilot_mempalace.Prelude.{
  ℕ, String, Bool, not, ◌&&◌, ◌||◌, Option, none, some, List, [], ◌∷◌, leb, max, length, ◌==◌, add,
  contains, select, string_eq, pair_eq, if◌then◌else◌,
}
use copilot_mempalace.Prelude.Dict.{Dict, keys}
use copilot_mempalace.Prelude.Dict
use copilot_mempalace.Prelude.Sort.{sort}
use copilot_mempalace.Prelude.Text.{text_le}
use copilot_mempalace.Dreaming.Records.{Key}
use copilot_mempalace.Dreaming.Ontology.{
  Observation, RuleCandidate, Rules, add_rule, inverse_rule, rules_sorted_by_id, symmetric_rule,
  transitive_rule,
}

abbrev pub Pair : Type 0
Pair = String × String

abbrev pub pairs_or_empty {ℓ} : {A : Type ℓ} → Option (List A) → List A
pairs_or_empty none = []
pairs_or_empty (some xs) = xs

-- _triple_endpoint: the name, or else the id
abbrev pub endpoint : Option String → Option String → Option String
endpoint none id = id
endpoint (some name) id = some name

abbrev pub add_key : Option String → Option String → Option String → List Key → List Key
add_key (some subject) (some predicate) (some object) set =
    if predicate == "" then set else add (subject, (predicate, object)) set
add_key _ _ _ set = set

-- _triple_set
unfoldable pub triple_set : List Observation → List Key → List Key
triple_set [] set = set
triple_set (t ∷ rest) set =
    triple_set rest
      (add_key (endpoint t.subject t.subject_id) t.predicate (endpoint t.object t.object_id) set)

-- _edges_by_predicate
unfoldable pub edges_by_predicate : List Key → Dict (List Pair) → Dict (List Pair)
edges_by_predicate [] edges = edges
edges_by_predicate ((subject, (predicate, object)) ∷ rest) edges =
    edges_by_predicate rest
      (Dict.put predicate (add (subject, object) (pairs_or_empty (Dict.get predicate edges))) edges)

-- The order of tuples of two texts.
abbrev pub pair_le : Pair → Pair → Bool
pair_le (a, b) (c, d) = if a == c then text_le b d else text_le a c

abbrev pub in_order : Pair → Pair
in_order (a, b) = if text_le a b then (a, b) else (b, a)

-- The set of pairs of _symmetric_support.
unfoldable pub symmetric_pairs : List Pair → List Pair → List Pair
symmetric_pairs all [] = []
symmetric_pairs all ((subject, object) ∷ rest) =
    let others = symmetric_pairs all rest in
    if subject == object || not (contains (object, subject) all)
    then others
    else add (in_order (subject, object)) others

abbrev first_text {ℓ} : {A : Type ℓ} → (A → String) → List A → String
first_text show [] = ""
first_text show (x ∷ rest) = show x

abbrev show_symmetric : Pair → String
show_symmetric (a, b) = concat a (concat "<->" b)

-- _symmetric_support
unfoldable pub symmetric_support : List Pair → ℕ × String
unfolding symmetric_pairs
symmetric_support edges =
    let pairs = symmetric_pairs edges edges in
    (length pairs, first_text show_symmetric (sort pair_le pairs))

abbrev pub is_inverted : List Pair → Pair → Bool
is_inverted inverse_edges (subject, object) =
    not (subject == object) && contains (object, subject) inverse_edges

abbrev show_inverse : String → String → Pair → String
show_inverse predicate inverse (subject, object) = concat subject (
    concat " " (
      concat predicate (
        concat " " (
          concat object
            (concat " <-> " (concat object (concat " " (concat inverse (concat " " subject)))))))))

-- _inverse_support
unfoldable pub inverse_support : List Pair → String → List Pair → String → ℕ × String
inverse_support edges predicate inverse_edges inverse =
    let evidence = select (is_inverted inverse_edges) (sort pair_le edges) in
    (length evidence, first_text (show_inverse predicate inverse) evidence)

-- adjacency
unfoldable pub adjacency : List Pair → Dict (List String) → Dict (List String)
adjacency [] near = near
adjacency ((subject, object) ∷ rest) near =
    adjacency rest (Dict.put subject (add object (pairs_or_empty (Dict.get subject near))) near)

abbrev pub sorted_heads : Dict (List String) → String → List String
sorted_heads near id = sort text_le (pairs_or_empty (Dict.get id near))

abbrev pub are_three : String → String → String → Bool
are_three a b c = not (a == b) && not (a == c) && not (b == c)

-- The two inner loops over the chains.
unfoldable pub chains_over : String → String → List String → List Key
chains_over subject middle [] = []
chains_over subject middle (object ∷ rest) =
    let others = chains_over subject middle rest in
    if are_three subject middle object then (subject, (middle, object)) ∷ others else others

unfoldable pub chains_from : Dict (List String) → String → List String → List Key
unfolding chains_over
chains_from near subject [] = []
chains_from near subject (middle ∷ rest) =
    chains_over subject middle (sorted_heads near middle) ++ chains_from near subject rest

unfoldable pub chains : Dict (List String) → List String → List Key
unfolding chains_from
chains near [] = []
chains near (subject ∷ rest) =
    chains_from near subject (sorted_heads near subject) ++ chains near rest

abbrev show_chain : Key → String
show_chain (a, (b, c)) = concat a (concat "->" (concat b (concat "->" c)))

-- _transitive_support
unfoldable pub transitive_support : List Pair → ℕ × String
unfolding adjacency chains
transitive_support edges =
    let near = adjacency edges [] in
    let found = chains near (sort text_le (keys near)) in
    (length found, first_text show_chain found)

abbrev pub edges_of : Dict (List Pair) → String → List Pair
edges_of edges predicate = pairs_or_empty (Dict.get predicate edges)

module _ (decimal : ℕ → String) (min_support : ℕ) where
  abbrev pub symmetric_note : ℕ → String → String
  symmetric_note support example = concat "induced: " (
      concat (decimal support)
        (concat " symmetric pair(s) observed, e.g. " (concat example " — REVIEW")))

  abbrev pub inverse_note : ℕ → String → String
  inverse_note support example = concat "induced: " (
      concat (decimal support)
        (concat " inverse co-occurrence(s), e.g. " (concat example " — REVIEW")))

  abbrev pub transitive_note : ℕ → String → String
  transitive_note support example = concat "induced: " (
      concat (decimal support) (
        concat
          " chain(s) observed; transitivity CANNOT be confirmed from data — REVIEW carefully (low confidence), e.g. "
          example))

  abbrev pub supported : ℕ × String → (ℕ → String → RuleCandidate) → Rules → Rules
  supported (support, example) rule rules =
      if leb min_support support then add_rule (rule support example) rules else rules

  unfoldable pub induce_symmetric : Dict (List Pair) → List String → Rules → Rules
  unfolding add_rule symmetric_support
  induce_symmetric edges [] rules = rules
  induce_symmetric edges (p ∷ rest) rules = induce_symmetric edges rest (
      supported (symmetric_support (edges_of edges p))
        (λ support example. symmetric_rule p (symmetric_note support example)) rules)

  unfoldable pub induce_inverse_of : Dict (List Pair) → String → List String → Rules → Rules
  unfolding add_rule inverse_support
  induce_inverse_of edges p [] rules = rules
  induce_inverse_of edges p (q ∷ rest) rules = induce_inverse_of edges p rest (
      supported (inverse_support (edges_of edges p) p (edges_of edges q) q)
        (λ support example. inverse_rule p q (inverse_note support example)) rules)

  unfoldable pub induce_inverse : Dict (List Pair) → List String → Rules → Rules
  unfolding induce_inverse_of
  induce_inverse edges [] rules = rules
  induce_inverse edges (p ∷ rest) rules =
      induce_inverse edges rest (induce_inverse_of edges p rest rules)

  unfoldable pub induce_transitive : Dict (List Pair) → List String → Rules → Rules
  unfolding add_rule transitive_support
  induce_transitive edges [] rules = rules
  induce_transitive edges (p ∷ rest) rules = induce_transitive edges rest (
      supported (transitive_support (edges_of edges p))
        (λ support example. transitive_rule p (transitive_note support example)) rules)

-- induce_rules_from_triples
unfoldable pub induce_rules_from_triples : (ℕ → String) → List Observation → ℕ → List RuleCandidate
unfolding triple_set edges_by_predicate induce_symmetric induce_inverse induce_transitive
    rules_sorted_by_id
induce_rules_from_triples decimal triples min_support =
    let least = max 1 min_support in
    let edges = edges_by_predicate (triple_set triples []) [] in
    let predicates = sort text_le (keys edges) in
    rules_sorted_by_id (
      induce_transitive decimal least edges predicates (
        induce_inverse decimal least edges predicates
          (induce_symmetric decimal least edges predicates [])))
