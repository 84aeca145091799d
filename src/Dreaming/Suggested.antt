-- ===== src/Dreaming/Suggested.antt =====
-- What a rule candidate promises (skills/dreaming/scripts/dream_ontology.py): it is disabled, and it
-- is about the predicates or the triples it comes from.
use mathlib.Core.List.{◌++◌}
use copilot_mempalace.Prelude.{
  ◌≡◌, String, Bool, true, false, ◌&&◌, ◌||◌, Option, none, some, List, [], ◌∷◌, All, ◌==◌, add,
  contains, refl, arith, inl, inr, string_eq, pair_eq, Bool-cases, eq_iff, if◌then◌else◌,
}
use copilot_mempalace.Prelude.Dict.{Dict, values, keys}
use copilot_mempalace.Prelude.Dict
use copilot_mempalace.Prelude.Sort.{sort}
use copilot_mempalace.Prelude.Every.{All-sort}
use copilot_mempalace.Dreaming.Ontology.{
  RuleCandidate, Rules, add_passive, add_rule, by_id, by_name, by_pairs, by_passive,
  of_inverse_pairs, predicate_set, rules_sorted_by_id, suggest_rules_from_predicates,
  symmetric_predicates, transitive_predicates, without_by,
}

module _ (P : RuleCandidate → Type 0) where
  -- Each rule of a dictionary.
  abbrev pub Each : Rules → Type 0
  Each rules = All (λ e. P e.1) rules

  Each-put :
      (k : String) (r : RuleCandidate) (rules : Rules)
      → Each rules
      → P r
      → Each (Dict.put k r rules)
  unfolding Dict.put
  Each-put k r [] h p = (p, tt)
  Each-put k r ((i, q) ∷ rest) h p = elim (Bool-cases (i == k)) [
    | inl t ↦ rw t (p, h.1)
    | inr f ↦ rw f (h.0, Each-put k r rest h.1 p)
  ]

  pub Each-add_rule :
      (r : RuleCandidate) (rules : Rules) → Each rules → P r → Each (add_rule r rules)
  unfolding add_rule
  Each-add_rule r rules h p = elim (Bool-cases (Dict.has r.id rules)) [
    | inl t ↦ rw t h
    | inr f ↦ rw f (Each-put r.id r rules h p)
  ]

  pub Each-if :
      (test : Bool) (r : RuleCandidate) (rules : Rules)
      → Each rules
      → (test ≡ true → P r)
      → Each (if test then add_rule r rules else rules)
  Each-if true r rules h p = Each-add_rule r rules h (p refl)
  Each-if false r rules h p = h

  All-values : (rules : Rules) → Each rules → All P (values rules)
  All-values [] h = tt
  All-values ((k, r) ∷ rest) h = (h.0, All-values rest h.1)

  pub All-rules_sorted_by_id : (rules : Rules) → Each rules → All P (rules_sorted_by_id rules)
  unfolding rules_sorted_by_id
  All-rules_sorted_by_id rules h =
      All-values (sort by_id rules) (All-sort (λ e. P e.1) by_id rules h)

abbrev pub IsKnown : Option String → List String → Type 0
IsKnown none predicates = Unit
IsKnown (some p) predicates = contains p predicates ≡ true

-- Disabled, and about given predicates only.
pub record IsSuggested (predicates : List String) (r : RuleCandidate) : Type 0 where
  pub disabled : r.enabled ≡ false
  pub known : contains r.predicate predicates ≡ true
  pub inverse : IsKnown r.inverse_predicate predicates

module _ (all : List String) where
  abbrev Suggests : Rules → Type 0
  Suggests rules = Each (IsSuggested all) rules

  abbrev Listed : List String → Type 0
  Listed rest = All (λ p. contains p all ≡ true) rest

  by_name-Suggests :
      (rest : List String) (rules : Rules)
      → Listed rest
      → Suggests rules
      → Suggests (by_name rest rules)
  unfolding by_name
  by_name-Suggests [] rules m h = h
  by_name-Suggests (p ∷ rest) rules m h = by_name-Suggests rest _ m.1 (
      Each-if (IsSuggested all) (contains p symmetric_predicates) _ _
        (Each-if (IsSuggested all) (contains p transitive_predicates) _ _ h
          (λ _. record { disabled = refl; known = m.0; inverse = tt }))
        (λ _. record { disabled = refl; known = m.0; inverse = tt }))

  add_passive-Suggests :
      (p : String) (active : Option String) (rules : Rules)
      → contains p all ≡ true
      → Suggests rules
      → Suggests (add_passive all p active rules)
  add_passive-Suggests p none rules m h = h
  add_passive-Suggests p (some active) rules m h =
      Each-if (IsSuggested all) (contains active all) _ _ h
        (λ t. record { disabled = refl; known = t; inverse = m })

  by_passive-Suggests :
      (rest : List String) (rules : Rules)
      → Listed rest
      → Suggests rules
      → Suggests (by_passive all rest rules)
  unfolding by_passive
  by_passive-Suggests [] rules m h = h
  by_passive-Suggests (p ∷ rest) rules m h =
      by_passive-Suggests rest _ m.1 (add_passive-Suggests p (without_by p) rules m.0 h)

  by_pairs-Suggests :
      (pairs : List (String × String)) (rules : Rules)
      → Suggests rules
      → Suggests (by_pairs all pairs rules)
  unfolding by_pairs
  by_pairs-Suggests [] rules h = h
  by_pairs-Suggests ((p, q) ∷ rest) rules h = by_pairs-Suggests rest _ (
      Each-if (IsSuggested all) (contains p all && contains q all) _ _ h
        (λ t. record { disabled = refl; known = ground arith; inverse = ground arith }))

pub contains-add :
    (p x : String) (xs : List String) → contains p (add x xs) ≡ (contains p xs || x == p)
contains-add p x xs = ground (arith, contains-append_one p x xs, eq_iff x p)
  where
    contains-append_one :
        (p x : String) (xs : List String) → contains p (xs ++ x ∷ []) ≡ (contains p xs || x == p)
    contains-append_one p x [] = ground arith
    contains-append_one p x (y ∷ ys) = ground (arith, contains-append_one p x ys)

contains-predicate_set :
    (p : String) (predicates : List String)
    → contains p (predicate_set predicates) ≡ true
    → contains p predicates ≡ true
unfolding predicate_set
contains-predicate_set p [] h = h
contains-predicate_set p (q ∷ rest) h =
    ground (arith, contains-add p q (predicate_set rest), contains-predicate_set p rest)

All-contains : (all xs : List String) (y : String) → Listed all xs → Listed (y ∷ all) xs
All-contains all [] y h = tt
All-contains all (x ∷ xs) y h = (ground (arith, h.0), All-contains all xs y h.1)

Listed-self : (xs : List String) → Listed xs xs
Listed-self [] = tt
Listed-self (x ∷ xs) = (ground (arith, eq_iff x x), All-contains xs xs x (Listed-self xs))

IsKnown-predicate_set :
    (p : Option String) (predicates : List String)
    → IsKnown p (predicate_set predicates)
    → IsKnown p predicates
IsKnown-predicate_set none predicates h = tt
IsKnown-predicate_set (some p) predicates h = contains-predicate_set p predicates h

All-predicate_set :
    (predicates : List String) (rules : List RuleCandidate)
    → All (IsSuggested (predicate_set predicates)) rules
    → All (IsSuggested predicates) rules
All-predicate_set predicates [] h = tt
All-predicate_set predicates (r ∷ rest) h = (
  record {
    disabled = h.0.disabled;
    known = contains-predicate_set r.predicate predicates h.0.known;
    inverse = IsKnown-predicate_set r.inverse_predicate predicates h.0.inverse;
  },
  All-predicate_set predicates rest h.1,
)

-- Each rule that is suggested for a list of predicates is disabled, and its predicate and its inverse
-- predicate, where it has one, are in the list.
pub suggest_rules_from_predicates-IsSuggested :
    (predicates : List String)
    → All (IsSuggested predicates) (suggest_rules_from_predicates predicates)
unfolding suggest_rules_from_predicates
suggest_rules_from_predicates-IsSuggested predicates =
    let all = predicate_set predicates in
    let listed = Listed-self all in
    let named = by_name-Suggests all all [] listed tt in
    let passive = by_passive-Suggests all all (by_name all []) listed named in
    All-predicate_set predicates
      (rules_sorted_by_id (by_pairs all of_inverse_pairs (by_passive all all (by_name all []))))
      (All-rules_sorted_by_id (IsSuggested all) _
        (by_pairs-Suggests all of_inverse_pairs _ passive))
