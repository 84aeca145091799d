-- ===== src/Dreaming/BaseTriples.antt =====
-- filter_base_triples of skills/dreaming/scripts/dream_ontology.py: the triples whose predicate is not
-- a derived one, and what a base predicate is.
use copilot_mempalace.Prelude.{
  ◌≡◌, ◌≢◌, refl, subst, sym, ◌∙◌, if◌then◌else◌, arith, String, Bool, true, false, not, ◌||◌,
  Option, none, some, List, [], ◌∷◌, All, select, contains, add, inl, inr, ◌==◌, string_eq, pair_eq,
  Bool-cases,
}
use Prim.Native.String.{◌++◌ as concat}
use Prim.Native.String.append
use text.Mathlib.TextEquality.{eq_iff}
use copilot_mempalace.Dreaming.Predicates.{truthy}
use copilot_mempalace.Dreaming.Ontology.{Observation, RuleCandidate}
use copilot_mempalace.Dreaming.Suggested.{contains-add}

-- predicate.endswith("_closure")
unfoldable pub ends_with_closure : String → Bool
ends_with_closure String.[] = false
ends_with_closure (String.◌∷◌ c s) = String.◌∷◌ c s == "_closure" || ends_with_closure s

abbrev add_name : Option String → List String → List String
add_name none names = names
add_name (some p) names = add p names

-- derived_predicates
unfoldable pub derived_predicates : List RuleCandidate → List String
derived_predicates [] = []
derived_predicates (r ∷ rest) =
    add_name (truthy r.inverse_predicate)
      (add_name (truthy r.derived_predicate) (derived_predicates rest))

abbrev pub is_base_name : List String → String → Bool
is_base_name derived p = not (ends_with_closure p || contains p derived)

abbrev pub is_base_triple : List String → Observation → Bool
is_base_triple derived t = elim t.predicate [ none ↦ false | some p ↦ is_base_name derived p ]

unfoldable pub filter_base_triples : List Observation → List RuleCandidate → List Observation
unfolding derived_predicates
filter_base_triples triples rules = select (is_base_triple (derived_predicates rules)) triples

-- The rule neither derives the predicate nor has it as its inverse.
pub record DoesNotGive (p : String) (r : RuleCandidate) : Type 0 where
  pub derived : r.derived_predicate ≢ some p
  pub inverse : r.inverse_predicate ≢ some p

-- The predicate is not empty, does not end with "_closure", and no rule of the list gives it.
pub record IsBaseOf (rules : List RuleCandidate) (p : String) : Type 0 where
  pub nonempty : p ≢ ""
  pub no_closure : (s : String) → p ≢ concat s "_closure"
  pub not_given : All (DoesNotGive p) rules

ends_with_closure-append : (s : String) → ends_with_closure (concat s "_closure") ≡ true
unfolding ends_with_closure
ends_with_closure-append String.[] = refl
ends_with_closure-append (String.◌∷◌ c s) =
    rw append.cons (ground (arith, ends_with_closure-append s))

contains-add_name :
    (p : String) (name : Option String) (names : List String)
    → p ≢ ""
    → contains p (add_name (truthy name) names) ≡ false
    → (name ≢ some p) × (contains p names ≡ false)
contains-add_name p none names n h = (λ e. cc, h)
contains-add_name p (some q) names n h = elim (Bool-cases (q == "")) [
  | inl e ↦ (
    λ same. let empty = (eq_iff q "").0 e in n (sym (some-injective same) ∙ empty),
    subst (λ b. contains p (add_name (if b then none else some q) names) ≡ false) e h,
  )
  | inr e ↦
      let added : contains p (add q names) ≡ false =
        subst (λ b. contains p (add_name (if b then none else some q) names) ≡ false) e h in
      ground (arith, eq_iff q p, contains-add p q names)
]
  where
    some-injective : {x y : String} → some x ≡ some y → x ≡ y
    some-injective e = cc

derived_predicates-DoesNotGive :
    (p : String) (rules : List RuleCandidate)
    → p ≢ ""
    → contains p (derived_predicates rules) ≡ false
    → All (DoesNotGive p) rules
unfolding derived_predicates
derived_predicates-DoesNotGive p [] n h = tt
derived_predicates-DoesNotGive p (r ∷ rest) n h =
    let inverse = contains-add_name p r.inverse_predicate _ n h in
    let derives = contains-add_name p r.derived_predicate _ n inverse.1 in
    (
      record { derived = derives.0; inverse = inverse.0 },
      derived_predicates-DoesNotGive p rest n derives.1,
    )

pub is_base_name-IsBaseOf :
    (rules : List RuleCandidate) (p : String)
    → p ≢ ""
    → is_base_name (derived_predicates rules) p ≡ true
    → IsBaseOf rules p
is_base_name-IsBaseOf rules p n h = record {
  nonempty = n;
  no_closure = λ s e. ground (arith, ends_with_closure-append s);
  not_given = derived_predicates-DoesNotGive p rules n (ground arith);
}
