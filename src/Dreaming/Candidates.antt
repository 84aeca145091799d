-- ===== src/Dreaming/Candidates.antt =====
-- A candidate from the premises of its proof: the interval in which they all hold, and the weakest
-- of their statuses (skills/dreaming/scripts/dream_lib.py).
use Prim.Native.String.{◌++◌}
use copilot_mempalace.Prelude.{
  ℕ, zero, suc, list_eq, String, Bool, false, ◌&&◌, Option, none, some, List, [], ◌∷◌, leb, ltb,
  min, max, ◌==◌, add, contains, map, string_eq, nat_eq, option_eq, if◌then◌else◌,
}
use copilot_mempalace.Prelude.Dict.{Dict}
use copilot_mempalace.Prelude.Dict
use copilot_mempalace.Prelude.Sort.{sort}
use copilot_mempalace.Prelude.Text.{text_le}
use copilot_mempalace.Dreaming.Records.{Candidate, Host, Key, Rule, Triple}
use copilot_mempalace.Dreaming.Predicates.{normalize_predicate, text_or, truthy}

abbrev pub later : Option ℕ → Option ℕ → Option ℕ
later none b = b
later (some a) none = some a
later (some a) (some b) = some (max a b)

abbrev pub earlier : Option ℕ → Option ℕ → Option ℕ
earlier none b = b
earlier (some a) none = some a
earlier (some a) (some b) = some (min a b)

-- max(starts)
unfoldable pub max_start : List Triple → Option ℕ
max_start [] = none
max_start (p ∷ rest) = later p.valid_from (max_start rest)

-- min(ends)
unfoldable pub min_end : List Triple → Option ℕ
min_end [] = none
min_end (p ∷ rest) = earlier p.valid_to (min_end rest)

abbrev pub interval_of : Option ℕ → Option ℕ → Option (Option ℕ × Option ℕ)
interval_of none end = some (none, end)
interval_of (some start) none = some (some start, none)
interval_of (some start) (some end) = if leb end start then none else some (some start, some end)

unfoldable pub premise_interval : List Triple → Option (Option ℕ × Option ℕ)
unfolding max_start min_end
premise_interval premises = interval_of (max_start premises) (min_end premises)

-- names.setdefault
abbrev name_new : String → Option String → Dict (Option String) → Dict (Option String)
name_new id name names = if Dict.has id names then names else Dict.put id name names

-- The loop of _entity_name_map.
unfoldable pub names_from : List Triple → Dict (Option String) → Dict (Option String)
names_from [] names = names
names_from (t ∷ rest) names =
    names_from rest (name_new t.object_id t.object (name_new t.subject_id t.subject names))

abbrev pub entity_name_map : List Triple → Dict (Option String)
entity_name_map triples = names_from triples []

abbrev pub name_in : Dict (Option String) → String → Option String
name_in names id = elim (Dict.get id names) [ none ↦ none | some name ↦ name ]

-- TRUSTED_STATUSES
abbrev pub trusted_statuses : List String
trusted_statuses = "asserted" ∷ "deduced" ∷ "promoted" ∷ []

-- _STATUS_ORDER
abbrev pub status_order : List String
status_order =
    "unknown" ∷ "abduced" ∷ "materialized_abduced" ∷ "acquired" ∷ "deduced" ∷ "promoted"
    ∷ "asserted" ∷ []

-- The place of a text in a list, which is past its end for a text that is not there.
unfoldable pub place : String → List String → ℕ
place s [] = zero
place s (x ∷ rest) = if x == s then zero else suc (place s rest)

abbrev known_status : String → String
known_status s = if contains s status_order then s else "unknown"

-- The loop of _min_status.
unfoldable pub weakest_from : String → List String → String
unfolding place
weakest_from weakest [] = weakest
weakest_from weakest (s ∷ rest) =
    weakest_from
      (if ltb (place (known_status s) status_order) (place weakest status_order)
        then known_status s
        else weakest)
      rest

-- _min_status
abbrev pub min_status : List String → String
min_status statuses = weakest_from "asserted" statuses

unfoldable pub effective_status : Triple → String
effective_status p =
    text_or (truthy p.inherited_status) (text_or (truthy p.epistemic_status) "asserted")

unfoldable add_all : List String → List String → List String
add_all [] set = set
add_all (x ∷ rest) set = add_all rest (add x set)

abbrev listed_or_empty : Option (List String) → List String
listed_or_empty none = []
listed_or_empty (some xs) = xs

module _ (host : Host) where
  unfoldable pub premise_conditional_on : Triple → List String
  premise_conditional_on p = listed_or_empty (host.loads (text_or (truthy p.conditional_on) "[]"))

  -- The set `conditional`, over the premises and their statuses.
  unfoldable pub conditional_from : List Triple → List String → List String
  unfolding effective_status add_all premise_conditional_on
  conditional_from [] set = set
  conditional_from (p ∷ rest) set =
      let given = add_all (premise_conditional_on p) set in
      conditional_from rest
        (if contains (effective_status p) trusted_statuses then given else add p.triple_id given)

  unfoldable pub derive_candidate_id : Key → String → List String → String → String
  derive_candidate_id (subject_id, (predicate, object_id)) rule_id premise_triple_ids onto_version =
      "derive:"
      ++ host.candidate_digest (subject_id, (normalize_predicate host predicate, object_id)) rule_id
          (sort text_le premise_triple_ids) onto_version

  abbrev is_trusted : List String → String → Bool
  is_trusted conditional inherited = conditional == [] && contains inherited trusted_statuses

  module _ (names : Dict (Option String)) (rule : Rule) (onto_version : String) where
    -- The candidate of premises whose interval is known.
    unfoldable pub candidate_of :
        String → String → String → List Triple → ℕ → Option ℕ × Option ℕ → Candidate
    unfolding conditional_from effective_status derive_candidate_id
    candidate_of subject_id predicate object_id premises depth interval =
        let ids = map (λ p. p.triple_id) premises in
        let conditional_on = sort text_le (conditional_from premises []) in
        let inherited = min_status (map effective_status premises) in
        let trusted = is_trusted conditional_on inherited in
        record {
          candidate_id =
              derive_candidate_id (subject_id, (predicate, object_id)) rule.id ids onto_version;
          conclusion = (subject_id, (predicate, object_id));
          subject = name_in names subject_id;
          object = name_in names object_id;
          rule_id = rule.id;
          family = rule.family;
          predicate = normalize_predicate host rule.predicate;
          depth = depth;
          premise_ids = ids;
          premise_drawer_ids = map (λ p. p.source_drawer_id) premises;
          entailed_given = if trusted then [] else conditional_on;
          confidence = host.least (map (λ p. p.confidence) premises);
          valid_from = interval.0;
          valid_to = interval.1;
          epistemic_status = if trusted then "deduced" else "entailed_given";
          inherited_status = inherited;
          truncated = false;
        }

    -- _mk_candidate
    unfoldable pub mk_candidate : String → String → String → List Triple → ℕ → Option Candidate
    unfolding candidate_of premise_interval
    mk_candidate subject_id predicate object_id premises depth = elim (premise_interval premises) [
      | none ↦ none
      | some interval ↦ some (candidate_of subject_id predicate object_id premises depth interval)
    ]
