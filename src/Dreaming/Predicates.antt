-- ===== src/Dreaming/Predicates.antt =====
-- normalize_predicate, the enabled rules and the version of an ontology
-- (skills/dreaming/scripts/dream_lib.py).
use Prim.Native.Char.{code}
use Prim.Native.String.{◌++◌}
use copilot_mempalace.Prelude.{
  ℕ, String, Bool, false, not, ◌&&◌, ◌||◌, Option, none, some, List, [], ◌∷◌, leb, nat_beq, ◌==◌,
  contains, map, select, string_eq, nat_eq, if◌then◌else◌,
}
use copilot_mempalace.Prelude.Sort.{sort}
use copilot_mempalace.Prelude.Text.{text_le}
use copilot_mempalace.Dreaming.Records.{Host, Rule, RuleText, Triple, Key}

-- [0-9a-z]
abbrev is_word : ℕ → Bool
is_word c = (leb 48 c && leb c 57) || (leb 97 c && leb c 122)

-- re.sub(r"[^0-9a-z]+", "_", s); the flag says that a run of other characters has begun.
unfoldable pub squashed : Bool → String → String
squashed within String.[] = String.[]
squashed within (String.◌∷◌ c s) =
    let rest = squashed (not (is_word (code c))) s in
    if is_word (code c) then String.◌∷◌ c rest else if within then rest else "_" ++ rest

-- s.strip("_") of a text that squashed gives, which has no two of them in a row
unfoldable pub stripped_end : String → String
stripped_end String.[] = String.[]
stripped_end (String.◌∷◌ c s) =
    let rest = stripped_end s in if nat_beq (code c) 95 && rest == "" then "" else String.◌∷◌ c rest

unfoldable pub stripped_start : String → String
stripped_start String.[] = String.[]
stripped_start (String.◌∷◌ c s) =
    let rest = stripped_start s in if nat_beq (code c) 95 then rest else String.◌∷◌ c s

-- A text that is there and not empty.
abbrev pub truthy : Option String → Option String
truthy none = none
truthy (some s) = if s == "" then none else some s

abbrev pub text_or : Option String → String → String
text_or none s = s
text_or (some t) s = t

-- DERIVE_FAMILIES
abbrev pub derive_families : List String
derive_families = "transitive" ∷ "inverse" ∷ "symmetric" ∷ []

abbrev pub is_enabled : Rule → Bool
is_enabled r = r.enabled && contains r.family derive_families

unfoldable pub enabled_rules : List Rule → List Rule
enabled_rules rules = select is_enabled rules

module _ (host : Host) where
  unfoldable pub normalize_predicate : String → String
  unfolding squashed stripped_end stripped_start
  normalize_predicate predicate =
      stripped_end (stripped_start (squashed false (host.lowered predicate)))

  unfoldable pub derived_predicate_for : Rule → String
  derived_predicate_for r = elim (truthy r.derived_predicate) [
    | none ↦ normalize_predicate r.predicate ++ "_closure"
    | some explicit ↦ normalize_predicate explicit
  ]

  abbrev number_or : Option ℕ → ℕ → ℕ
  number_or none n = n
  number_or (some m) n = m

  abbrev normalized_or_empty : Option String → String
  normalized_or_empty none = ""
  normalized_or_empty (some s) = normalize_predicate s

  unfoldable pub rule_text : Rule → RuleText
  rule_text r = record {
    predicate = normalize_predicate r.predicate;
    family = r.family;
    inverse_predicate = normalized_or_empty (truthy r.inverse_predicate);
    derived_predicate = if r.family == "transitive" then derived_predicate_for r else "";
    enabled = r.enabled;
    max_depth = number_or r.max_depth 0;
  }

  -- The order of the tuples that are sorted.
  abbrev text_lt : String → String → Bool
  text_lt a b = text_le a b && not (a == b)

  unfoldable pub rule_text_le : RuleText → RuleText → Bool
  rule_text_le a b =
      text_lt a.predicate b.predicate
      || (a.predicate == b.predicate
          && (text_lt a.family b.family
              || (a.family == b.family
                  && (text_lt a.inverse_predicate b.inverse_predicate
                      || (a.inverse_predicate == b.inverse_predicate
                          && (text_lt a.derived_predicate b.derived_predicate
                              || (a.derived_predicate == b.derived_predicate
                                  && (if a.enabled
                                      then b.enabled && leb a.max_depth b.max_depth
                                      else b.enabled || leb a.max_depth b.max_depth))))))))

  unfoldable pub ontology_version : List Rule → String
  unfolding rule_text rule_text_le
  ontology_version rules = "onto:" ++ host.rules_digest (sort rule_text_le (map rule_text rules))

  unfoldable pub triple_id_key : Triple → Key
  triple_id_key t = (t.subject_id, (normalize_predicate t.predicate, t.object_id))
