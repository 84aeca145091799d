-- ===== src/Samples/Merges.antt =====
-- Decisions that are applied: a merge, one whose text is blank, and a lesson.
use copilot_mempalace.Prelude.{◌≡◌, refl, length, String, none, some, List, [], ◌∷◌}
use copilot_mempalace.Prelude.Text.{is_blank}
use copilot_mempalace.Dreaming.Decisions.{
  Decision, Tools, apply_merge_decisions, apply_pattern_decisions, done, empty_report,
}
use copilot_mempalace.Dreaming.Grounded.{
  IsMerging, IsSurfacing, apply_merge_decisions-IsMerging, apply_pattern_decisions-IsSurfacing,
}

abbrev willing : Tools
willing = record { add = λ calls a. done (some "d9"); archive = λ calls r. done none }

abbrev decision_of : String → String → Decision
decision_of action text = record {
  action = action;
  wing = "palace";
  room = "notes";
  text = text;
  support = "d1" ∷ "d2" ∷ [];
  allowed_support = none;
}

abbrev merges : List Decision
merges = decision_of "merge" "one text" ∷ decision_of "merge" " " ∷ decision_of "keep" "" ∷ []

abbrev lessons : List Decision
lessons = decision_of "surface" "a lesson" ∷ decision_of "keep" "" ∷ []

deleted-ok : (apply_merge_decisions willing merges empty_report).deleted ≡ "d1" ∷ "d2" ∷ []
unfolding apply_merge_decisions is_blank
deleted-ok = refl

finished-ok : (apply_pattern_decisions willing 2 lessons empty_report).finished ≡ 1
unfolding apply_pattern_decisions
finished-ok = refl

apply_merge_decisions-IsMerging_example :
    IsMerging willing (length merges) (apply_merge_decisions willing merges empty_report)
apply_merge_decisions-IsMerging_example = apply_merge_decisions-IsMerging willing merges

apply_pattern_decisions-IsSurfacing_example :
    IsSurfacing willing 2 lessons
      (length lessons)
      (apply_pattern_decisions willing 2 lessons empty_report)
apply_pattern_decisions-IsSurfacing_example = apply_pattern_decisions-IsSurfacing willing 2 lessons
