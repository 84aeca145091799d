-- ===== src/Dreaming/Decisions.antt =====
-- apply_merge_decisions and apply_pattern_decisions of
-- skills/dreaming/scripts/dream_lib.py. The writer and the archiver answer by the calls made before;
-- a failed call is the text of its exception. A decision has the wing and the room it is for.
use copilot_mempalace.Prelude.{
  ℕ, ◌+◌, String, not, ◌||◌, Option, none, some, List, [], ◌∷◌, ◌++◌, all, ltb, length, is_empty,
  contains, distinct, ◌==◌, string_eq, if◌then◌else◌,
}
use copilot_mempalace.Prelude.Text.{is_blank}

-- A call of add_drawer; `support` is its supersedes or its supported_by.
pub record Addition : Type 0 where
  pub wing : String
  pub room : String
  pub text : String
  pub support : List String
  pub kind : String

-- A call of archive_then_delete.
pub record Archive : Type 0 where
  pub id : String
  pub member_ids : List String
  pub wing : String
  pub room : String

pub data Call : Type 0 where
  add_drawer : Addition → Call
  archive_then_delete : Archive → Call

-- What a call gives: the exception, or the result, of which the id and the deleted ids are looked at.
pub data Reply {ℓ} (A : Type ℓ) : Type ℓ where
  failed : String → Reply A
  done : A → Reply A

pub record Tools : Type 0 where
  pub add : List Call → Addition → Reply (Option String)
  pub archive : List Call → Archive → Reply (Option (List String))

pub record Decision : Type 0 where
  pub action : String
  pub wing : String
  pub room : String
  pub text : String
  pub support : List String
  pub allowed_support : Option (List String)

pub record Failure : Type 0 where
  pub stage : String
  pub error : String
  pub decision : Decision

-- The report, with the calls made so far; what was merged or surfaced is finished.
pub record Report : Type 0 where
  pub calls : List Call
  pub finished : ℕ
  pub skipped : ℕ
  pub added : List (Option String)
  pub deleted : List String
  pub errors : List Failure

abbrev pub empty_report : Report
empty_report = record {
  calls = [];
  finished = 0;
  skipped = 0;
  added = [];
  deleted = [];
  errors = [];
}

abbrev pub with_error : Report → String → String → Decision → Report
with_error r stage error d = record r {
  errors = r.errors ++ record { stage = stage; error = error; decision = d } ∷ [];
}

abbrev pub with_skip : Report → Report
with_skip r = record r { skipped = r.skipped + 1 }

abbrev pub addition_of : String → Decision → Addition
addition_of kind d = record {
  wing = d.wing;
  room = d.room;
  text = d.text;
  support = d.support;
  kind = kind;
}

abbrev pub with_call : Report → Call → Report
with_call r c = record r { calls = r.calls ++ c ∷ [] }

abbrev pub with_added : Report → Option String → Report
with_added r id = record r { added = r.added ++ id ∷ [] }

abbrev first_or_empty : List String → String
first_or_empty [] = ""
first_or_empty (x ∷ rest) = x

-- _added_drawer_id
abbrev pub added_drawer_id : Option String → List String → String
added_drawer_id none supersedes = first_or_empty supersedes
added_drawer_id (some id) supersedes = id

-- _archive_deleted_ids
abbrev pub archive_deleted_ids : Option (List String) → List String → List String
archive_deleted_ids none fallback = fallback
archive_deleted_ids (some ids) fallback = ids

abbrev pub archive_of : Decision → Option String → Archive
archive_of d id = record {
  id = added_drawer_id id d.support;
  member_ids = d.support;
  wing = d.wing;
  room = d.room;
}

-- The decision after its archiving.
unfoldable pub merge_archived : Decision → Reply (Option (List String)) → Report → Report
merge_archived d (failed e) r = with_error r "archive" e d
merge_archived d (done ids) r = record r {
  deleted = r.deleted ++ archive_deleted_ids ids d.support;
  finished = r.finished + 1;
}

-- The decision after its addition: the members are archived only where it succeeded.
unfoldable pub merge_added : Tools → Decision → Reply (Option String) → Report → Report
unfolding merge_archived
merge_added tools d (failed e) r = with_error r "add" e d
merge_added tools d (done id) r =
    let r' = with_added r id in
    merge_archived d (tools.archive r'.calls (archive_of d id))
      (with_call r' (archive_then_delete (archive_of d id)))

unfoldable pub apply_merge : Tools → Decision → Report → Report
unfolding merge_added
apply_merge tools d r =
    if not (d.action == "merge")
    then with_skip r
    else if is_blank d.text || is_empty d.support
    then with_error r "soundness" "merge requires text and supersedes" d
    else merge_added tools d (tools.add r.calls (addition_of "merged" d))
        (with_call r (add_drawer (addition_of "merged" d)))

-- apply_merge_decisions
unfoldable pub apply_merge_decisions : Tools → List Decision → Report → Report
unfolding apply_merge
apply_merge_decisions tools [] r = r
apply_merge_decisions tools (d ∷ rest) r = apply_merge_decisions tools rest (apply_merge tools d r)

abbrev pub pool_of : Decision → List String
pool_of d = elim d.allowed_support [ none ↦ d.support | some ids ↦ ids ]

-- The error of a decision that is not grounded.
abbrev pub ungrounded : ℕ → Decision → Option String
ungrounded min_support d =
    if is_empty d.support
    then some "unsupported rule"
    else if not (distinct d.support)
    then some "support ids must be distinct"
    else if ltb (length d.support) min_support
    then some "insufficient support"
    else if not (all (λ id. contains id (pool_of d)) d.support)
    then some "support ids outside evidence"
    else none

unfoldable pub pattern_added : Decision → Reply (Option String) → Report → Report
pattern_added d (failed e) r = with_error r "add" e d
pattern_added d (done id) r = record (with_added r id) { finished = r.finished + 1 }

unfoldable pub pattern_checked : Tools → Decision → Option String → Report → Report
unfolding pattern_added
pattern_checked tools d (some error) r = with_error r "groundedness" error d
pattern_checked tools d none r =
    pattern_added d (tools.add r.calls (addition_of "lesson" d))
      (with_call r (add_drawer (addition_of "lesson" d)))

unfoldable pub apply_pattern : Tools → ℕ → Decision → Report → Report
unfolding pattern_checked
apply_pattern tools min_support d r =
    if not (d.action == "surface")
    then with_skip r
    else pattern_checked tools d (ungrounded min_support d) r

-- apply_pattern_decisions
unfoldable pub apply_pattern_decisions : Tools → ℕ → List Decision → Report → Report
unfolding apply_pattern
apply_pattern_decisions tools min_support [] r = r
apply_pattern_decisions tools min_support (d ∷ rest) r =
    apply_pattern_decisions tools min_support rest (apply_pattern tools min_support d r)
