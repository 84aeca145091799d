-- ===== src/Dreaming/Grounded.antt =====
-- What the calls of applied decisions are (skills/dreaming/scripts/dream_lib.py): nothing is archived
-- but what a drawer was just added for, and what is added is grounded.
use mathlib.Core.List.{Mem}
use copilot_mempalace.Prelude.{
  eq_of_==, ℕ, ◌+◌, ◌≤◌, ◌≡◌, subst, String, true, false, ◌||◌, Option, none, some, List, [], ◌∷◌,
  ◌++◌, All, all, length, is_empty, contains, distinct, ◌==◌, string_eq, refl, sym, ap, ◌∙◌, arith,
  inl, inr, Bool-cases,
}
use copilot_mempalace.Prelude.Every.{All-append_one}
use copilot_mempalace.Dreaming.Proofs.{All-Mem_self}
use copilot_mempalace.Prelude.Text.{is_blank}
use copilot_mempalace.Dreaming.Decisions.{
  Addition, Archive, Call, Decision, Reply, Report, Tools, add_drawer, addition_of, apply_merge,
  apply_merge_decisions, apply_pattern, apply_pattern_decisions, archive_of, archive_then_delete,
  done, empty_report, failed, merge_added, merge_archived, pattern_added, pattern_checked, pool_of,
  ungrounded,
}

length-append_one {ℓ} : {A : Type ℓ} (xs : List A) (x : A) → length (xs ++ x ∷ []) ≡ length xs + 1
length-append_one [] x = refl
length-append_one (y ∷ ys) x = ground (arith, length-append_one ys x)

-- The calls of merges: an addition of a text that is not blank, for some members; and after one that
-- succeeded, at most the archiving of exactly these members.
pub data AreMerges (tools : Tools) : List Call → Type 0 where
  none_yet : AreMerges tools []
  tried :
      {calls : List Call} (a : Addition)
      → is_blank a.text ≡ false
      → is_empty a.support ≡ false
      → AreMerges tools calls
      → AreMerges tools (calls ++ add_drawer a ∷ [])
  replaced :
      {calls : List Call} (a : Addition) (id : Option String) (r : Archive)
      → is_blank a.text ≡ false
      → is_empty a.support ≡ false
      → tools.add calls a ≡ done id
      → r.member_ids ≡ a.support
      → AreMerges tools calls
      → AreMerges tools ((calls ++ add_drawer a ∷ []) ++ archive_then_delete r ∷ [])

-- Every decision is finished, skipped or an error.
abbrev pub handled : Report → ℕ
handled r = r.finished + r.skipped + length r.errors

module _ (tools : Tools) where
  pub record IsMerging (count : ℕ) (r : Report) : Type 0 where
    pub merges : AreMerges tools r.calls
    pub counted : handled r ≡ count

  archived-handled :
      (d : Decision) (reply : Reply (Option (List String))) (r : Report)
      → handled (merge_archived d reply r) ≡ handled r + 1
  unfolding merge_archived
  archived-handled d (failed e) r =
      omega
        (arith, length-append_one r.errors (record { stage = "archive"; error = e; decision = d }))
  archived-handled d (done ids) r = omega arith

  archived-calls :
      (d : Decision) (reply : Reply (Option (List String))) (r : Report)
      → (merge_archived d reply r).calls ≡ r.calls
  unfolding merge_archived
  archived-calls d (failed e) r = refl
  archived-calls d (done ids) r = refl

  added-handled :
      (d : Decision) (reply : Reply (Option String)) (r : Report)
      → handled (merge_added tools d reply r) ≡ handled r + 1
  unfolding merge_added
  added-handled d (failed e) r =
      omega (arith, length-append_one r.errors (record { stage = "add"; error = e; decision = d }))
  added-handled d (done id) r = archived-handled d _ _

  added-AreMerges :
      (d : Decision) (calls : List Call) (reply : Reply (Option String)) (r : Report)
      → is_blank d.text ≡ false
      → is_empty d.support ≡ false
      → tools.add calls (addition_of "merged" d) ≡ reply
      → r.calls ≡ calls ++ add_drawer (addition_of "merged" d) ∷ []
      → AreMerges tools calls
      → AreMerges tools (merge_added tools d reply r).calls
  unfolding merge_added merge_archived
  added-AreMerges d calls (failed e) r t s a c m =
      subst (AreMerges tools) (sym c) (tried (addition_of "merged" d) t s m)
  added-AreMerges d calls (done id) r t s a c m =
      subst (AreMerges tools)
        (sym (archived-calls d _ _ ∙ ap (λ cs. cs ++ archive_then_delete (archive_of d id) ∷ []) c))
        (replaced (addition_of "merged" d) id (archive_of d id) t s a refl m)

  apply_merge-IsMerging :
      (d : Decision) (n : ℕ) (r : Report)
      → IsMerging n r
      → IsMerging (n + 1) (apply_merge tools d r)
  unfolding apply_merge
  apply_merge-IsMerging d n r m = elim (Bool-cases (d.action == "merge")) [
    | inr f ↦ rw f (record { merges = m.merges; counted = omega (arith, m.counted) })
    | inl t ↦ elim (Bool-cases (is_blank d.text || is_empty d.support)) [
      | inl u ↦
          rw (t, u)
            (record {
              merges = m.merges;
              counted = omega (
                arith,
                m.counted,
                length-append_one r.errors (record {
                  stage = "soundness";
                  error = "merge requires text and supersedes";
                  decision = d;
                }),
              );
            })
      | inr v ↦
          rw (t, v)
            (record {
              merges =
                  added-AreMerges d r.calls _ _ (ground arith) (ground arith) refl refl m.merges;
              counted = added-handled d _ _ ∙ ap (λ k. k + 1) m.counted;
            })
    ]
  ]

  merges-IsMerging :
      (ds : List Decision) (n : ℕ) (r : Report)
      → IsMerging n r
      → IsMerging (length ds + n) (apply_merge_decisions tools ds r)
  unfolding apply_merge_decisions
  merges-IsMerging [] n r m = record { merges = m.merges; counted = omega (arith, m.counted) }
  merges-IsMerging (d ∷ rest) n r m =
      let k =
        merges-IsMerging rest (n + 1) (apply_merge tools d r) (apply_merge-IsMerging d n r m) in
      record { merges = k.merges; counted = omega (arith, k.counted) }

-- Whatever the writer and the archiver answer, the calls that merge decisions make are additions of
-- texts that are not blank, for members, and after an addition that succeeded at most the archiving
-- of exactly its members; and each decision is counted once, as merged, skipped or an error.
pub apply_merge_decisions-IsMerging :
    (tools : Tools) (ds : List Decision)
    → IsMerging tools (length ds) (apply_merge_decisions tools ds empty_report)
apply_merge_decisions-IsMerging tools ds =
    let k =
      merges-IsMerging tools ds 0 empty_report (record { merges = none_yet; counted = refl }) in
    record { merges = k.merges; counted = omega (arith, k.counted) }

-- A decision whose support ids are distinct, enough, and within its evidence.
pub record IsGrounded (min_support : ℕ) (d : Decision) : Type 0 where
  pub unique : distinct d.support ≡ true
  pub enough : min_support ≤ length d.support
  pub evident : all (λ id. contains id (pool_of d)) d.support ≡ true

abbrev pub IsLesson : ℕ → List Decision → Call → Type 0
IsLesson min_support listed (add_drawer a) =
    (d : Decision) × (Mem d listed
      × ((d.action ≡ "surface") × ((a ≡ addition_of "lesson" d) × IsGrounded min_support d)))
IsLesson min_support listed (archive_then_delete r) = ⊥

ungrounded-IsGrounded :
    (min_support : ℕ) (d : Decision) → ungrounded min_support d ≡ none → IsGrounded min_support d
ungrounded-IsGrounded min_support d h = record {
  unique = ground arith;
  enough = ground arith;
  evident = ground arith;
}

module _ (tools : Tools) (min_support : ℕ) (listed : List Decision) where
  pub record IsSurfacing (count : ℕ) (r : Report) : Type 0 where
    pub lessons : All (IsLesson min_support listed) r.calls
    pub counted : handled r ≡ count

  pattern_added-IsSurfacing :
      (d : Decision) (n : ℕ) (reply : Reply (Option String)) (r : Report)
      → IsSurfacing n r
      → IsSurfacing (n + 1) (pattern_added d reply r)
  unfolding pattern_added
  pattern_added-IsSurfacing d n (failed e) r m = record {
    lessons = m.lessons;
    counted = omega (
      arith,
      m.counted,
      length-append_one r.errors (record { stage = "add"; error = e; decision = d }),
    );
  }
  pattern_added-IsSurfacing d n (done id) r m = record {
    lessons = m.lessons;
    counted = omega (arith, m.counted);
  }

  pattern_checked-IsSurfacing :
      (d : Decision) (n : ℕ) (error : Option String) (r : Report)
      → Mem d listed
      → d.action ≡ "surface"
      → ungrounded min_support d ≡ error
      → IsSurfacing n r
      → IsSurfacing (n + 1) (pattern_checked tools d error r)
  unfolding pattern_checked
  pattern_checked-IsSurfacing d n (some e) r member surfaced h m = record {
    lessons = m.lessons;
    counted = omega (
      arith,
      m.counted,
      length-append_one r.errors (record { stage = "groundedness"; error = e; decision = d }),
    );
  }
  pattern_checked-IsSurfacing d n none r member surfaced h m =
      pattern_added-IsSurfacing d n _ _ (record {
        lessons =
            All-append_one (IsLesson min_support listed) r.calls
              (add_drawer (addition_of "lesson" d)) m.lessons
              (d, (member, (surfaced, (refl, ungrounded-IsGrounded min_support d h))));
        counted = m.counted;
      })

  patterns-IsSurfacing :
      (ds : List Decision) (n : ℕ) (r : Report)
      → All (λ d. Mem d listed) ds
      → IsSurfacing n r
      → IsSurfacing (length ds + n) (apply_pattern_decisions tools min_support ds r)
  unfolding apply_pattern_decisions apply_pattern
  patterns-IsSurfacing [] n r i m = record {
    lessons = m.lessons;
    counted = omega (arith, m.counted);
  }
  patterns-IsSurfacing (d ∷ rest) n r i m =
      let k =
        patterns-IsSurfacing rest (n + 1) (apply_pattern tools min_support d r) i.1
          (one d n r i.0 m) in
      record { lessons = k.lessons; counted = omega (arith, k.counted) }
    where
      one :
          (d : Decision) (n : ℕ) (r : Report)
          → Mem d listed
          → IsSurfacing n r
          → IsSurfacing (n + 1) (apply_pattern tools min_support d r)
      one d n r i m = elim (Bool-cases (d.action == "surface")) [
        | inr f ↦ rw f (record { lessons = m.lessons; counted = omega (arith, m.counted) })
        | inl t ↦ rw t (pattern_checked-IsSurfacing d n _ r i (eq_of_== t) refl m)
      ]

-- Whatever the writer answers, each call that pattern decisions make adds the lesson of a decision of
-- the list that is to be surfaced, whose support ids are distinct, as many as asked for, and within its evidence, and nothing is
-- archived; and each decision is counted once, as surfaced, skipped or an error.
pub apply_pattern_decisions-IsSurfacing :
    (tools : Tools) (min_support : ℕ) (ds : List Decision)
    → IsSurfacing tools min_support ds
        (length ds)
        (apply_pattern_decisions tools min_support ds empty_report)
apply_pattern_decisions-IsSurfacing tools min_support ds =
    let k =
      patterns-IsSurfacing tools min_support ds ds 0 empty_report (All-Mem_self ds)
        (record { lessons = tt; counted = refl }) in
    record { lessons = k.lessons; counted = omega (arith, k.counted) }
