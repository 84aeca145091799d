-- ===== src/Dreaming/Merging.antt =====
-- merge_ontology_candidates of skills/dreaming/scripts/dream_ontology.py: a union by id that keeps
-- the existing rules as they are.
use mathlib.Core.List.{Mem}
use copilot_mempalace.Prelude.{
  ◌+◌, ◌≡◌, String, true, false, ◌||◌, List, [], ◌∷◌, ◌++◌, All, length, contains, distinct, map,
  refl, sym, ap, ◌∙◌, subst, arith, inl, inr, string_eq, Bool-cases, eq_iff,
}
use copilot_mempalace.Prelude.Sort.{sort}
use copilot_mempalace.Prelude.Every.{All-append_one, All-sort, All_of_sort, length-sort}
use copilot_mempalace.Dreaming.Ontology.{
  Merge, Merged, RuleCandidate, id_le, id_of, merge_each, merge_one, merge_ontology_candidates,
}
use copilot_mempalace.Dreaming.Proofs.{All-Mem_self}

contains-append :
    (p : String) (xs ys : List String) → contains p (xs ++ ys) ≡ (contains p xs || contains p ys)
contains-append p [] ys = refl
contains-append p (x ∷ xs) ys = ground (arith, contains-append p xs ys)

distinct-append_one :
    (x : String) (xs : List String)
    → contains x xs ≡ false
    → distinct xs ≡ true
    → distinct (xs ++ x ∷ []) ≡ true
distinct-append_one x [] h d = refl
distinct-append_one x (y ∷ ys) h d =
    ground (arith, contains-append y ys (x ∷ []), distinct-append_one x ys, eq_iff x y, eq_iff y x)

map-append_one :
    (rs : List RuleCandidate) (r : RuleCandidate)
    → map id_of (rs ++ r ∷ []) ≡ map id_of rs ++ r.id ∷ []
map-append_one [] r = refl
map-append_one (q ∷ rest) r = ap (λ zs. q.id ∷ zs) (map-append_one rest r)

length-append_one :
    (rs : List RuleCandidate) (r : RuleCandidate) → length (rs ++ r ∷ []) ≡ length rs + 1
length-append_one [] r = refl
length-append_one (q ∷ rest) r = ground (arith, length-append_one rest r)

module _ (ids : List String) (new : List RuleCandidate) where
  -- What is added so far: rules of the list with ids that were not seen.
  record IsAdding (m : Merge) : Type 0 where
    known : m.seen ≡ ids ++ map id_of m.to_add
    unseen : All (λ r. contains r.id ids ≡ false) m.to_add
    unique : distinct (map id_of m.to_add) ≡ true
    listed : All (λ r. Mem r new) m.to_add

  added-IsAdding :
      (m : Merge) (r : RuleCandidate)
      → contains r.id m.seen ≡ false
      → Mem r new
      → IsAdding m
      → IsAdding (record m { to_add = m.to_add ++ r ∷ []; seen = m.seen ++ r.id ∷ [] })
  added-IsAdding m r f i a =
      let apart =
        sym (contains-append r.id ids (map id_of m.to_add))
        ∙ ap (contains r.id) (sym a.known)
        ∙ f in
      record {
        known =
            ap (λ s. s ++ r.id ∷ []) a.known
            ∙ append_assoc ids (map id_of m.to_add) (r.id ∷ [])
            ∙ ap (λ s. ids ++ s) (sym (map-append_one m.to_add r));
        unseen =
            All-append_one (λ q. contains q.id ids ≡ false) m.to_add r a.unseen
              (ground (arith, apart));
        unique =
            subst (λ s. distinct s ≡ true) (sym (map-append_one m.to_add r))
              (distinct-append_one r.id (map id_of m.to_add) (ground (arith, apart)) a.unique);
        listed = All-append_one (λ q. Mem q new) m.to_add r a.listed i;
      }
    where
      append_assoc : (xs ys zs : List String) → (xs ++ ys) ++ zs ≡ xs ++ (ys ++ zs)
      append_assoc [] ys zs = refl
      append_assoc (x ∷ xs) ys zs = ap (λ s. x ∷ s) (append_assoc xs ys zs)

  merge_one-IsAdding :
      (r : RuleCandidate) (m : Merge) → Mem r new → IsAdding m → IsAdding (merge_one r m)
  unfolding merge_one
  merge_one-IsAdding r m i a = elim (Bool-cases (contains r.id m.seen)) [
    | inl t ↦
        rw t (record { known = a.known; unseen = a.unseen; unique = a.unique; listed = a.listed })
    | inr f ↦ rw f (added-IsAdding m r f i a)
  ]

  merge_each-IsAdding :
      (rest : List RuleCandidate) (m : Merge)
      → All (λ r. Mem r new) rest
      → IsAdding m
      → IsAdding (merge_each rest m)
  unfolding merge_each
  merge_each-IsAdding [] m i a = a
  merge_each-IsAdding (r ∷ rest) m i a =
      merge_each-IsAdding rest (merge_one r m) i.1 (merge_one-IsAdding r m i.0 a)

merge_one-count :
    (r : RuleCandidate) (m : Merge)
    → length (merge_one r m).to_add + (merge_one r m).skipped_existing
      ≡ length m.to_add + m.skipped_existing + 1
unfolding merge_one
merge_one-count r m = ground (arith, length-append_one m.to_add r)

merge_each-count :
    (rest : List RuleCandidate) (m : Merge)
    → length (merge_each rest m).to_add + (merge_each rest m).skipped_existing
      ≡ length m.to_add + m.skipped_existing + length rest
unfolding merge_each
merge_each-count [] m = ground arith
merge_each-count (r ∷ rest) m =
    omega (arith, merge_each-count rest (merge_one r m), merge_one-count r m)

seen-merge_one :
    (id : String) (r : RuleCandidate) (m : Merge)
    → contains id m.seen ≡ true
    → contains id (merge_one r m).seen ≡ true
unfolding merge_one
seen-merge_one id r m h = ground (arith, contains-append id m.seen (r.id ∷ []))

seen-merge_self : (r : RuleCandidate) (m : Merge) → contains r.id (merge_one r m).seen ≡ true
unfolding merge_one
seen-merge_self r m = ground (arith, contains-append r.id m.seen (r.id ∷ []), eq_iff r.id r.id)

seen-merge_each :
    (id : String) (rest : List RuleCandidate) (m : Merge)
    → contains id m.seen ≡ true
    → contains id (merge_each rest m).seen ≡ true
unfolding merge_each
seen-merge_each id [] m h = h
seen-merge_each id (r ∷ rest) m h =
    seen-merge_each id rest (merge_one r m) (seen-merge_one id r m h)

All-merge_each :
    (rest : List RuleCandidate) (m : Merge)
    → All (λ r. contains r.id (merge_each rest m).seen ≡ true) rest
unfolding merge_each
All-merge_each [] m = tt
All-merge_each (r ∷ rest) m = (
  seen-merge_each r.id rest (merge_one r m) (seen-merge_self r m),
  All-merge_each rest (merge_one r m),
)

map-append : (rs qs : List RuleCandidate) → map id_of (rs ++ qs) ≡ map id_of rs ++ map id_of qs
map-append [] qs = refl
map-append (r ∷ rest) qs = ap (λ zs. r.id ∷ zs) (map-append rest qs)

-- The existing rules stay in front as they are; what follows are rules of the new list, with ids of
-- their own. Each new id is among the merged ones, and each new rule is counted.
pub record IsUnion (existing new : List RuleCandidate) (m : Merged) : Type 0 where
  pub extra : List RuleCandidate
  pub kept : m.rules ≡ existing ++ extra
  pub listed : All (λ r. Mem r new) extra
  pub unseen : All (λ r. contains r.id (map id_of existing) ≡ false) extra
  pub unique : distinct (map id_of extra) ≡ true
  pub present : All (λ r. contains r.id (map id_of m.rules) ≡ true) new
  pub added : m.added ≡ length extra
  pub counted : m.added + m.skipped_existing ≡ length new

-- The union of rules keeps the existing ones, verbatim and in front; what it adds are rules of the
-- new list with ids that are neither existing nor repeated; every id of the new list is there
-- afterwards; and the counts of added and of skipped rules make up the new list.
pub merge_ontology_candidates-IsUnion :
    (existing new : List RuleCandidate)
    → IsUnion existing new (merge_ontology_candidates existing new)
unfolding merge_ontology_candidates
merge_ontology_candidates-IsUnion existing new =
    let ids = map id_of existing in
    let sorted = sort id_le new in
    let start : Merge = record { to_add = []; seen = ids; skipped_existing = 0 } in
    let a =
      merge_each-IsAdding ids new sorted start
        (All-sort (λ r. Mem r new) id_le new (All-Mem_self new))
        (record { known = append_nil ids; unseen = tt; unique = refl; listed = tt }) in
    let all_ids = a.known ∙ sym (map-append existing (merge_each sorted start).to_add) in
    record {
      extra = (merge_each sorted start).to_add;
      kept = refl;
      listed = a.listed;
      unseen = a.unseen;
      unique = a.unique;
      present =
          All_of_sort (λ r. contains r.id _ ≡ true) id_le new
            (subst (λ s. All (λ r. contains r.id s ≡ true) sorted) all_ids
              (All-merge_each sorted start));
      added = refl;
      counted = omega (arith, merge_each-count sorted start, length-sort id_le new);
    }
  where
    append_nil : (xs : List String) → xs ≡ xs ++ []
    append_nil [] = refl
    append_nil (x ∷ xs) = ap (λ s. x ∷ s) (append_nil xs)
