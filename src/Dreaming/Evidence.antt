-- ===== src/Dreaming/Evidence.antt =====
-- What the supports of skills/dreaming/scripts/dream_ontology.py count: pairs and chains of edges that
-- the observed triples have.
use mathlib.Core.List.{Mem}
use copilot_mempalace.Prelude.{
  ◌≡◌, String, true, false, ◌||◌, Option, none, some, List, [], ◌∷◌, ◌++◌, All, contains, distinct,
  add, inl, inr, refl, subst, arith, ◌==◌, Eq, eq_iff, string_eq, pair_eq, Bool-cases,
}
use copilot_mempalace.Prelude.Dict.{Dict, keys}
use copilot_mempalace.Prelude.Dict
use copilot_mempalace.Prelude.Every.{All-append_one}
use copilot_mempalace.Dreaming.Records.{Key}
use copilot_mempalace.Dreaming.Ontology.{Observation}
use copilot_mempalace.Dreaming.Proofs.{All-Mem_self}
use copilot_mempalace.Dreaming.Induction.{
  Pair, add_key, edges_by_predicate, edges_of, endpoint, triple_set,
}

-- One of the triples relates the two by the predicate.
pub record Observed (triples : List Observation) (a p b : String) : Type 0 where
  pub triple : Observation
  pub listed : Mem triple triples
  pub subject : endpoint triple.subject triple.subject_id ≡ some a
  pub predicate : triple.predicate ≡ some p
  pub object : endpoint triple.object triple.object_id ≡ some b

module _ {ℓ κ} {A : Type ℓ} ⦃e : Eq A⦄ (P : A → Type κ) where
  pub All-add : (x : A) (xs : List A) → P x → All P xs → All P (add x xs)
  All-add x xs p h = elim (Bool-cases (contains x xs)) [
    | inl e ↦ rw e h
    | inr e ↦ rw e (All-append_one P xs x h p)
  ]

  -- What holds of all holds of each.
  pub All-contains : (x : A) (xs : List A) → All P xs → contains x xs ≡ true → P x
  All-contains x [] h c = absurd cc
  All-contains x (y ∷ ys) h c = elim (Bool-cases (y == x)) [
    | inl q ↦ subst P ((e.same_iff y x).0 q) h.0
    | inr q ↦ All-contains x ys h.1 (rw q at c)
  ]

module _ {ℓ} {A : Type ℓ} ⦃e : Eq A⦄ where
  contains-append_one :
      (a x : A) (xs : List A) → contains a (xs ++ x ∷ []) ≡ (contains a xs || x == a)
  contains-append_one a x [] = ground arith
  contains-append_one a x (y ∷ ys) = ground (arith, contains-append_one a x ys)

  distinct-append_one :
      (x : A) (xs : List A)
      → contains x xs ≡ false
      → distinct xs ≡ true
      → distinct (xs ++ x ∷ []) ≡ true
  distinct-append_one x [] h d = refl
  distinct-append_one x (y ∷ ys) h d =
      ground (
        arith,
        contains-append_one y x ys,
        distinct-append_one x ys,
        e.same_iff x y,
        e.same_iff y x,
      )

  pub distinct-add : (x : A) (xs : List A) → distinct xs ≡ true → distinct (add x xs) ≡ true
  distinct-add x xs d = elim (Bool-cases (contains x xs)) [
    | inl e ↦ rw e d
    | inr e ↦ rw e (distinct-append_one x xs e d)
  ]

module _ (triples : List Observation) where
  AreObserved : List Key → Type 0
  AreObserved set = All (λ k. Observed triples k.0 k.1.0 k.1.1) set

  add_key-AreObserved :
      (t : Observation) (subject predicate object : Option String) (set : List Key)
      → Mem t triples
      → endpoint t.subject t.subject_id ≡ subject
      → t.predicate ≡ predicate
      → endpoint t.object t.object_id ≡ object
      → AreObserved set
      → AreObserved (add_key subject predicate object set)
  unfolding AreObserved
  add_key-AreObserved t none none none set m s p o h = h
  add_key-AreObserved t none none (some _) set m s p o h = h
  add_key-AreObserved t none (some _) none set m s p o h = h
  add_key-AreObserved t none (some _) (some _) set m s p o h = h
  add_key-AreObserved t (some _) none none set m s p o h = h
  add_key-AreObserved t (some _) none (some _) set m s p o h = h
  add_key-AreObserved t (some _) (some _) none set m s p o h = h
  add_key-AreObserved t (some a) (some q) (some b) set m s p o h = elim (Bool-cases (q == "")) [
    | inl e ↦ rw e h
    | inr e ↦ rw e (
        All-add _ (a, (q, b)) set
          (record { triple = t; listed = m; subject = s; predicate = p; object = o }) h)
  ]

  triple_set-AreObserved :
      (rest : List Observation) (set : List Key)
      → All (λ t. Mem t triples) rest
      → AreObserved set
      → AreObserved (triple_set rest set)
  unfolding triple_set
  triple_set-AreObserved [] set m h = h
  triple_set-AreObserved (t ∷ rest) set m h =
      triple_set-AreObserved rest _ m.1 (add_key-AreObserved t _ _ _ set m.0 refl refl refl h)

  -- The edges of each predicate are observed ones, none of them twice.
  pub record AreEdges (edges : Dict (List Pair)) : Type 0 where
    pub observed : (p : String) → All (λ e. Observed triples e.0 p e.1) (edges_of edges p)
    pub distinctly : (p : String) → distinct (edges_of edges p) ≡ true

  put-AreEdges :
      (a p b : String) (edges : Dict (List Pair))
      → Observed triples a p b
      → AreEdges edges
      → AreEdges (Dict.put p (add (a, b) (edges_of edges p)) edges)
  put-AreEdges a p b edges o h = record {
    observed = λ q. elim (Bool-cases (p == q)) [
      | inl e ↦
          rw (Dict.get-put p q (add (a, b) (edges_of edges p)) edges, e)
            (subst (λ q. All (λ e. Observed triples e.0 q e.1) (add (a, b) (edges_of edges p)))
              ((eq_iff p q).0 e) (All-add _ (a, b) (edges_of edges p) o (h.observed p)))
      | inr e ↦ rw (Dict.get-put p q (add (a, b) (edges_of edges p)) edges, e) (h.observed q)
    ];
    distinctly = λ q. elim (Bool-cases (p == q)) [
      | inl e ↦
          rw (Dict.get-put p q (add (a, b) (edges_of edges p)) edges, e)
            (distinct-add (a, b) (edges_of edges p) (h.distinctly p))
      | inr e ↦ rw (Dict.get-put p q (add (a, b) (edges_of edges p)) edges, e) (h.distinctly q)
    ];
  }

  edges_by_predicate-AreEdges :
      (set : List Key) (edges : Dict (List Pair))
      → AreObserved set
      → AreEdges edges
      → AreEdges (edges_by_predicate set edges)
  unfolding edges_by_predicate AreObserved
  edges_by_predicate-AreEdges [] edges o h = h
  edges_by_predicate-AreEdges ((a, (p, b)) ∷ rest) edges o h =
      edges_by_predicate-AreEdges rest _ o.1 (put-AreEdges a p b edges o.0 h)

  -- The edges of the triples, by predicate.
  abbrev pub observed_edges : Dict (List Pair)
  observed_edges = edges_by_predicate (triple_set triples []) []

  pub observed_edges-AreEdges : AreEdges observed_edges
  unfolding AreObserved Dict.get
  observed_edges-AreEdges =
      edges_by_predicate-AreEdges (triple_set triples []) []
        (triple_set-AreObserved triples [] (All-Mem_self triples) tt)
        (record { observed = λ p. tt; distinctly = λ p. refl })
