-- ===== src/Dreaming/Supports.antt =====
-- What counts as evidence for an induced rule, and the pairs that _symmetric_support and
-- _inverse_support of skills/dreaming/scripts/dream_ontology.py count.
use copilot_mempalace.Prelude.{
  ◌≡◌, ◌≢◌, String, true, false, not, ◌||◌, List, [], ◌∷◌, All, contains, distinct, select, inl,
  inr, refl, sym, arith, ◌==◌, eq_iff, string_eq, pair_eq, Bool-cases,
}
use copilot_mempalace.Prelude.Sort.{sort}
use copilot_mempalace.Prelude.Every.{All-sort}
use copilot_mempalace.Prelude.Text.{text_le, text_le_total}
use copilot_mempalace.Dreaming.Records.{Key}
use copilot_mempalace.Dreaming.Ontology.{Observation}
use copilot_mempalace.Dreaming.Evidence.{Observed, All-add, All-contains, distinct-add}
use copilot_mempalace.Dreaming.Distinct.{distinct-select, distinct-sort}
use copilot_mempalace.Dreaming.Induction.{Pair, in_order, is_inverted, pair_le, symmetric_pairs}

-- The triples relate the two by the predicate, both ways. A pair is counted in one order only.
pub record IsReciprocated (triples : List Observation) (p : String) (e : Pair) : Type 0 where
  pub different : e.0 ≢ e.1
  pub ordered : text_le e.0 e.1 ≡ true
  pub there : Observed triples e.0 p e.1
  pub back : Observed triples e.1 p e.0

-- The triples relate the two by one predicate, and back by the other.
pub record IsAnswered (triples : List Observation) (p q : String) (e : Pair) : Type 0 where
  pub different : e.0 ≢ e.1
  pub there : Observed triples e.0 p e.1
  pub back : Observed triples e.1 q e.0

-- The triples relate the first of three to the second and the second to the third.
pub record IsChain (triples : List Observation) (p : String) (k : Key) : Type 0 where
  pub first_second : k.0 ≢ k.1.0
  pub first_third : k.0 ≢ k.1.1
  pub second_third : k.1.0 ≢ k.1.1
  pub first_step : Observed triples k.0 p k.1.0
  pub second_step : Observed triples k.1.0 p k.1.1

-- The triples have all these edges of the predicate.
abbrev pub AreObservedBy : List Observation → String → List Pair → Type 0
AreObservedBy triples p edges = All (λ e. Observed triples e.0 p e.1) edges

pub different_of : (a b : String) → (a == b) ≡ false → a ≢ b
different_of a b h = λ same. ground (arith, eq_iff a b)

module _ (triples : List Observation) (p : String) where
  in_order-IsReciprocated :
      (a b : String)
      → a ≢ b
      → Observed triples a p b
      → Observed triples b p a
      → IsReciprocated triples p (in_order (a, b))
  in_order-IsReciprocated a b n there back = elim (Bool-cases (text_le a b)) [
    | inl e ↦ rw e (record { different = n; ordered = e; there = there; back = back })
    | inr e ↦ rw e (record {
      different = λ same. n (sym same);
      ordered = ground (arith, text_le_total a b);
      there = back;
      back = there;
    })
  ]

  pub symmetric_pairs-IsReciprocated :
      (edges rest : List Pair)
      → AreObservedBy triples p edges
      → AreObservedBy triples p rest
      → All (IsReciprocated triples p) (symmetric_pairs edges rest)
        × (distinct (symmetric_pairs edges rest) ≡ true)
  unfolding symmetric_pairs
  symmetric_pairs-IsReciprocated edges [] h k = (tt, refl)
  symmetric_pairs-IsReciprocated edges ((a, b) ∷ rest) h k =
      let others = symmetric_pairs-IsReciprocated edges rest h k.1 in
      elim (Bool-cases (a == b || not (contains (b, a) edges))) [
        | inl e ↦ rw e others
        | inr e ↦
            let different : (a == b) ≡ false = ground (arith, e) in
            let answered : contains (b, a) edges ≡ true = ground (arith, e) in
            let back = All-contains (λ e. Observed triples e.0 p e.1) (b, a) edges h answered in
            rw e (
              All-add (IsReciprocated triples p) (in_order (a, b)) (symmetric_pairs edges rest)
                  (in_order-IsReciprocated a b (different_of a b different) k.0 back) others.0,
              distinct-add (in_order (a, b)) (symmetric_pairs edges rest) others.1,
            )
      ]

  module _ (q : String) (inverse_edges : List Pair)
      (h : AreObservedBy triples q inverse_edges) where
    select-IsAnswered :
        (edges : List Pair)
        → AreObservedBy triples p edges
        → All (IsAnswered triples p q) (select (is_inverted inverse_edges) edges)
    select-IsAnswered [] k = tt
    select-IsAnswered ((a, b) ∷ rest) k =
        let others = select-IsAnswered rest k.1 in
        elim (Bool-cases (is_inverted inverse_edges (a, b))) [
          | inl e ↦
              let different : (a == b) ≡ false = ground (arith, e) in
              let answered : contains (b, a) inverse_edges ≡ true = ground (arith, e) in
              let back =
                All-contains (λ e. Observed triples e.0 q e.1) (b, a) inverse_edges h answered in
              rw e (
                record { different = different_of a b different; there = k.0; back = back },
                others,
              )
          | inr e ↦ rw e others
        ]

    pub inverse-IsAnswered :
        (edges : List Pair)
        → AreObservedBy triples p edges
        → distinct edges ≡ true
        → All (IsAnswered triples p q) (select (is_inverted inverse_edges) (sort pair_le edges))
          × (distinct (select (is_inverted inverse_edges) (sort pair_le edges)) ≡ true)
    inverse-IsAnswered edges k d = (
      select-IsAnswered (sort pair_le edges)
          (All-sort (λ e. Observed triples e.0 p e.1) pair_le edges k),
      distinct-select (is_inverted inverse_edges) (sort pair_le edges)
          (distinct-sort pair_le edges d),
    )
