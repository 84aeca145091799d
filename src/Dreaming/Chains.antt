-- ===== src/Dreaming/Chains.antt =====
-- The chains that _transitive_support of skills/dreaming/scripts/dream_ontology.py counts, through its
-- adjacency and its loops over the heads.
use copilot_mempalace.Prelude.{
  ◌≡◌, String, true, false, ◌||◌, List, [], ◌∷◌, All, contains, distinct, add, inl, inr, refl,
  subst, arith, ◌==◌, eq_iff, string_eq, pair_eq, Bool-cases,
}
use copilot_mempalace.Prelude.Dict.{Dict, keys}
use copilot_mempalace.Prelude.Dict
use copilot_mempalace.Prelude.Sort.{sort}
use copilot_mempalace.Prelude.Every.{All-sort, All-append}
use copilot_mempalace.Prelude.Text.{text_le}
use copilot_mempalace.Dreaming.Records.{Key}
use copilot_mempalace.Dreaming.Ontology.{Observation}
use copilot_mempalace.Dreaming.Evidence.{Observed, All-add, distinct-add}
use copilot_mempalace.Dreaming.Distinct.{
  PartIs, PartsIn, PartsIn-append, PartsIn-cons, apart, distinct-append, distinct-sort,
}
use copilot_mempalace.Dreaming.Supports.{IsChain, AreObservedBy, different_of}
use copilot_mempalace.Dreaming.Induction.{
  Pair, adjacency, are_three, chains, chains_from, chains_over, pairs_or_empty, sorted_heads,
}

module _ {ℓ} {V : Type ℓ} where
  contains-keys_put :
      (j k : String) (v : V) (d : Dict V)
      → contains j (keys (Dict.put k v d)) ≡ (k == j || contains j (keys d))
  unfolding Dict.put
  contains-keys_put j k v [] = refl
  contains-keys_put j k v ((i, w) ∷ d) = ground (arith, contains-keys_put j k v d, eq_iff i k)

  distinct-keys_put :
      (k : String) (v : V) (d : Dict V)
      → distinct (keys d) ≡ true
      → distinct (keys (Dict.put k v d)) ≡ true
  unfolding Dict.put
  distinct-keys_put k v [] h = refl
  distinct-keys_put k v ((i, w) ∷ d) h =
      ground (arith, contains-keys_put i k v d, distinct-keys_put k v d, eq_iff i k, eq_iff k i)

abbrev next_of : Dict (List String) → String → List String
next_of near a = pairs_or_empty (Dict.get a near)

abbrev first : Key → String
first k = k.0

abbrev second : Key → String
second k = k.1.0

abbrev third : Key → String
third k = k.1.1

module _ (triples : List Observation) (p : String) where
  -- The heads of each id are distinct and observed; no id is there twice.
  record AreNear (near : Dict (List String)) : Type 0 where
    observed : (a : String) → All (λ b. Observed triples a p b) (next_of near a)
    distinctly : (a : String) → distinct (next_of near a) ≡ true
    unique : distinct (keys near) ≡ true

  put-AreNear :
      (a b : String) (near : Dict (List String))
      → Observed triples a p b
      → AreNear near
      → AreNear (Dict.put a (add b (next_of near a)) near)
  put-AreNear a b near o h = record {
    observed = λ c. elim (Bool-cases (a == c)) [
      | inl e ↦
          rw (Dict.get-put a c (add b (next_of near a)) near, e)
            (subst (λ c. All (λ b. Observed triples c p b) (add b (next_of near a)))
              ((eq_iff a c).0 e)
              (All-add (λ b. Observed triples a p b) b (next_of near a) o (h.observed a)))
      | inr e ↦ rw (Dict.get-put a c (add b (next_of near a)) near, e) (h.observed c)
    ];
    distinctly = λ c. elim (Bool-cases (a == c)) [
      | inl e ↦
          rw (Dict.get-put a c (add b (next_of near a)) near, e)
            (distinct-add b (next_of near a) (h.distinctly a))
      | inr e ↦ rw (Dict.get-put a c (add b (next_of near a)) near, e) (h.distinctly c)
    ];
    unique = distinct-keys_put a (add b (next_of near a)) near h.unique;
  }

  adjacency-AreNear :
      (edges : List Pair) (near : Dict (List String))
      → AreObservedBy triples p edges
      → AreNear near
      → AreNear (adjacency edges near)
  unfolding adjacency
  adjacency-AreNear [] near o h = h
  adjacency-AreNear ((a, b) ∷ rest) near o h =
      adjacency-AreNear rest _ o.1 (put-AreNear a b near o.0 h)

  -- Chains that start alike, none of them twice, whose middles are among some ids.
  record AreFrom (a : String) (middles : List String) (found : List Key) : Type 0 where
    chained : All (IsChain triples p) found
    unique : distinct found ≡ true
    starts : PartIs first a found
    between : PartsIn second middles found

  -- Chains with the same two first ids, none of them twice, whose ends are among some ids.
  record AreOver (a b : String) (ends : List String) (found : List Key) : Type 0 where
    chained : All (IsChain triples p) found
    unique : distinct found ≡ true
    starts : PartIs first a found
    middles : PartIs second b found
    ending : PartsIn third ends found

  AreOver-skip :
      (a b c : String) (ends : List String) (found : List Key)
      → AreOver a b ends found
      → AreOver a b (c ∷ ends) found
  AreOver-skip a b c ends found h = record {
    chained = h.chained;
    unique = h.unique;
    starts = h.starts;
    middles = h.middles;
    ending = PartsIn-cons third c ends found h.ending;
  }

  AreOver-cons :
      (a b c : String) (ends : List String) (found : List Key)
      → IsChain triples p (a, (b, c))
      → contains c ends ≡ false
      → AreOver a b ends found
      → AreOver a b (c ∷ ends) ((a, (b, c)) ∷ found)
  AreOver-cons a b c ends found k f h = record {
    chained = (k, h.chained);
    unique = ground (arith, apart third c ends (a, (b, c)) found refl h.ending f, h.unique);
    starts = (refl, h.starts);
    middles = (refl, h.middles);
    ending = (ground (arith, eq_iff c c), PartsIn-cons third c ends found h.ending);
  }

  three-IsChain :
      (a b c : String)
      → are_three a b c ≡ true
      → Observed triples a p b
      → Observed triples b p c
      → IsChain triples p (a, (b, c))
  three-IsChain a b c t o u = record {
    first_second = different_of a b (ground (arith, t));
    first_third = different_of a c (ground (arith, t));
    second_third = different_of b c (ground (arith, t));
    first_step = o;
    second_step = u;
  }

  chains_over-AreOver :
      (a b : String) (ends : List String)
      → Observed triples a p b
      → All (λ c. Observed triples b p c) ends
      → distinct ends ≡ true
      → AreOver a b ends (chains_over a b ends)
  unfolding chains_over
  chains_over-AreOver a b [] o h d = record {
    chained = tt;
    unique = refl;
    starts = tt;
    middles = tt;
    ending = tt;
  }
  chains_over-AreOver a b (c ∷ rest) o h d =
      let fresh : contains c rest ≡ false = ground (arith, d) in
      let left : distinct rest ≡ true = ground (arith, d) in
      let others = chains_over-AreOver a b rest o h.1 left in
      elim (Bool-cases (are_three a b c)) [
        | inl e ↦ rw e (AreOver-cons a b c rest _ (three-IsChain a b c e o h.0) fresh others)
        | inr e ↦ rw e (AreOver-skip a b c rest _ others)
      ]

  module _ (near : Dict (List String)) (h : AreNear near) where
    heads-observed : (a : String) → All (λ b. Observed triples a p b) (sorted_heads near a)
    heads-observed a =
        All-sort (λ b. Observed triples a p b) text_le (next_of near a) (h.observed a)

    heads-distinct : (a : String) → distinct (sorted_heads near a) ≡ true
    heads-distinct a = distinct-sort text_le (next_of near a) (h.distinctly a)

    chains_from-AreFrom :
        (a : String) (middles : List String)
        → All (λ b. Observed triples a p b) middles
        → distinct middles ≡ true
        → AreFrom a middles (chains_from near a middles)
    unfolding chains_from
    chains_from-AreFrom a [] o d = record { chained = tt; unique = refl; starts = tt; between = tt }
    chains_from-AreFrom a (b ∷ rest) o d =
        let fresh : contains b rest ≡ false = ground (arith, d) in
        let left : distinct rest ≡ true = ground (arith, d) in
        let over =
          chains_over-AreOver a b (sorted_heads near b) o.0 (heads-observed b) (heads-distinct b) in
        let others = chains_from-AreFrom a rest o.1 left in
        record {
          chained = All-append (IsChain triples p) _ _ over.chained others.chained;
          unique =
              distinct-append second b rest _ _ over.middles others.between fresh over.unique
                others.unique;
          starts = All-append (λ k. first k ≡ a) _ _ over.starts others.starts;
          between = PartsIn-append second b rest _ _ over.middles others.between;
        }

    -- Chains, none of them twice, whose starts are among some ids.
    record AreAmong (subjects : List String) (found : List Key) : Type 0 where
      pub chained : All (IsChain triples p) found
      pub unique : distinct found ≡ true
      starts : PartsIn first subjects found

    chains-AreAmong :
        (subjects : List String)
        → distinct subjects ≡ true
        → AreAmong subjects (chains near subjects)
    unfolding chains
    chains-AreAmong [] d = record { chained = tt; unique = refl; starts = tt }
    chains-AreAmong (a ∷ rest) d =
        let fresh : contains a rest ≡ false = ground (arith, d) in
        let left : distinct rest ≡ true = ground (arith, d) in
        let from =
          chains_from-AreFrom a (sorted_heads near a) (heads-observed a) (heads-distinct a) in
        let others = chains-AreAmong rest left in
        record {
          chained = All-append (IsChain triples p) _ _ from.chained others.chained;
          unique =
              distinct-append first a rest _ _ from.starts others.starts fresh from.unique
                others.unique;
          starts = PartsIn-append first a rest _ _ from.starts others.starts;
        }

  pub adjacency-IsChain :
      (edges : List Pair)
      → AreObservedBy triples p edges
      → All
          (IsChain triples p)
          (chains (adjacency edges []) (sort text_le (keys (adjacency edges []))))
        × (distinct (chains (adjacency edges []) (sort text_le (keys (adjacency edges [])))) ≡ true)
  unfolding Dict.get
  adjacency-IsChain edges o =
      let near =
        adjacency-AreNear edges [] o
          (record { observed = λ a. tt; distinctly = λ a. refl; unique = refl }) in
      let among =
        chains-AreAmong (adjacency edges []) near (sort text_le (keys (adjacency edges [])))
          (distinct-sort text_le (keys (adjacency edges [])) near.unique) in
      (among.chained, among.unique)
