-- ===== src/Dreaming/Emission.antt =====
-- What emit keeps true of the candidates that are out.
use copilot_mempalace.Prelude.{
  ℕ, ◌+◌, ◌≤◌, ◌≡◌, String, true, false, ◌||◌, some, List, [], ◌∷◌, ◌++◌, All, leb, contains,
  distinct, length, map, refl, sym, ap, ◌∙◌, subst, arith, ◌==◌, Eq, string_eq, pair_eq, Bool-cases,
  inl, inr,
}
use copilot_mempalace.Prelude.Dict.{Dict, values}
use copilot_mempalace.Prelude.Dict
use copilot_mempalace.Prelude.Every.{All-append_one}
use copilot_mempalace.Dreaming.Records.{Candidate, Host, Key}
use copilot_mempalace.Dreaming.Closure.{
  Emitted, conclusion_key, emit, is_known, nothing_emitted, with_candidate,
}

module _ {ℓ} {V : Type ℓ} where
  values-put :
      (k : String) (v : V) (d : Dict V)
      → Dict.has k d ≡ false
      → values (Dict.put k v d) ≡ values d ++ v ∷ []
  unfolding Dict.put Dict.has
  values-put k v [] h = refl
  values-put k v ((i, w) ∷ d) h = ground (arith, values-put k v d)

  length-put : (k : String) (v : V) (d : Dict V) → length (Dict.put k v d) ≤ length d + 1
  unfolding Dict.put
  length-put k v [] = ground arith
  length-put k v ((i, w) ∷ d) = ground (arith, length-put k v d)

contains-append_one :
    (a x : Key) (xs : List Key) → contains a (xs ++ x ∷ []) ≡ (contains a xs || x == a)
contains-append_one a x [] = ground arith
contains-append_one a x (y ∷ ys) = ground (arith, contains-append_one a x ys)

distinct-append_one :
    (x : Key) (xs : List Key)
    → contains x xs ≡ false
    → distinct xs ≡ true
    → distinct (xs ++ x ∷ []) ≡ true
distinct-append_one x [] h d = refl
distinct-append_one x (y ∷ ys) h d = ground (
  arith,
  contains-append_one y x ys,
  distinct-append_one x ys,
  Eq.same_iff pair_eq x y,
  Eq.same_iff pair_eq y x,
)

map-append_one {ℓ κ} :
    {A : Type ℓ} {B : Type κ} (f : A → B) (xs : List A) (x : A)
    → map f (xs ++ x ∷ []) ≡ map f xs ++ f x ∷ []
map-append_one f [] x = refl
map-append_one f (y ∷ ys) x = ap (λ zs. f y ∷ zs) (map-append_one f ys x)

-- A conclusion that is neither reflexive nor active.
pub record IsFresh (active : List Key) (k : Key) : Type 0 where
  pub inactive : contains k active ≡ false
  pub irreflexive : (k.0 == k.1.1) ≡ false

module _ (host : Host) (active : List Key) (max_candidates : ℕ) (P : Candidate → Type 0) where
  pub record IsSound (st : Emitted) : Type 0 where
    pub bounded : length st.out ≤ max_candidates
    pub concluded : map (λ c. conclusion_key host c) (values st.out) ≡ st.keys
    pub unique : distinct st.keys ≡ true
    pub fresh : All (IsFresh active) st.keys
    pub proved : All P (values st.out)

  with_candidate-IsSound :
      (st : Emitted) (c : Candidate)
      → is_known active st (conclusion_key host c) c.candidate_id ≡ false
      → leb max_candidates (length st.out) ≡ false
      → P c
      → IsSound st
      → IsSound (with_candidate st (conclusion_key host c) c)
  with_candidate-IsSound st c new room p s =
      let absent : Dict.has c.candidate_id st.out ≡ false = ground arith in
      let added = values-put c.candidate_id c st.out absent in
      record {
        bounded = ground (arith, length-put c.candidate_id c st.out);
        concluded =
            ap (map (λ d. conclusion_key host d)) added
            ∙ map-append_one (λ d. conclusion_key host d) (values st.out) c
            ∙ ap (λ ks. ks ++ conclusion_key host c ∷ []) s.concluded;
        unique = distinct-append_one (conclusion_key host c) st.keys (ground arith) s.unique;
        fresh =
            All-append_one (IsFresh active) st.keys (conclusion_key host c) s.fresh
              (record { inactive = ground arith; irreflexive = ground arith });
        proved = subst (All P) (sym added) (All-append_one P (values st.out) c s.proved p);
      }

  pub emit_one-IsSound :
      (st : Emitted) (c : Candidate)
      → P c
      → IsSound st
      → IsSound (emit host active max_candidates (some c) st)
  unfolding emit
  emit_one-IsSound st c p s =
      elim (Bool-cases (is_known active st (conclusion_key host c) c.candidate_id)) [
        | inl t ↦ rw t s
        | inr f ↦ elim (Bool-cases (leb max_candidates (length st.out))) [
          | inl t ↦
              rw (f, t)
                (record {
                  bounded = s.bounded;
                  concluded = s.concluded;
                  unique = s.unique;
                  fresh = s.fresh;
                  proved = s.proved;
                })
          | inr t ↦ rw (f, t) (with_candidate-IsSound st c f t p s)
        ]
      ]

  pub nothing-IsSound : IsSound nothing_emitted
  nothing-IsSound = record {
    bounded = ground arith;
    concluded = refl;
    unique = refl;
    fresh = tt;
    proved = tt;
  }
