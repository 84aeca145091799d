-- ===== src/Dreaming/Rounds.antt =====
-- The transitive loop of deductive_closure (skills/dreaming/scripts/dream_lib.py) is done after as
-- many rounds as the depth limit says: each round lengthens the paths of its frontier by one.
use copilot_mempalace.Prelude.{
  ℕ, zero, suc, ◌+◌, ◌≤◌, ◌≡◌, String, false, not, ◌&&◌, List, [], ◌∷◌, ◌++◌, All, refl, sym, ap,
  ◌∙◌, arith, string_eq, Bool-cases, inl, inr,
}
use copilot_mempalace.Prelude.Every.{All-append_one}
use copilot_mempalace.Dreaming.Records.{Edge, Host, Rule, Triple}
use copilot_mempalace.Dreaming.Closure.{
  Emitted, base_edge, base_from, emit_edges, extend_all, extend_over, extended, is_base, iterate,
  joins, may_extend,
}

abbrev pub HaveDepth : ℕ → List Edge → Type 0
HaveDepth d edges = All (λ e. e.depth ≡ d) edges

module _ (depth_cap : ℕ) (reached : List Edge) where
  extend_over-HaveDepth :
      (d : ℕ) (e : Edge) (base new : List Edge)
      → e.depth ≡ d
      → HaveDepth (d + 1) new
      → HaveDepth (d + 1) (extend_over depth_cap reached e base new)
  unfolding extend_over
  extend_over-HaveDepth d e [] new h k = k
  extend_over-HaveDepth d e (b ∷ rest) new h k =
      elim (Bool-cases (may_extend depth_cap reached new e b)) [
        | inl t ↦ rw t (
            extend_over-HaveDepth d e rest (new ++ extended e b ∷ []) h
              (All-append_one (λ f. f.depth ≡ d + 1) new (extended e b) k (omega (arith, h))))
        | inr f ↦ rw f (extend_over-HaveDepth d e rest new h k)
      ]

  extend_all-HaveDepth :
      (d : ℕ) (base frontier new : List Edge)
      → HaveDepth d frontier
      → HaveDepth (d + 1) new
      → HaveDepth (d + 1) (extend_all depth_cap reached base frontier new)
  unfolding extend_all
  extend_all-HaveDepth d base [] new h k = k
  extend_all-HaveDepth d base (e ∷ rest) new h k =
      extend_all-HaveDepth d base rest (extend_over depth_cap reached e base new) h.1
        (extend_over-HaveDepth d e base new h.0 k)

  beyond-may_extend :
      (new : List Edge) (e b : Edge)
      → depth_cap ≤ e.depth
      → may_extend depth_cap reached new e b ≡ false
  beyond-may_extend new e b h = ground arith

  extend_over_nil :
      (e : Edge) (base : List Edge)
      → depth_cap ≤ e.depth
      → extend_over depth_cap reached e base [] ≡ []
  unfolding extend_over
  extend_over_nil e [] h = refl
  extend_over_nil e (b ∷ rest) h = rw (beyond-may_extend [] e b h) (extend_over_nil e rest h)

  extend_all_nil :
      (d : ℕ) (base frontier : List Edge)
      → depth_cap ≤ d
      → HaveDepth d frontier
      → extend_all depth_cap reached base frontier [] ≡ []
  unfolding extend_all
  extend_all_nil d base [] h k = refl
  extend_all_nil d base (e ∷ rest) h k =
      rw (extend_over_nil e base (omega (arith, h, k.0))) (extend_all_nil d base rest h k.1)

base_from-HaveDepth :
    (host : Host) (rule : Rule) (rest : List Triple) (edges : List Edge)
    → HaveDepth 1 edges
    → HaveDepth 1 (base_from host rule rest edges)
unfolding base_from
base_from-HaveDepth host rule [] edges h = h
base_from-HaveDepth host rule (t ∷ rest) edges h =
    elim (Bool-cases (is_base host rule t && not (joins t.subject_id t.object_id edges))) [
      | inl e ↦ rw e (
          base_from-HaveDepth host rule rest (edges ++ base_edge t ∷ [])
            (All-append_one (λ f. f.depth ≡ 1) edges (base_edge t) h refl))
      | inr e ↦ rw e (base_from-HaveDepth host rule rest edges h)
    ]

suc_add : (n k : ℕ) → suc n + k ≡ suc (n + k)
suc_add n k = omega arith

module _ (host : Host) (triples : List Triple) (onto_version : String)
    (max_depth max_iterations max_candidates : ℕ) (rule : Rule) (depth_cap : ℕ)
    (base : List Edge) where
  abbrev rounds : ℕ → List Edge → List Edge → Emitted → Emitted
  rounds n reached frontier st =
      iterate host triples onto_version max_depth max_iterations max_candidates n rule depth_cap
        base reached frontier st

  -- What a round does with its new edges.
  abbrev continued : ℕ → List Edge → Emitted → List Edge → Emitted
  continued n reached st new = elim new [
    | [] ↦ st
    | e ∷ rest ↦ rounds n (reached ++ e ∷ rest) (e ∷ rest) (
        emit_edges host triples onto_version max_depth max_iterations max_candidates rule (e ∷ rest)
          st)
  ]

  rounds_beyond :
      (k d : ℕ) (reached frontier : List Edge) (st : Emitted)
      → depth_cap ≤ d
      → HaveDepth d frontier
      → rounds k reached frontier st ≡ st
  unfolding iterate
  rounds_beyond zero d reached frontier st h f = refl
  rounds_beyond (suc k) d reached frontier st h f =
      ap (continued k reached st) (extend_all_nil depth_cap reached d base frontier h f)

  rounds_enough :
      (n k d : ℕ) (reached frontier : List Edge) (st : Emitted)
      → depth_cap ≤ d + n
      → HaveDepth d frontier
      → rounds (n + k) reached frontier st ≡ rounds n reached frontier st
  unfolding iterate
  rounds_enough zero k d reached frontier st h f =
      ap (λ m. rounds m reached frontier st) (omega arith)
      ∙ rounds_beyond k d reached frontier st (omega (arith, h)) f
      ∙ sym (rounds_beyond 0 d reached frontier st (omega (arith, h)) f)
  rounds_enough (suc n) k d reached frontier st h f =
      ap (λ m. rounds m reached frontier st) (suc_add n k)
      ∙ (elim (extend_all depth_cap reached base frontier [])
            as (λ new.
              HaveDepth (d + 1) new
              → continued (n + k) reached st new ≡ continued n reached st new) [
                | [] ↦ λ g. refl
                | e ∷ rest ↦ λ g.
                    rounds_enough n k (d + 1) (reached ++ e ∷ rest) (e ∷ rest) _ (omega (arith, h))
                      g
              ])
          (extend_all-HaveDepth depth_cap reached d base frontier [] f tt)

-- The loop over the base edges of a rule is done after as many rounds as the depth limit: more rounds
-- emit nothing further.
pub iterate-base_from :
    (host : Host) (triples : List Triple) (onto_version : String)
    (max_depth max_iterations max_candidates : ℕ) (rule : Rule) (depth_cap k : ℕ) (st : Emitted)
    → iterate host triples onto_version max_depth max_iterations max_candidates
        (depth_cap + k)
        rule
        depth_cap
        (base_from host rule triples [])
        (base_from host rule triples [])
        (base_from host rule triples [])
        st
      ≡ iterate host triples onto_version max_depth max_iterations max_candidates depth_cap rule
          depth_cap
          (base_from host rule triples [])
          (base_from host rule triples [])
          (base_from host rule triples [])
          st
iterate-base_from host triples onto_version max_depth max_iterations max_candidates rule depth_cap k
      st =
    let base = base_from host rule triples [] in
    rounds_enough host triples onto_version max_depth max_iterations max_candidates rule depth_cap
      base depth_cap k 1 base base st (omega arith) (base_from-HaveDepth host rule triples [] tt)
