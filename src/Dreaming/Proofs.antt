-- ===== src/Dreaming/Proofs.antt =====
-- What proves a candidate: the premises behind an edge of the closure, and behind a conclusion.
use mathlib.Core.List.{Mem, mem-cons_self, mem-cons_of_mem}
use copilot_mempalace.Prelude.{
  ℕ, ◌+◌, ◌≤◌, ◌≡◌, String, true, not, ◌&&◌, ◌||◌, List, [], ◌∷◌, ◌++◌, All, length, refl, sym, ◌∙◌,
  subst, arith, ◌==◌, ◌⊎◌, string_eq, pair_eq, Bool-cases, inl, inr, eq_of_==, eq_iff,
}
use copilot_mempalace.Prelude.Every.{All-append, All-append_one}
use copilot_mempalace.Dreaming.Records.{Edge, Host, Rule, Triple}
use copilot_mempalace.Dreaming.Predicates.{derived_predicate_for, normalize_predicate}
use copilot_mempalace.Dreaming.Closure.{
  base_edge, base_from, extend_all, extend_over, extended, has_interval, is_base, joins, may_extend,
}

length-append {ℓ} : {A : Type ℓ} (xs ys : List A) → length (xs ++ ys) ≡ length xs + length ys
length-append [] ys = ground arith
length-append (x ∷ xs) ys = ground (arith, length-append xs ys)

-- The triples lead from the first id to the second, each from where the one before it ends.
abbrev pub IsLinked : String → String → List Triple → Type 0
IsLinked a b [] = a ≡ b
IsLinked a b (t ∷ rest) = (t.subject_id ≡ a) × IsLinked t.object_id b rest

IsLinked-append :
    (a b c : String) (xs ys : List Triple)
    → IsLinked a b xs
    → IsLinked b c ys
    → IsLinked a c (xs ++ ys)
IsLinked-append a b c [] ys h k = subst (λ x. IsLinked x c ys) (sym h) k
IsLinked-append a b c (t ∷ rest) ys h k = (h.0, IsLinked-append t.object_id b c rest ys h.1 k)

module _ (host : Host) (triples : List Triple) (rule : Rule) where
  -- A listed triple of the rule's predicate or of the one it derives.
  pub record IsPremise (t : Triple) : Type 0 where
    pub listed : Mem t triples
    pub based :
        (normalize_predicate host t.predicate ≡ normalize_predicate host rule.predicate)
        ⊎ (normalize_predicate host t.predicate ≡ derived_predicate_for host rule)

  pub record IsPath (e : Edge) : Type 0 where
    pub linked : IsLinked e.tail e.head e.premises
    pub counted : e.depth ≡ length e.premises
    pub premised : All IsPremise e.premises

  -- An edge of new_edges.
  pub record IsStep (depth_cap : ℕ) (e : Edge) : Type 0 where
    pub path : IsPath e
    pub capped : e.depth ≤ depth_cap
    pub consistent : has_interval e.premises ≡ true

  extended-IsPath :
      (e b : Edge) → e.head ≡ b.tail → b.depth ≡ 1 → IsPath e → IsPath b → IsPath (extended e b)
  extended-IsPath e b h one p q = record {
    linked =
        IsLinked-append e.tail e.head b.head e.premises b.premises p.linked
          (subst (λ x. IsLinked x b.head b.premises) (sym h) q.linked);
    counted = omega (arith, p.counted, sym q.counted ∙ one, length-append e.premises b.premises);
    premised = All-append IsPremise e.premises b.premises p.premised q.premised;
  }

  -- A base edge.
  pub record IsBaseEdge (b : Edge) : Type 0 where
    pub path : IsPath b
    pub single : b.depth ≡ 1

  module _ (depth_cap : ℕ) (reached : List Edge) where
    extended-IsStep :
        (new : List Edge) (e b : Edge)
        → may_extend depth_cap reached new e b ≡ true
        → IsPath e
        → IsBaseEdge b
        → IsStep depth_cap (extended e b)
    extended-IsStep new e b t p q = record {
      path = extended-IsPath e b (eq_of_== (ground arith)) q.single p q.path;
      capped = ground arith;
      consistent = ground arith;
    }

    extend_over-IsStep :
        (e : Edge) (base new : List Edge)
        → IsPath e
        → All IsBaseEdge base
        → All (IsStep depth_cap) new
        → All (IsStep depth_cap) (extend_over depth_cap reached e base new)
    unfolding extend_over
    extend_over-IsStep e [] new p q s = s
    extend_over-IsStep e (b ∷ rest) new p q s =
        elim (Bool-cases (may_extend depth_cap reached new e b)) [
          | inl t ↦ rw t (
              extend_over-IsStep e rest (new ++ extended e b ∷ []) p q.1 (
                All-append_one (IsStep depth_cap) new (extended e b) s
                  (extended-IsStep new e b t p q.0)))
          | inr f ↦ rw f (extend_over-IsStep e rest new p q.1 s)
        ]

    pub extend_all-IsStep :
        (base frontier new : List Edge)
        → All IsPath frontier
        → All IsBaseEdge base
        → All (IsStep depth_cap) new
        → All (IsStep depth_cap) (extend_all depth_cap reached base frontier new)
    unfolding extend_all
    extend_all-IsStep base [] new p q s = s
    extend_all-IsStep base (e ∷ rest) new p q s =
        extend_all-IsStep base rest (extend_over depth_cap reached e base new) p.1 q
          (extend_over-IsStep e base new p.0 q s)

either_of : (x y z : String) → (x == y || x == z) ≡ true → (x ≡ y) ⊎ (x ≡ z)
either_of x y z h = ground (arith, eq_iff x y, eq_iff x z)

All-Mem {ℓ} :
    {A : Type ℓ} (all xs : List A)
    → All (λ x. Mem x all) xs
    → (y : A) → All (λ x. Mem x (y ∷ all)) xs
All-Mem all [] h y = tt
All-Mem all (x ∷ xs) h y = (mem-cons_of_mem y h.0, All-Mem all xs h.1 y)

pub All-Mem_self {ℓ} : {A : Type ℓ} (xs : List A) → All (λ x. Mem x xs) xs
All-Mem_self [] = tt
All-Mem_self (x ∷ xs) = (mem-cons_self, All-Mem xs xs (All-Mem_self xs) x)

module _ (host : Host) (triples : List Triple) (rule : Rule) where
  base_edge-IsBaseEdge :
      (t : Triple)
      → Mem t triples
      → is_base host rule t ≡ true
      → IsBaseEdge host triples rule (base_edge t)
  base_edge-IsBaseEdge t m b = record {
    path = record {
      linked = (refl, refl);
      counted = refl;
      premised = (record { listed = m; based = either_of _ _ _ b }, tt);
    };
    single = refl;
  }

  pub base_from-IsBaseEdge :
      (rest : List Triple) (edges : List Edge)
      → All (λ t. Mem t triples) rest
      → All (IsBaseEdge host triples rule) edges
      → All (IsBaseEdge host triples rule) (base_from host rule rest edges)
  unfolding base_from
  base_from-IsBaseEdge [] edges m h = h
  base_from-IsBaseEdge (t ∷ rest) edges m h =
      elim (Bool-cases (is_base host rule t && not (joins t.subject_id t.object_id edges))) [
        | inl e ↦ rw e (
            base_from-IsBaseEdge rest (edges ++ base_edge t ∷ []) m.1 (
              All-append_one (IsBaseEdge host triples rule) edges (base_edge t) h
                (base_edge-IsBaseEdge t m.0 (ground arith))))
        | inr e ↦ rw e (base_from-IsBaseEdge rest edges m.1 h)
      ]
