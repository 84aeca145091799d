-- ===== src/Dreaming/Overlap.antt =====
-- premise_interval of skills/dreaming/scripts/dream_lib.py against what it stands for: premises have
-- a common interval where each one starts before each one ends.
use mathlib.Core.Logic.{◌↔◌}
use copilot_mempalace.Prelude.{
  ℕ, ◌<◌, ◌≡◌, true, false, Option, none, some, List, [], ◌∷◌, All, refl, arith,
}
use copilot_mempalace.Dreaming.Records.{Triple}
use copilot_mempalace.Dreaming.Candidates.{
  earlier, interval_of, later, max_start, min_end, premise_interval,
}
use copilot_mempalace.Dreaming.Closure.{has_interval}

-- A start that is none is before everything, an end that is none after.
abbrev pub StartsBefore : Option ℕ → Option ℕ → Type 0
StartsBefore none end = Unit
StartsBefore (some start) none = Unit
StartsBefore (some start) (some end) = start < end

-- Each premise starts before each premise ends.
abbrev pub AreOverlapping : List Triple → Type 0
AreOverlapping premises =
    All (λ p. All (λ q. StartsBefore p.valid_from q.valid_to) premises) premises

later-StartsBefore :
    (a b end : Option ℕ) → StartsBefore (later a b) end ↔ (StartsBefore a end × StartsBefore b end)
later-StartsBefore none b end = ((λ h. (tt, h)), (λ h. h.1))
later-StartsBefore (some a) none end = ((λ h. (h, tt)), (λ h. h.0))
later-StartsBefore (some a) (some b) none = ((λ h. (tt, tt)), (λ h. tt))
later-StartsBefore (some a) (some b) (some end) =
    ((λ h. (omega (arith, h), omega (arith, h))), (λ h. omega (arith, h.0, h.1)))

earlier-StartsBefore :
    (start a b : Option ℕ)
    → StartsBefore start (earlier a b) ↔ (StartsBefore start a × StartsBefore start b)
earlier-StartsBefore none a b = ((λ h. (tt, tt)), (λ h. tt))
earlier-StartsBefore (some start) none b = ((λ h. (tt, h)), (λ h. h.1))
earlier-StartsBefore (some start) (some a) none = ((λ h. (h, tt)), (λ h. h.0))
earlier-StartsBefore (some start) (some a) (some b) =
    ((λ h. (omega (arith, h), omega (arith, h))), (λ h. omega (arith, h.0, h.1)))

StartsBefore-none : (start : Option ℕ) → StartsBefore start none
StartsBefore-none none = tt
StartsBefore-none (some start) = tt

min_end-StartsBefore :
    (start : Option ℕ) (ps : List Triple)
    → StartsBefore start (min_end ps) ↔ All (λ q. StartsBefore start q.valid_to) ps
unfolding min_end
min_end-StartsBefore start [] = ((λ h. tt), (λ h. StartsBefore-none start))
min_end-StartsBefore start (p ∷ rest) =
    let here = earlier-StartsBefore start p.valid_to (min_end rest) in
    let there = min_end-StartsBefore start rest in
    ((λ h. let k = here.0 h in (k.0, there.0 k.1)), (λ h. here.1 (h.0, there.1 h.1)))

max_start-StartsBefore :
    (ps : List Triple) (all : List Triple)
    → StartsBefore (max_start ps) (min_end all)
      ↔ All (λ p. All (λ q. StartsBefore p.valid_from q.valid_to) all) ps
unfolding max_start
max_start-StartsBefore [] all = ((λ h. tt), (λ h. tt))
max_start-StartsBefore (p ∷ rest) all =
    let here = later-StartsBefore p.valid_from (max_start rest) (min_end all) in
    let there = max_start-StartsBefore rest all in
    let each = min_end-StartsBefore p.valid_from all in
    ((λ h. let k = here.0 h in (each.0 k.0, there.0 k.1)), (λ h. here.1 (each.1 h.0, there.1 h.1)))

interval_of-StartsBefore :
    (start end : Option ℕ)
    → (elim (interval_of start end) [ none ↦ false | some i ↦ true ]) ≡ true
      ↔ StartsBefore start end
interval_of-StartsBefore none end = ((λ h. tt), (λ h. refl))
interval_of-StartsBefore (some start) none = ((λ h. tt), (λ h. refl))
interval_of-StartsBefore (some start) (some end) = ground arith

-- Premises have a common interval exactly where each of them starts before each of them ends.
pub has_interval-AreOverlapping :
    (premises : List Triple) → (has_interval premises ≡ true) ↔ AreOverlapping premises
unfolding premise_interval
has_interval-AreOverlapping premises =
    let interval = interval_of-StartsBefore (max_start premises) (min_end premises) in
    let overlap = max_start-StartsBefore premises premises in
    ((λ h. overlap.0 (interval.0 h)), (λ h. interval.1 (overlap.1 h)))
