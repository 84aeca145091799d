-- ===== src/Domain/Equality.antt =====
-- Equality of tasks, resources and configurations, which `decide` compares snapshots by.
use Prim.Native.String.{String}
use native.Mathlib.Decide.{ℕ_discrete}
use text.Mathlib.Text.{◌==◌}
use text.Mathlib.TextEquality.{eq_iff}
use copilot_mempalace.Prelude.{inl, inr, Option, Bool-cases}
use copilot_mempalace.Domain.Records.{
  Task, Resource, Reservation, Configuration, Attempt, Native, Evidence,
}

unfoldable pub String-discrete : Discrete String
String-discrete a b = elim (Bool-cases (a == b)) [
  | inl e ↦ yes ((eq_iff a b).0 e)
  | inr e ↦ no (λ p. cc ((eq_iff a b).1 p))
]

Evidence-discrete : Discrete Evidence
Evidence-discrete = hlevel (ℕ_discrete, String-discrete)

Attempt-discrete : Discrete Attempt
Attempt-discrete = hlevel (ℕ_discrete, String-discrete, Evidence-discrete)

Native-discrete : Discrete Native
Native-discrete = hlevel (ℕ_discrete, String-discrete)

pub Task-discrete : Discrete Task
Task-discrete =
    hlevel (ℕ_discrete, String-discrete, Attempt-discrete, Native-discrete, Evidence-discrete)

pub Reservation-discrete : Discrete (Option Reservation)
Reservation-discrete = hlevel (ℕ_discrete, String-discrete)

pub Resource-discrete : Discrete Resource
Resource-discrete = hlevel (ℕ_discrete, String-discrete)

pub Configuration-discrete : Discrete Configuration
Configuration-discrete = hlevel (ℕ_discrete, String-discrete)
