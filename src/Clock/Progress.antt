-- ===== src/Clock/Progress.antt =====
-- Effective time never falls, and no real time is lost.
use copilot_mempalace.Prelude.{
  ℕ, ◌+◌, ◌-◌, ◌*◌, ◌/◌, ◌≡◌, ◌≤◌, ◌<◌, some, List, [], ◌∷◌, arith, Option-cases, inl, inr,
}
use copilot_mempalace.Clock.{
  RuntimeClock, Sample, Call, now_call, observe_call, ok, sample, advance, call, run, max_utc,
}

-- What the effective time after a call and the timestamp returned, in microseconds, are no earlier
-- and no later than.
pub record IsAdvanced (clock clock' : RuntimeClock) (s : Sample) (lower_bound returned : ℕ)
    : Type 0 where
  pub sampled : s.continuous ≡ some clock'.anchor
  pub forward : clock.anchor ≤ clock'.anchor
  pub elapsed : clock.effective + (clock'.anchor - clock.anchor) ≤ clock'.effective
  pub bound : lower_bound ≤ clock'.effective
  pub wall : ℕ
  pub wall_sampled : s.wall ≡ some wall
  pub wall_bound : wall ≤ clock'.effective
  pub representable : clock'.effective ≤ max_utc
  pub not_after : returned * 1000 ≤ clock'.effective
  pub less_than_a_microsecond : clock'.effective < returned * 1000 + 1000
  pub not_before : clock.effective / 1000 ≤ returned

-- A successful advance leaves an effective time that is no earlier than the effective time before
-- plus the continuous time that has passed, than the wall clock, and than the observed bound, and no
-- later than the last representable time; the continuous clock has not moved backwards. The
-- timestamp returned is less than a microsecond before the effective time and never after it, and it
-- is no earlier than the effective time before is when cut to microseconds.
pub advance-IsAdvanced :
    (clock clock' : RuntimeClock) (s : Sample) (lower_bound returned : ℕ)
    → advance clock s lower_bound ≡ ok (clock', returned)
    → IsAdvanced clock clock' s lower_bound returned
unfolding advance sample
advance-IsAdvanced clock clock' s lower_bound returned h = elim (Option-cases s.wall) [
  | inl e ↦ absurd (ground arith)
  | inr (wall, e) ↦ record {
    sampled = ground arith;
    forward = ground arith;
    elapsed = ground arith;
    bound = ground arith;
    wall = wall;
    wall_sampled = e;
    wall_bound = ground arith;
    representable = ground arith;
    not_after = ground arith;
    less_than_a_microsecond = ground arith;
    not_before = ground arith;
  }
]

call_mono : (clock : RuntimeClock) (c : Call) → clock.effective ≤ (call clock c).effective
unfolding call advance sample
call_mono clock (now_call s) = ground arith
call_mono clock (observe_call s timestamp) = ground arith

-- Over any calls, failing ones included, the effective time never falls.
pub run_mono :
    (clock : RuntimeClock) (calls : List Call) → clock.effective ≤ (run clock calls).effective
unfolding run
run_mono clock [] = omega arith
run_mono clock (c ∷ rest) = omega (arith, call_mono clock c, run_mono (call clock c) rest)
