-- ===== src/Clock.antt =====
-- sidecar/src/mempalace_tasks/runtime_clock.py: the effective time of one owner process. A sample of
-- the wall clock or of the continuous clock is an argument, or `none` where its provider raises; a
-- timestamp that is observed is the number of nanoseconds that `_parse` makes of it, and one that is
-- returned the number of microseconds that the text of `_format` says. The process check is not
-- modelled.
pub mod Progress
use copilot_mempalace.Prelude.{
  ℕ, ◌+◌, ◌-◌, ◌/◌, ◌^◌, Option, none, some, List, [], ◌∷◌, ltb, leb, max, if◌then◌else◌,
}

pub data ClockError : Type 0 where
  clock_sample_failed invalid_clock_sample continuous_discontinuity : ClockError

pub data Result {ℓ} (A : Type ℓ) : Type ℓ where
  ok : A → Result A
  err : ClockError → Result A

infixl 5 ◌>>=◌
abbrev pub ◌>>=◌ {ℓ κ} : {A : Type ℓ} {B : Type κ} → Result A → (A → Result B) → Result B
ok a >>= f = f a
err e >>= f = err e

-- _MAX_UTC
abbrev pub max_utc : ℕ
max_utc = 253402300799999999999

abbrev pub max_continuous : ℕ
max_continuous = 2 ^ 64 - 1

pub record RuntimeClock : Type 0 where
  pub effective : ℕ
  pub anchor : ℕ

-- What the two providers return on one call.
pub record Sample : Type 0 where
  pub wall : Option ℕ
  pub continuous : Option ℕ

-- _checked
abbrev pub checked : ℕ → ℕ → Result ℕ
checked value maximum = if leb value maximum then ok value else err invalid_clock_sample

abbrev provided : Option ℕ → Result ℕ
provided none = err clock_sample_failed
provided (some n) = ok n

-- _sample: the wall time and the continuous time
unfoldable pub sample : Sample → Result (ℕ × ℕ)
sample s = do
  continuous ← provided s.continuous
  wall ← provided s.wall
  w ← checked wall max_utc
  c ← checked continuous max_continuous
  ok (w, c)

-- RuntimeClock.__init__
unfoldable pub init : ℕ → Sample → Result RuntimeClock
init initial s = do
  (wall, continuous) ← sample s
  ok (record { effective = max initial wall; anchor = continuous })

-- _format: the text has six decimals, so what is below a microsecond is cut off
abbrev pub format : ℕ → ℕ
format value = value / 1000

-- _advance: the clock after it, and the timestamp returned
unfoldable pub advance : RuntimeClock → Sample → ℕ → Result (RuntimeClock × ℕ)
advance clock s lower_bound = do
  (wall, continuous) ← sample s
  if ltb continuous clock.anchor then err continuous_discontinuity else (do
    effective ←
        checked (max (max (clock.effective + continuous - clock.anchor) wall) lower_bound) max_utc
    ok (record { effective = effective; anchor = continuous }, format effective))

-- now
unfoldable pub now : RuntimeClock → Sample → Result (RuntimeClock × ℕ)
unfolding advance
now clock s = advance clock s 0

-- observe, which returns nothing
unfoldable pub observe : RuntimeClock → Sample → ℕ → Result RuntimeClock
unfolding advance
observe clock s timestamp = do (clock', returned) ← advance clock s timestamp; ok clock'

-- Calls on one clock. One that raises leaves it as it was.
pub data Call : Type 0 where
  now_call : Sample → Call
  observe_call : Sample → ℕ → Call

abbrev after : RuntimeClock → Result RuntimeClock → RuntimeClock
after clock (ok clock') = clock'
after clock (err e) = clock

abbrev after_now : RuntimeClock → Result (RuntimeClock × ℕ) → RuntimeClock
after_now clock (ok (clock', returned)) = clock'
after_now clock (err e) = clock

unfoldable pub call : RuntimeClock → Call → RuntimeClock
unfolding now observe
call clock (now_call s) = after_now clock (now clock s)
call clock (observe_call s timestamp) = after clock (observe clock s timestamp)

unfoldable pub run : RuntimeClock → List Call → RuntimeClock
run clock [] = clock
run clock (c ∷ rest) = run (call clock c) rest
