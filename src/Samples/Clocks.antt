-- ===== src/Samples/Clocks.antt =====
-- A clock whose wall time steps back.
use copilot_mempalace.Prelude.{◌≤◌, ◌≡◌, none, some, List, [], ◌∷◌, refl}
use copilot_mempalace.Clock.{
  RuntimeClock, Sample, Call, now_call, observe_call, ok, sample, advance, run,
}
use copilot_mempalace.Clock.Progress.{IsAdvanced, advance-IsAdvanced, run_mono}

abbrev start : RuntimeClock
start = record { effective = 1000; anchor = 50 }

-- The wall clock reads 900, which is before the effective time.
abbrev stepped_back : Sample
stepped_back = record { wall = some 900; continuous = some 75 }

abbrev later : RuntimeClock
later = record { effective = 1025; anchor = 75 }

advance-ok : advance start stepped_back 0 ≡ ok (later, 1)
unfolding advance sample
advance-ok = refl

advance-IsAdvanced_example : IsAdvanced start later stepped_back 0 1
advance-IsAdvanced_example = advance-IsAdvanced start later stepped_back 0 1 advance-ok

-- A clock that fails in between.
abbrev calls : List Call
calls =
    now_call stepped_back
    ∷ now_call (record { wall = none; continuous = some 80 })
    ∷ observe_call (record { wall = some 2000; continuous = some 90 }) 3000
    ∷ []

run_mono_example : start.effective ≤ (run start calls).effective
run_mono_example = run_mono start calls
