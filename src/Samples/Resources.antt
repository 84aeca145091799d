-- ===== src/Samples/Resources.antt =====
-- Two resources, reserved and released.
use copilot_mempalace.Prelude.{ℕ, String, none, some, List, [], ◌∷◌, ◌≡◌, refl}
use copilot_mempalace.Prelude.Dict.{Dict, get, put}
use copilot_mempalace.Model.{ok, ◌>>=◌, require, or_fail}
use copilot_mempalace.Domain.Records.{Resource}
use copilot_mempalace.Domain.Claim.{reserve}
use copilot_mempalace.Domain.Attempts.{release_keys}
use copilot_mempalace.Domain.Claim.Fencing.{
  ReservedAt, reserve-ReservedAt, ReleasedAt, release_keys-ReleasedAt, release-reserve,
}
use copilot_mempalace.Samples.States.{db_reservation}

-- "db" was reserved before, "gpu" never.
abbrev before : Dict Resource
before = ("db", record { counter = 4; reservation = none }) ∷ []

abbrev listed : List String
listed = "db" ∷ "gpu" ∷ []

abbrev held : Dict Resource
held =
    ("db", record { counter = 5; reservation = some db_reservation })
    ∷ ("gpu", record { counter = 1; reservation = some db_reservation })
    ∷ []

abbrev freed : Dict Resource
freed =
    ("db", record { counter = 5; reservation = none })
    ∷ ("gpu", record { counter = 1; reservation = none })
    ∷ []

abbrev fences : Dict ℕ
fences = ("db", 5) ∷ ("gpu", 1) ∷ []

reserve-ok : reserve db_reservation listed before [] ≡ ok (held, fences)
unfolding reserve get put ◌>>=◌ require
reserve-ok = refl

release-ok : release_keys db_reservation listed held ≡ ok freed
unfolding release_keys get put ◌>>=◌ require or_fail
release-ok = refl

reserve-ReservedAt_example : ReservedAt db_reservation listed before [] "gpu" (held, fences)
reserve-ReservedAt_example =
    reserve-ReservedAt db_reservation listed before [] "gpu" (held, fences) reserve-ok

release_keys-ReleasedAt_example : ReleasedAt db_reservation listed held "db" freed
release_keys-ReleasedAt_example =
    release_keys-ReleasedAt db_reservation listed held "db" freed release-ok

release-reserve_example :
    (after : Dict Resource) × (release_keys db_reservation listed held ≡ ok after)
release-reserve_example = release-reserve db_reservation listed before [] (held, fences) reserve-ok
