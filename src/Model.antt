-- ===== src/Model.antt =====
-- sidecar/src/mempalace_tasks/model.py: the domain's errors as values, and the validators that the
-- commands' fields go through. A DomainError is modelled by its code; its message and details are
-- not. A field's JSON type is its type here, so the tests on `type(value)` are the types. An
-- instant is a number of microseconds since 0001-01-01T00:00:00Z: `instant` and `utc` only move
-- between it and its text.
pub mod Ensures
use copilot_mempalace.Prelude.{
  ℕ, ◌-◌, ◌*◌, ◌^◌, String, Bool, true, false, ◌&&◌, not, Option, none, some, List, [], ◌∷◌, leb,
}
use copilot_mempalace.Prelude.Text.{is_blank, char_count, byte_count, is_canonical_uuid}

-- The codes of DomainError, `payload_too_large` of protocol.py's ProtocolError, and `key_error` for the built-in exceptions (KeyError, TypeError) that
-- a look-up in a malformed state raises.
pub data Code : Type 0 where
  validation_error not_owner unsupported_execution_profile not_found version_conflict : Code
  invalid_transition stale_generation lease_expired recovery_required invariant_violation : Code
  already_exists dependency_cycle not_ready resource_busy retry_budget_exhausted : Code
  coordination_mode_mismatch payload_too_large key_error : Code

pub data Result {ℓ} (A : Type ℓ) : Type ℓ where
  ok : A → Result A
  err : Code → Result A

infixl 5 ◌>>=◌ ◌>>◌
unfoldable pub ◌>>=◌ {ℓ κ} : {A : Type ℓ} {B : Type κ} → Result A → (A → Result B) → Result B
ok a >>= f = f a
err e >>= f = err e

abbrev pub ◌>>◌ {ℓ κ} : {A : Type ℓ} {B : Type κ} → Result A → Result B → Result B
m >> k = m >>= λ _. k

unfoldable pub require : Bool → Code → Result (Unit {0})
require true e = ok tt
require false e = err e

-- d[k] where a missing key raises
unfoldable pub or_fail {ℓ} : {A : Type ℓ} → Option A → Code → Result A
or_fail none e = err e
or_fail (some a) e = ok a

-- for a in xs: f(a)
unfoldable pub for_each {ℓ} : {A : Type ℓ} → (A → Result (Unit {0})) → List A → Result (Unit {0})
for_each f [] = ok tt
for_each f (x ∷ xs) = do f x; for_each f xs

-- text(value, name, maximum)
unfoldable pub text : String → ℕ → Result (Unit {0})
text value maximum = do
  require (not (is_blank value)) validation_error
  require (leb (char_count value) maximum) validation_error

-- text(value, name, maximum, byte_limit=True)
unfoldable pub byte_text : String → ℕ → Result (Unit {0})
byte_text value maximum = do
  require (not (is_blank value)) validation_error
  require (leb (byte_count value) maximum) validation_error

-- text(value, name, maximum, empty=True, byte_limit=True)
unfoldable pub empty_text : String → ℕ → Result (Unit {0})
empty_text value maximum = require (leb (byte_count value) maximum) validation_error

abbrev pub max_integer : ℕ
max_integer = 2 ^ 63 - 1

unfoldable pub integer : ℕ → ℕ → ℕ → Result (Unit {0})
integer value minimum maximum = require (leb minimum value && leb value maximum) validation_error

unfoldable pub identifier : String → Result (Unit {0})
identifier value = do text value 36; require (is_canonical_uuid value) validation_error

-- 9999-12-31T23:59:59.999999Z
abbrev pub max_instant : ℕ
max_instant = 3652059 * 86400 * 1000000 - 1

abbrev pub second : ℕ
second = 1000000

-- instant(value) of a field that may be None
abbrev pub instant : Option ℕ → Result ℕ
instant value = or_fail value validation_error
