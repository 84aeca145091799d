-- ===== src/Prelude/Text.antt =====
-- What the program asks of texts: lengths in characters and in UTF-8 bytes, blankness, the order of
-- texts, and the canonical form of a UUID.
use Prim.Native.Nat.{ℕ, zero, suc, ◌+◌}
use Prim.Native.Char.{code}
use Prim.Native.String.{String}
use mathlib.Core.Bool.{Bool, true, false, not, ◌&&◌, ◌||◌}
use mathlib.Core.List.{List, [], ◌∷◌}
use mathlib.Core.Path.{◌≡◌, refl}
use mathlib.Core.Logic.{◌⊎◌, inl, inr}
use native.Mathlib.Omega.{arith}
use copilot_mempalace.Prelude.Tests.{ltb, leb, nat_beq, if◌then◌else◌}
use copilot_mempalace.Prelude.Lists.{length, all}

-- The code points of a text.
abbrev pub codes : String → List ℕ
codes String.[] = []
codes (String.◌∷◌ c s) = code c ∷ codes s

-- str.isspace of one character, which `strip` removes
abbrev pub is_space : ℕ → Bool
is_space c =
    (leb 9 c && leb c 13)
    || (leb 28 c && leb c 32)
    || nat_beq c 0x85
    || nat_beq c 0xa0
    || nat_beq c 0x1680
    || (leb 0x2000 c && leb c 0x200a)
    || nat_beq c 0x2028
    || nat_beq c 0x2029
    || nat_beq c 0x202f
    || nat_beq c 0x205f
    || nat_beq c 0x3000

-- not value.strip()
unfoldable pub is_blank : String → Bool
is_blank s = all is_space (codes s)

-- len(value)
unfoldable pub char_count : String → ℕ
char_count s = length (codes s)

abbrev pub utf8_width : ℕ → ℕ
utf8_width c = if ltb c 0x80 then 1 else if ltb c 0x800 then 2 else if ltb c 0x10000 then 3 else 4

abbrev pub utf8_width_sum : List ℕ → ℕ
utf8_width_sum [] = 0
utf8_width_sum (c ∷ cs) = utf8_width c + utf8_width_sum cs

-- len(value.encode("utf-8"))
unfoldable pub byte_count : String → ℕ
byte_count s = utf8_width_sum (codes s)

abbrev is_lower_hex : ℕ → Bool
is_lower_hex c = (leb b'0' c && leb c b'9') || (leb b'a' c && leb c b'f')

-- A character for each place that is left: 8-4-4-4-12 digits with dashes between.
abbrev dash_place : ℕ → Bool
dash_place n = nat_beq n 28 || nat_beq n 23 || nat_beq n 18 || nat_beq n 13

abbrev uuid_shape : ℕ → List ℕ → Bool
uuid_shape zero [] = true
uuid_shape (suc n) (c ∷ cs) =
    (if dash_place (suc n) then nat_beq c b'-' else is_lower_hex c) && uuid_shape n cs
uuid_shape _ _ = false

-- str(UUID(value)) == value
unfoldable pub is_canonical_uuid : String → Bool
is_canonical_uuid s = uuid_shape 36 (codes s)

abbrev prefixed_uuid : List ℕ → List ℕ → Bool
prefixed_uuid [] cs = uuid_shape 36 cs
prefixed_uuid (p ∷ ps) [] = false
prefixed_uuid (p ∷ ps) (c ∷ cs) = nat_beq p c && prefixed_uuid ps cs

-- value.startswith(prefix), and the rest is a canonical UUID
unfoldable pub has_uuid : String → String → Bool
has_uuid prefix value = prefixed_uuid (codes prefix) (codes value)

-- re.fullmatch("[0-9a-f]{64}", value)
unfoldable pub is_digest : String → Bool
is_digest s = nat_beq (length (codes s)) 64 && all is_lower_hex (codes s)

abbrev last_code : ℕ → List ℕ → ℕ
last_code c [] = c
last_code c (x ∷ xs) = last_code x xs

-- value and value == value.strip()
abbrev is_stripped : List ℕ → Bool
is_stripped [] = false
is_stripped (c ∷ cs) = not (is_space c) && not (is_space (last_code c cs))

abbrev is_printable : ℕ → Bool
is_printable c = leb 32 c && not (nat_beq c 127)

-- a text of 1 to 256 characters with no space around it and no control character
unfoldable pub is_routing_value : String → Bool
is_routing_value s =
    is_stripped (codes s) && leb (length (codes s)) 256 && all is_printable (codes s)

abbrev pub codes_le : List ℕ → List ℕ → Bool
codes_le [] ys = true
codes_le (x ∷ xs) [] = false
codes_le (x ∷ xs) (y ∷ ys) = ltb x y || (nat_beq x y && codes_le xs ys)

-- a <= b on texts: by code points
unfoldable pub text_le : String → String → Bool
text_le a b = codes_le (codes a) (codes b)

codes_le_total : (xs ys : List ℕ) → (codes_le xs ys ≡ true) ⊎ (codes_le ys xs ≡ true)
codes_le_total [] ys = inl refl
codes_le_total (x ∷ xs) [] = inr refl
codes_le_total (x ∷ xs) (y ∷ ys) = ground (arith, codes_le_total xs ys)

pub text_le_total : (a b : String) → (text_le a b ≡ true) ⊎ (text_le b a ≡ true)
unfolding text_le
text_le_total a b = codes_le_total (codes a) (codes b)

-- value.startswith("$")
abbrev head_is : ℕ → List ℕ → Bool
head_is c [] = false
head_is c (x ∷ xs) = nat_beq x c

unfoldable pub starts_with_dollar : String → Bool
starts_with_dollar s = head_is b'$' (codes s)
