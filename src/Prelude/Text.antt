-- ===== src/Prelude/Text.antt =====
-- Text as bytes, and the functions of the standard library that the scanner calls.
pub mod Trim
use Prim.Native.Char.{code}
use Prim.Native.Nat.{ℕ, zero, suc, ◌+◌, ◌-◌, ◌*◌, ◌/◌, ◌%◌}
use Prim.Native.String.{String}
use mathlib.Core.Bool.{Bool, true, false, ◌&&◌, ◌||◌}
use mathlib.Core.List.{List, [], ◌∷◌, ◌++◌, reverse}
use mathlib.Core.Option.{Option, none, some}
use jwc_lang.Prelude.Tests.{ltb, ◌==◌, within, if◌then◌else◌}
use jwc_lang.Prelude.Lists.{length, drop, take}

abbrev pub Bytes : Type 0
Bytes = List ℕ

-- The bytes of an ASCII literal.
abbrev pub codes : String → Bytes
codes String.[] = []
codes (String.◌∷◌ c s) = code c ∷ codes s

-- Past the end a byte reads as 0.
abbrev pub byte_at : Bytes → ℕ → ℕ
byte_at [] i = 0
byte_at (c ∷ cs) zero = c
byte_at (c ∷ cs) (suc i) = byte_at cs i

-- `&text[start..stop]`
abbrev pub slice : ℕ → ℕ → Bytes → Bytes
slice start stop s = take (stop - start) (drop start s)

-- How many leading bytes pass a test: the length of a run that `while test(peek()) { i += 1 }` skips.
unfoldable pub run_length : (ℕ → Bool) → Bytes → ℕ
run_length p [] = 0
run_length p (c ∷ cs) = let more = run_length p cs in if p c then suc more else 0

abbrev pub count : ℕ → Bytes → ℕ
count b [] = 0
count b (c ∷ cs) = (if c == b then 1 else 0) + count b cs

abbrev pub is_digit : ℕ → Bool
is_digit c = within b'0' b'9' c

abbrev pub is_lower : ℕ → Bool
is_lower c = within b'a' b'z' c

abbrev pub is_upper : ℕ → Bool
is_upper c = within b'A' b'Z' c

abbrev pub is_alpha : ℕ → Bool
is_alpha c = is_lower c || is_upper c

abbrev pub is_word : ℕ → Bool
is_word c = is_alpha c || is_digit c || c == b'_'

-- The UTF-8 bytes of a scalar value.
unfoldable pub encode_utf8 : ℕ → Bytes
encode_utf8 c =
    if ltb c 128
    then c ∷ []
    else if ltb c 2048
    then (192 + c / 64) ∷ (128 + c % 64) ∷ []
    else if ltb c 65536
    then (224 + c / 4096) ∷ (128 + c / 64 % 64) ∷ (128 + c % 64) ∷ []
    else (240 + c / 262144) ∷ (128 + c / 4096 % 64) ∷ (128 + c / 64 % 64) ∷ (128 + c % 64) ∷ []

-- The bytes of any literal.
abbrev pub utf8 : String → Bytes
utf8 String.[] = []
utf8 (String.◌∷◌ c s) = encode_utf8 (code c) ++ utf8 s

-- `char::from_u32`
unfoldable pub from_u32 : ℕ → Option ℕ
from_u32 n = if ltb n 55296 || within 57344 1114111 n then some n else none

unfoldable pub hex_digit : ℕ → Option ℕ
hex_digit c =
    if is_digit c
    then some (c - b'0')
    else if within b'a' b'f' c
    then some (c - b'a' + 10)
    else if within b'A' b'F' c
    then some (c - b'A' + 10)
    else none

hex_digits : ℕ → Bytes → Option ℕ
hex_digits n [] = some n
hex_digits n (c ∷ cs) = elim (hex_digit c) [
  | none ↦ none
  | some d ↦ if ltb (n * 16 + d) 4294967296 then hex_digits (n * 16 + d) cs else none
]

-- `u32::from_str_radix(_, 16)`: one `+` may stand in front, and there is a digit.
unfoldable pub u32_from_hex : Bytes → Option ℕ
unfolding hex_digits hex_digit
u32_from_hex [] = none
u32_from_hex (c ∷ []) = if c == b'+' then none else hex_digits 0 (c ∷ [])
u32_from_hex (c ∷ d ∷ cs) = if c == b'+' then hex_digits 0 (d ∷ cs) else hex_digits 0 (c ∷ d ∷ cs)

-- The length of the white space character (Unicode `White_Space`) that the bytes begin with, or 0.
white_3 : ℕ → ℕ → ℕ → ℕ
white_3 a b c =
    if (a == 225 && b == 154 && c == 128)
      || (a == 226 && b == 128 && (within 128 138 c || c == 168 || c == 169 || c == 175))
      || (a == 226 && b == 129 && c == 159)
      || (a == 227 && b == 128 && c == 128)
    then 3
    else 0

white_2 : ℕ → ℕ → ℕ
white_2 a b = if a == 194 && (b == 133 || b == 160) then 2 else 0

white_1 : ℕ → ℕ
white_1 a = if within 9 13 a || a == 32 then 1 else 0

white_length : Bytes → ℕ
white_length [] = 0
white_length (a ∷ []) = white_1 a
white_length (a ∷ b ∷ []) = white_1 a + white_2 a b
white_length (a ∷ b ∷ c ∷ _) = white_1 a + white_2 a b + white_3 a b c

-- the same for the reversed bytes, which end with a character's first byte
white_length_back : Bytes → ℕ
white_length_back [] = 0
white_length_back (a ∷ []) = white_1 a
white_length_back (b ∷ a ∷ []) = white_1 b + white_2 a b
white_length_back (c ∷ b ∷ a ∷ _) = white_1 c + white_2 b c + white_3 a b c

drop_white : (Bytes → ℕ) → ℕ → Bytes → Bytes
drop_white len zero s = s
drop_white len (suc fuel) s = elim (len s) [
  | zero ↦ s
  | suc n ↦ drop_white len fuel (drop (suc n) s)
]

-- `str::trim`
unfoldable pub trim : Bytes → Bytes
unfolding drop_white white_length white_length_back white_1 white_2 white_3
trim s =
    let front = drop_white white_length (length s) s in
    reverse (drop_white white_length_back (length front) (reverse front))

-- `str::lines`: the newlines end lines, a `\r` before one goes with it, and an empty last line is none.
drop_cr : Bytes → Bytes
drop_cr s = elim (reverse s) [ [] ↦ [] | c ∷ front ↦ if c == b'\r' then reverse front else s ]

lines_onto : Bytes → Bytes → List Bytes
lines_onto [] [] = []
lines_onto (a ∷ acc) [] = (a ∷ acc) ∷ []
lines_onto acc (c ∷ cs) = elim (c == b'\n') [
  | true ↦ drop_cr acc ∷ lines_onto [] cs
  | false ↦ lines_onto (acc ++ c ∷ []) cs
]

unfoldable pub lines : Bytes → List Bytes
unfolding lines_onto drop_cr
lines = lines_onto []
