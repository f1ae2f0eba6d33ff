-- ===== src/Parser/Decl/Duration.antt =====
-- src/serve.rs, `parse_duration`, and the text of a string in a message.
use jwc_lang.Prelude.{
  ℕ, ◌+◌, ◌-◌, ◌*◌, ◌/◌, ◌%◌, ◌^◌, Bool, ◌&&◌, ◌||◌, Option, none, some, [], ◌∷◌, ◌++◌, Bytes,
  codes, if◌then◌else◌, ltb, leb, ◌==◌, trim,
}
use jwc_lang.Token.{same_bytes}
use jwc_lang.Parser.Types.{unsigned_value}

abbrev is_letter : ℕ → Bool
is_letter c = (leb b'a' c && leb c b'z') || (leb b'A' c && leb c b'Z')

-- the value and the unit: the text before its first letter, and the rest, if there is one
unfoldable pub split_unit : Bytes → Bytes → Option (Bytes × Bytes)
split_unit before [] = none
split_unit before (c ∷ cs) =
    let rest = split_unit (before ++ c ∷ []) cs in
    if is_letter c then some (before, c ∷ cs) else rest

unfoldable pub without_plus : Bytes → Bytes
without_plus [] = []
without_plus (c ∷ cs) = if c == b'+' then cs else c ∷ cs

unfoldable pub below : ℕ → Option ℕ → Option ℕ
below bound none = none
below bound (some n) = if ltb n bound then some n else none

-- `parse::<u64>()`, which takes a `+` in front
unfoldable pub u64_value : Bytes → Option ℕ
unfolding unsigned_value without_plus below
u64_value s = below (2 ^ 64) (unsigned_value (without_plus s))

-- the seconds of `n` units; the products wrap
unfoldable pub unit_seconds : Bytes → ℕ → Option ℕ
unit_seconds u n =
    if same_bytes u (codes "ms")
    then some (n / 1000)
    else if same_bytes u (codes "s")
    then some n
    else if same_bytes u (codes "m")
    then some (n * 60 % (2 ^ 64))
    else if same_bytes u (codes "h")
    then some (n * 3600 % (2 ^ 64))
    else none

-- `parse_duration(text).map(|d| d.as_secs())`
unfoldable pub duration_seconds : Bytes → Option ℕ
unfolding split_unit u64_value unit_seconds
duration_seconds text = elim (split_unit [] (trim text)) [
  | none ↦ none
  | some parts ↦ elim (u64_value parts.0) [ none ↦ none | some n ↦ unit_seconds parts.1 n ]
]

abbrev debug_digit : ℕ → ℕ
debug_digit n = if ltb n 10 then b'0' + n else b'a' + (n - 10)

-- `{:?}` of a byte of a string; those of the characters that are not ASCII are taken as printable
unfoldable pub debug_byte : ℕ → Bytes
debug_byte c =
    if c == b'"'
    then codes "\\\""
    else if c == b'\\'
    then codes "\\\\"
    else if c == 10
    then codes "\\n"
    else if c == 13
    then codes "\\r"
    else if c == 9
    then codes "\\t"
    else if c == 0
    then codes "\\0"
    else if ltb c 16
    then codes "\\u{" ++ (debug_digit c ∷ codes "}")
    else if ltb c 32 || c == 127
    then codes "\\u{" ++ (debug_digit (c / 16) ∷ debug_digit (c % 16) ∷ codes "}")
    else c ∷ []

unfoldable pub debug_body : Bytes → Bytes
unfolding debug_byte
debug_body [] = []
debug_body (c ∷ cs) = debug_byte c ++ debug_body cs

unfoldable pub debug_text : Bytes → Bytes
unfolding debug_body
debug_text s = codes "\"" ++ debug_body s ++ codes "\""
