-- ===== src/Naming.antt =====
-- src/naming.rs: physical names, and names of constraints and indexes. A name is its characters, as
-- code points. `Text` is a `String` of the source; `len()` counts its UTF-8 bytes.
pub mod Generated
pub mod Quoting
pub mod Snake
mod Tests
use jwc_lang.Prelude.{
  ℕ, ◌+◌, ◌-◌, ◌/◌, ◌%◌, Bool, true, false, not, ◌&&◌, ◌||◌, Option, none, some, List, [], ◌∷◌,
  ◌++◌, length, ltb, leb, if◌then◌else◌, is_lower, is_upper, is_digit, encode_utf8, take, zero, suc,
}

abbrev pub Text : Type 0
Text = List ℕ

-- `len()`
abbrev pub byte_length : Text → ℕ
byte_length [] = 0
byte_length (c ∷ cs) = length (encode_utf8 c) + byte_length cs

abbrev pub max_ident : ℕ
max_ident = 63

-- `char::to_ascii_lowercase`
unfoldable pub ascii_lower : ℕ → ℕ
ascii_lower c = if is_upper c then c + 32 else c

-- The lowercase of the characters that are not ASCII is a table of the standard library.
module _ (lower_other : ℕ → Text) where
  -- `char::to_lowercase`
  unfoldable pub to_lowercase : ℕ → Text
  unfolding ascii_lower
  to_lowercase c = if ltb c 128 then ascii_lower c ∷ [] else lower_other c

  abbrev pub next_is_lower : Text → Bool
  next_is_lower [] = false
  next_is_lower (n ∷ _) = is_lower n

  abbrev pub starts_word : Option ℕ → ℕ → Text → Bool
  starts_word none c rest = false
  starts_word (some prev) c rest =
      is_upper c && (is_lower prev || is_digit prev || next_is_lower rest)

  unfoldable pub physical_from : Option ℕ → Text → Text
  physical_from prev [] = []
  physical_from prev (c ∷ cs) =
      (if starts_word prev c cs then b'_' ∷ [] else [])
      ++ (to_lowercase c ++ physical_from (some c) cs)

  unfoldable pub physical : Text → Text
  unfolding physical_from to_lowercase
  physical = physical_from none
