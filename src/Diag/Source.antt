-- ===== src/Diag/Source.antt =====
-- src/diag.rs: `SourceFile`, which finds the line and the column of a byte.
pub mod Walk
pub mod Boundary
pub mod Characters
mod Tests
use jwc_lang.Lexer.Scan.{is_continuation}
use jwc_lang.Prelude.{
  ℕ, zero, suc, ◌+◌, ◌-◌, min, Bool, true, false, not, List, [], ◌∷◌, length, ltb, ◌==◌,
  if◌then◌else◌, Bytes, byte_at, slice, leb,
}

pub record SourceFile : Type 0 where
  pub path : Bytes
  pub text : Bytes
  pub line_starts : List ℕ

-- the positions behind the newlines, from `i`
unfoldable pub starts_from : ℕ → Bytes → List ℕ
starts_from i [] = []
starts_from i (b ∷ bs) =
    let rest = starts_from (suc i) bs in if b == b'\n' then suc i ∷ rest else rest

unfoldable pub new : Bytes → Bytes → SourceFile
new path text = record { path = path; text = text; line_starts = 0 ∷ starts_from 0 text }

-- `str::is_char_boundary`, on UTF-8
unfoldable pub is_char_boundary : Bytes → ℕ → Bool
is_char_boundary text i =
    if i == 0
    then true
    else if leb (length text) i
    then i == length text
    else not (is_continuation (byte_at text i))

-- `while offset > 0 && !is_char_boundary(offset) { offset -= 1 }`
unfoldable pub clamp : Bytes → ℕ → ℕ
clamp text zero = zero
clamp text (suc n) =
    let lower = clamp text n in if is_char_boundary text (suc n) then suc n else lower

-- `chars().count()` on UTF-8
unfoldable pub count_chars : Bytes → ℕ
count_chars [] = 0
count_chars (b ∷ bs) = (if is_continuation b then 0 else 1) + count_chars bs

-- `binary_search` on numbers in ascending order: where the value stands, or would stand
pub data Found : Type 0 where
  ok err : ℕ → Found

unfoldable pub binary_search : ℕ → List ℕ → ℕ → Found
binary_search n [] v = err n
binary_search n (x ∷ xs) v =
    let later = binary_search (suc n) xs v in
    if x == v then ok n else if ltb v x then err n else later

-- the `match` on its answer
unfoldable pub line_index : Found → ℕ
line_index (ok i) = i
line_index (err i) = i - 1

-- `line_starts[line]`; every index that `line_col` reads is inside.
unfoldable pub start_of : List ℕ → ℕ → ℕ
start_of [] i = 0
start_of (x ∷ xs) zero = x
start_of (x ∷ xs) (suc i) = start_of xs i

unfoldable pub line_col : SourceFile → ℕ → ℕ × ℕ
line_col f offset =
    let o = clamp f.text (min offset (length f.text)) in
    let line = line_index (binary_search 0 f.line_starts o) in
    let start = start_of f.line_starts line in (line + 1, count_chars (slice start o f.text) + 1)
