-- ===== src/Fmt.antt =====
-- src/fmt.rs: the literals of the formatter. What it escapes is ASCII, so a text is its bytes.
pub mod Rounds
pub mod Quote
pub mod Raw
mod Tests
use jwc_lang.Prelude.{
  Bool, true, false, not, ◌&&◌, ◌++◌, [], ◌∷◌, ℕ, ◌==◌, if◌then◌else◌, Bytes, codes,
}

-- the arms of the `match` on a character
unfoldable pub escaped : ℕ → Bytes
escaped c =
    if c == b'"'
    then codes "\\\""
    else if c == b'\\'
    then codes "\\\\"
    else if c == b'\n'
    then codes "\\n"
    else if c == b'\r'
    then codes "\\r"
    else if c == b'\t'
    then codes "\\t"
    else c ∷ []

unfoldable pub quote_body : Bytes → Bytes
quote_body [] = []
quote_body (c ∷ cs) = escaped c ++ quote_body cs

unfoldable pub quote : Bytes → Bytes
quote s = b'"' ∷ (quote_body s ++ b'"' ∷ [])

-- `s.replace('"', "\\\"")`
unfoldable pub raw_body : Bytes → Bytes
raw_body [] = []
raw_body (c ∷ cs) = let rest = raw_body cs in if c == b'"' then b'\\' ∷ b'"' ∷ rest else c ∷ rest

unfoldable pub raw_quote : Bytes → Bytes
raw_quote s = b'r' ∷ b'"' ∷ (raw_body s ++ b'"' ∷ [])
