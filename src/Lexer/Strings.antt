-- ===== src/Lexer/Strings.antt =====
-- src/lexer.rs: `scan_string`, plain and raw string literals.
use jwc_lang.Diag.{Diagnostic, error, with_note, with_clause}
use jwc_lang.Lexer.{Lexer, peek, peek_at, advance, run, report}
use jwc_lang.Prelude.Loop.{Flow, again, break, loop}
use jwc_lang.Prelude.{
  ℕ, ◌+◌, ◌-◌, Bool, not, ◌&&◌, ◌||◌, Option, none, some, [], ◌∷◌, ◌++◌, length, ◌==◌, leb,
  if◌then◌else◌, Bytes, codes, utf8, slice, take, drop, encode_utf8, u32_from_hex, from_u32,
}
use jwc_lang.Token
use jwc_lang.Token.{Tok}

-- The variables of the loop: the scanner and the text so far.
pub record Literal : Type 0 where
  pub lexer : Lexer
  pub out : Bytes

abbrev pub Scanned : Type 0
Scanned = Option Tok × Lexer

abbrev pub refuse : Diagnostic → Lexer → Flow Literal Scanned
refuse d s = break (none, report d s)

-- `out.push(c)` after `n` bytes
abbrev pub emit : Bytes → ℕ → Literal → Flow Literal Scanned
emit text n l = again (record { lexer = advance n l.lexer; out = l.out ++ text })

abbrev pub is_plain : ℕ → Bool
is_plain c = not (c == b'"' || c == b'\\' || c == b'\n')

abbrev pub not_brace : ℕ → Bool
not_brace c = not (c == b'}')

unfoldable pub newline_message : Bool → Bytes
newline_message raw =
    if raw
    then codes "a raw string literal may not span lines"
    else codes "a string literal may not contain a literal newline"

unfoldable pub newline_help : Bool → Bytes
newline_help raw =
    if raw
    then utf8
        "`r\"...\"` is for regular expressions and ends at the line. `\\n` inside it is a backslash and an `n`, not a newline — build multi-line text by concatenating, or keep it out of the source"
    else codes "write `\\n`"

-- The value of a `\u{…}` is known, or it is refused.
unfoldable pub unicode_value : Bytes → Lexer → ℕ → Option ℕ → Literal → Flow Literal Scanned
unicode_value hex s hs (some ch) l = again (record { lexer = s; out = l.out ++ encode_utf8 ch })
unicode_value hex s hs none l =
    refuse
      (with_clause "names.md §2.3" (
        error "E0108" (Token.new hs s.i)
          (codes "`" ++ hex ++ codes "` is not a Unicode scalar value")))
      s

abbrev pub scalar_of_hex : Bytes → Option ℕ
scalar_of_hex hex = elim (u32_from_hex hex) [ none ↦ none | some n ↦ from_u32 n ]

-- Behind `\u`.
unfoldable pub unicode_escape : Literal → Flow Literal Scanned
unicode_escape l =
    let s = advance 2 l.lexer in
    if not (peek s == b'{')
    then refuse
        (with_clause "names.md §2.3"
          (error "E0108" (Token.new (s.i - 2) s.i) (codes "`\\u` must be followed by `{XXXX}`")))
        s
    else let opened = advance 1 s in
      let k = run not_brace opened in
      let hex = slice opened.i (opened.i + k) s.src in
      unicode_value hex (advance (k + 1) opened) opened.i (scalar_of_hex hex) l

-- What the escapes of one letter stand for.
unfoldable pub simple_escape : ℕ → Option ℕ
simple_escape e =
    if e == b'n'
    then some b'\n'
    else if e == b'r'
    then some b'\r'
    else if e == b't'
    then some b'\t'
    else if e == b'0'
    then some 0
    else if e == b'"'
    then some b'"'
    else if e == b'\\'
    then some b'\\'
    else none

-- An escape that no letter stands for, behind it.
unfoldable pub unknown_escape : ℕ → Lexer → Flow Literal Scanned
unknown_escape e s =
    refuse
      (with_clause "names.md §2.3" (
        error "E0109" (Token.new (s.i - 2) s.i)
          (codes "unknown escape `\\" ++ encode_utf8 e ++ codes "`")))
      s

unfoldable pub by_letter : Option ℕ → ℕ → Literal → Flow Literal Scanned
by_letter (some ch) e l = emit (ch ∷ []) 2 l
by_letter none e l = if e == b'u' then unicode_escape l else unknown_escape e (advance 2 l.lexer)

-- At the backslash of an escape.
unfoldable pub escape : Literal → Flow Literal Scanned
unfolding by_letter
escape l = let e = peek_at l.lexer 1 in by_letter (simple_escape e) e l

abbrev pub literal_tok : Bool → Bytes → Tok
literal_tok raw out = if raw then Tok.raw_str out else Tok.str out

-- One round of the loop inside the source; `start` is the position of the opening quote.
unfoldable pub char_round : Bool → ℕ → Literal → Flow Literal Scanned
char_round raw start l =
    let s = l.lexer in
    if peek s == b'"'
    then break (some (literal_tok raw l.out), advance 1 s)
    else if peek s == b'\n'
    then refuse
        (with_clause (if raw then "names.md §2.4" else "names.md §2.3") (
          with_note (newline_help raw) (error "E0103" (Token.new start s.i) (newline_message raw))))
        s
    else if peek s == b'\\' && raw
    then (if peek_at s 1 == b'"' then emit (b'"' ∷ []) 2 l else emit (b'\\' ∷ []) 1 l)
    else if peek s == b'\\'
    then escape l
    else emit (take (run is_plain s) (drop s.i s.src)) (run is_plain s) l

unfoldable pub string_round : Bool → ℕ → Literal → Flow Literal Scanned
string_round raw start l =
    if leb (length l.lexer.src) l.lexer.i
    then refuse
        (with_clause "names.md §2.3"
          (error "E0102" (Token.new start l.lexer.i) (codes "unterminated string")))
        l.lexer
    else char_round raw start l

-- The fuel bounds the rounds: each but the last reads a byte.
unfoldable pub scan_string : Bool → Lexer → Option Scanned
unfolding loop string_round char_round escape simple_escape unknown_escape unicode_escape
    unicode_value newline_message newline_help Token.new
scan_string raw s =
    loop (length s.src + 3) (λ l. some (string_round raw s.i l))
      (record { lexer = advance 1 s; out = [] })
