-- ===== src/Lexer/Scan.antt =====
-- src/lexer.rs: `scan_one`, one token or one diagnostic.
use jwc_lang.Diag.{error, with_note, with_clause, with_fix}
use jwc_lang.Lexer.{Lexer, peek, peek_at, advance, skip_while, report}
use jwc_lang.Lexer.Strings.{Scanned, scan_string}
use jwc_lang.Prelude.{
  ℕ, Bool, true, false, ◌&&◌, ◌||◌, Option, none, some, List, [], ◌∷◌, ◌++◌, ◌==◌, within,
  if◌then◌else◌, Bytes, codes, utf8, slice, is_alpha, is_digit, is_word,
}
use jwc_lang.Token
use jwc_lang.Token.{Tok}

abbrev pub text_between : ℕ → Lexer → Bytes
text_between start s = slice start s.i s.src

unfoldable pub identifier : Lexer → Scanned
identifier s = let s' = skip_while is_word s in (some (Tok.ident (text_between s.i s')), s')

unfoldable pub underscore : Lexer → Scanned
underscore s =
    let s' = skip_while is_word s in
    let hint = codes "a leading underscore is reserved for compiler temporaries in generated SQL" in
    (
      none,
      report
          (with_clause "names.md §2.1" (
            with_note hint
              (error "E0105" (Token.new s.i s'.i) (codes "identifiers may not start with `_`"))))
          s',
    )

-- the digits behind the point, which stands at `whole`
unfoldable pub fraction : ℕ → Lexer → Scanned
fraction start whole =
    let s' = skip_while is_digit (advance 1 whole) in
    (some (Tok.decimal (text_between start s')), s')

unfoldable pub number : Lexer → Scanned
number s =
    let whole = skip_while is_digit s in
    if peek whole == b'.' && is_digit (peek_at whole 1)
    then fraction s.i whole
    else (some (Tok.int (text_between s.i whole)), whole)

-- `$name` is read as `@name`, with `E0903`.
unfoldable pub old_sigil : ℕ → Bytes → Lexer → Lexer
old_sigil start name s =
    report
      (with_fix (b'@' ∷ name) (
        with_clause "names.md §5.2" (
          with_note (codes "write `@" ++ name ++ codes "`") (
            error "E0903" (Token.new start s.i)
              (codes "`$" ++ name ++ utf8 "` — the sigil is `@`")))))
      s

unfoldable pub sigil_name : ℕ → ℕ → Lexer → Scanned
sigil_name c start named =
    let s' = skip_while is_word named in
    let name = text_between named.i s' in
    (some (Tok.local name), if c == b'$' then old_sigil start name s' else s')

unfoldable pub detached_sigil : ℕ → ℕ → Lexer → Scanned
detached_sigil c start named = (
  none,
  report
      (with_clause "names.md §2.5" (
        error "E0106" (Token.new start named.i)
          (codes "`" ++ c ∷ codes "` must be followed immediately by a name")))
      named,
)

unfoldable pub sigil : ℕ → Lexer → Scanned
sigil c s =
    let named = advance 1 s in
    if is_alpha (peek named) then sigil_name c s.i named else detached_sigil c s.i named

-- Punctuation by length, the longest first.
unfoldable pub three_bytes : List (ℕ × ℕ × ℕ × Tok)
three_bytes = (b'=', b'=', b'?', Tok.eq_eq_opt) ∷ (b'.', b'.', b'.', Tok.dot_dot_dot) ∷ []

unfoldable pub two_bytes : List (ℕ × ℕ × Tok)
two_bytes =
    (b'+', b'=', Tok.op_assign b'+')
    ∷ (b'-', b'=', Tok.op_assign b'-')
    ∷ (b'*', b'=', Tok.op_assign b'*')
    ∷ (b'/', b'=', Tok.op_assign b'/')
    ∷ (b'=', b'=', Tok.eq_eq)
    ∷ (b'=', b'?', Tok.eq_opt)
    ∷ (b'!', b'=', Tok.bang_eq)
    ∷ (b'<', b'=', Tok.lt_eq)
    ∷ (b'>', b'=', Tok.gt_eq)
    ∷ (b'-', b'>', Tok.arrow)
    ∷ (b'?', b'?', Tok.coalesce)
    ∷ []

unfoldable pub one_byte : List (ℕ × Tok)
one_byte =
    (b'(', Tok.l_paren)
    ∷ (b')', Tok.r_paren)
    ∷ (b'{', Tok.l_brace)
    ∷ (b'}', Tok.r_brace)
    ∷ (b'[', Tok.l_bracket)
    ∷ (b']', Tok.r_bracket)
    ∷ (b',', Tok.comma)
    ∷ (b';', Tok.semi)
    ∷ (b':', Tok.colon)
    ∷ (b'.', Tok.dot)
    ∷ (b'?', Tok.question)
    ∷ (b'=', Tok.eq)
    ∷ (b'!', Tok.bang)
    ∷ (b'<', Tok.lt)
    ∷ (b'>', Tok.gt)
    ∷ (b'+', Tok.plus)
    ∷ (b'-', Tok.minus)
    ∷ (b'*', Tok.star)
    ∷ (b'/', Tok.slash)
    ∷ (b'%', Tok.percent)
    ∷ []

unfoldable pub match_three : ℕ → ℕ → ℕ → List (ℕ × ℕ × ℕ × Tok) → Option Tok
match_three a b c [] = none
match_three a b c ((x, y, z, t) ∷ rows) =
    if a == x && b == y && c == z then some t else match_three a b c rows

unfoldable pub match_two : ℕ → ℕ → List (ℕ × ℕ × Tok) → Option Tok
match_two a b [] = none
match_two a b ((x, y, t) ∷ rows) = if a == x && b == y then some t else match_two a b rows

unfoldable pub match_one : ℕ → List (ℕ × Tok) → Option Tok
match_one a [] = none
match_one a ((x, t) ∷ rows) = if a == x then some t else match_one a rows

abbrev pub is_continuation : ℕ → Bool
is_continuation c = within 128 191 c

-- `String::from_utf8_lossy` on a whole character, or on what is left of one
abbrev pub lossy : Bytes → Bytes
lossy [] = []
lossy (c ∷ cs) = if is_continuation c then 239 ∷ 191 ∷ 189 ∷ lossy cs else c ∷ cs

-- The whole character that the byte begins is named.
unfoldable pub unexpected : Lexer → Scanned
unexpected s =
    let s' = skip_while is_continuation (advance 1 s) in
    (
      none,
      report
          (with_clause "names.md §2" (
            error "E0100" (Token.new s.i s'.i)
              (codes "unexpected character `" ++ lossy (text_between s.i s') ++ codes "`")))
          s',
    )

unfoldable pub punctuation : Lexer → Scanned
punctuation s = elim (match_three (peek s) (peek_at s 1) (peek_at s 2) three_bytes) [
  | some t ↦ (some t, advance 3 s)
  | none ↦ elim (match_two (peek s) (peek_at s 1) two_bytes) [
    | some t ↦ (some t, advance 2 s)
    | none ↦ elim (match_one (peek s) one_byte) [
      | some t ↦ (some t, advance 1 s)
      | none ↦ unexpected s
    ]
  ]
]

unfoldable pub scan_one : Lexer → Option Scanned
scan_one s =
    let c = peek s in
    if c == b'r' && peek_at s 1 == b'"'
    then scan_string true (advance 1 s)
    else if is_alpha c
    then some (identifier s)
    else if c == b'_'
    then some (underscore s)
    else if is_digit c
    then some (number s)
    else if c == b'"'
    then scan_string false s
    else if c == b'@' || c == b'$'
    then some (sigil c s)
    else some (punctuation s)
