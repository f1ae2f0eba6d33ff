-- ===== src/Lexer/Comments.antt =====
-- src/lexer.rs: `skip_trivia`, blank lines and comments.
use mathlib.Core.List.{reverse}
use jwc_lang.Diag.{error, with_note, with_clause, with_fix}
use jwc_lang.Lexer.{Lexer, peek, peek_at, advance, run, skip_while, report, leave, at_line_start}
use jwc_lang.Prelude.Loop.{Flow, again, break, loop}
use jwc_lang.Prelude.{
  ℕ, ◌+◌, ◌-◌, Bool, true, false, not, ◌&&◌, ◌||◌, Option, some, List, [], ◌∷◌, ◌++◌, map, length,
  ◌==◌, ltb, if◌then◌else◌, Bytes, codes, count, slice, take, drop, trim, lines,
}
use jwc_lang.Token
use jwc_lang.Token.{Trivia}

abbrev pub is_blank : ℕ → Bool
is_blank c = c == b' ' || c == b'\t' || c == b'\r' || c == b'\n'

abbrev pub not_newline : ℕ → Bool
not_newline c = not (c == b'\n')

unfoldable pub skip_blanks : Lexer → Lexer
skip_blanks s =
    let newlines = count b'\n' (take (run is_blank s) (drop s.i s.src)) in
    let s' = skip_while is_blank s in if ltb 1 newlines then leave Trivia.blank s' else s'

-- a comment of the old syntax: `E0901` with its replacement, and the line is skipped
unfoldable pub old_comment : Lexer → Lexer
unfolding Token.new
old_comment s =
    let doc = peek_at s 2 == b'-' in
    let marker = if doc then codes "---" else codes "--" in
    let replacement = if doc then codes "///" else codes "//" in
    let message = codes "`" ++ marker ++ codes "` does not start a comment" in
    let d = error "E0901" (Token.new s.i (s.i + length marker)) message in
    let hint = codes "a line comment starts with `//`, a doc comment with `///`" in
    skip_while not_newline
      (report (with_fix replacement (with_clause "names.md §1.4" (with_note hint d))) s)

unfoldable pub line_comment : Lexer → Lexer
line_comment s =
    let doc = peek_at s 2 == b'/' in
    let opened = advance (if doc then 3 else 2) s in
    let closed = skip_while not_newline opened in
    let body = trim (slice opened.i closed.i s.src) in
    leave (if doc then Trivia.doc body else Trivia.line body) closed

-- The bytes of a block comment behind its `/*`, at a depth of one or more, and whether it is closed.
pub record BlockEnd : Type 0 where
  pub size : ℕ
  pub closed : Bool

abbrev past : ℕ → BlockEnd → BlockEnd
past n e = record e { size = n + e.size }

unfoldable pub block_end : ℕ → Bytes → BlockEnd
block_end depth [] = record { size = 0; closed = false }
block_end depth (a ∷ []) = record { size = 1; closed = false }
block_end depth (a ∷ b ∷ cs) =
    let deeper = past 2 (block_end (depth + 1) cs) in
    let shallower = past 2 (block_end (depth - 1) cs) in
    let further = past 1 (block_end depth (b ∷ cs)) in
    if a == b'/' && b == b'*'
    then deeper
    else if a == b'*' && b == b'/'
    then (if depth == 1 then record { size = 2; closed = true } else shallower)
    else further

-- `skip_while(|l| l.is_empty())`
drop_empty : List Bytes → List Bytes
drop_empty [] = []
drop_empty ([] ∷ ls) = drop_empty ls
drop_empty ((c ∷ cs) ∷ ls) = (c ∷ cs) ∷ ls

unfoldable pub block_comment : Lexer → Lexer
unfolding Token.new drop_empty
block_comment s =
    let e = block_end 1 (drop (s.i + 2) s.src) in
    let s' = advance (2 + e.size) s in
    let stop = if e.closed then s'.i - 2 else s'.i in
    let body = drop_empty (map trim (lines (slice (s.i + 2) stop s.src))) in
    let unclosed = with_clause "names.md §1.7" (
      with_note (codes "a `/*` needs a matching `*/`; they nest")
        (error "E0101" (Token.new s.i s'.i) (codes "unterminated block comment"))) in
    leave (Trivia.block (reverse (drop_empty (reverse body))))
      (if e.closed then s' else report unclosed s')

-- A round of the loop, behind the blanks.
unfoldable pub comment_round : Lexer → Flow Lexer Lexer
comment_round s =
    if peek s == b'-' && peek_at s 1 == b'-' && at_line_start s
    then again (old_comment s)
    else if peek s == b'/' && peek_at s 1 == b'/'
    then again (line_comment s)
    else if peek s == b'/' && peek_at s 1 == b'*'
    then again (block_comment s)
    else break s

abbrev pub trivia_round : Lexer → Flow Lexer Lexer
trivia_round s = comment_round (skip_blanks s)

-- The fuel bounds the rounds: each but the last reads a byte.
unfoldable pub skip_trivia : Lexer → Option Lexer
unfolding comment_round skip_blanks old_comment line_comment block_comment block_end
skip_trivia s = loop (length s.src + 3) (λ t. some (trivia_round t)) s
