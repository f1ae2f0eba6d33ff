-- ===== src/Lexer/Tokenize.antt =====
-- src/lexer.rs: `tokenize`.
pub mod Tests
pub mod Total
pub mod Spelling
use jwc_lang.Diag.{Diagnostic}
use jwc_lang.Lexer.Comments.{skip_trivia}
use jwc_lang.Lexer.Scan.{
  scan_one, identifier, underscore, fraction, number, old_sigil, sigil_name, detached_sigil, sigil,
  unexpected, match_three, match_two, match_one, three_bytes, two_bytes, one_byte, punctuation,
}
use jwc_lang.Lexer.Strings.{Scanned, scan_string}
use jwc_lang.Lexer.{Lexer}
use jwc_lang.Lexer
use jwc_lang.Prelude.Loop.{Flow, again, break, loop}
use jwc_lang.Prelude.{
  ℕ, ◌+◌, Option, none, some, List, [], ◌∷◌, ◌++◌, length, leb, if◌then◌else◌, Bytes,
}
use jwc_lang.Token
use jwc_lang.Token.{Tok, Token}

-- The variables of the loop: the scanner and the tokens so far.
pub record Output : Type 0 where
  pub lexer : Lexer
  pub out : List Token

abbrev pub Tokens : Type 0
Tokens = List Token × List Diagnostic

-- A token takes the trivia that wait for it.
abbrev pub push : Tok → ℕ → Lexer → List Token → List Token
push tok start s out =
    out ++ record { tok = tok; span = Token.new start s.i; leading = s.pending } ∷ []

-- What `scan_one` read from `start`: a token, or a diagnostic that it has reported.
unfoldable pub accept : ℕ → List Token → Scanned → Flow Output Tokens
accept start out (some tok, s) =
    again (record { lexer = record s { pending = [] }; out = push tok start s out })
accept start out (none, s) = again (record { lexer = s; out = out })

unfoldable pub finish : Lexer → List Token → Flow Output Tokens
finish s out = break (push Tok.eof s.i s out, s.diags)

-- Behind the trivia: the end, or one token.
unfoldable pub token_at : List Token → Lexer → Option (Flow Output Tokens)
token_at out s =
    if leb (length s.src) s.i
    then some (finish s out)
    else elim (scan_one s) [ none ↦ none | some r ↦ some (accept s.i out r) ]

unfoldable pub token_round : Output → Option (Flow Output Tokens)
token_round o = elim (skip_trivia o.lexer) [ none ↦ none | some s ↦ token_at o.out s ]

-- The fuel bounds the rounds: each but the last reads a byte.
unfoldable pub tokenize : Bytes → Option Tokens
unfolding token_round token_at accept finish skip_trivia scan_one identifier underscore number sigil
    punctuation scan_string Token.new fraction old_sigil sigil_name detached_sigil unexpected
    match_three match_two match_one three_bytes two_bytes one_byte loop
tokenize text = loop (length text + 3) token_round (record { lexer = Lexer.new text; out = [] })
