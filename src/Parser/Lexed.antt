-- ===== src/Parser/Lexed.antt =====
-- src/parser.rs and src/lexer.rs together: the parsers on the tokens of a text.
use jwc_lang.Prelude.{
  ℕ, ◌+◌, ◌-◌, ◌<◌, ◌≡◌, refl, Bytes, some, List, [], ◌∷◌, ◌++◌, length, length-append, arith,
}
use jwc_lang.Token.{Token, u32_mod}
use jwc_lang.Lexer.Tokenize.{Tokens, tokenize}
use jwc_lang.Lexer.Tokenize.Total.{Finished, tokenize_total}
use jwc_lang.Parser.Cursor.{token_at}
use jwc_lang.Parser.Grammar.{parser_of}
use jwc_lang.Parser.Progress.{WellFormed}
use jwc_lang.Parser.Correct.{EachParser, Ends, Ahead, Tells, parsers_return, parsers_report}

token_at-append :
    (before : List Token) (last : Token) → token_at (before ++ last ∷ []) (length before) ≡ last
unfolding token_at
token_at-append [] last = refl
token_at-append (t ∷ ts) last = token_at-append ts last

pub parser_of-WellFormed : (n : ℕ) (r : Tokens) → Finished n r → WellFormed (parser_of r.0)
parser_of-WellFormed n r f =
    let len : length r.0 ≡ length f.before + 1 =
      rw f.splits (omega (arith, length-append f.before (f.last ∷ []))) in
    let at_last : length r.0 - 1 ≡ length f.before = omega (arith, len) in
    record { inside = omega (arith, len); ended = rw (at_last, f.splits, token_at-append) f.is_eof }

-- On the tokens of a text below 4 GiB, from the first of them, the parsers of expressions, types,
-- statements and blocks return; their cursor ends at one of the tokens, behind the first where
-- there is a value; and where there is an error there is a diagnostic of it.
pub parsers_return_lexed :
    (text : Bytes)
    → length text + 1 < u32_mod
    → (r : Tokens) × (tokenize text ≡ some r)
      × EachParser (λ A m.
        Ends (Ahead (parser_of r.0)) (λ s'. 0 < s'.i) (m (parser_of r.0))
        × Tells (parser_of r.0) (m (parser_of r.0)))
parsers_return_lexed text fits =
    let (r, e, f) = tokenize_total text fits in
    let w : WellFormed (parser_of r.0) = parser_of-WellFormed (length text) r f in
    let (e₁, t₁, s₁, b₁) = parsers_return (parser_of r.0) w in
    let (e₂, t₂, s₂, b₂) = parsers_report (parser_of r.0) w in
    (r, e, ((e₁, e₂), (t₁, t₂), (s₁, s₂), (b₁, b₂)))
