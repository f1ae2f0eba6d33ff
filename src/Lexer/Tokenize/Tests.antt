-- ===== src/Lexer/Tokenize/Tests.antt =====
-- The tests of src/lexer.rs, on the model.
use jwc_lang.Lexer.Tokenize.{Tokens, tokenize}
use jwc_lang.Lexer.Tokenize.Spelling.{tokens-Spelled}
use jwc_lang.Lexer.Spelling.{Spelled}
use jwc_lang.Lexer.Tokenize.Total.{Finished, tokenize_total}
use jwc_lang.Lexer.Comments.{block_end}
use jwc_lang.Lexer.{at_line_start}
use jwc_lang.Prelude.{
  Bytes, arith, Option, none, some, List, [], ◌∷◌, map, String, codes, ◌≡◌, refl, encode_utf8,
  run_length, All, trim, lines, u32_from_hex, from_u32,
}
use jwc_lang.Token.{Tok}

abbrev toks : String → Option (List Tok)
toks text = elim (tokenize (codes text)) [ none ↦ none | some r ↦ some (map (λ t. t.tok) r.0) ]

abbrev diag_codes : String → Option (List String)
diag_codes text = elim (tokenize (codes text)) [
  | none ↦ none
  | some r ↦ some (map (λ d. d.code) r.1)
]

the_sigil_is_one_token :
    toks "@org_id @req" ≡ some (Tok.local (codes "org_id") ∷ Tok.local (codes "req") ∷ Tok.eof ∷ [])
unfolding tokenize at_line_start run_length
the_sigil_is_one_token = refl

longest_match_operators :
    toks "==? == =? = ?? ... . -> !="
    ≡ some (
        Tok.eq_eq_opt ∷ Tok.eq_eq ∷ Tok.eq_opt ∷ Tok.eq ∷ Tok.coalesce ∷ Tok.dot_dot_dot ∷ Tok.dot
        ∷ Tok.arrow ∷ Tok.bang_eq ∷ Tok.eof ∷ [])
unfolding tokenize at_line_start run_length
longest_match_operators = refl

escapes :
    toks "\"a\\n\\u{41}\\\"b\" r\"\\d\\\"\" 10.00 4.x"
    ≡ some (
        Tok.str (codes "a\nA\"b")
        ∷ Tok.raw_str (codes "\\d\"")
        ∷ Tok.decimal (codes "10.00")
        ∷ Tok.int (codes "4")
        ∷ Tok.dot
        ∷ Tok.ident (codes "x")
        ∷ Tok.eof
        ∷ [])
unfolding tokenize at_line_start run_length encode_utf8 u32_from_hex from_u32
escapes = refl

diagnostics :
    diag_codes "_x $y @ z # \"\\q\n-- old\n\"a\nb /* /* */"
    ≡ some ("E0105" ∷ "E0903" ∷ "E0106" ∷ "E0100" ∷ "E0109" ∷ "E0901" ∷ "E0103" ∷ "E0101" ∷ [])
unfolding tokenize at_line_start run_length encode_utf8 trim lines block_end
diagnostics = refl

-- A backslash at the end of an open literal: `Eof` stands one byte behind the text.
abbrev open_escape : Bytes
open_escape = codes "x \"\\"

tokenize_total_example : (r : Tokens) × (tokenize open_escape ≡ some r) × Finished 4 r
tokenize_total_example = tokenize_total open_escape (omega arith)

abbrev names_text : Bytes
names_text = codes "@a 1.5"

abbrev names_tokens : Tokens
names_tokens = (
  record { tok = Tok.local (codes "a"); span = record { start = 0; stop = 2 }; leading = [] }
      ∷ record {
        tok = Tok.decimal (codes "1.5");
        span = record { start = 3; stop = 6 };
        leading = [];
      }
      ∷ record { tok = Tok.eof; span = record { start = 6; stop = 6 }; leading = [] }
      ∷ [],
  [],
)

names_scanned : tokenize names_text ≡ some names_tokens
unfolding tokenize at_line_start run_length
names_scanned = refl

tokens-Spelled_example : All (λ t. Spelled names_text t.span.start t.span.stop t.tok) names_tokens.0
tokens-Spelled_example = tokens-Spelled names_text names_tokens (omega arith) names_scanned
