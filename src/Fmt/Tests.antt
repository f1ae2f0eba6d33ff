-- ===== src/Fmt/Tests.antt =====
-- The literals of src/fmt.rs, printed and read.
use jwc_lang.Fmt.{quote, raw_quote, escaped, quote_body, raw_body}
use jwc_lang.Fmt.Quote.{scan_one-quote, scan_one-raw_quote}
use jwc_lang.Fmt.Raw.{raw_quote_keeps}
use jwc_lang.Lexer.Scan.{scan_one}
use jwc_lang.Lexer.Strings.{scan_string}
use jwc_lang.Lexer.{Lexer, before_text, behind_text}
use jwc_lang.Prelude.{Bytes, codes, some, [], ◌≡◌, refl, true, run_length}
use jwc_lang.Token.{Tok}

abbrev pattern_text : Bytes
pattern_text = codes "^\\d+\"$"

quoted : quote (codes "a\"\\\n") ≡ codes "\"a\\\"\\\\\\n\""
unfolding quote quote_body escaped
quoted = refl

raw_quoted : raw_quote pattern_text ≡ codes "r\"^\\d+\\\"$\""
unfolding raw_quote raw_body
raw_quoted = refl

scan_one-quote_example :
    scan_one (before_text (codes "let a = ") (codes ";") [] [] (quote (codes "b\t\"c\"")))
    ≡ some (
      some (Tok.str (codes "b\t\"c\"")),
      behind_text (codes "let a = ") (codes ";") [] [] (quote (codes "b\t\"c\"")),
    )
scan_one-quote_example = scan_one-quote (codes "let a = ") (codes ";") [] [] (codes "b\t\"c\"")

scan_one-raw_quote_example :
    scan_one (before_text (codes "pattern(") (codes ")") [] [] (raw_quote pattern_text))
    ≡ some (
      some (Tok.raw_str pattern_text),
      behind_text (codes "pattern(") (codes ")") [] [] (raw_quote pattern_text),
    )
scan_one-raw_quote_example =
    scan_one-raw_quote (codes "pattern(") (codes ")") [] [] pattern_text refl

-- At the quote of `r"\d\""`.
abbrev at_quote : Lexer
at_quote = record { src = codes "r\"\\d\\\"\";"; i = 1; pending = []; diags = [] }

raw_scanned :
    scan_string true at_quote ≡ some (some (Tok.raw_str (codes "\\d\"")), record at_quote { i = 7 })
unfolding scan_string run_length
raw_scanned = refl

raw_quote_keeps_example :
    scan_one (before_text (codes "a(") (codes ")") [] [] (raw_quote (codes "\\d\"")))
    ≡ some (
      some (Tok.raw_str (codes "\\d\"")),
      behind_text (codes "a(") (codes ")") [] [] (raw_quote (codes "\\d\"")),
    )
raw_quote_keeps_example =
    raw_quote_keeps at_quote (record at_quote { i = 7 }) (codes "\\d\"") (codes "a(") (codes ")") []
      [] raw_scanned
