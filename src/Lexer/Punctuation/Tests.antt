-- ===== src/Lexer/Punctuation/Tests.antt =====
-- Punctuation between other tokens.
use jwc_lang.Lexer.{before_text, behind_text}
use jwc_lang.Lexer.Punctuation.{scan_one-punct_text}
use jwc_lang.Lexer.Scan.{scan_one}
use jwc_lang.Prelude.{codes, some, [], ◌∷◌, ◌≡◌, refl}
use jwc_lang.Token.{Tok, punct_text, shown}

shown_sigil : shown (Tok.local (codes "org")) ≡ codes "`@org`"
unfolding shown
shown_sigil = refl

shown_eof : shown Tok.eof ≡ codes "end of file"
unfolding shown
shown_eof = refl

scan_one-punct_text_example :
    scan_one (before_text (codes "a") (b' ' ∷ codes "b") [] [] (punct_text Tok.eq_eq_opt))
    ≡ some (
      some Tok.eq_eq_opt,
      behind_text (codes "a") (b' ' ∷ codes "b") [] [] (punct_text Tok.eq_eq_opt),
    )
scan_one-punct_text_example = scan_one-punct_text (codes "a") (codes "b") [] [] Tok.eq_eq_opt refl
