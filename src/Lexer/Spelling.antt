-- ===== src/Lexer/Spelling.antt =====
-- src/lexer.rs: the spelling of a token in the source, and the source of the scanner.
pub mod Scan
use mathlib.Core.Option.{some-injective}
use jwc_lang.Lexer.Comments.{
  skip_blanks, old_comment, line_comment, block_comment, comment_round, trivia_round, skip_trivia,
}
use jwc_lang.Lexer.Scan.{
  text_between, identifier, fraction, number, sigil, sigil_name, detached_sigil, old_sigil,
  unexpected, punctuation, underscore, scan_one, match_three, match_two, match_one, three_bytes,
  two_bytes, one_byte,
}
use jwc_lang.Lexer.Strings.{
  Literal, Scanned, unicode_value, unicode_escape, by_letter, unknown_escape, escape, char_round,
  string_round, scan_string, simple_escape, literal_tok,
}
use jwc_lang.Lexer.Tokenize.{Output, Tokens, accept, finish, token_at, token_round, tokenize}
use jwc_lang.Lexer.{Lexer, peek, peek_at, advance, skip_while}
use jwc_lang.Prelude.Loop.{Flow, Kept, loop_keeps}
use jwc_lang.Prelude.{
  ℕ, ◌+◌, Bool, true, false, not, ◌&&◌, Option, none, some, List, [], ◌∷◌, ◌≡◌, refl, ap, ◌∙◌,
  arith, length, ◌==◌, Bytes, slice, if_rule, leb, All, Bool-cases, Option-cases, inl, inr, ap₂,
  subst, is_alpha, is_digit, is_word, ◌++◌, All-append, ◌||◌, ◌<◌, ◌≤◌,
}
use jwc_lang.Token
use jwc_lang.Token.{Tok, Token}

module _ (src : Bytes) where
  -- The source is still the same.
  abbrev pub IsOf : Lexer → Type 0
  IsOf s = s.src ≡ src

  skip_blanks-IsOf : (s : Lexer) → IsOf s → IsOf (skip_blanks s)
  unfolding skip_blanks
  skip_blanks-IsOf s h = ground arith

  block_comment-IsOf : (s : Lexer) → IsOf s → IsOf (block_comment s)
  unfolding block_comment
  block_comment-IsOf s h = ground arith

  comment_round-Kept : (s : Lexer) → IsOf s → Kept IsOf IsOf (some (comment_round s))
  unfolding comment_round old_comment line_comment
  comment_round-Kept s h =
      let rule = if_rule (λ f. Kept IsOf IsOf (some f)) in
      rule (peek s == b'-' && peek_at s 1 == b'-' && _) _ _ (λ _. h)
        λ _.
          rule (peek s == b'/' && peek_at s 1 == b'/') _ _ (λ _. h)
            λ _.
              rule (peek s == b'/' && peek_at s 1 == b'*') _ _ (λ _. block_comment-IsOf s h) λ _. h

  pub skip_trivia-IsOf : (s r : Lexer) → IsOf s → skip_trivia s ≡ some r → IsOf r
  unfolding skip_trivia
  skip_trivia-IsOf s r h e =
      loop_keeps IsOf IsOf (λ t. some (trivia_round t))
        (λ t k. comment_round-Kept (skip_blanks t) (skip_blanks-IsOf t k)) (length s.src + 3) s r h
        e

  abbrev LiteralIsOf : Literal → Type 0
  LiteralIsOf l = IsOf l.lexer

  -- The text between two positions, of which the second is not behind the end.
  abbrev pub Between : ℕ → ℕ → Bytes → Type 0
  Between start stop n = (n ≡ slice start stop src) × (stop ≤ length src)

  -- A name or a number is the text between two positions, a local without its sigil.
  abbrev pub Spelled : ℕ → ℕ → Tok → Type 0
  Spelled start stop (Tok.ident n) = Between start stop n
  Spelled start stop (Tok.local n) = Between (start + 1) stop n
  Spelled start stop (Tok.int n) = Between start stop n
  Spelled start stop (Tok.decimal n) = Between start stop n
  Spelled start stop _ = Unit

  -- A token that is neither.
  abbrev pub IsOther : Tok → Type 0
  IsOther t = (start stop : ℕ) → Spelled start stop t

  abbrev pub IsOtherOrNone : Option Tok → Type 0
  IsOtherOrNone none = Unit
  IsOtherOrNone (some t) = IsOther t

  abbrev pub ScannedIsOf : Scanned → Type 0
  ScannedIsOf r = IsOf r.1 × IsOtherOrNone r.0

  literal_tok-IsOther : (raw : Bool) (out : Bytes) → IsOther (literal_tok raw out)
  literal_tok-IsOther true out start stop = tt
  literal_tok-IsOther false out start stop = tt

  unicode_value-Kept :
      (hex : Bytes) (s : Lexer) (hs : ℕ) (o : Option ℕ) (l : Literal)
      → IsOf s
      → Kept LiteralIsOf ScannedIsOf (some (unicode_value hex s hs o l))
  unfolding unicode_value
  unicode_value-Kept hex s hs (some ch) l h = h
  unicode_value-Kept hex s hs none l h = (h, tt)

  escape-Kept :
      (o : Option ℕ) (e : ℕ) (l : Literal)
      → LiteralIsOf l
      → Kept LiteralIsOf ScannedIsOf (some (by_letter o e l))
  unfolding by_letter unknown_escape unicode_escape
  escape-Kept (some ch) e l h = h
  escape-Kept none e l h =
      let rule = if_rule (λ f. Kept LiteralIsOf ScannedIsOf (some f)) in
      rule (e == b'u') _ _
        (λ _.
          rule (not (peek (advance 2 l.lexer) == b'{')) _ _ (λ _. (h, tt))
            λ _. unicode_value-Kept _ _ _ _ l h)
        λ _. (h, tt)

  char_round-IsOf :
      (raw : Bool) (start : ℕ) (l : Literal)
      → LiteralIsOf l
      → Kept LiteralIsOf ScannedIsOf (some (char_round raw start l))
  unfolding char_round escape
  char_round-IsOf raw start l h =
      let s = l.lexer in
      let rule = if_rule (λ f. Kept LiteralIsOf ScannedIsOf (some f)) in
      rule (peek s == b'"') _ _ (λ _. (h, literal_tok-IsOther raw l.out))
        λ _.
          rule (peek s == b'\n') _ _ (λ _. (h, tt))
            λ _.
              rule (peek s == b'\\' && raw) _ _
                (λ _. rule (peek_at s 1 == b'"') _ _ (λ _. h) λ _. h)
                λ _.
                  rule (peek s == b'\\') _ _
                    (λ _. escape-Kept (simple_escape (peek_at s 1)) (peek_at s 1) l h) λ _. h

  string_round-IsOf :
      (raw : Bool) (start : ℕ) (l : Literal)
      → LiteralIsOf l
      → Kept LiteralIsOf ScannedIsOf (some (string_round raw start l))
  unfolding string_round
  string_round-IsOf raw start l h =
      if_rule (λ f. Kept LiteralIsOf ScannedIsOf (some f)) (leb (length l.lexer.src) l.lexer.i) _ _
        (λ _. (h, tt)) λ _. char_round-IsOf raw start l h

  pub scan_string-IsOf :
      (raw : Bool) (s : Lexer) (r : Scanned) → IsOf s → scan_string raw s ≡ some r → ScannedIsOf r
  unfolding scan_string
  scan_string-IsOf raw s r h e =
      loop_keeps LiteralIsOf ScannedIsOf (λ l. some (string_round raw s.i l))
        (string_round-IsOf raw s.i) (length s.src + 3) _ r h e
