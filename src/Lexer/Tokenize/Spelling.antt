-- ===== src/Lexer/Tokenize/Spelling.antt =====
-- src/lexer.rs: the tokens of `tokenize` against the text of their spans.
use jwc_lang.Lexer.Comments.{skip_trivia}
use jwc_lang.Lexer.Scan.{scan_one}
use jwc_lang.Lexer.Strings.{Scanned}
use jwc_lang.Lexer.Tokenize.{Output, Tokens, accept, finish, token_at, token_round, tokenize}
use jwc_lang.Lexer.{Lexer}
use jwc_lang.Prelude.Loop.{Flow, Kept, loop_keeps}
use jwc_lang.Prelude.{
  ℕ, ◌+◌, Option, none, some, List, ◌≡◌, refl, length, Bytes, if_rule, leb, All, Option-cases, inl,
  inr, All-append, ap, ◌<◌, arith, leb→lt,
}
use jwc_lang.Token
use jwc_lang.Token.{Tok, Token, u32_mod}
use jwc_lang.Lexer.Tokenize.Total.{new_bounds}
use jwc_lang.Lexer.Spelling.{IsOf, Spelled, skip_trivia-IsOf}
use jwc_lang.Lexer.Spelling.Scan.{SpelledFrom, scan_one-SpelledFrom}

-- The span of two positions below 4 GiB is made of them.
span-Spelled :
    (src : Bytes) (start stop : ℕ) (t : Tok)
    → start < u32_mod
    → stop < u32_mod
    → Spelled src start stop t
    → Spelled src (Token.new start stop).start (Token.new start stop).stop t
span-Spelled src start stop t start_fits stop_fits h =
    let bounds = new_bounds start stop start_fits stop_fits in rw (bounds.0, bounds.1) h

new-Spelled :
    (src : Bytes) (start stop : ℕ) (t : Tok)
    → length src < u32_mod
    → start < length src
    → Spelled src start stop t
    → Spelled src (Token.new start stop).start (Token.new start stop).stop t
new-Spelled src start stop (Tok.ident n) fits lt h =
    span-Spelled src start stop (Tok.ident n) (omega arith) (omega (arith, h.1)) h
new-Spelled src start stop (Tok.local n) fits lt h =
    span-Spelled src start stop (Tok.local n) (omega arith) (omega (arith, h.1)) h
new-Spelled src start stop (Tok.int n) fits lt h =
    span-Spelled src start stop (Tok.int n) (omega arith) (omega (arith, h.1)) h
new-Spelled src start stop (Tok.decimal n) fits lt h =
    span-Spelled src start stop (Tok.decimal n) (omega arith) (omega (arith, h.1)) h
new-Spelled src start stop _ fits lt h = tt

module _ (src : Bytes) (fits : length src < u32_mod) where
  -- The token is spelled by its span.
  abbrev IsSpelled : Token → Type 0
  IsSpelled t = Spelled src t.span.start t.span.stop t.tok

  record IsSpelledSoFar (o : Output) : Type 0 where
    same : IsOf src o.lexer
    all : All IsSpelled o.out

  abbrev AreSpelled : Tokens → Type 0
  AreSpelled r = All IsSpelled r.0

  abbrev KeptBy : Option (Flow Output Tokens) → Type 0
  KeptBy = Kept IsSpelledSoFar AreSpelled

  accept-Kept :
      (start : ℕ) (out : List Token) (r : Scanned)
      → start < length src
      → SpelledFrom src start r
      → All IsSpelled out
      → KeptBy (some (accept start out r))
  unfolding accept
  accept-Kept start out (some tok, s) lt h a = record {
    same = h.0;
    all = All-append IsSpelled out _ a (new-Spelled src start s.i tok fits lt h.1, tt);
  }
  accept-Kept start out (none, s) lt h a = record { same = h.0; all = a }

  token_at-Kept :
      (out : List Token) (s : Lexer) → IsOf src s → All IsSpelled out → KeptBy (token_at out s)
  unfolding token_at finish
  token_at-Kept out s h a =
      if_rule KeptBy (leb (length s.src) s.i) _ _ (λ _. All-append IsSpelled out _ a (tt, tt))
        λ more.
          let lt : s.i < length src = omega (arith, leb→lt (length s.src) s.i more, ap length h) in
          elim (Option-cases (scan_one s)) [
            | inl none_read ↦ rw none_read tt
            | inr (r, e) ↦
                rw e (accept-Kept s.i out r lt (scan_one-SpelledFrom src s r h (omega arith) e) a)
          ]

  token_round-Kept : (o : Output) → IsSpelledSoFar o → KeptBy (token_round o)
  unfolding token_round
  token_round-Kept o k = elim (Option-cases (skip_trivia o.lexer)) [
    | inl none_read ↦ rw (none_read, token_round) tt
    | inr (s, e) ↦
        rw (e, token_round) (token_at-Kept o.out s (skip_trivia-IsOf src o.lexer s k.same e) k.all)
  ]

-- In a text below 4 GiB the span of every name and every number among the tokens ends inside the
-- text, and the name or the number is the text of its span, a local without its sigil.
pub tokens-Spelled :
    (text : Bytes) (r : Tokens)
    → length text < u32_mod
    → tokenize text ≡ some r
    → All (λ t. Spelled text t.span.start t.span.stop t.tok) r.0
unfolding tokenize
tokens-Spelled text r fits e =
    loop_keeps (IsSpelledSoFar text fits) (AreSpelled text fits) token_round
      (token_round-Kept text fits) (length text + 3) _ r (record { same = refl; all = tt }) e
