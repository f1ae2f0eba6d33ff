-- ===== src/Fmt/Raw.antt =====
-- src/lexer.rs and src/fmt.rs: raw literals that were scanned, and their print.
use jwc_lang.Diag.{Diagnostic}
use jwc_lang.Fmt.Quote.{is_raw_text, scan_one-raw_quote}
use jwc_lang.Fmt.{raw_quote}
use jwc_lang.Lexer.Scan.{scan_one}
use jwc_lang.Lexer.Strings.{Literal, Scanned, is_plain, char_round, string_round, scan_string}
use jwc_lang.Lexer.{Lexer, peek, peek_at, before_text, behind_text}
use jwc_lang.Prelude.Loop.{Kept, loop_keeps}
use jwc_lang.Prelude.{
  ℕ, ◌+◌, ◌<◌, Bool, true, false, ◌&&◌, some, List, [], ◌∷◌, ◌++◌, ◌≡◌, refl, sym, ◌∙◌, arith,
  length, take, drop, ◌==◌, leb, leb→lt, Bytes, run_length, All, All-append, if_rule, run_pos,
  Bool-cases, inl, inr,
}
use jwc_lang.Token.{Trivia, Tok}

abbrev ends_in_slash : Bytes → Bool
ends_in_slash [] = false
ends_in_slash (c ∷ []) = c == b'\\'
ends_in_slash (c ∷ d ∷ cs) = ends_in_slash (d ∷ cs)

abbrev IsInLine : ℕ → Type 0
IsInLine c = (c == b'\n') ≡ false

raw_text_of : (t : Bytes) → All IsInLine t → ends_in_slash t ≡ false → is_raw_text t ≡ true
raw_text_of [] a h = refl
raw_text_of (c ∷ []) a h = rw (a.0, h) refl
raw_text_of (c ∷ d ∷ cs) a h = rw a.0 (raw_text_of (d ∷ cs) a.1 h)

ends_in_slash-append :
    (a : Bytes) (c : ℕ) (b : Bytes) → ends_in_slash (a ++ c ∷ b) ≡ ends_in_slash (c ∷ b)
ends_in_slash-append [] c b = refl
ends_in_slash-append (x ∷ []) c b = refl
ends_in_slash-append (x ∷ y ∷ a) c b = ends_in_slash-append (y ∷ a) c b

plain-IsInLine : (c : ℕ) → is_plain c ≡ true → IsInLine c
plain-IsInLine c p = ground arith

plain_no_slash : (c : ℕ) → is_plain c ≡ true → (c == b'\\') ≡ false
plain_no_slash c p = ground arith

plain_run-IsInLine : (x : Bytes) → All IsInLine (take (run_length is_plain x) x)
unfolding run_length
plain_run-IsInLine [] = tt
plain_run-IsInLine (c ∷ x) = elim (Bool-cases (is_plain c)) [
  | inl p ↦ rw p (plain-IsInLine c p, plain_run-IsInLine x)
  | inr q ↦ rw q tt
]

plain_ends :
    (c : ℕ) (x : Bytes)
    → is_plain c ≡ true
    → ends_in_slash (c ∷ take (run_length is_plain x) x) ≡ false
unfolding run_length
plain_ends c [] p = plain_no_slash c p
plain_ends c (d ∷ x) p = elim (Bool-cases (is_plain d)) [
  | inl q ↦ rw q (plain_ends d x q)
  | inr q ↦ rw q (plain_no_slash c p)
]

plain_run-ends :
    (a x : Bytes)
    → 0 < run_length is_plain x
    → ends_in_slash (a ++ take (run_length is_plain x) x) ≡ false
unfolding run_length
plain_run-ends a [] pos = absurd (omega arith)
plain_run-ends a (c ∷ x) pos = elim (Bool-cases (is_plain c)) [
  | inl p ↦ rw p (ends_in_slash-append a c (take (run_length is_plain x) x) ∙ plain_ends c x p)
  | inr q ↦ let none_read : 0 < 0 = rw q at pos in absurd (omega arith)
]

-- The text so far: no newline, and behind a backslash at its end no quote follows.
record IsRaw (l : Literal) : Type 0 where
  in_line : All IsInLine l.out
  no_quote : ends_in_slash l.out ≡ true → (peek l.lexer == b'"') ≡ false

-- What a scan of a raw literal returns.
abbrev HasRawText : Scanned → Type 0
HasRawText (some (Tok.raw_str t), s) = is_raw_text t ≡ true
HasRawText _ = Unit

closing-HasRawText :
    (l : Literal) → IsRaw l → (peek l.lexer == b'"') ≡ true → is_raw_text l.out ≡ true
closing-HasRawText l h quote = elim (Bool-cases (ends_in_slash l.out)) [
  | inl slash ↦ let no_way = sym quote ∙ h.no_quote slash in cc
  | inr other ↦ raw_text_of l.out h.in_line other
]

-- A piece of the text that does not end in a backslash.
piece-IsRaw :
    (s : Lexer) (a b : Bytes)
    → All IsInLine a
    → All IsInLine b
    → ends_in_slash (a ++ b) ≡ false
    → IsRaw (record { lexer = s; out = a ++ b })
piece-IsRaw s a b ha hb e = record {
  in_line = All-append IsInLine a b ha hb;
  no_quote = λ slash. let no_way = sym slash ∙ e in cc;
}

-- One round of a raw literal.
char_round-Kept :
    (start : ℕ) (l : Literal)
    → IsRaw l
    → l.lexer.i < length l.lexer.src
    → Kept IsRaw HasRawText (some (char_round true start l))
unfolding char_round
char_round-Kept start l h lt =
    let s = l.lexer in
    let rule = if_rule (λ f. Kept IsRaw HasRawText (some f)) in
    rule (peek s == b'"') _ _ (λ quote. closing-HasRawText l h quote)
      λ no_quote.
        rule (peek s == b'\n') _ _ (λ _. tt)
          λ no_newline.
            rule (peek s == b'\\' && true) _ _
              (λ _.
                rule (peek_at s 1 == b'"') _ _
                  (λ _.
                    piece-IsRaw _ l.out (b'"' ∷ []) h.in_line (refl, tt)
                      (ends_in_slash-append l.out b'"' []))
                  λ next. record {
                    in_line = All-append IsInLine l.out (b'\\' ∷ []) h.in_line (refl, tt);
                    no_quote = λ _. next;
                  })
              λ no_slash.
                rule (peek s == b'\\') _ _ (λ slash. absurd (ground arith))
                  λ other. piece-IsRaw _ l.out _ h.in_line (plain_run-IsInLine (drop s.i s.src)) (
                    plain_run-ends l.out (drop s.i s.src)
                      (run_pos is_plain s.i s.src lt (rw (no_quote, no_newline, other) refl)))

string_round-Kept :
    (start : ℕ) (l : Literal) → IsRaw l → Kept IsRaw HasRawText (some (string_round true start l))
unfolding string_round
string_round-Kept start l h =
    if_rule (λ f. Kept IsRaw HasRawText (some f)) (leb (length l.lexer.src) l.lexer.i) _ _ (λ _. tt)
      λ more. char_round-Kept start l h (leb→lt _ _ more)

-- The text of a raw literal that was scanned has no newline, and no backslash at its end.
scan_string-HasRawText : (s : Lexer) (r : Scanned) → scan_string true s ≡ some r → HasRawText r
unfolding scan_string
scan_string-HasRawText s r h =
    loop_keeps IsRaw HasRawText (λ l. some (string_round true s.i l)) (string_round-Kept s.i)
      (length s.src + 3) _ r (record { in_line = tt; no_quote = λ e. cc }) h

-- Every raw literal that was scanned is printed so that the same token is scanned back, wherever the
-- print stands.
pub raw_quote_keeps :
    (s s' : Lexer) (t before rest : Bytes) (pending : List Trivia) (diags : List Diagnostic)
    → scan_string true s ≡ some (some (Tok.raw_str t), s')
    → scan_one (before_text before rest pending diags (raw_quote t))
      ≡ some (some (Tok.raw_str t), behind_text before rest pending diags (raw_quote t))
raw_quote_keeps s s' t before rest pending diags h =
    scan_one-raw_quote before rest pending diags t (scan_string-HasRawText s _ h)
