-- ===== src/Lexer/Spelling/Scan.antt =====
-- src/lexer.rs: `scan_one` and the spelling of its tokens.
use mathlib.Core.Option.{some-injective}
use jwc_lang.Lexer.Scan.{
  text_between, identifier, fraction, number, sigil, sigil_name, detached_sigil, old_sigil,
  unexpected, punctuation, underscore, scan_one, match_three, match_two, match_one, three_bytes,
  two_bytes, one_byte,
}
use jwc_lang.Lexer.Strings.{Scanned, scan_string}
use jwc_lang.Lexer.{Lexer, peek, peek_at, advance, skip_while}
use jwc_lang.Prelude.{
  ℕ, ◌+◌, Bool, true, false, ◌&&◌, Option, none, some, List, [], ◌∷◌, ◌≡◌, refl, ap, arith, ◌==◌,
  Bytes, slice, if_rule, All, Bool-cases, Option-cases, inl, inr, ap₂, subst, is_alpha, is_digit,
  is_word, ◌||◌, ◌≤◌, length, run_bound, and_true, byte_at_test-inside,
}
use jwc_lang.Token.{Tok}
use jwc_lang.Lexer.Spelling.{IsOf, Between, Spelled, IsOther, ScannedIsOf, scan_string-IsOf}

module _ (src : Bytes) where
  -- What `scan_one` returns from a position.
  abbrev pub SpelledFrom : ℕ → Scanned → Type 0
  SpelledFrom start r = IsOf src r.1 × elim r.0 [ none ↦ Unit | some t ↦ Spelled src start r.1.i t ]

  other-SpelledFrom : (start : ℕ) (r : Scanned) → ScannedIsOf src r → SpelledFrom start r
  other-SpelledFrom start (none, s) h = h
  other-SpelledFrom start (some t, s) h = (h.0, h.1 start s.i)

  -- A run that begins inside the source ends inside it.
  skip_while-le :
      (test : ℕ → Bool) (s : Lexer)
      → IsOf src s
      → s.i ≤ length src
      → (skip_while test s).i ≤ length src
  skip_while-le test s h le = omega (arith, run_bound test s.i s.src, ap length h)

  -- What is read from a position up to where the scanner stands.
  read-Between :
      (start : ℕ) (s : Lexer)
      → IsOf src s
      → s.i ≤ length src
      → Between src start s.i (text_between start s)
  read-Between start s h le = (ap (slice start s.i) h, le)

  identifier-SpelledFrom :
      (s : Lexer) → IsOf src s → s.i ≤ length src → SpelledFrom s.i (identifier s)
  unfolding identifier
  identifier-SpelledFrom s h le =
      (h, read-Between s.i (skip_while is_word s) h (skip_while-le is_word s h le))

  number-SpelledFrom : (s : Lexer) → IsOf src s → s.i ≤ length src → SpelledFrom s.i (number s)
  unfolding number fraction
  number-SpelledFrom s h le =
      let whole = skip_while is_digit s in
      if_rule (SpelledFrom s.i) (peek whole == b'.' && is_digit (peek_at whole 1)) _ _
        (λ t.
          let digit = (and_true (peek whole == b'.') _ t).1 in
          let inside = byte_at_test-inside is_digit whole.src (whole.i + 1) refl digit in
          let point = advance 1 whole in
          (
            h,
            read-Between s.i (skip_while is_digit point) h
                (skip_while-le is_digit point h (omega (arith, ap length h))),
          ))
        λ _. (h, read-Between s.i whole h (skip_while-le is_digit s h le))

  sigil_name-SpelledFrom :
      (c start : ℕ) (named : Lexer)
      → IsOf src named
      → named.i ≡ start + 1
      → named.i ≤ length src
      → SpelledFrom start (sigil_name c start named)
  unfolding sigil_name old_sigil
  sigil_name-SpelledFrom c start named h e le =
      let stop = (skip_while is_word named).i in
      let spelled : Between src (start + 1) stop (text_between named.i (skip_while is_word named)) =
        (ap₂ (λ a t. slice a stop t) e h, skip_while-le is_word named h le) in
      elim (Bool-cases (c == b'$')) [
        | inl old ↦ rw old (h, spelled)
        | inr other ↦ rw other (h, spelled)
      ]

  sigil-SpelledFrom : (c : ℕ) (s : Lexer) → IsOf src s → SpelledFrom s.i (sigil c s)
  unfolding sigil detached_sigil
  sigil-SpelledFrom c s h =
      if_rule (SpelledFrom s.i) (is_alpha (peek (advance 1 s))) _ _
        (λ a.
          let inside = byte_at_test-inside is_alpha s.src (s.i + 1) refl a in
          sigil_name-SpelledFrom c s.i (advance 1 s) h refl (omega (arith, ap length h)))
        λ _. (h, tt)

  -- The tables hold no name and no number.
  abbrev IsOtherThree : ℕ × ℕ × ℕ × Tok → Type 0
  IsOtherThree (_, _, _, t) = IsOther src t

  abbrev IsOtherTwo : ℕ × ℕ × Tok → Type 0
  IsOtherTwo (_, _, t) = IsOther src t

  abbrev IsOtherOne : ℕ × Tok → Type 0
  IsOtherOne (_, t) = IsOther src t

  match_three-IsOther :
      (a b c : ℕ) (rows : List (ℕ × ℕ × ℕ × Tok)) (t : Tok)
      → All IsOtherThree rows
      → match_three a b c rows ≡ some t
      → IsOther src t
  unfolding match_three
  match_three-IsOther a b c [] t h e = cc
  match_three-IsOther a b c ((x, y, z, u) ∷ rows) t h e =
      elim (Bool-cases (a == x && b == y && c == z)) [
        | inl q ↦
            let same : some u ≡ some t = rw q at e in
            subst (IsOther src) (some-injective u t same) h.0
        | inr q ↦ match_three-IsOther a b c rows t h.1 (rw q at e)
      ]

  match_two-IsOther :
      (a b : ℕ) (rows : List (ℕ × ℕ × Tok)) (t : Tok)
      → All IsOtherTwo rows
      → match_two a b rows ≡ some t
      → IsOther src t
  unfolding match_two
  match_two-IsOther a b [] t h e = cc
  match_two-IsOther a b ((x, y, u) ∷ rows) t h e = elim (Bool-cases (a == x && b == y)) [
    | inl q ↦
        let same : some u ≡ some t = rw q at e in subst (IsOther src) (some-injective u t same) h.0
    | inr q ↦ match_two-IsOther a b rows t h.1 (rw q at e)
  ]

  match_one-IsOther :
      (a : ℕ) (rows : List (ℕ × Tok)) (t : Tok)
      → All IsOtherOne rows
      → match_one a rows ≡ some t
      → IsOther src t
  unfolding match_one
  match_one-IsOther a [] t h e = cc
  match_one-IsOther a ((x, u) ∷ rows) t h e = elim (Bool-cases (a == x)) [
    | inl q ↦
        let same : some u ≡ some t = rw q at e in subst (IsOther src) (some-injective u t same) h.0
    | inr q ↦ match_one-IsOther a rows t h.1 (rw q at e)
  ]

  three_bytes-IsOther : All IsOtherThree three_bytes
  unfolding three_bytes
  three_bytes-IsOther = omega arith

  two_bytes-IsOther : All IsOtherTwo two_bytes
  unfolding two_bytes
  two_bytes-IsOther = omega arith

  one_byte-IsOther : All IsOtherOne one_byte
  unfolding one_byte
  one_byte-IsOther = omega arith

  punctuation-SpelledFrom : (s : Lexer) → IsOf src s → SpelledFrom s.i (punctuation s)
  unfolding punctuation unexpected
  punctuation-SpelledFrom s h =
      let three = match_three (peek s) (peek_at s 1) (peek_at s 2) three_bytes in
      let two = match_two (peek s) (peek_at s 1) two_bytes in
      elim (Option-cases three) [
        | inr (t, e) ↦
            rw (e, punctuation) (h, match_three-IsOther _ _ _ _ t three_bytes-IsOther e _ _)
        | inl e₃ ↦ elim (Option-cases two) [
          | inr (t, e) ↦
              rw (e₃, e, punctuation) (h, match_two-IsOther _ _ _ t two_bytes-IsOther e _ _)
          | inl e₂ ↦ elim (Option-cases (match_one (peek s) one_byte)) [
            | inr (t, e) ↦
                rw (e₃, e₂, e, punctuation) (h, match_one-IsOther _ _ t one_byte-IsOther e _ _)
            | inl e₁ ↦ rw (e₃, e₂, e₁, punctuation) (h, tt)
          ]
        ]
      ]

  literal-SpelledFrom :
      (start : ℕ) (r : Scanned) (raw : Bool) (s : Lexer)
      → IsOf src s
      → scan_string raw s ≡ some r
      → SpelledFrom start r
  literal-SpelledFrom start r raw s h e =
      other-SpelledFrom start r (scan_string-IsOf src raw s r h e)

  returned :
      (start : ℕ) (x r : Scanned) → SpelledFrom start x → some x ≡ some r → SpelledFrom start r
  returned start x r h e = subst (SpelledFrom start) (some-injective x r e) h

  -- Whatever token it is that `scan_one` returns.
  pub scan_one-SpelledFrom :
      (s : Lexer) (r : Scanned)
      → IsOf src s
      → s.i ≤ length src
      → scan_one s ≡ some r
      → SpelledFrom s.i r
  unfolding scan_one underscore
  scan_one-SpelledFrom s r h le =
      let rule = if_rule (λ (o : Option Scanned). o ≡ some r → SpelledFrom s.i r) in
      let literal = literal-SpelledFrom s.i r in
      rule (peek s == b'r' && peek_at s 1 == b'"') _ _ (λ _. literal true (advance 1 s) h)
        λ _.
          rule (is_alpha (peek s)) _ _ (λ _. returned s.i _ r (identifier-SpelledFrom s h le))
            λ _.
              rule (peek s == b'_') _ _ (λ _. returned s.i _ r (h, tt))
                λ _.
                  rule (is_digit (peek s)) _ _ (λ _. returned s.i _ r (number-SpelledFrom s h le))
                    λ _.
                      rule (peek s == b'"') _ _ (λ _. literal false s h)
                        λ _.
                          rule (peek s == b'@' || peek s == b'$') _ _
                            (λ _. returned s.i _ r (sigil-SpelledFrom (peek s) s h))
                            (λ _. returned s.i _ r (punctuation-SpelledFrom s h))
