-- ===== src/Lexer/Bounds/Scan.antt =====
-- src/lexer.rs: the progress and the bounds of `scan_one`.
use jwc_lang.Lexer.Bounds.Strings.{scan_string_ends}
use jwc_lang.Lexer.Bounds.{
  Inside, report_here, advance-Inside, skip_while-Inside, skip_while_past, seen, seen_first,
}
use jwc_lang.Lexer.Scan.{
  is_continuation, identifier, underscore, fraction, number, old_sigil, sigil_name, detached_sigil,
  sigil, unexpected, match_three, match_two, match_one, three_bytes, two_bytes, one_byte,
  punctuation, scan_one,
}
use jwc_lang.Lexer.Strings.{Scanned}
use jwc_lang.Lexer.{Lexer, peek, peek_at, advance, skip_while}
use jwc_lang.Prelude.{
  ℕ, ◌+◌, ◌<◌, true, false, not, ◌&&◌, ◌||◌, Option, some, List, [], ◌∷◌, ◌≡◌, refl, arith, length,
  ◌==◌, Bytes, if_rule, Option-cases, and_true, inl, inr, All, is_alpha, is_digit, is_word, byte_at,
  byte_at_test-inside,
}
use jwc_lang.Token.{u32_mod, Tok}

abbrev ThreePositive : ℕ × ℕ × ℕ × Tok → Type 0
ThreePositive r = 0 < r.2

abbrev TwoPositive : ℕ × ℕ × Tok → Type 0
TwoPositive r = 0 < r.1

match_three-pos :
    (a b c : ℕ) (rows : List (ℕ × ℕ × ℕ × Tok)) (t : Tok)
    → All ThreePositive rows
    → match_three a b c rows ≡ some t
    → 0 < c
unfolding match_three
match_three-pos a b c [] t h e = cc
match_three-pos a b c ((x, y, z, u) ∷ rows) t h e =
    ground (arith, match_three-pos a b c rows t h.1, h.0)

match_two-pos :
    (a b : ℕ) (rows : List (ℕ × ℕ × Tok)) (t : Tok)
    → All TwoPositive rows
    → match_two a b rows ≡ some t
    → 0 < b
unfolding match_two
match_two-pos a b [] t h e = cc
match_two-pos a b ((x, y, u) ∷ rows) t h e = ground (arith, match_two-pos a b rows t h.1, h.0)

three_bytes_positive : All ThreePositive three_bytes
unfolding three_bytes
three_bytes_positive = omega arith

two_bytes_positive : All TwoPositive two_bytes
unfolding two_bytes
two_bytes_positive = omega arith

byte_at_pos-inside : (cs : Bytes) (i : ℕ) → 0 < byte_at cs i → i < length cs
byte_at_pos-inside cs i h = byte_at_test-inside (λ c. not (c == 0)) cs i refl (ground arith)

module _ (n : ℕ) (fits : n + 1 < u32_mod) where
  identifier-Inside :
      (lo : ℕ) (s : Lexer)
      → Inside n lo s
      → s.i < n
      → is_alpha (peek s) ≡ true
      → Inside n (s.i + 1) (identifier s).1
  unfolding identifier
  identifier-Inside lo s h lt a = skip_while_past is_word h lt (rw a)

  underscore-Inside :
      (lo : ℕ) (s : Lexer)
      → Inside n lo s
      → s.i < n
      → (peek s == b'_') ≡ true
      → Inside n (s.i + 1) (underscore s).1
  unfolding underscore
  underscore-Inside lo s h lt u =
      let k = skip_while_past is_word h lt (ground arith) in
      report_here s.i _ fits k (omega (arith, k.behind)) refl

  number-Inside :
      (lo : ℕ) (s : Lexer)
      → Inside n lo s
      → s.i < n
      → is_digit (peek s) ≡ true
      → Inside n (s.i + 1) (number s).1
  unfolding number fraction
  number-Inside lo s h lt d =
      let whole = skip_while is_digit s in
      let k = skip_while_past is_digit h lt d in
      if_rule (λ (r : Scanned). Inside n (s.i + 1) r.1)
        (peek whole == b'.' && is_digit (peek_at whole 1)) _ _
        (λ t.
          let (point, _) = and_true (peek whole == b'.') _ t in
          let inside = seen_first b'.' k (omega arith) point in
          skip_while-Inside is_digit
            (advance-Inside 1 (s.i + 1) k (omega (arith, k.behind)) (omega arith)))
        (λ _. k)

  sigil-Inside : (c lo : ℕ) (s : Lexer) → Inside n lo s → s.i < n → Inside n (s.i + 1) (sigil c s).1
  unfolding sigil sigil_name detached_sigil old_sigil
  sigil-Inside c lo s h lt =
      let named = advance 1 s in
      let k = advance-Inside 1 (s.i + 1) h (omega arith) (omega arith) in
      let behind = skip_while-Inside is_word k in
      if_rule (λ (r : Scanned). Inside n (s.i + 1) r.1) (is_alpha (peek named)) _ _
        (λ _.
          if_rule (Inside n (s.i + 1)) (c == b'$') _ _
            (λ _. report_here s.i _ fits behind (omega (arith, behind.behind)) refl) (λ _. behind))
        (λ _. report_here s.i _ fits k (omega arith) refl)

  unexpected-Inside :
      (lo : ℕ) (s : Lexer) → Inside n lo s → s.i < n → Inside n (s.i + 1) (unexpected s).1
  unfolding unexpected
  unexpected-Inside lo s h lt =
      let k = advance-Inside 1 (s.i + 1) h (omega arith) (omega arith) in
      let behind = skip_while-Inside is_continuation k in
      report_here s.i _ fits behind (omega (arith, behind.behind)) refl

  punctuation-Inside :
      (lo : ℕ) (s : Lexer) → Inside n lo s → s.i < n → Inside n (s.i + 1) (punctuation s).1
  unfolding punctuation
  punctuation-Inside lo s h lt =
      elim (Option-cases (match_three (peek s) (peek_at s 1) (peek_at s 2) three_bytes)) [
        | inr (t, e) ↦
            let third =
              match_three-pos (peek s) (peek_at s 1) (peek_at s 2) _ t three_bytes_positive e in
            let inside = byte_at_pos-inside s.src (s.i + 2) third in
            rw (e, punctuation)
              (advance-Inside 3 (s.i + 1) h (omega arith) (omega (arith, h.length_is)))
        | inl e₃ ↦ elim (Option-cases (match_two (peek s) (peek_at s 1) two_bytes)) [
          | inr (t, e) ↦
              let second = match_two-pos (peek s) (peek_at s 1) _ t two_bytes_positive e in
              let inside = byte_at_pos-inside s.src (s.i + 1) second in
              rw (e₃, e, punctuation)
                (advance-Inside 2 (s.i + 1) h (omega arith) (omega (arith, h.length_is)))
          | inl e₂ ↦ elim (Option-cases (match_one (peek s) one_byte)) [
            | inr (t, e) ↦
                rw (e₃, e₂, e, punctuation)
                  (advance-Inside 1 (s.i + 1) h (omega arith) (omega arith))
            | inl e₁ ↦ rw (e₃, e₂, e₁, punctuation) (unexpected-Inside lo s h lt)
          ]
        ]
      ]

  abbrev Reads : Lexer → Option Scanned → Type 0
  Reads s o = (r : Scanned) × (o ≡ some r) × Inside n (s.i + 1) r.1

  -- Inside the source `scan_one` returns, behind where it began, with its diagnostics in bounds.
  pub scan_one-Reads : (lo : ℕ) (s : Lexer) → Inside n lo s → s.i < n → Reads s (scan_one s)
  unfolding scan_one
  scan_one-Reads lo s h lt =
      if_rule (Reads s) (peek s == b'r' && peek_at s 1 == b'"') _ _
        (λ t.
          let quote = seen 1 b'"' h (omega arith) (and_true (peek s == b'r') _ t).1 in
          let k = advance-Inside 1 (s.i + 1) h (omega arith) (omega arith) in
          let (r, e, i) = scan_string_ends n fits true (s.i + 1) (advance 1 s) k (omega arith) in
          (
            r,
            e,
            record {
              length_is = i.length_is;
              behind = omega (arith, i.behind);
              inside = i.inside;
              diags_in = i.diags_in;
            },
          ))
        λ _.
          if_rule (Reads s) (is_alpha (peek s)) _ _ (λ a. (_, refl, identifier-Inside lo s h lt a))
            λ _.
              if_rule (Reads s) (peek s == b'_') _ _ (λ u. (_, refl, underscore-Inside lo s h lt u))
                λ _.
                  if_rule (Reads s) (is_digit (peek s)) _ _
                    (λ d. (_, refl, number-Inside lo s h lt d))
                    λ _.
                      if_rule (Reads s) (peek s == b'"') _ _
                        (λ _. scan_string_ends n fits false lo s h lt)
                        λ _.
                          if_rule (Reads s) (peek s == b'@' || peek s == b'$') _ _
                            (λ _. (_, refl, sigil-Inside (peek s) lo s h lt))
                            (λ _. (_, refl, punctuation-Inside lo s h lt))
