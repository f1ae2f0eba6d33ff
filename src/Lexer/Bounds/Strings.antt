-- ===== src/Lexer/Bounds/Strings.antt =====
-- src/lexer.rs: the end and the bounds of `scan_string`.
use jwc_lang.Diag.{Diagnostic}
use jwc_lang.Lexer.Bounds.{
  SpanIn, DiagIn, Inside, new-SpanIn, report-Inside, advance-Inside, run-Inside, seen,
}
use jwc_lang.Lexer.Strings.{
  Literal, Scanned, refuse, emit, is_plain, not_brace, unicode_value, unicode_escape, by_letter,
  unknown_escape, simple_escape, escape, char_round, string_round, scan_string,
}
use jwc_lang.Lexer.{Lexer, peek, peek_at, advance, run}
use jwc_lang.Prelude.Loop.{Flow, Round, loop_ends}
use jwc_lang.Prelude.{
  ℕ, ◌+◌, ◌-◌, ◌≤◌, ◌<◌, Bool, not, ◌&&◌, Option, none, some, [], ◌∷◌, ◌≡◌, arith, length, drop,
  take, ◌==◌, leb, leb→lt, Bytes, if_rule, run_pos,
}
use jwc_lang.Token
use jwc_lang.Token.{u32_mod, Tok}

module _ (n : ℕ) (fits : n + 1 < u32_mod) (start : ℕ) where
  -- What a round that begins at `l` does: the position is behind `start`, and it grows.
  abbrev Goes : Literal → Flow Literal Scanned → Type 0
  Goes l f =
      Round (λ l. Inside n (start + 1) l.lexer) (λ r. Inside n (start + 1) r.1)
        (λ l. n + 2 - l.lexer.i) l (some f)

  emit-Goes :
      (text : Bytes) (k : ℕ) (l : Literal)
      → Inside n (start + 1) l.lexer
      → 0 < k
      → l.lexer.i + k ≤ n + 1
      → Goes l (emit text k l)
  emit-Goes text k l h pos le =
      (advance-Inside k (start + 1) h (omega (arith, h.behind)) le, omega arith)

  refuse-Goes :
      (d : Diagnostic) (s : Lexer) (l : Literal)
      → Inside n (start + 1) s
      → DiagIn (n + 1) d
      → Goes l (refuse d s)
  refuse-Goes d s l h k = report-Inside d h k

  -- A diagnostic from `a` to the position of the scanner.
  here : (a : ℕ) (s : Lexer) → a ≤ s.i → s.i ≤ n + 1 → SpanIn (n + 1) (Token.new a s.i)
  here a s h k = new-SpanIn (n + 1) a s.i fits h k

  unicode_value-Goes :
      (hex : Bytes) (s : Lexer) (hs : ℕ) (o : Option ℕ) (l : Literal)
      → Inside n (start + 1) s
      → hs ≤ s.i
      → l.lexer.i < hs
      → Goes l (unicode_value hex s hs o l)
  unfolding unicode_value
  unicode_value-Goes hex s hs (some ch) l h le lt = (h, omega (arith, h.inside))
  unicode_value-Goes hex s hs none l h le lt =
      refuse-Goes _ s l h (record { span = here hs s le h.inside })

  unicode_escape-Goes :
      (l : Literal) → Inside n (start + 1) l.lexer → l.lexer.i < n → Goes l (unicode_escape l)
  unfolding unicode_escape
  unicode_escape-Goes l h lt =
      let s = advance 2 l.lexer in
      let k = advance-Inside 2 (start + 1) h (omega (arith, h.behind)) (omega arith) in
      if_rule (Goes l) (not (peek s == b'{')) _ _
        (λ _. refuse-Goes _ s l k (record { span = here (s.i - 2) s (omega arith) (omega arith) }))
        λ t.
          let inside = seen {lo = start + 1} {s = l.lexer} 2 b'{' h (omega arith) (ground arith) in
          let opened = advance 1 s in
          let k' = advance-Inside 1 (start + 1) k (omega (arith, h.behind)) (omega arith) in
          unicode_value-Goes _ _ opened.i _ l
            (advance-Inside _ (start + 1) k' (omega (arith, h.behind))
              (omega (arith, run-Inside not_brace k')))
            (omega arith) (omega arith)

  escape-Goes :
      (o : Option ℕ) (e : ℕ) (l : Literal)
      → Inside n (start + 1) l.lexer
      → l.lexer.i < n
      → Goes l (by_letter o e l)
  unfolding by_letter unknown_escape
  escape-Goes (some ch) e l h lt = emit-Goes (ch ∷ []) 2 l h (omega arith) (omega arith)
  escape-Goes none e l h lt =
      let s = advance 2 l.lexer in
      if_rule (Goes l) (e == b'u') _ _ (λ _. unicode_escape-Goes l h lt)
        λ _.
          refuse-Goes _ s l (advance-Inside 2 (start + 1) h (omega (arith, h.behind)) (omega arith))
            (record { span = here (s.i - 2) s (omega arith) (omega arith) })

  -- Inside the source.
  char_round-Goes :
      (raw : Bool) (l : Literal)
      → Inside n (start + 1) l.lexer
      → l.lexer.i < n
      → Goes l (char_round raw start l)
  unfolding char_round escape
  char_round-Goes raw l h lt =
      let s = l.lexer in
      if_rule (Goes l) (peek s == b'"') _ _
        (λ _. advance-Inside 1 (start + 1) h (omega (arith, h.behind)) (omega arith))
        λ no_quote.
          if_rule (Goes l) (peek s == b'\n') _ _
            (λ _.
              refuse-Goes _ s l h
                (record { span = here start s (omega (arith, h.behind)) h.inside }))
            λ no_newline.
              if_rule (Goes l) (peek s == b'\\' && raw) _ _
                (λ _.
                  if_rule (Goes l) (peek_at s 1 == b'"') _ _
                    (λ _. emit-Goes (b'"' ∷ []) 2 l h (omega arith) (omega arith))
                    (λ _. emit-Goes (b'\\' ∷ []) 1 l h (omega arith) (omega arith)))
                λ _.
                  if_rule (Goes l) (peek s == b'\\') _ _
                    (λ _. escape-Goes (simple_escape (peek_at s 1)) (peek_at s 1) l h lt)
                    λ no_escape.
                      emit-Goes (take (run is_plain s) (drop s.i s.src)) (run is_plain s) l h
                        (run_pos is_plain s.i s.src (omega (arith, h.length_is))
                          (rw (no_quote, no_newline, no_escape)))
                        (omega (arith, run-Inside is_plain h))

  string_round-Goes :
      (raw : Bool) (l : Literal) → Inside n (start + 1) l.lexer → Goes l (string_round raw start l)
  unfolding string_round
  string_round-Goes raw l h =
      if_rule (Goes l) (leb (length l.lexer.src) l.lexer.i) _ _
        (λ _.
          refuse-Goes _ l.lexer l h
            (record { span = here start l.lexer (omega (arith, h.behind)) h.inside }))
        λ more. char_round-Goes raw l h (omega (arith, leb→lt _ _ more, h.length_is))

-- A literal that begins inside the source is read, or refused, behind its quote and in bounds.
pub scan_string_ends :
    (n : ℕ)
    → n + 1 < u32_mod
    → (raw : Bool) (lo : ℕ) (s : Lexer) → Inside n lo s
    → s.i < n
    → (r : Scanned) × (scan_string raw s ≡ some r) × Inside n (s.i + 1) r.1
unfolding scan_string
scan_string_ends n fits raw lo s h lt =
    loop_ends (λ l. Inside n (s.i + 1) l.lexer) (λ r. Inside n (s.i + 1) r.1)
      (λ l. n + 2 - l.lexer.i) (λ l. some (string_round raw s.i l))
      (string_round-Goes n fits s.i raw) _ _ (omega (arith, h.length_is))
      (advance-Inside 1 (s.i + 1) h (omega arith) (omega arith))
