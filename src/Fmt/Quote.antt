-- ===== src/Fmt/Quote.antt =====
-- src/fmt.rs and src/lexer.rs: the literals that the formatter prints, and `scan_one`.
use jwc_lang.Diag.{Diagnostic}
use jwc_lang.Fmt.{escaped, quote_body, quote, raw_body, raw_quote}
use jwc_lang.Fmt.Rounds.{
  reading, reads, reads_end, peek_is, peek_next_is, reads_one, reads_plain_one, ends, round_escape,
  round_raw,
}
use jwc_lang.Lexer.Scan.{scan_one}
use jwc_lang.Lexer.Strings.{emit, is_plain, simple_escape, scan_string}
use jwc_lang.Lexer.{before_text, behind_text}
use jwc_lang.Prelude.{
  ℕ, zero, suc, ◌+◌, Bool, true, false, not, ◌&&◌, some, List, [], ◌∷◌, ◌++◌, ◌≡◌, refl, sym, ap,
  drop_add, drop-append, eq_of_test, ◌∙◌, arith, length, ◌≤◌, drop, ◌==◌, ◌<◌, Bytes, byte_at,
  Bool-cases, inl, inr, ◌⊎◌, length-append, length-drop,
}
use jwc_lang.Token.{Trivia, Tok}
use mathlib.Core.List.{append_assoc}

-- A printed byte is an escape of one letter that stands for it, or the byte itself, which is plain.
escaped-cases :
    (c : ℕ)
    → ((e : ℕ) × (escaped c ≡ b'\\' ∷ e ∷ []) × (simple_escape e ≡ some c))
      ⊎ ((escaped c ≡ c ∷ []) × (is_plain c ≡ true))
unfolding escaped simple_escape
escaped-cases c = elim (Bool-cases (c == b'"')) [
  | inl q ↦ inl (b'"', rw q refl, ground arith)
  | inr n1 ↦ elim (Bool-cases (c == b'\\')) [
    | inl q ↦ inl (b'\\', rw (n1, q) refl, ground arith)
    | inr n2 ↦ elim (Bool-cases (c == b'\n')) [
      | inl q ↦ inl (b'n', rw (n1, n2, q) refl, ground arith)
      | inr n3 ↦ elim (Bool-cases (c == b'\r')) [
        | inl q ↦ inl (b'r', rw (n1, n2, n3, q) refl, ground arith)
        | inr n4 ↦ elim (Bool-cases (c == b'\t')) [
          | inl q ↦ inl (b't', rw (n1, n2, n3, n4, q) refl, ground arith)
          | inr n5 ↦ inr (rw (n1, n2, n3, n4, n5) refl, rw (n1, n2, n3) refl)
        ]
      ]
    ]
  ]
]

-- What a raw literal can hold: no newline, and no backslash at its end.
abbrev pub is_raw_text : Bytes → Bool
is_raw_text [] = true
is_raw_text (c ∷ []) = not (c == b'\n') && not (c == b'\\')
is_raw_text (c ∷ d ∷ cs) = not (c == b'\n') && is_raw_text (d ∷ cs)

raw_text_rest : (c : ℕ) (cs : Bytes) → is_raw_text (c ∷ cs) ≡ true → is_raw_text cs ≡ true
raw_text_rest c [] ok = refl
raw_text_rest c (d ∷ cs) ok = ground arith

no_newline : (c : ℕ) (cs : Bytes) → is_raw_text (c ∷ cs) ≡ true → (c == b'\n') ≡ false
no_newline c [] ok = ground arith
no_newline c (d ∷ cs) ok = ground arith

-- No quote follows a backslash of the text in print.
after_slash :
    (c : ℕ) (cs rest : Bytes)
    → is_raw_text (c ∷ cs) ≡ true
    → (c == b'\\') ≡ true
    → (byte_at (raw_body cs ++ rest) 0 == b'"') ≡ false
unfolding raw_body
after_slash c [] rest ok slash = ground arith
after_slash c (d ∷ cs) rest ok slash = ground arith

module _ (src : Bytes) (pending : List Trivia) (diags : List Diagnostic) (start : ℕ) where
  -- The loop has the printed text `s` before it, then the closing quote.
  reads-quote_body :
      (s : Bytes) (i : ℕ) (out rest : Bytes) (n : ℕ)
      → drop i src ≡ quote_body s ++ b'"' ∷ rest
      → length s < n
      → reads src pending diags false start n i out
        ≡ ends src pending diags false start (i + suc (length (quote_body s))) (out ++ s)
  unfolding quote_body
  reads-quote_body s i out rest zero left lt = absurd (omega arith)
  reads-quote_body [] i out rest (suc n) left lt =
      reads_end src pending diags false start n i out rest left
  reads-quote_body (c ∷ cs) i out rest (suc zero) left lt = absurd (omega arith)
  reads-quote_body (c ∷ cs) i out rest (suc (suc n)) left lt = elim (escaped-cases c) [
    | inl (e, printed, value) ↦
        let here : drop i src ≡ b'\\' ∷ e ∷ (quote_body cs ++ b'"' ∷ rest) = rw printed at left in
        rw printed (
          reads_one src pending diags false start (suc n) i 2 out c cs _ _
            (round_escape src pending diags false start i out b'\\' _ here e c refl refl refl value)
            (reads-quote_body cs (i + 2) (out ++ c ∷ []) rest (suc n)
              (drop_add i 2 src ∙ ap (drop 2) here) (omega arith))
            (omega arith))
    | inr (printed, p) ↦
        let here : drop i src ≡ c ∷ (quote_body cs ++ b'"' ∷ rest) = rw printed at left in
        let next = drop_add i 1 src ∙ ap (drop 1) here in
        rw printed (
          reads_plain_one src pending diags false start (suc n) i out c _ cs _ _ here p
            (reads-quote_body cs (i + 1) (out ++ c ∷ []) rest (suc n) next (omega arith))
            (reads-quote_body cs (i + 1) (out ++ c ∷ []) rest (suc (suc n)) next (omega arith))
            (omega arith))
  ]

  -- The same for a raw literal, which has no newline and does not end in a backslash.
  reads-raw_body :
      (s : Bytes) (i : ℕ) (out rest : Bytes) (n : ℕ)
      → drop i src ≡ raw_body s ++ b'"' ∷ rest
      → is_raw_text s ≡ true
      → length s < n
      → reads src pending diags true start n i out
        ≡ ends src pending diags true start (i + suc (length (raw_body s))) (out ++ s)
  unfolding raw_body
  reads-raw_body s i out rest zero left ok lt = absurd (omega arith)
  reads-raw_body [] i out rest (suc n) left ok lt =
      reads_end src pending diags true start n i out rest left
  reads-raw_body (c ∷ cs) i out rest (suc zero) left ok lt = absurd (omega arith)
  reads-raw_body (c ∷ cs) i out rest (suc (suc n)) left ok lt =
      let ok' = raw_text_rest c cs ok in
      elim (Bool-cases (c == b'"')) [
        | inl q ↦
            let here : drop i src ≡ b'\\' ∷ b'"' ∷ (raw_body cs ++ b'"' ∷ rest) = rw q at left in
            rw q (
              reads_one src pending diags true start (suc n) i 2 out c cs _ _
                (round_raw src pending diags true start i out b'\\' _ here refl refl
                  ∙ ap (λ t. emit (t ∷ []) 2 (reading src pending diags true start i out))
                      (sym (eq_of_test c b'"' q)))
                (reads-raw_body cs (i + 2) (out ++ c ∷ []) rest (suc n)
                  (drop_add i 2 src ∙ ap (drop 2) here) ok' (omega arith))
                (omega arith))
        | inr no_quote ↦
            let here : drop i src ≡ c ∷ (raw_body cs ++ b'"' ∷ rest) = rw no_quote at left in
            let next = drop_add i 1 src ∙ ap (drop 1) here in
            elim (Bool-cases (c == b'\\')) [
              | inl slash ↦ rw no_quote (
                  reads_one src pending diags true start (suc n) i 1 out c cs _ _
                    (round_raw src pending diags true start i out c _ here refl slash
                      ∙ rw (after_slash c cs (b'"' ∷ rest) ok slash) (
                          ap (λ t. emit (t ∷ []) 1 (reading src pending diags true start i out))
                            (sym (eq_of_test c b'\\' slash))))
                    (reads-raw_body cs (i + 1) (out ++ c ∷ []) rest (suc n) next ok' (omega arith))
                    (omega arith))
              | inr no_slash ↦ rw no_quote (
                  reads_plain_one src pending diags true start (suc n) i out c _ cs _ _ here
                    (rw (no_quote, no_slash, no_newline c cs ok) refl)
                    (reads-raw_body cs (i + 1) (out ++ c ∷ []) rest (suc n) next ok' (omega arith))
                    (reads-raw_body cs (i + 1) (out ++ c ∷ []) rest (suc (suc n)) next ok'
                      (omega arith))
                    (omega arith))
            ]
      ]

length-quote_body-le : (s : Bytes) → length s ≤ length (quote_body s)
unfolding quote_body
length-quote_body-le [] = omega arith
length-quote_body-le (c ∷ cs) = elim (escaped-cases c) [
  | inl (e, printed, _) ↦ rw printed (omega (arith, length-quote_body-le cs))
  | inr (printed, _) ↦ rw printed (omega (arith, length-quote_body-le cs))
]

length-raw_body-le : (s : Bytes) → length s ≤ length (raw_body s)
unfolding raw_body
length-raw_body-le [] = omega arith
length-raw_body-le (c ∷ cs) = ground (arith, length-raw_body-le cs)

-- A text is no longer than its print, which stands in the source.
enough :
    (s t : Bytes) (i : ℕ) (src rest : Bytes)
    → drop i src ≡ t ++ rest
    → length s ≤ length t
    → length s < length src + 3
enough s t i src rest inside le =
    omega (arith, ap length inside, length-drop i src, length-append t rest)

module _ (before rest : Bytes) (pending : List Trivia) (diags : List Diagnostic) where
  -- Whatever the text, the scanner reads it back from the literal that the formatter prints, and
  -- stops behind the literal.
  pub scan_one-quote :
      (s : Bytes)
      → scan_one (before_text before rest pending diags (quote s))
        ≡ some (some (Tok.str s), behind_text before rest pending diags (quote s))
  unfolding scan_one scan_string quote
  scan_one-quote s =
      let left = drop-append before (quote s ++ rest) in
      let src = before ++ (quote s ++ rest) in
      let i = length before in
      let inside : drop (i + 1) src ≡ quote_body s ++ b'"' ∷ rest =
        drop_add i 1 src ∙ ap (drop 1) left ∙ append_assoc (quote_body s) (b'"' ∷ []) rest in
      let fuel =
        enough s (quote_body s) (i + 1) src (b'"' ∷ rest) inside (length-quote_body-le s) in
      rw (peek_is src pending diags false i i [] b'"' _ left) (
        reads-quote_body src pending diags i s (i + 1) [] rest (length src + 3) inside fuel
        ∙ ap (λ j. ends src pending diags false i j s)
            (omega (arith, length-append (quote_body s) (b'"' ∷ []))))

  -- The same for a raw literal, of a text with no newline and no backslash at its end.
  pub scan_one-raw_quote :
      (s : Bytes)
      → is_raw_text s ≡ true
      → scan_one (before_text before rest pending diags (raw_quote s))
        ≡ some (some (Tok.raw_str s), behind_text before rest pending diags (raw_quote s))
  unfolding scan_one scan_string raw_quote
  scan_one-raw_quote s ok =
      let left = drop-append before (raw_quote s ++ rest) in
      let src = before ++ (raw_quote s ++ rest) in
      let i = length before in
      let inside : drop (i + 1 + 1) src ≡ raw_body s ++ b'"' ∷ rest =
        drop_add (i + 1) 1 src
        ∙ ap (drop 1) (drop_add i 1 src ∙ ap (drop 1) left)
        ∙ append_assoc (raw_body s) (b'"' ∷ []) rest in
      let fuel =
        enough s (raw_body s) (i + 1 + 1) src (b'"' ∷ rest) inside (length-raw_body-le s) in
      rw
        (
          peek_is src pending diags true i i [] b'r' _ left,
          peek_next_is src pending diags true i i [] b'r' _ left,
        )
        (reads-raw_body src pending diags (i + 1) s (i + 1 + 1) [] rest (length src + 3) inside ok
            fuel
          ∙ ap (λ j. ends src pending diags true (i + 1) j s)
              (omega (arith, length-append (raw_body s) (b'"' ∷ []))))
