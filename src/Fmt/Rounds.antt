-- ===== src/Fmt/Rounds.antt =====
-- src/lexer.rs: the rounds of `scan_string` on the text that is left.
use jwc_lang.Diag.{Diagnostic}
use jwc_lang.Lexer.Strings.{
  Literal, Scanned, emit, is_plain, simple_escape, by_letter, escape, char_round, string_round,
  literal_tok,
}
use jwc_lang.Lexer.{Lexer, advance}
use jwc_lang.Prelude.Loop.{Flow, break, loop, loop_again, loop_break}
use jwc_lang.Prelude.{
  ℕ, suc, ◌+◌, Bool, true, false, Option, some, List, [], ◌∷◌, ◌++◌, ◌≡◌, refl, sym, ap, ap₂, ◌∙◌,
  arith, length, drop, take, ◌==◌, Bytes, byte_at, run_length, if◌then◌else◌, Bool-cases, inl, inr,
  lt→leb, length-drop, byte_at-drop, drop_add, first_byte, ◌<◌,
}
use jwc_lang.Token.{Trivia}
use mathlib.Core.List.{append_assoc, append-nil}

inside_of : (i : ℕ) (cs : Bytes) (c : ℕ) (x : Bytes) → drop i cs ≡ c ∷ x → i < length cs
inside_of i cs c x e = omega (arith, ap length e, length-drop i cs)

module _ (src : Bytes) (pending : List Trivia) (diags : List Diagnostic) (raw : Bool)
    (start : ℕ) where
  abbrev pub at : ℕ → Lexer
  at i = record { src = src; i = i; pending = pending; diags = diags }

  abbrev pub reading : ℕ → Bytes → Literal
  reading i out = record { lexer = at i; out = out }

  -- Where text is left, a round reads a part of the literal.
  round_inside :
      (i : ℕ) (out : Bytes) (c : ℕ) (x : Bytes)
      → drop i src ≡ c ∷ x
      → string_round raw start (reading i out) ≡ char_round raw start (reading i out)
  unfolding string_round
  round_inside i out c x e = rw (lt→leb (length src) i (inside_of i src c x e)) refl

  module _ (i : ℕ) (out : Bytes) (c : ℕ) (x : Bytes) (left : drop i src ≡ c ∷ x) where
    pub peek_is : byte_at src i ≡ c
    peek_is = first_byte i src ∙ ap (λ t. byte_at t 0) left

    pub peek_next_is : byte_at src (i + 1) ≡ byte_at x 0
    peek_next_is = byte_at-drop i 1 src ∙ ap (λ t. byte_at t 1) left

    -- The closing quote.
    pub round_quote :
        (c == b'"') ≡ true
        → string_round raw start (reading i out)
          ≡ break (some (literal_tok raw out), advance 1 (at i))
    unfolding char_round
    round_quote q = round_inside i out c x left ∙ rw (peek_is, q) refl

    plain_parts :
        is_plain c ≡ true → ((c == b'"') ≡ false) × ((c == b'\\') ≡ false) × ((c == b'\n') ≡ false)
    plain_parts p = ground arith

    -- A run of plain bytes.
    pub round_plain :
        is_plain c ≡ true
        → string_round raw start (reading i out)
          ≡ emit (c ∷ take (run_length is_plain x) x) (suc (run_length is_plain x)) (reading i out)
    unfolding char_round run_length
    round_plain p =
        let (no_quote, no_slash, no_newline) = plain_parts p in
        round_inside i out c x left ∙ rw (left, peek_is, no_quote, no_newline, no_slash) refl

    slash_parts : (c == b'\\') ≡ true → ((c == b'"') ≡ false) × ((c == b'\n') ≡ false)
    slash_parts h = ground arith

    -- An escape of one letter.
    pub round_escape :
        (e ch : ℕ)
        → raw ≡ false
        → (c == b'\\') ≡ true
        → byte_at x 0 ≡ e
        → simple_escape e ≡ some ch
        → string_round raw start (reading i out) ≡ emit (ch ∷ []) 2 (reading i out)
    unfolding char_round escape by_letter
    round_escape e ch plain slash letter value =
        let (no_quote, no_newline) = slash_parts slash in
        round_inside i out c x left
        ∙ rw (peek_is, peek_next_is, letter, no_quote, no_newline, slash, plain, value) refl

    -- A backslash of a raw literal.
    pub round_raw :
        raw ≡ true
        → (c == b'\\') ≡ true
        → string_round raw start (reading i out) ≡ (
            if byte_at x 0 == b'"'
            then emit (b'"' ∷ []) 2 (reading i out)
            else emit (b'\\' ∷ []) 1 (reading i out))
    unfolding char_round
    round_raw is_raw slash =
        let (no_quote, no_newline) = slash_parts slash in
        round_inside i out c x left
        ∙ rw (peek_is, peek_next_is, no_quote, no_newline, slash, is_raw) refl

  abbrev pub round : Literal → Option (Flow Literal Scanned)
  round l = some (string_round raw start l)

  -- The loop from a position, with the text read so far.
  abbrev pub reads : ℕ → ℕ → Bytes → Option Scanned
  reads fuel i out = loop fuel round (reading i out)

  -- A round that goes on.
  pub reads_on :
      (n i k : ℕ) (out text : Bytes)
      → string_round raw start (reading i out) ≡ emit text k (reading i out)
      → reads (suc n) i out ≡ reads n (i + k) (out ++ text)
  reads_on n i k out text e = loop_again n round (reading i out) _ (ap some e)

  -- A plain byte can be read alone: what is left of its run is the next round.
  pub reads_plain :
      (n i : ℕ) (out : Bytes) (c : ℕ) (x : Bytes) (r : Scanned)
      → drop i src ≡ c ∷ x
      → is_plain c ≡ true
      → reads n (i + 1) (out ++ c ∷ []) ≡ some r
      → reads (suc n) (i + 1) (out ++ c ∷ []) ≡ some r
      → reads (suc n) i out ≡ some r
  unfolding run_length
  reads_plain n i out c [] r left p h k =
      reads_on n i 1 out (c ∷ []) (round_plain i out c [] left p) ∙ h
  reads_plain n i out c (d ∷ y) r left p h k = elim (Bool-cases (is_plain d)) [
    | inl q ↦
        let m = run_length is_plain y in
        let e =
          reads_on n i (suc (suc m)) out (c ∷ d ∷ take m y)
            (rw q at (round_plain i out c (d ∷ y) left p)) in
        let f =
          reads_on n (i + 1) (suc m) (out ++ c ∷ []) (d ∷ take m y)
            (round_plain (i + 1) (out ++ c ∷ []) d y (drop_add i 1 src ∙ ap (drop 1) left) q) in
        e ∙ ap₂ (reads n) (omega arith) (sym (append_assoc out (c ∷ []) (d ∷ take m y))) ∙ sym f ∙ k
    | inr q ↦ reads_on n i 1 out (c ∷ []) (rw q at (round_plain i out c (d ∷ y) left p)) ∙ h
  ]

  -- The literal that ends before the position `i`, with its text.
  abbrev pub ends : ℕ → Bytes → Option Scanned
  ends i text = some (some (literal_tok raw text), at i)

  pub reads_end :
      (n i : ℕ) (out rest : Bytes)
      → drop i src ≡ b'"' ∷ rest
      → reads (suc n) i out ≡ ends (i + 1) (out ++ [])
  reads_end n i out rest left =
      loop_break n round (reading i out) _ (ap some (round_quote i out b'"' rest left refl))
      ∙ ap (ends (i + 1)) (sym (append-nil out))

  -- One byte of the text, printed in `k` bytes, and then the rest of it.
  pub reads_one :
      (n i k : ℕ) (out : Bytes) (c : ℕ) (cs : Bytes) (j j' : ℕ)
      → string_round raw start (reading i out) ≡ emit (c ∷ []) k (reading i out)
      → reads n (i + k) (out ++ c ∷ []) ≡ ends j ((out ++ c ∷ []) ++ cs)
      → j ≡ j'
      → reads (suc n) i out ≡ ends j' (out ++ c ∷ cs)
  reads_one n i k out c cs j j' e ih same =
      reads_on n i k out (c ∷ []) e ∙ ih ∙ ap₂ ends same (append_assoc out (c ∷ []) cs)

  -- A plain byte of the text, and then the rest of it.
  pub reads_plain_one :
      (n i : ℕ) (out : Bytes) (c : ℕ) (x cs : Bytes) (j j' : ℕ)
      → drop i src ≡ c ∷ x
      → is_plain c ≡ true
      → reads n (i + 1) (out ++ c ∷ []) ≡ ends j ((out ++ c ∷ []) ++ cs)
      → reads (suc n) (i + 1) (out ++ c ∷ []) ≡ ends j ((out ++ c ∷ []) ++ cs)
      → j ≡ j'
      → reads (suc n) i out ≡ ends j' (out ++ c ∷ cs)
  reads_plain_one n i out c x cs j j' left p h k same =
      let e = ap₂ ends same (append_assoc out (c ∷ []) cs) in
      reads_plain n i out c x _ left p (h ∙ e) (k ∙ e)
