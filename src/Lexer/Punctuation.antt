-- ===== src/Lexer/Punctuation.antt =====
-- src/token.rs and src/lexer.rs: `punct_text` and the scanner.
mod Tests
use jwc_lang.Diag.{Diagnostic}
use jwc_lang.Lexer.Scan.{
  scan_one, punctuation, unexpected, match_three, match_two, match_one, three_bytes, two_bytes,
  one_byte,
}
use jwc_lang.Lexer.Strings.{Scanned}
use jwc_lang.Lexer.{Lexer, peek, peek_at, advance, before_text, behind_text}
use jwc_lang.Prelude.{
  ℕ, zero, suc, ◌+◌, Bool, true, false, not, ◌||◌, Option, none, some, is_alpha, is_digit, List, [],
  ◌∷◌, ◌++◌, ◌≡◌, refl, ap, sym, subst, ◌∙◌, arith, length, ◌==◌, Bytes, byte_at, byte_behind,
  first_behind,
}
use jwc_lang.Token.{Trivia, Tok, punct_text}
use jwc_lang.Token.Tok.{ident, local, int, decimal, str, raw_str, op_assign, eof, l_paren}

-- The tokens that have one text.
abbrev pub is_punctuation : Tok → Bool
is_punctuation (op_assign c) = c == b'+' || c == b'-' || c == b'*' || c == b'/'
is_punctuation (ident _) = false
is_punctuation (local _) = false
is_punctuation (int _) = false
is_punctuation (decimal _) = false
is_punctuation (str _) = false
is_punctuation (raw_str _) = false
is_punctuation eof = false
is_punctuation _ = true

-- A byte that begins punctuation.
starts_other : ℕ → Bool
starts_other c = not (is_alpha c || c == b'_' || is_digit c || c == b'"' || c == b'@' || c == b'$')

-- The entry of the longest size that matches, and that size.
abbrev size_of : Option Tok → Option Tok → Option Tok → Option (Tok × ℕ)
size_of three two one = elim three [
  | some t ↦ some (t, 3)
  | none ↦ elim two [
    | some t ↦ some (t, 2)
    | none ↦ elim one [ some t ↦ some (t, 1) | none ↦ none ]
  ]
]

abbrev scanned_of : Lexer → Option Tok → Option Tok → Option Tok → Scanned
scanned_of s three two one = elim three [
  | some t ↦ (some t, advance 3 s)
  | none ↦ elim two [
    | some t ↦ (some t, advance 2 s)
    | none ↦ elim one [ some t ↦ (some t, advance 1 s) | none ↦ unexpected s ]
  ]
]

longest_match : ℕ → ℕ → ℕ → Option (Tok × ℕ)
longest_match a b c =
    size_of (match_three a b c three_bytes) (match_two a b two_bytes) (match_one a one_byte)

scan_other : (s : Lexer) → starts_other (peek s) ≡ true → scan_one s ≡ some (punctuation s)
unfolding scan_one starts_other
scan_other s h = ground arith

by_size :
    (s : Lexer) (t : Tok) (k : ℕ) (three two one : Option Tok)
    → size_of three two one ≡ some (t, k)
    → scanned_of s three two one ≡ (some t, advance k s)
by_size s t k (some t') two one h = ground arith
by_size s t k none (some t') one h = ground arith
by_size s t k none none (some t') h = ground arith
by_size s t k none none none h = cc

punctuation_of_match :
    (s : Lexer) (t : Tok) (k : ℕ)
    → longest_match (peek s) (peek_at s 1) (peek_at s 2) ≡ some (t, k)
    → punctuation s ≡ (some t, advance k s)
unfolding punctuation longest_match
punctuation_of_match s t k h =
    by_size s t k (match_three (peek s) (peek_at s 1) (peek_at s 2) three_bytes)
      (match_two (peek s) (peek_at s 1) two_bytes) (match_one (peek s) one_byte) h

op_assign_match :
    (c : ℕ)
    → is_punctuation (op_assign c) ≡ true
    → (punct_text (op_assign c) ≡ c ∷ b'=' ∷ [])
      × (starts_other c ≡ true)
      × (longest_match c b'=' b' ' ≡ some (op_assign c, 2))
unfolding punct_text starts_other longest_match match_three match_two match_one three_bytes
    two_bytes one_byte
op_assign_match c ok = ground arith

abbrev Matches : Tok → Bytes → Bytes → Type 0
Matches t p x =
    (starts_other (byte_at x 0) ≡ true)
    × (longest_match (byte_at x 0) (byte_at x 1) (byte_at x 2) ≡ some (t, length p))

text-Matches :
    (t : Tok) (rest : Bytes)
    → is_punctuation t ≡ true
    → Matches t (punct_text t) (punct_text t ++ b' ' ∷ rest)
unfolding punct_text starts_other longest_match match_three match_two match_one three_bytes
    two_bytes one_byte
text-Matches l_paren rest ok = (refl, refl)
text-Matches (op_assign c) rest ok =
    let (text, starts, matched) = op_assign_match c ok in
    subst (λ p. Matches (op_assign c) p (p ++ b' ' ∷ rest)) (sym text) (starts, matched)
text-Matches (ident _) rest ok = cc
text-Matches (local _) rest ok = cc
text-Matches (int _) rest ok = cc
text-Matches (decimal _) rest ok = cc
text-Matches (str _) rest ok = cc
text-Matches (raw_str _) rest ok = cc
text-Matches eof rest ok = cc
text-Matches _ rest ok = (refl, refl)

module _ (before rest : Bytes) (pending : List Trivia) (diags : List Diagnostic) where
  -- Every token of punctuation is scanned back from its text before a blank, whole.
  pub scan_one-punct_text :
      (t : Tok)
      → is_punctuation t ≡ true
      → scan_one (before_text before (b' ' ∷ rest) pending diags (punct_text t))
        ≡ some (some t, behind_text before (b' ' ∷ rest) pending diags (punct_text t))
  scan_one-punct_text t ok =
      let x = punct_text t ++ b' ' ∷ rest in
      let s = before_text before (b' ' ∷ rest) pending diags (punct_text t) in
      let (starts, matched) = text-Matches t rest ok in
      scan_other s (rw (first_behind before x) starts)
      ∙ ap some (
          punctuation_of_match s t (length (punct_text t))
            (rw (first_behind before x, byte_behind before x 1, byte_behind before x 2) matched))
