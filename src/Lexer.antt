-- ===== src/Lexer.antt =====
-- src/lexer.rs: the state of the scanner. The bytes of the source do not change; `i` is the position,
-- which can pass the end by one.
pub mod Comments
pub mod Strings
pub mod Scan
pub mod Tokenize
pub mod Bounds
pub mod Spelling
pub mod Punctuation
use mathlib.Core.List.{reverse}
use jwc_lang.Diag.{Diagnostic}
use jwc_lang.Prelude.{
  ℕ, ◌+◌, Bool, true, ◌&&◌, ◌||◌, List, [], ◌∷◌, ◌++◌, ◌==◌, if◌then◌else◌, Bytes, byte_at, take,
  drop, run_length, length,
}
use jwc_lang.Token
use jwc_lang.Token.{Trivia}

pub record Lexer : Type 0 where
  pub src : Bytes
  pub i : ℕ
  pub pending : List Trivia
  pub diags : List Diagnostic

abbrev pub new : Bytes → Lexer
new text = record { src = text; i = 0; pending = []; diags = [] }

abbrev pub peek : Lexer → ℕ
peek s = byte_at s.src s.i

abbrev pub peek_at : Lexer → ℕ → ℕ
peek_at s n = byte_at s.src (s.i + n)

-- `self.i += n`
abbrev pub advance : ℕ → Lexer → Lexer
advance n s = record s { i = s.i + n }

-- `while test(self.peek()) { self.i += 1 }`, for a test that a 0 does not pass or that stands beside
-- `self.i < self.src.len()`
abbrev pub run : (ℕ → Bool) → Lexer → ℕ
run test s = run_length test (drop s.i s.src)

abbrev pub skip_while : (ℕ → Bool) → Lexer → Lexer
skip_while test s = advance (run test s) s

abbrev pub report : Diagnostic → Lexer → Lexer
report d s = record s { diags = s.diags ++ d ∷ [] }

abbrev pub leave : Trivia → Lexer → Lexer
leave t s = record s { pending = s.pending ++ t ∷ [] }

-- on the bytes before the position, the last first
abbrev blank_back_to_newline : Bytes → Bool
blank_back_to_newline [] = true
blank_back_to_newline (c ∷ cs) =
    c == b'\n' || ((c == b' ' || c == b'\t' || c == b'\r') && blank_back_to_newline cs)

unfoldable pub at_line_start : Lexer → Bool
at_line_start s = blank_back_to_newline (reverse (take s.i s.src))

module _ (before rest : Bytes) (pending : List Trivia) (diags : List Diagnostic) where
  -- The scanner before, or behind, a text that stands between `before` and `rest`.
  abbrev pub before_text : Bytes → Lexer
  before_text t = record {
    src = before ++ (t ++ rest);
    i = length before;
    pending = pending;
    diags = diags;
  }

  abbrev pub behind_text : Bytes → Lexer
  behind_text t = advance (length t) (before_text t)
