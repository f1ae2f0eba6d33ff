-- ===== src/Token.antt =====
-- src/token.rs: spans, trivia and tokens.
pub mod Keywords
use jwc_lang.Prelude.{
  ℕ, ◌%◌, min, max, Bool, true, false, ◌&&◌, Option, none, some, List, [], ◌∷◌, ◌++◌, ◌==◌,
  if◌then◌else◌, Bytes, codes,
}

-- A half-open range of bytes, in `u32`.
pub record Span : Type 0 where
  pub start : ℕ
  pub stop : ℕ

-- `start as u32` keeps the low 32 bits
abbrev pub u32_mod : ℕ
u32_mod = 4294967296

unfoldable pub new : ℕ → ℕ → Span
new start stop = record { start = start % u32_mod; stop = stop % u32_mod }

unfoldable pub dummy : Span
dummy = record { start = 0; stop = 0 }

unfoldable pub to : Span → Span → Span
to a b = record { start = min a.start b.start; stop = max a.stop b.stop }

pub data Trivia : Type 0 where
  line : Bytes → Trivia
  doc : Bytes → Trivia
  block : List Bytes → Trivia
  blank : Trivia

pub data Tok : Type 0 where
  ident : Bytes → Tok
  local : Bytes → Tok
  int : Bytes → Tok
  decimal : Bytes → Tok
  str : Bytes → Tok
  raw_str : Bytes → Tok
  l_paren r_paren l_brace r_brace l_bracket r_bracket : Tok
  comma semi colon dot dot_dot_dot arrow question : Tok
  eq eq_opt : Tok
  op_assign : ℕ → Tok
  eq_eq eq_eq_opt bang bang_eq lt lt_eq gt gt_eq : Tok
  plus minus star slash percent coalesce eof : Tok

pub record Token : Type 0 where
  pub tok : Tok
  pub span : Span
  pub leading : List Trivia

unfoldable pub punct_text : Tok → Bytes
punct_text l_paren = codes "("
punct_text r_paren = codes ")"
punct_text l_brace = codes "{"
punct_text r_brace = codes "}"
punct_text l_bracket = codes "["
punct_text r_bracket = codes "]"
punct_text comma = codes ","
punct_text semi = codes ";"
punct_text colon = codes ":"
punct_text dot = codes "."
punct_text dot_dot_dot = codes "..."
punct_text arrow = codes "->"
punct_text question = codes "?"
punct_text eq = codes "="
punct_text eq_opt = codes "=?"
punct_text (op_assign c) =
    if c == b'+'
    then codes "+="
    else if c == b'-'
    then codes "-="
    else if c == b'*'
    then codes "*="
    else if c == b'/'
    then codes "/="
    else codes "op="
punct_text eq_eq = codes "=="
punct_text eq_eq_opt = codes "==?"
punct_text bang = codes "!"
punct_text bang_eq = codes "!="
punct_text lt = codes "<"
punct_text lt_eq = codes "<="
punct_text gt = codes ">"
punct_text gt_eq = codes ">="
punct_text plus = codes "+"
punct_text minus = codes "-"
punct_text star = codes "*"
punct_text slash = codes "/"
punct_text percent = codes "%"
punct_text coalesce = codes "??"
punct_text _ = codes "?"

-- `Display`
unfoldable pub shown : Tok → Bytes
unfolding punct_text
shown (ident s) = codes "`" ++ s ++ codes "`"
shown (local s) = codes "`@" ++ s ++ codes "`"
shown (int s) = codes "`" ++ s ++ codes "`"
shown (decimal s) = codes "`" ++ s ++ codes "`"
shown (str _) = codes "a string literal"
shown (raw_str _) = codes "a raw string literal"
shown eof = codes "end of file"
shown other = codes "`" ++ punct_text other ++ codes "`"

unfoldable pub as_ident : Token → Option Bytes
as_ident t = elim t.tok [ ident s ↦ some s | _ ↦ none ]

abbrev pub same_bytes : Bytes → Bytes → Bool
same_bytes [] [] = true
same_bytes (a ∷ as') (b ∷ bs) = a == b && same_bytes as' bs
same_bytes _ _ = false

unfoldable pub is_word : Token → Bytes → Bool
is_word t w = elim t.tok [ ident s ↦ same_bytes s w | _ ↦ false ]
