-- ===== src/Parser/Cursor.antt =====
-- src/parser.rs, `impl Parser`, the cursor: what is under it, taking a token, and the errors of
-- a token that is not the expected one.
use jwc_lang.Prelude.{
  ℕ, zero, suc, ◌+◌, ◌-◌, min, Bool, true, false, not, ◌&&◌, Option, none, some, List, [], ◌∷◌,
  ◌++◌, ◌==◌, String, length, ltb, if◌then◌else◌, Bytes, codes,
}
use jwc_lang.Token.{
  Token, Tok, Span, Trivia, dummy, is_word, same_bytes, shown, line, doc, block, blank, ident,
  local, int, decimal, str, raw_str, l_paren, r_paren, l_brace, r_brace, l_bracket, r_bracket,
  comma, semi, colon, dot, dot_dot_dot, arrow, question, eq, eq_opt, op_assign, eq_eq, eq_eq_opt,
  bang, bang_eq, lt, lt_eq, gt, gt_eq, plus, minus, star, slash, percent, coalesce, eof,
}
use jwc_lang.Token.Keywords.{removed_keywords}
use jwc_lang.Diag.{Diagnostic, error, with_note, with_clause}
use jwc_lang.Ast.Tree.{Attached, Ident}
use jwc_lang.Parser.Action.{
  Parser, Action, Test, done, pure, stop, gets, branch, ◌>>=◌, ◌>>◌, push_diag,
}

-- `self.toks[i]`, for an `i` in range
unfoldable pub token_at : List Token → ℕ → Token
unfolding dummy
token_at [] i = record { tok = eof; span = dummy; leading = [] }
token_at (t ∷ ts) zero = t
token_at (t ∷ ts) (suc i) = token_at ts i

unfoldable pub peek_at : Parser → ℕ → Token
unfolding token_at
peek_at s n = token_at s.toks (min (s.i + n) (length s.toks - 1))

unfoldable pub peek : Parser → Token
unfolding token_at
peek s = token_at s.toks (min s.i (length s.toks - 1))

abbrev pub is_eof : Tok → Bool
is_eof eof = true
is_eof _ = false

unfoldable pub at_eof : Test
unfolding peek
at_eof s = is_eof (peek s).tok

-- the number of a kind, for the kinds that carry nothing
unfoldable pub kind_number : Tok → ℕ
kind_number l_paren = 1
kind_number r_paren = 2
kind_number l_brace = 3
kind_number r_brace = 4
kind_number l_bracket = 5
kind_number r_bracket = 6
kind_number comma = 7
kind_number semi = 8
kind_number colon = 9
kind_number dot = 10
kind_number dot_dot_dot = 11
kind_number arrow = 12
kind_number question = 13
kind_number eq = 14
kind_number eq_opt = 15
kind_number eq_eq = 16
kind_number eq_eq_opt = 17
kind_number bang = 18
kind_number bang_eq = 19
kind_number lt = 20
kind_number lt_eq = 21
kind_number gt = 22
kind_number gt_eq = 23
kind_number plus = 24
kind_number minus = 25
kind_number star = 26
kind_number slash = 27
kind_number percent = 28
kind_number coalesce = 29
kind_number eof = 30
kind_number _ = 0

-- `==` on `Tok`
unfoldable pub same_tok : Tok → Tok → Bool
unfolding kind_number
same_tok (ident a) (ident b) = same_bytes a b
same_tok (local a) (local b) = same_bytes a b
same_tok (int a) (int b) = same_bytes a b
same_tok (decimal a) (decimal b) = same_bytes a b
same_tok (str a) (str b) = same_bytes a b
same_tok (raw_str a) (raw_str b) = same_bytes a b
same_tok (op_assign a) (op_assign b) = a == b
same_tok t u = not (kind_number t == 0) && kind_number t == kind_number u

unfoldable pub at : Tok → Test
unfolding same_tok peek
at t s = same_tok (peek s).tok t

-- `self.peek_at(n).is(t)`
unfoldable pub next_is : ℕ → Tok → Test
unfolding same_tok peek_at
next_is n t s = same_tok (peek_at s n).tok t

unfoldable pub at_word : Bytes → Test
unfolding is_word peek
at_word w s = is_word (peek s) w

unfoldable pub word_at : ℕ → Bytes → Test
unfolding is_word peek_at
word_at n w s = is_word (peek_at s n) w

-- `matches!(self.peek_at(n).tok, Tok::Ident(_))`
unfoldable pub ident_at : ℕ → Test
unfolding peek_at
ident_at n s = elim (peek_at s n).tok [ ident _ ↦ true | _ ↦ false ]

-- `matches!(self.peek().tok, Tok::Ident(_))`
unfoldable pub at_ident : Test
unfolding peek
at_ident s = elim (peek s).tok [ ident _ ↦ true | _ ↦ false ]

-- `if self.i < self.toks.len() - 1 { self.i += 1 }`
unfoldable pub advance : Parser → Parser
advance s = if ltb s.i (length s.toks - 1) then record s { i = s.i + 1 } else s

unfoldable pub bump : Action Token
unfolding peek advance
bump s = done (peek s) (advance s)

-- `if self.at(t) { self.bump(); true } else { false }`, and the same on a word
abbrev pub take_if : Test → Action Bool
take_if t = branch t (bump >> pure true) (pure false)

unfoldable pub eat : Tok → Action Bool
eat t = take_if (at t)

unfoldable pub eat_word : Bytes → Action Bool
eat_word w = take_if (at_word w)

unfoldable pub span : Parser → Span
unfolding peek
span s = (peek s).span

-- the token under the cursor, as what is done next depends on it
unfoldable pub looking : {A : Type 0} → (Tok → Action A) → Action A
unfolding peek
looking k s = k (peek s).tok s

unfoldable pub at_old_comment : Test
unfolding at next_is
at_old_comment s = at minus s && next_is 1 minus s

unfoldable pub old_comment : Span → Diagnostic
old_comment span = with_clause "names.md §1.4" (
    with_note (codes "a line comment starts with `//`, a doc comment with `///`")
      (error "E0901" span (codes "`--` does not start a comment")))

abbrev same_span : Span → Span → Bool
same_span a b = a.start == b.start && a.stop == b.stop

unfoldable pub err : String → Span → Bytes → Action (Unit {0})
unfolding push_diag at_old_comment old_comment span
err code at_span msg s =
    push_diag
      (if at_old_comment s && same_span (span s) at_span
        then old_comment at_span
        else error code at_span msg)
      s

unfoldable pub err_note : String → Span → Bytes → Bytes → String → Action (Unit {0})
unfolding push_diag
err_note code at_span msg note clause =
    push_diag (with_clause clause (with_note note (error code at_span msg)))

-- `self.err(…); return Err(())`
unfoldable pub refuse : {A : Type 0} → String → Span → Bytes → Action A
refuse code at_span msg = err code at_span msg >> stop

unfoldable pub refuse_note : {A : Type 0} → String → Span → Bytes → Bytes → String → Action A
refuse_note code at_span msg note clause = err_note code at_span msg note clause >> stop

-- `format!("expected {what}, found {found}")`, at the cursor
unfoldable pub unexpected : {A : Type 0} → String → Bytes → Tok → Action A
unexpected code what found = do
  here ← gets span
  refuse code here (codes "expected " ++ what ++ codes ", found " ++ shown found)

unfoldable pub find_word : Bytes → List (Bytes × Bytes) → Option Bytes
find_word w [] = none
find_word w ((k, msg) ∷ ws) = if same_bytes k w then some msg else find_word w ws

unfoldable pub removed : Span → Bytes → Diagnostic
removed span msg = with_clause "routing.md §10" (
    with_note (codes "the pre-1.0 language has no migration path; it had no users")
      (error "E0900" span msg))

unfoldable pub removed_message : Tok → Option Bytes
unfolding find_word removed_keywords
removed_message (ident w) = find_word w removed_keywords
removed_message _ = none

-- `if let Some((_, msg)) = … { push; return true } false`
unfoldable pub report_removed : Option Bytes → Action Bool
report_removed none = pure false
report_removed (some msg) = do here ← gets span; push_diag (removed here msg); pure true

unfoldable pub check_removed_keyword : Action Bool
check_removed_keyword =
    branch at_old_comment (do here ← gets span; push_diag (old_comment here); pure true)
      (looking λ t. report_removed (removed_message t))

-- `if self.check_removed_keyword() { return Err(()) }`
unfoldable pub refuse_removed : Action (Unit {0})
refuse_removed = check_removed_keyword >>= λ found. if found then stop else pure tt

unfoldable pub expect : Tok → Action Token
expect t =
    branch (at t) bump (refuse_removed >> looking λ found. unexpected "E0001" (shown t) found)

unfoldable pub expect_word : Bytes → Action Token
expect_word w =
    branch (at_word w) bump
      (looking λ found. unexpected "E0001" (codes "`" ++ w ++ codes "`") found)

-- `Ident::new(name, span)` of the token that is taken
unfoldable pub take_ident : Bytes → Action Ident
take_ident name = do here ← gets span; _ ← bump; pure (record { name = name; span = here })

unfoldable pub ident_or_refuse : Tok → Action Ident
ident_or_refuse (ident name) = take_ident name
ident_or_refuse other = unexpected "E0001" (codes "a name") other

unfoldable pub expect_ident : Action Ident
expect_ident = looking ident_or_refuse

unfoldable pub string_or_refuse : Tok → Action (Bytes × Span)
string_or_refuse (str s) = do here ← gets span; _ ← bump; pure (s, here)
string_or_refuse other = unexpected "E0001" (codes "a string literal") other

unfoldable pub expect_string : Action (Bytes × Span)
expect_string = looking string_or_refuse

unfoldable pub add_trivia : Attached → List Trivia → Attached
add_trivia a [] = a
add_trivia a (doc s ∷ ts) = add_trivia (record a { docs = a.docs ++ s ∷ [] }) ts
add_trivia a (line s ∷ ts) = add_trivia (record a { comments = a.comments ++ s ∷ [] }) ts
add_trivia a (block ls ∷ ts) = add_trivia (record a { blocks = a.blocks ++ ls ∷ [] }) ts
add_trivia a (blank ∷ ts) = add_trivia (record a { blank_before = true }) ts

unfoldable pub attached : Parser → Attached
unfolding add_trivia peek
attached s =
    add_trivia (record { docs = []; comments = []; blocks = []; blank_before = false })
      (peek s).leading
