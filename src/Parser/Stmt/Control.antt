-- ===== src/Parser/Stmt/Control.antt =====
-- src/parser.rs, `parse_stmt`: the statements that begin with a word of their own.
use jwc_lang.Prelude.{Option, none, some, ◌++◌, Bytes, codes}
use jwc_lang.Token.{Tok, Span, to, ident, str, l_paren, r_paren, l_brace, colon, semi, eq}
use jwc_lang.Diag.{Diagnostic, error, with_note, with_clause, with_fix}
use jwc_lang.Ast.Tree.{
  Node, Attached, stmt, let_stmt, if_stmt, for_stmt, while_stmt, return_stmt, throw_stmt,
  transaction, break_stmt, continue_stmt, assert_stmt, assert_expr, assert_fails, dispatch,
  dispatch_arg, argument, vec, opt, many, maybe, absent, present, empty, more,
}
use jwc_lang.Parser.Action.{Parser, Action, pure, stop, branch, ◌>>=◌, ◌>>◌, push_diag, given}
use jwc_lang.Parser.Cursor.{
  peek, bump, at, at_word, looking, span, expect, expect_ident, expect_word, err_note,
}
use jwc_lang.Parser.Names.{Parsers, items_before}
use jwc_lang.Parser.Expr.Whole.{parse_throw_args}

-- the end of an `if` that is the `else` of another
unfoldable pub if_end : Node stmt → Span → Span
if_end (if_stmt _ _ _ _ span) other = span
if_end _ other = other

unfoldable pub missing_let : Parser → Diagnostic
missing_let s =
    let d = with_clause "names.md §5.5" (
      with_note (codes "write `for (let x in xs)`")
        (error "E0902" (span s) (codes "a `for` binder is declared with `let`"))) in
    elim (peek s).tok [ ident w ↦ with_fix (codes "let " ++ w) d | _ ↦ d ]

-- `self.diags.push(d); return Err(())`
unfoldable pub refuse_binder : Action (Unit {0})
refuse_binder s = (push_diag (missing_let s) >> stop) s

-- the message behind `with`, and where it ends
abbrev pub Message : Type 0
Message = Option Bytes × Option Span × Span

unfoldable pub message_at : Span → Span → Tok → Action Message
message_at with_span so_far (str s) = do t ← bump; pure (some s, some t.span, t.span)
message_at with_span so_far _ = do
  _ ←
      err_note "E1402" with_span (codes "`with` takes a string literal")
        (codes "the message is compared exactly, so it has to be written out") "testing.md §4.2"
  pure (none, none, so_far)

unfoldable pub parse_fails_message : Span → Action Message
parse_fails_message so_far =
    branch (at_word (codes "with")) (do w ← bump; looking (message_at w.span so_far))
      (pure (none, none, so_far))

module _ (leading : Attached) (start : Span) where
  -- `break;` and `continue;`
  unfoldable pub parse_break : Action (Node stmt)
  parse_break = do _ ← bump; close ← expect semi; pure (break_stmt leading (to start close.span))

  unfoldable pub parse_continue : Action (Node stmt)
  parse_continue = do
    _ ← bump
    close ← expect semi
    pure (continue_stmt leading (to start close.span))

module _ (self : Parsers) where
  unfoldable pub parse_argument : Action (Node dispatch_arg)
  parse_argument = do
    name ← expect_ident
    _ ← expect colon
    value ← self.expr
    pure (argument name value)

  -- the block of `else`, or the `if` behind it, and where it ends
  unfoldable pub parse_else : Span → Action (Node (maybe (many stmt)) × Span)
  parse_else so_far =
      branch (at_word (codes "if"))
        (do inner ← self.statement; pure (present (more inner empty), if_end inner so_far))
        (do body ← self.block; pure (present body.0, body.1))

  module _ (leading : Attached) (start : Span) where
    unfoldable pub parse_let : Action (Node stmt)
    parse_let = do
      _ ← bump
      name ← expect_ident
      ty ← given (at colon) (do _ ← bump; self.type_of)
      _ ← expect eq
      value ← self.expr
      close ← expect semi
      pure (let_stmt leading name (opt ty) value (to start close.span))

    unfoldable pub parse_if : Action (Node stmt)
    parse_if = do
      _ ← bump
      _ ← expect l_paren
      cond ← self.expr
      _ ← expect r_paren
      body ← self.block
      otherwise ←
          branch (at_word (codes "else")) (do _ ← bump; parse_else body.1) (pure (absent, body.1))
      pure (if_stmt leading cond body.0 otherwise.0 (to start otherwise.1))

    unfoldable pub parse_for : Action (Node stmt)
    parse_for = do
      _ ← bump
      _ ← expect l_paren
      _ ← branch (at_word (codes "let")) (do _ ← bump; pure tt) refuse_binder
      binder ← expect_ident
      _ ← expect_word (codes "in")
      iterable ← self.expr
      _ ← expect r_paren
      body ← self.block
      pure (for_stmt leading binder iterable body.0 (to start body.1))

    unfoldable pub parse_while : Action (Node stmt)
    parse_while = do
      _ ← bump
      _ ← expect l_paren
      cond ← self.expr
      _ ← expect r_paren
      body ← self.block
      pure (while_stmt leading cond body.0 (to start body.1))

    unfoldable pub parse_return : Action (Node stmt)
    parse_return = do
      _ ← bump
      value ← branch (at semi) (pure none) (do e ← self.expr; pure (some e))
      close ← expect semi
      pure (return_stmt leading (opt value) (to start close.span))

    unfoldable pub parse_throw : Action (Node stmt)
    parse_throw = do
      _ ← bump
      error ← expect_ident
      args ← parse_throw_args self
      close ← expect semi
      pure (throw_stmt leading error (vec args) (to start close.span))

    unfoldable pub parse_dispatch : Action (Node stmt)
    parse_dispatch = do
      _ ← bump
      job ← expect_ident
      _ ← expect l_paren
      args ← items_before r_paren parse_argument
      _ ← expect r_paren
      close ← expect semi
      pure (dispatch leading job (vec args) (to start close.span))

    unfoldable pub parse_transaction : Action (Node stmt)
    parse_transaction = do
      _ ← bump
      body ← self.block
      pure (transaction leading body.0 (to start body.1))

    -- behind `assert fails`
    unfoldable pub parse_assert_fails : Action (Node stmt)
    parse_assert_fails = do
      _ ← bump
      error ← branch (at l_brace) (pure none) (do e ← expect_ident; pure (some e))
      body ← self.block
      message ← parse_fails_message body.1
      last ← branch (at semi) (do t ← bump; pure t.span) (pure message.2)
      pure (assert_stmt leading (assert_fails error body.0 message.0 message.1) (to start last))

    unfoldable pub parse_assert : Action (Node stmt)
    parse_assert = do
      _ ← bump
      branch (at_word (codes "fails")) parse_assert_fails (do
        e ← self.expr
        close ← expect semi
        pure (assert_stmt leading (assert_expr e) (to start close.span)))
