-- ===== src/Parser/Decl/Middleware.antt =====
-- src/parser.rs: middleware.
use jwc_lang.Prelude.{Option, none, some, List, [], ◌++◌, codes}
use jwc_lang.Prelude.Loop.{Flow, again, break}
use jwc_lang.Token.{Tok, Span, to, shown, local, l_paren, r_paren, l_brace, r_brace, colon}
use jwc_lang.Ast.Tree.{Node, Ident, Attached, Block, stmt, vec}
use jwc_lang.Ast.Decl.{Binder, CtxDecl, MiddlewareDecl}
use jwc_lang.Parser.Action.{Action, pure, gets, branch, ◌>>=◌, looping, both, either, attempt}
use jwc_lang.Parser.Cursor.{
  peek, token_at, bump, at, at_eof, at_word, word_at, next_is, ident_at, at_ident, looking, span,
  attached, eat, eat_word, expect, expect_ident, expect_word, expect_string, err, err_note, refuse,
  refuse_note, unexpected, check_removed_keyword, refuse_removed,
}
use jwc_lang.Parser.Names.{Parsers, some_items, items_before}
use jwc_lang.Parser.Recover.{stepping, keep_or_skip}
use jwc_lang.Ast.Tree.{type_span}
use jwc_lang.Parser.Cursor
use jwc_lang.Parser.Decl.Service.{parse_names_after}

unfoldable pub local_or_refuse : Tok → Action Ident
local_or_refuse (local n) = Cursor.take_ident n
local_or_refuse other = do
  here ← gets span
  refuse_note "E0007" here (codes "expected `@name`, found " ++ shown other)
      (codes "a middleware binder declares a path parameter: `middleware M(@org_id: bigint)`")
      "middleware.md §2"

module _ (self : Parsers) where
  unfoldable pub parse_binder : Action Binder
  parse_binder = do
    name ← looking local_or_refuse
    _ ← expect colon
    ty ← self.type_of
    pure (record { name = name; ty = ty; span = to name.span (type_span ty) })

  unfoldable pub parse_binders : Action (List Binder)
  parse_binders =
      branch (at l_paren)
        (do _ ← bump; out ← items_before r_paren parse_binder; _ ← expect r_paren; pure out)
        (pure [])

  unfoldable pub parse_ctx_decl : Action CtxDecl
  parse_ctx_decl = do
    name ← expect_ident
    _ ← expect colon
    ty ← self.type_of
    pure (record { name = name; ty = ty; span = to name.span (type_span ty) })

  unfoldable pub parse_provides : Action (List CtxDecl)
  parse_provides =
      branch (at_word (codes "provides")) (do _ ← bump; some_items parse_ctx_decl) (pure [])

  -- the statements of a middleware, and its `after`
  unfoldable pub next_middleware_member :
      List (Node stmt) × Option Block
      → Action (Flow (List (Node stmt) × Option Block) (List (Node stmt) × Option Block))
  next_middleware_member x = branch (either (at r_brace) at_eof) (pure (break x)) (
      branch (both (at_word (codes "after")) (next_is 1 l_brace))
        (do _ ← bump; body ← self.block; pure (again (x.0, some body.0)))
        (do
          out ← stepping (do r ← attempt self.statement; keep_or_skip x.0 r)
          pure (again (out, x.1))))

  unfoldable pub parse_middleware : Attached → Span → Action MiddlewareDecl
  parse_middleware leading start = do
    _ ← bump
    name ← expect_ident
    binders ← parse_binders
    requires ← parse_names_after (codes "requires")
    provides ← parse_provides
    _ ← expect l_brace
    x ← looping next_middleware_member ([], none)
    close ← expect r_brace
    pure (record {
      leading = leading;
      name = name;
      binders = binders;
      requires = requires;
      provides = provides;
      body = vec x.0;
      after = x.1;
      span = to start close.span;
    })
