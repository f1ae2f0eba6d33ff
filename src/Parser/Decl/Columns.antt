-- ===== src/Parser/Decl/Columns.antt =====
-- src/parser.rs: the members of a table.
use jwc_lang.Prelude.{true, false, Option, none, some, List, [], ◌∷◌, ◌++◌, Bytes, codes}
use jwc_lang.Prelude.Loop.{Flow, again, break}
use jwc_lang.Token.{Span, to, l_paren, r_paren, comma, semi}
use jwc_lang.Ast.Tree.{Expr, Attached, expr_span}
use jwc_lang.Ast.Decl
use jwc_lang.Ast.Decl.{
  NamespaceDecl, ImportDecl, Assignment, DatabaseDecl, SchemaDecl, QualifiedSchema, RuleCall,
  ColumnModifier, ColumnDef, RefAction, TableConstraint, IndexColumn, IndexDef, TableDecl, EnumDecl,
  ViewDecl, ClassField, ClassDecl, Param, ErrorDecl, FunctionDecl, ServiceDecl, JobDecl, Binder,
  CtxDecl, MiddlewareDecl, RouteDecl, SocketDecl, RoutesDecl, CatchArm, ErrorHandlerDecl, ConstDecl,
  StaticDecl, ServerEntry, ServerDecl, TestDecl, Program,
}
use jwc_lang.Parser.Action.{
  Action, pure, gets, branch, ◌>>=◌, looping, both, either, given, in_query,
}
use jwc_lang.Parser.Cursor.{
  bump, at, at_eof, at_word, word_at, span, eat, eat_word, expect, expect_ident, expect_word,
  expect_string, refuse, refuse_note,
}
use jwc_lang.Parser.Names.{
  Parsers, some_items, items_before, parse_qualified_table, parse_ident_list_parens,
  parse_nulls_order,
}
use jwc_lang.Parser.Decl.Schema.{parse_message}

unfoldable pub parse_set_action : Action RefAction
parse_set_action =
    branch (at_word (codes "null")) (do _ ← bump; pure Decl.set_null)
      (do _ ← expect_word (codes "default"); pure Decl.set_default)

unfoldable pub parse_ref_action : Action RefAction
parse_ref_action =
    branch (at_word (codes "cascade")) (do _ ← bump; pure Decl.cascade)
      (branch (at_word (codes "restrict")) (do _ ← bump; pure Decl.restrict)
        (branch (at_word (codes "no"))
          (do _ ← bump; _ ← expect_word (codes "action"); pure Decl.no_action)
          (branch (at_word (codes "set")) (do _ ← bump; parse_set_action)
            (do
              here ← gets span
              refuse_note "E0004" here (codes "expected a referential action")
                  (codes "one of `cascade`, `restrict`, `no action`, `set null`, `set default`")
                  "schema.md §4.2"))))

-- the actions on delete and on update
abbrev pub Actions : Type 0
Actions = Option RefAction × Option RefAction

-- one `on …`
unfoldable pub next_action : Actions → Action (Flow Actions Actions)
next_action x =
    branch (at_word (codes "on"))
      (do
        _ ← bump
        branch (at_word (codes "delete"))
            (do _ ← bump; a ← parse_ref_action; pure (again (some a, x.1)))
            (branch (at_word (codes "update"))
              (do _ ← bump; a ← parse_ref_action; pure (again (x.0, some a)))
              (do
                here ← gets span
                refuse "E0004" here (codes "expected `delete` or `update` after `on`"))))
      (pure (break x))

unfoldable pub no_actions : Actions
no_actions = (none, none)

module _ (leading : Attached) (start : Span) where
  unfoldable pub parse_pk_constraint : Action TableConstraint
  parse_pk_constraint = do
    _ ← bump
    _ ← bump
    columns ← parse_ident_list_parens
    close ← expect semi
    pure (Decl.primary leading columns (to start close.span))

  unfoldable pub parse_fk_constraint : Action TableConstraint
  parse_fk_constraint = do
    _ ← bump
    _ ← expect_word (codes "key")
    columns ← parse_ident_list_parens
    _ ← expect_word (codes "references")
    target ← parse_qualified_table
    target_columns ← parse_ident_list_parens
    actions ← looping next_action no_actions
    close ← expect semi
    pure (
        Decl.foreign leading columns target target_columns actions.0 actions.1
          (to start close.span))

unfoldable pub parse_index_column : Action IndexColumn
parse_index_column = do
  name ← expect_ident
  desc ←
      branch (at_word (codes "desc")) (do _ ← bump; pure true)
        (do _ ← eat_word (codes "asc"); pure false)
  nulls ← parse_nulls_order
  pure (record { name = name; desc = desc; nulls = nulls })

module _ (self : Parsers) where
  -- `where`, and its expression as part of a query
  unfoldable pub parse_predicate : Action (Option Expr)
  parse_predicate = given (at_word (codes "where")) (do _ ← bump; in_query self.expr)

  module _ (leading : Attached) (start : Span) where
    unfoldable pub parse_uq_constraint : Action TableConstraint
    parse_uq_constraint = do
      _ ← bump
      columns ← parse_ident_list_parens
      predicate ← parse_predicate
      message ← parse_message
      close ← expect semi
      pure (Decl.unique_on leading columns predicate message (to start close.span))

    unfoldable pub parse_check_constraint : Action TableConstraint
    parse_check_constraint = do
      _ ← bump
      _ ← expect l_paren
      e ← in_query self.expr
      _ ← expect r_paren
      message ← parse_message
      close ← expect semi
      pure (Decl.check leading e message (to start close.span))

    unfoldable pub parse_index : Action IndexDef
    parse_index = do
      _ ← bump
      _ ← expect_word (codes "on")
      _ ← expect l_paren
      columns ← some_items parse_index_column
      _ ← expect r_paren
      predicate ← parse_predicate
      method ← given (at_word (codes "using")) (do _ ← bump; expect_ident)
      close ← expect semi
      pure (record {
        leading = leading;
        columns = columns;
        predicate = predicate;
        method = method;
        span = to start close.span;
      })

  -- the arguments of a rule, and the span up to them
  unfoldable pub parse_rule_args : Span → Action (List Expr × Span)
  parse_rule_args so_far =
      branch (at l_paren)
        (do
          _ ← bump
          args ← items_before r_paren self.expr
          close ← expect r_paren
          pure (args, to so_far close.span))
        (pure ([], so_far))

  unfoldable pub parse_rule_call : Action RuleCall
  parse_rule_call = do
    name ← expect_ident
    args ← parse_rule_args name.span
    message ← parse_message
    pure (record { name = name; args = args.0; message = message; span = args.1 })

  -- the word, which is the modifier
  unfoldable pub parse_mark : (Span → ColumnModifier) → Action ColumnModifier
  parse_mark kind = do t ← bump; pure (kind t.span)

  -- an expression as part of a query
  unfoldable pub parse_valued : (Expr → Span → ColumnModifier) → Span → Action ColumnModifier
  parse_valued kind start = do e ← in_query self.expr; pure (kind e (to start (expr_span e)))

  -- the word, and a string
  unfoldable pub parse_spelled : (Bytes → Span → ColumnModifier) → Span → Action ColumnModifier
  parse_spelled kind start = do _ ← bump; s ← expect_string; pure (kind s.0 (to start s.1))

  unfoldable pub parse_column_modifier : Action ColumnModifier
  parse_column_modifier = do
    start ← gets span
    branch (at_word (codes "primary"))
        (do _ ← bump; t ← expect_word (codes "key"); pure (Decl.primary_key (to start t.span)))
        (branch (at_word (codes "identity")) (parse_mark Decl.identity) (
          branch (at_word (codes "private")) (parse_mark Decl.private) (
            branch (at_word (codes "server")) (parse_mark Decl.ColumnModifier.server) (
              branch (at_word (codes "unique"))
                (do _ ← bump; m ← parse_message; pure (Decl.unique m start))
                (branch (at_word (codes "default")) (do _ ← bump; parse_valued Decl.default start)
                  (branch (both (at_word (codes "on")) (word_at 1 (codes "update")))
                    (do _ ← bump; _ ← bump; parse_valued Decl.on_update start)
                    (branch (at_word (codes "as")) (parse_spelled Decl.physical start) (
                      branch (at_word (codes "was")) (parse_spelled Decl.was start)
                        (do r ← parse_rule_call; pure (Decl.rule r))))))))))

  -- one round of the modifiers: a comma if there is one, and a modifier if there is one
  unfoldable pub next_modifier :
      List ColumnModifier → Action (Flow (List ColumnModifier) (List ColumnModifier))
  next_modifier out = do
    _ ← eat comma
    branch (either (at semi) at_eof) (pure (break out))
        (do m ← parse_column_modifier; pure (again (out ++ m ∷ [])))

  unfoldable pub parse_column : Attached → Span → Action ColumnDef
  parse_column leading start = do
    name ← expect_ident
    ty ← self.type_of
    modifiers ← looping next_modifier []
    close ← expect semi
    pure (record {
      leading = leading;
      name = name;
      ty = ty;
      modifiers = modifiers;
      span = to start close.span;
    })
