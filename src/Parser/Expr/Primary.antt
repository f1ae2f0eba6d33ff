-- ===== src/Parser/Expr/Primary.antt =====
-- src/parser.rs: primary and postfix expressions.
use jwc_lang.Prelude.{true, false, Option, none, List, [], ◌∷◌, ◌++◌, Bytes, codes, ◌==◌}
use jwc_lang.Prelude.Loop.{Flow, again, break}
use jwc_lang.Token.{
  Tok, to, ident, local, int, decimal, str, raw_str, l_paren, r_paren, l_brace, l_bracket,
  r_bracket, comma, colon, dot, question,
}
use jwc_lang.Ast.Tree
use jwc_lang.Ast.Tree.{
  Node, Expr, Ident, expr_kind, expr_at, expr_span, select_span, insert_span, update_span,
  delete_span, vec, opt,
}
use jwc_lang.Parser.Action.{
  Action, Test, pure, gets, branch, ◌>>=◌, looping, both, either, fails, given,
}
use jwc_lang.Parser.Cursor.{
  bump, at, at_word, word_at, next_is, ident_at, looking, span, expect, expect_ident, unexpected,
  refuse_removed,
}
use jwc_lang.Parser.Names.{Parsers, some_items}
use jwc_lang.Parser.Objects.{parse_object_entries}
use jwc_lang.Parser.Query.Select.{parse_select}
use jwc_lang.Parser.Query.Write.{parse_insert, parse_update, parse_delete}

-- `Ident::new(format!("{}?", name.name), name.span)`
unfoldable pub nullable : Ident → Ident
nullable name = record name { name = name.name ++ codes "?" }

-- `.field`, and `?` behind it where no `:` follows
unfoldable pub parse_field : Expr → Action Expr
parse_field e = do
  _ ← bump
  field ← expect_ident
  let whole = to (expr_span e) field.span
  branch (both (at question) (fails (next_is 1 colon)))
      (do q ← bump; pure (expr_at (Tree.field e (nullable field)) (to whole q.span)))
      (pure (expr_at (Tree.field e field) whole))

-- `self.query_depth == 0`
unfoldable pub outside_query : Test
outside_query s = s.query_depth == 0

-- `as Name`
unfoldable pub parse_cast : Expr → Action Expr
parse_cast e = do
  _ ← bump
  ty ← expect_ident
  pure (expr_at (Tree.cast e ty) (to (expr_span e) ty.span))

-- a token that is an expression by itself
unfoldable pub parse_leaf : Node expr_kind → Action Expr
parse_leaf kind = do here ← gets span; _ ← bump; pure (expr_at kind here)

unfoldable pub leaf_at_ident : (Ident → Node expr_kind) → Bytes → Action Expr
leaf_at_ident kind name = do
  here ← gets span
  _ ← bump
  pure (expr_at (kind (record { name = name; span = here })) here)

-- a word that begins no query
unfoldable pub parse_name : Bytes → Action Expr
parse_name w = do _ ← refuse_removed; leaf_at_ident Tree.name w

unfoldable pub at_insert : Test
at_insert =
    both (at_word (codes "insert")) (either (word_at 2 (codes "into")) (word_at 1 (codes "into")))

unfoldable pub at_update : Test
at_update = both (at_word (codes "update")) (either (word_at 2 (codes "of")) (next_is 2 dot))

unfoldable pub at_delete : Test
at_delete =
    both (at_word (codes "delete")) (either (word_at 2 (codes "from")) (word_at 1 (codes "from")))

module _ (self : Parsers) where
  unfoldable pub parse_index : Expr → Action Expr
  parse_index e = do
    _ ← bump
    index ← self.expr
    close ← expect r_bracket
    pure (expr_at (Tree.index e index) (to (expr_span e) close.span))

  -- the arguments, and the filter that can stand behind them
  unfoldable pub parse_call_args : Action (List Expr × Option Expr)
  parse_call_args = branch (at r_paren) (pure ([], none)) (do
    args ← some_items self.expr
    filter ← given (at_word (codes "where")) (do _ ← bump; self.expr)
    pure (args, filter))

  unfoldable pub parse_call : Expr → Action Expr
  parse_call e = do
    _ ← bump
    args ← parse_call_args
    close ← expect r_paren
    pure (expr_at (Tree.call e (vec args.0) (opt args.1)) (to (expr_span e) close.span))

  -- one round of the loop over what stands behind a primary expression
  unfoldable pub next_postfix : Expr → Action (Flow Expr Expr)
  next_postfix e =
      branch (at dot) (do e' ← parse_field e; pure (again e'))
        (branch (at l_paren) (do e' ← parse_call e; pure (again e'))
          (branch (at l_bracket) (do e' ← parse_index e; pure (again e'))
            (branch (both (at_word (codes "as")) (both outside_query (ident_at 1)))
              (do e' ← parse_cast e; pure (again e')) (pure (break e)))))

  -- one round of the loop over the items of an array, behind its first item
  unfoldable pub next_array_item : List Expr → Action (Flow (List Expr) (List Expr))
  next_array_item items =
      branch (at comma)
        (do
          _ ← bump
          branch (at r_bracket) (pure (break items))
              (do item ← self.expr; pure (again (items ++ item ∷ []))))
        (pure (break items))

  unfoldable pub parse_array_items : Action (List Expr)
  parse_array_items =
      branch (at r_bracket) (pure []) (do first ← self.expr; looping next_array_item (first ∷ []))

  unfoldable pub parse_array : Action Expr
  parse_array = do
    start ← gets span
    _ ← bump
    items ← parse_array_items
    close ← expect r_bracket
    pure (expr_at (Tree.array (vec items)) (to start close.span))

  unfoldable pub parse_object : Action Expr
  parse_object = do
    start ← gets span
    entries ← parse_object_entries self
    pure (expr_at (Tree.object (vec entries.0)) (to start entries.1))

  unfoldable pub parse_parens : Action Expr
  parse_parens = do _ ← bump; e ← self.expr; _ ← expect r_paren; pure e

  -- `match w.as_str() { … }`
  unfoldable pub parse_word : Bytes → Action Expr
  parse_word w = branch (at_word (codes "true")) (parse_leaf (Tree.bool true)) (
      branch (at_word (codes "false")) (parse_leaf (Tree.bool false)) (
        branch (at_word (codes "null")) (parse_leaf Tree.null) (
          branch (at_word (codes "select"))
            (do q ← parse_select self; pure (expr_at (Tree.select q) (select_span q)))
            (branch at_insert
              (do q ← parse_insert self; pure (expr_at (Tree.insert q) (insert_span q)))
              (branch at_update
                (do q ← parse_update self; pure (expr_at (Tree.update q) (update_span q)))
                (branch at_delete
                  (do q ← parse_delete self; pure (expr_at (Tree.delete q) (delete_span q)))
                  (parse_name w)))))))

  -- `match self.peek().tok { … }`
  unfoldable pub primary_at : Tok → Action Expr
  primary_at (int n) = parse_leaf (Tree.int n)
  primary_at (decimal n) = parse_leaf (Tree.decimal n)
  primary_at (str s) = parse_leaf (Tree.str s)
  primary_at (raw_str s) = parse_leaf (Tree.raw_str s)
  primary_at (local n) = leaf_at_ident Tree.local n
  primary_at l_brace = parse_object
  primary_at l_bracket = parse_array
  primary_at l_paren = parse_parens
  primary_at (ident w) = parse_word w
  primary_at other = unexpected "E0014" (codes "an expression") other

  unfoldable pub parse_primary : Action Expr
  parse_primary = looking primary_at

  unfoldable pub parse_postfix : Action Expr
  parse_postfix = do e ← parse_primary; looping next_postfix e
