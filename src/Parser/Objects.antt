-- ===== src/Parser/Objects.antt =====
-- src/parser.rs: the entries of an object literal.
use jwc_lang.Prelude.{Bool, true, false, List, [], ◌∷◌, ◌++◌, codes}
use jwc_lang.Prelude.Loop.{Flow, again, break}
use jwc_lang.Token.{Span, to, l_brace, r_brace, comma, colon, eq, dot_dot_dot}
use jwc_lang.Ast.Tree.{Node, obj_entry, entry, spread, Attached, Ident, expr_span}
use jwc_lang.Parser.Action.{Action, pure, gets, branch, ◌>>=◌, looping, either}
use jwc_lang.Parser.Cursor.{bump, at, at_eof, span, attached, expect, refuse}
use jwc_lang.Parser.Names.{
  Parsers, parse_spread_source, parse_except_list, expect_ident_or_string_key,
}

-- `list.last().map(|i| i.span).unwrap_or(other)`
unfoldable pub last_span : List Ident → Span → Span
last_span [] other = other
last_span (i ∷ is) other = last_span is i.span

-- `...source except (…)`, behind the dots
unfoldable pub parse_spread_entry : Attached → Span → Action (Node obj_entry)
parse_spread_entry leading start = do
  _ ← bump
  source ← parse_spread_source
  except ← parse_except_list
  pure (spread leading source except (to start (last_span except source.span)))

-- `:`, or `=`
unfoldable pub parse_key_sign : Action Bool
parse_key_sign =
    branch (at colon) (do _ ← bump; pure false)
      (branch (at eq) (do _ ← bump; pure true)
        (do
          here ← gets span
          refuse "E0013" here (codes "expected `:` or `=` after an object key")))

module _ (self : Parsers) where
  unfoldable pub parse_field_entry : Attached → Span → Action (Node obj_entry)
  parse_field_entry leading start = do
    key ← expect_ident_or_string_key
    assign ← parse_key_sign
    value ← self.expr
    pure (entry leading key value assign (to start (expr_span value)))

  unfoldable pub parse_entry : Action (Node obj_entry)
  parse_entry = do
    leading ← gets attached
    start ← gets span
    branch (at dot_dot_dot) (parse_spread_entry leading start) (parse_field_entry leading start)

  -- one round of the loop over the entries
  unfoldable pub next_entry :
      List (Node obj_entry) → Action (Flow (List (Node obj_entry)) (List (Node obj_entry)))
  next_entry out = branch (either (at r_brace) at_eof) (pure (break out)) (do
    one ← parse_entry
    branch (at comma) (do _ ← bump; pure (again (out ++ one ∷ [])))
        (pure (break (out ++ one ∷ []))))

  unfoldable pub parse_object_entries : Action (List (Node obj_entry) × Span)
  parse_object_entries = do
    _ ← expect l_brace
    out ← looping next_entry []
    close ← expect r_brace
    pure (out, close.span)
