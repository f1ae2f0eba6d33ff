-- ===== src/Parser/Names.antt =====
-- src/parser.rs: the parsers that stand on no other: names, lists of names, and the recursion of
-- the grammar as a record of the parsers that others call back.
use jwc_lang.Prelude.{
  Bool, true, false, Option, none, some, List, [], ◌∷◌, ◌++◌, Bytes, codes, utf8, encode_utf8,
  if◌then◌else◌,
}
use jwc_lang.Prelude.Loop.{Flow, again, break}
use jwc_lang.Token.{
  Tok, Span, to, shown, same_bytes, ident, local, str, l_paren, r_paren, comma, dot,
}
use jwc_lang.Diag.{Diagnostic, error, with_note, with_clause, with_fix}
use jwc_lang.Ast.Tree.{
  Node, Expr, Block, stmt, type_ref, object_shape, Ident, QualifiedTable, NullsOrder, nulls_first,
  nulls_last,
}
use jwc_lang.Parser.Action.{Action, Test, pure, gets, branch, ◌>>=◌, push_diag, looping}
use jwc_lang.Parser.Cursor.{
  bump, at, at_word, span, looking, expect, expect_ident, take_ident, unexpected, refuse_note,
}

-- The recursive calls, each as it is with less fuel.
pub record Parsers : Type 0 where
  pub expr : Action Expr
  pub ternary : Action Expr
  pub not_expr : Action Expr
  pub unary : Action Expr
  pub shape : Action (Node object_shape)
  pub type_of : Action (Node type_ref)
  pub block : Action (Block × Span)
  pub statement : Action (Node stmt)

module _ {A : Type 0} where
  -- `while self.eat(&Tok::Comma) { xs.push(item) }`
  unfoldable pub next_item : Action A → List A → Action (Flow (List A) (List A))
  next_item item xs =
      branch (at comma) (do _ ← bump; x ← item; pure (again (xs ++ x ∷ []))) (pure (break xs))

  unfoldable pub more_items : Action A → List A → Action (List A)
  more_items item xs = looping (next_item item) xs

  -- the first item, then those after commas
  unfoldable pub some_items : Action A → Action (List A)
  some_items item = do x ← item; more_items item (x ∷ [])

  -- `if !self.at(close) { … }`
  unfoldable pub items_before : Tok → Action A → Action (List A)
  items_before close item = branch (at close) (pure []) (some_items item)

-- whether a word or a sign is written, and the span of the one that is
unfoldable pub parse_flag : Test → Span → Action (Bool × Span)
parse_flag t so_far = branch t (do w ← bump; pure (true, w.span)) (pure (false, so_far))

unfoldable pub parse_qualified_table : Action QualifiedTable
parse_qualified_table = do
  database ← expect_ident
  _ ← expect dot
  schema ← expect_ident
  _ ← expect dot
  object ← expect_ident
  pure (record {
    span = to database.span object.span;
    database = database;
    schema = schema;
    object = object;
  })

unfoldable pub parse_ident_list_parens : Action (List Ident)
parse_ident_list_parens = do
  _ ← expect l_paren
  out ← some_items expect_ident
  _ ← expect r_paren
  pure out

-- what follows `nulls`
unfoldable pub nulls_word : Action (Option NullsOrder)
nulls_word =
    branch (at_word (codes "first")) (do _ ← bump; pure (some nulls_first))
      (branch (at_word (codes "last")) (do _ ← bump; pure (some nulls_last)) (pure none))

unfoldable pub parse_nulls_order : Action (Option NullsOrder)
parse_nulls_order = branch (at_word (codes "nulls")) (do _ ← bump; nulls_word) (pure none)

-- `table.text()`
unfoldable pub table_text : QualifiedTable → Bytes
table_text t = t.database.name ++ codes "." ++ t.schema.name ++ codes "." ++ t.object.name

unfoldable pub write_note : Span → Bytes → Bytes → QualifiedTable → Diagnostic
unfolding table_text encode_utf8
write_note keyword_span keyword preposition table =
    let binder = table.object.name in
    with_fix
      (if same_bytes keyword (codes "update")
        then keyword ++ codes " " ++ binder ++ codes " " ++ preposition
        else keyword ++ codes " " ++ binder)
      (with_clause "queries.md §2.4" (
        with_note
          (codes "write `"
            ++ keyword
            ++ codes " "
            ++ binder
            ++ codes " "
            ++ preposition
            ++ codes " "
            ++ table_text table
            ++ codes "`")
          (error "E0907" keyword_span (
            codes "`"
            ++ keyword
            ++ codes " "
            ++ preposition
            ++ utf8 "` — a write names its binding"))))

unfoldable pub unbound_write : Span → Bytes → Bytes → QualifiedTable → Action Ident
unbound_write keyword_span keyword preposition table = do
  _ ← push_diag (write_note keyword_span keyword preposition table)
  pure (record { name = table.object.name; span = keyword_span })

-- `match binder { Some(b) => b, None => self.unbound_write(…) }`
unfoldable pub bound_or : Option Ident → Action Ident → Action Ident
bound_or (some b) other = pure b
bound_or none other = other

unfoldable pub spread_or_refuse : Tok → Action Ident
spread_or_refuse (local n) = take_ident n
spread_or_refuse (ident n) = take_ident n
spread_or_refuse other = do
  here ← gets span
  refuse_note "E0012" here (codes "expected a local after `...`, found " ++ shown other)
      (codes "a spread source is a local with a declared shape") "types.md §9.1"

unfoldable pub parse_spread_source : Action Ident
parse_spread_source = looking spread_or_refuse

unfoldable pub parse_except_list : Action (List Ident)
parse_except_list =
    branch (at_word (codes "except"))
      (do
        _ ← bump
        branch (at l_paren) parse_ident_list_parens (do
          here ← gets span
          refuse_note "E0018" here (codes "`except` takes a parenthesised list")
              (utf8
                "write `...$req except (password)` — the parentheses are what separate the excluded names from the next object entry")
              "types.md §9.1"))
      (pure [])

unfoldable pub key_or_refuse : Tok → Action Ident
key_or_refuse (ident name) = take_ident name
key_or_refuse (str s) = take_ident s
key_or_refuse other = unexpected "E0013" (codes "an object key") other

unfoldable pub expect_ident_or_string_key : Action Ident
expect_ident_or_string_key = looking key_or_refuse
