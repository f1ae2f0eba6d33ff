-- ===== src/Parser/Decl/Service.antt =====
-- src/parser.rs: functions and services.
use jwc_lang.Prelude.{min, Option, none, some, List, [], ◌∷◌, ◌++◌, Bytes, codes, utf8}
use jwc_lang.Prelude.Loop.{Flow, again, break}
use jwc_lang.Token.{
  Tok, Token, Span, to, same_bytes, shown, ident, local, int, str, l_paren, r_paren, l_brace,
  r_brace, comma, semi, colon, dot, eq, arrow, eof,
}
use jwc_lang.Token
use jwc_lang.Diag.{Diagnostic, error, with_note, with_clause, with_fix}
use jwc_lang.Ast.Tree.{Node, Ident, Attached, type_ref}
use jwc_lang.Ast.Decl.{FunctionDecl, ServiceDecl}
use jwc_lang.Parser.Action.{
  Parser, Action, pure, gets, branch, ◌>>=◌, push_diag, looping, either, attempt,
}
use jwc_lang.Parser.Cursor.{
  peek, bump, at, at_eof, at_word, span, attached, expect, expect_ident, err_note,
}
use jwc_lang.Parser.Names.{Parsers}
use jwc_lang.Parser.Types.{last_end}
use jwc_lang.Parser.Recover.{stepping}
use jwc_lang.Parser.Decl.Schema.{parse_ident_list}
use jwc_lang.Parser.Decl.Table.{parse_params}
use jwc_lang.Parser.Decl.Recover.{recover_to_decl}

unfoldable pub old_arrow : Parser → Diagnostic
old_arrow s =
    let paren_end = (last_end s).stop in
    let here = span s in
    with_fix (codes ":") (
      with_clause "types.md §10.2" (
        with_note (codes "write `: T`, the way a parameter is typed") (
          error "E0906" (Token.new (min paren_end here.start) here.stop)
            (utf8 "`->` — the return annotation is `:`"))))

unfoldable pub report_arrow : Action (Unit {0})
report_arrow s = push_diag (old_arrow s) s

-- `(…)`, behind `raises`
unfoldable pub parse_raises : Action (List Ident)
parse_raises =
    branch (at_word (codes "raises"))
      (do _ ← bump; _ ← expect l_paren; names ← parse_ident_list; _ ← expect r_paren; pure names)
      (pure [])

-- the names behind a word, if it is there
unfoldable pub parse_names_after : Bytes → Action (List Ident)
parse_names_after w = branch (at_word w) (do _ ← bump; parse_ident_list) (pure [])

-- what is not a function ends the loop behind the next declaration's start
unfoldable pub refuse_service_member : Action (Unit {0})
refuse_service_member = do
  here ← gets span
  found ← gets (λ s. (peek s).tok)
  _ ←
      err_note "E0006" here (codes "expected `function`, found " ++ shown found)
        (codes "a service body contains only functions") "types.md §10"
  recover_to_decl

unfoldable pub add_ok : {A : Type 0} → List A → Option A → List A
add_ok out none = out
add_ok out (some x) = out ++ x ∷ []

module _ (self : Parsers) where
  -- `: T`, or the old `-> T`
  unfoldable pub parse_returns : Action (Option (Node type_ref))
  parse_returns =
      branch (at colon) (do _ ← bump; t ← self.type_of; pure (some t))
        (branch (at arrow) (do _ ← report_arrow; _ ← bump; t ← self.type_of; pure (some t))
          (pure none))

  unfoldable pub parse_function : Attached → Span → Action FunctionDecl
  parse_function leading start = do
    _ ← bump
    name ← expect_ident
    params ← parse_params self
    returns ← parse_returns
    raises ← parse_raises
    body ← self.block
    pure (record {
      leading = leading;
      name = name;
      params = params;
      returns = returns;
      raises = raises;
      body = body.0;
      span = to start body.1;
    })

  unfoldable pub next_function :
      List FunctionDecl → Action (Flow (List FunctionDecl) (List FunctionDecl))
  next_function out = branch (either (at r_brace) at_eof) (pure (break out)) (
      branch (at_word (codes "function"))
        (do
          f ← stepping (do
            leading ← gets attached
            start ← gets span
            attempt (parse_function leading start))
          pure (again (add_ok out f)))
        (do _ ← refuse_service_member; pure (break out)))

  unfoldable pub parse_service : Attached → Span → Action ServiceDecl
  parse_service leading start = do
    _ ← bump
    name ← expect_ident
    _ ← expect l_brace
    functions ← looping next_function []
    close ← expect r_brace
    pure (record {
      leading = leading;
      name = name;
      functions = functions;
      span = to start close.span;
    })
