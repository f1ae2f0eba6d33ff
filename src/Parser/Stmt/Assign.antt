-- ===== src/Parser/Stmt/Assign.antt =====
-- src/parser.rs, `parse_stmt`: the forms of assignment.
use jwc_lang.Prelude.{
  ℕ, zero, suc, ◌+◌, ◌*◌, Bool, true, false, not, ◌&&◌, List, [], ◌∷◌, ◌++◌, Bytes, drop,
  if◌then◌else◌, ◌==◌,
}
use jwc_lang.Token.{Tok, Token, Span, to, ident, local, op_assign, dot, eq, semi}
use jwc_lang.Ast.{BinOp}
use jwc_lang.Ast
use jwc_lang.Ast.Tree
use jwc_lang.Ast.Tree.{
  Node, Expr, Ident, Attached, stmt, assign, local_target, context_target, field_target, expr_at,
}
use jwc_lang.Parser.Action.{Parser, Action, Test, pure, gets, ◌>>=◌}
use jwc_lang.Parser.Cursor.{peek, peek_at, bump, next_is, expect, expect_ident, same_tok}
use jwc_lang.Parser.Names.{Parsers}

-- `if let Tok::Local(name) | Tok::Ident(name) = self.peek().tok`
unfoldable pub is_target : Tok → Bool
is_target (local _) = true
is_target (ident _) = true
is_target _ = false

unfoldable pub at_target : Test
unfolding peek is_target
at_target s = is_target (peek s).tok

unfoldable pub target_name : Parser → Bytes
unfolding peek
target_name s = elim (peek s).tok [ local n ↦ n | ident n ↦ n | _ ↦ [] ]

unfoldable pub target_sigil : Parser → Bool
unfolding peek
target_sigil s = elim (peek s).tok [ local _ ↦ true | _ ↦ false ]

-- `if let Tok::OpAssign(op) = self.peek_at(1).tok`
unfoldable pub at_op_assign : Test
unfolding peek_at
at_op_assign s = elim (peek_at s 1).tok [ op_assign _ ↦ true | _ ↦ false ]

unfoldable pub assign_op : Parser → BinOp
unfolding peek_at
assign_op s = elim (peek_at s 1).tok [
  | op_assign c ↦
      if c == b'+'
      then Ast.add
      else if c == b'-'
      then Ast.sub
      else if c == b'*'
      then Ast.mul
      else Ast.div
  | _ ↦ Ast.div
]

-- how many `.name` pairs the tokens begin with
unfoldable pub path_run : List Token → ℕ
unfolding same_tok
path_run [] = 0
path_run (t ∷ []) = 0
path_run (t ∷ u ∷ ts) =
    let rest = path_run ts in
    if same_tok t.tok dot && elim u.tok [ ident _ ↦ true | _ ↦ false ] then suc rest else 0

-- `path_len`
unfoldable pub path_len : Parser → ℕ
unfolding path_run
path_len s = path_run (drop (s.i + 1) s.toks)

-- `path_len > 0 && self.peek_at(k).is(&Tok::Eq)`
unfoldable pub at_field_assign : Test
unfolding path_len next_is
at_field_assign s = not (path_len s == 0) && next_is (1 + 2 * path_len s) eq s

-- `for _ in 0..path_len { … }`
unfoldable pub take_path : ℕ → List Ident → Action (List Ident)
take_path zero path = pure path
take_path (suc n) path = do _ ← expect dot; p ← expect_ident; take_path n (path ++ p ∷ [])

unfoldable pub current_ident : Bytes → Span → Ident
current_ident name span = record { name = name; span = span }

unfoldable pub current_value : Ident → Bool → Expr
current_value name sigil = expr_at (if sigil then Tree.local name else Tree.name name) name.span

module _ (self : Parsers) (leading : Attached) (start : Span) where
  -- `x += …`, which is `x = x + …`
  unfoldable pub parse_op_assign : Action (Node stmt)
  parse_op_assign = do
    name ← gets target_name
    sigil ← gets target_sigil
    op ← gets assign_op
    first ← bump
    _ ← bump
    rhs ← self.expr
    close ← expect semi
    let whole = to start close.span
    let target = current_ident name first.span
    pure (
        assign leading (local_target target sigil)
          (expr_at (Tree.binary op (current_value target sigil) rhs) whole) whole)

  unfoldable pub parse_assign : Action (Node stmt)
  parse_assign = do
    name ← gets target_name
    sigil ← gets target_sigil
    first ← bump
    _ ← bump
    value ← self.expr
    close ← expect semi
    pure (
        assign leading (local_target (current_ident name first.span) sigil) value
          (to start close.span))

  unfoldable pub parse_field_assign : Action (Node stmt)
  parse_field_assign = do
    name ← gets target_name
    sigil ← gets target_sigil
    n ← gets path_len
    first ← bump
    path ← take_path n []
    _ ← expect eq
    value ← self.expr
    close ← expect semi
    pure (
        assign leading (field_target (current_ident name first.span) sigil path) value
          (to start close.span))

  unfoldable pub parse_context_assign : Action (Node stmt)
  parse_context_assign = do
    _ ← bump
    _ ← bump
    key ← expect_ident
    _ ← expect eq
    value ← self.expr
    close ← expect semi
    pure (assign leading (context_target key) value (to start close.span))
