-- ===== src/Parser/Progress/Stmt/Assign.antt =====
-- src/parser.rs: the assignments take tokens.
use jwc_lang.Prelude.{ℕ, suc, true, false, List, refl, ◌≡◌}
use jwc_lang.Token.{Span, Tok}
use jwc_lang.Ast.Tree.{Ident, Attached}
use jwc_lang.Parser.Names.{Parsers}
use jwc_lang.Parser.Progress.{Keeps, EatsHere}
use jwc_lang.Parser.Progress.Expect.{before, after}
use jwc_lang.Parser.Progress.Names.{Calls}
use jwc_lang.Prelude.{zero}
use jwc_lang.Token.{eof}
use jwc_lang.Parser.Cursor.{peek, at_eof, is_eof}
use jwc_lang.Parser.Stmt.Assign
use jwc_lang.Parser.Progress.{Solid, solid}

is_target-is_eof : (t : Tok) → Assign.is_target t ≡ true → is_eof t ≡ false
unfolding Assign.is_target
is_target-is_eof eof h = cc
is_target-is_eof _ h = refl

pub Solid-at_target : Solid Assign.at_target
unfolding Assign.at_target at_eof
Solid-at_target = solid (λ s h. is_target-is_eof (peek s).tok h)

Keeps-take_path : (b n : ℕ) (path : List Ident) → Keeps b (Assign.take_path n path)
unfolding Assign.take_path
Keeps-take_path b zero path = search after
Keeps-take_path b (suc n) path = search (after, Keeps-take_path b n) depth 12

module _ (b : ℕ) (self : Parsers) (calls : Calls b self) (leading : Attached) (start : Span) where
  pub EatsHere-parse_op_assign : EatsHere (suc b) (Assign.parse_op_assign self leading start)
  unfolding Assign.parse_op_assign
  EatsHere-parse_op_assign = search (before, after) depth 12

  pub EatsHere-parse_assign : EatsHere (suc b) (Assign.parse_assign self leading start)
  unfolding Assign.parse_assign
  EatsHere-parse_assign = search (before, after) depth 12

  pub EatsHere-parse_field_assign : EatsHere (suc b) (Assign.parse_field_assign self leading start)
  unfolding Assign.parse_field_assign
  EatsHere-parse_field_assign = search (before, after, Keeps-take_path) depth 12

  pub EatsHere-parse_context_assign :
      EatsHere (suc b) (Assign.parse_context_assign self leading start)
  unfolding Assign.parse_context_assign
  EatsHere-parse_context_assign = search (before, after) depth 12
