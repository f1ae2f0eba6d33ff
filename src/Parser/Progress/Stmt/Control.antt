-- ===== src/Parser/Progress/Stmt/Control.antt =====
-- src/parser.rs: the statements with a word of their own take tokens.
use jwc_lang.Prelude.{ℕ, suc}
use jwc_lang.Token.{Span, Tok}
use jwc_lang.Ast.Tree.{Attached}
use jwc_lang.Parser.Names.{Parsers}
use jwc_lang.Parser.Progress.{Keeps, EatsHere}
use jwc_lang.Parser.Progress.Expect.{before, after}
use jwc_lang.Parser.Progress.Names.{names, Calls}
use jwc_lang.Token.{str}
use jwc_lang.Parser.Action.{◌>>=◌, push_diag, stop}
use jwc_lang.Parser.Stmt.Control
use jwc_lang.Parser.Progress.{keeps}
use jwc_lang.Parser.Progress.Tokens.{push-Reported}
use jwc_lang.Parser.Progress.Expr.Whole.{Keeps-parse_throw_args}

module _ (b : ℕ) where
  Keeps-refuse_binder : Keeps b Control.refuse_binder
  unfolding Control.refuse_binder ◌>>=◌ push_diag stop
  Keeps-refuse_binder = keeps (λ s w here r. push-Reported _ s w)

  Keeps-message_at : (w so_far : Span) (t : Tok) → Keeps b (Control.message_at w so_far t)
  unfolding Control.message_at
  Keeps-message_at w so_far (str s) = search after
  Keeps-message_at w so_far _ = search after

  Keeps-parse_fails_message : (so_far : Span) → Keeps b (Control.parse_fails_message so_far)
  unfolding Control.parse_fails_message
  Keeps-parse_fails_message so_far = search (after, Keeps-message_at) depth 12

  module _ (leading : Attached) (start : Span) where
    pub EatsHere-parse_break : EatsHere (suc b) (Control.parse_break leading start)
    unfolding Control.parse_break
    EatsHere-parse_break = search (before, after) depth 12

    pub EatsHere-parse_continue : EatsHere (suc b) (Control.parse_continue leading start)
    unfolding Control.parse_continue
    EatsHere-parse_continue = search (before, after) depth 12

module _ (b : ℕ) (self : Parsers) (calls : Calls b self) where
  Keeps-parse_argument : Keeps b (Control.parse_argument self)
  unfolding Control.parse_argument
  Keeps-parse_argument = search after depth 12

  Keeps-parse_else : (so_far : Span) → Keeps b (Control.parse_else self so_far)
  unfolding Control.parse_else
  Keeps-parse_else so_far = search after depth 12

  module _ (leading : Attached) (start : Span) where
    pub EatsHere-parse_let : EatsHere (suc b) (Control.parse_let self leading start)
    unfolding Control.parse_let
    EatsHere-parse_let = search (before, after) depth 20

    pub EatsHere-parse_if : EatsHere (suc b) (Control.parse_if self leading start)
    unfolding Control.parse_if
    EatsHere-parse_if = search (before, after, Keeps-parse_else) depth 20

    pub EatsHere-parse_for : EatsHere (suc b) (Control.parse_for self leading start)
    unfolding Control.parse_for
    EatsHere-parse_for = search (before, after, Keeps-refuse_binder) depth 20

    pub EatsHere-parse_while : EatsHere (suc b) (Control.parse_while self leading start)
    unfolding Control.parse_while
    EatsHere-parse_while = search (before, after) depth 20

    pub EatsHere-parse_return : EatsHere (suc b) (Control.parse_return self leading start)
    unfolding Control.parse_return
    EatsHere-parse_return = search (before, after) depth 12

    pub EatsHere-parse_throw : EatsHere (suc b) (Control.parse_throw self leading start)
    unfolding Control.parse_throw
    EatsHere-parse_throw = search (before, after, Keeps-parse_throw_args) depth 12

    pub EatsHere-parse_dispatch : EatsHere (suc b) (Control.parse_dispatch self leading start)
    unfolding Control.parse_dispatch
    EatsHere-parse_dispatch = search (before, names, Keeps-parse_argument) depth 20

    pub EatsHere-parse_transaction : EatsHere (suc b) (Control.parse_transaction self leading start)
    unfolding Control.parse_transaction
    EatsHere-parse_transaction = search (before, after) depth 12

    Keeps-parse_assert_fails : Keeps b (Control.parse_assert_fails self leading start)
    unfolding Control.parse_assert_fails
    Keeps-parse_assert_fails = search (after, Keeps-parse_fails_message) depth 20

    pub EatsHere-parse_assert : EatsHere (suc b) (Control.parse_assert self leading start)
    unfolding Control.parse_assert
    EatsHere-parse_assert = search (before, after, Keeps-parse_assert_fails) depth 12
