-- ===== src/Parser/Progress/Decl/Service.antt =====
-- src/parser.rs: functions and services take tokens.
use jwc_lang.Prelude.{ℕ, suc, List, Bytes}
use jwc_lang.Token.{Span}
use jwc_lang.Ast.Tree.{Attached}
use jwc_lang.Parser.Names.{Parsers}
use jwc_lang.Parser.Progress.{Keeps, EatsHere, Turns}
use jwc_lang.Parser.Progress.Rules.{Keeps-looping}
use jwc_lang.Parser.Progress.Expect.{before, after, turning}
use jwc_lang.Parser.Progress.Names.{Calls}
use jwc_lang.Ast.Decl.{FunctionDecl}
use jwc_lang.Parser.Decl.Service
use jwc_lang.Parser.Progress.{keeps}
use jwc_lang.Parser.Progress.Rules.{EatsHere-bind}
use jwc_lang.Parser.Progress.Tokens.{push-Reported, Solid-at_word}
use jwc_lang.Parser.Action.{push_diag}
use jwc_lang.Parser.Progress.Recover.{EatsHere-stepping}
use jwc_lang.Parser.Progress.Decl.Schema.{Keeps-parse_ident_list}
use jwc_lang.Parser.Progress.Decl.Table.{Keeps-parse_params}
use jwc_lang.Parser.Progress.Decl.Recover.{Keeps-recover_to_decl}

module _ (b : ℕ) where
  Keeps-report_arrow : Keeps b Service.report_arrow
  unfolding Service.report_arrow push_diag
  Keeps-report_arrow = keeps (λ s w here r. (push-Reported _ s w).later)

  pub Keeps-parse_raises : Keeps b Service.parse_raises
  unfolding Service.parse_raises
  Keeps-parse_raises = search (after, Keeps-parse_ident_list) depth 12

  pub Keeps-parse_names_after : (w : Bytes) → Keeps b (Service.parse_names_after w)
  unfolding Service.parse_names_after
  Keeps-parse_names_after w = search (after, Keeps-parse_ident_list) depth 12

  Keeps-refuse_service_member : Keeps b Service.refuse_service_member
  unfolding Service.refuse_service_member
  Keeps-refuse_service_member = search (after, Keeps-recover_to_decl) depth 12

module _ (b : ℕ) (self : Parsers) (calls : Calls b self) where
  Keeps-parse_returns : Keeps b (Service.parse_returns self)
  unfolding Service.parse_returns
  Keeps-parse_returns = search (after, Keeps-report_arrow) depth 12

  pub EatsHere-parse_function :
      (leading : Attached) (start : Span)
      → EatsHere (suc b) (Service.parse_function self leading start)
  unfolding Service.parse_function
  EatsHere-parse_function leading start =
      search (before, after, Keeps-parse_params, Keeps-parse_returns, Keeps-parse_raises) depth 20

  Keeps-parse_function :
      (leading : Attached) (start : Span) → Keeps b (Service.parse_function self leading start)
  unfolding Service.parse_function
  Keeps-parse_function leading start =
      search (after, Keeps-parse_params, Keeps-parse_returns, Keeps-parse_raises) depth 20

  Turns-next_function : (out : List FunctionDecl) → Turns b (Service.next_function self out)
  unfolding Service.next_function
  Turns-next_function out =
      search
        (
          turning, EatsHere-bind, after, EatsHere-stepping, Solid-at_word, Keeps-parse_function,
          Keeps-refuse_service_member,
        )
        depth 20

  pub EatsHere-parse_service :
      (leading : Attached) (start : Span)
      → EatsHere (suc b) (Service.parse_service self leading start)
  unfolding Service.parse_service
  EatsHere-parse_service leading start =
      search (before, after, Keeps-looping, Turns-next_function) depth 20
