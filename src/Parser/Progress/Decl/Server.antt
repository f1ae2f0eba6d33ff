-- ===== src/Parser/Progress/Decl/Server.antt =====
-- src/parser.rs: error handlers, mounts, constants, servers and tests take tokens.
use jwc_lang.Prelude.{ℕ, suc, List, Option, none, some, Bytes}
use jwc_lang.Token.{Span, Tok}
use jwc_lang.Ast.Tree.{Attached}
use jwc_lang.Parser.Names.{Parsers}
use jwc_lang.Parser.Progress.{Keeps, Eats, EatsHere, Turns}
use jwc_lang.Parser.Progress.Rules.{Keeps-looping, Keeps-Eats, EatsHere-Eats}
use jwc_lang.Parser.Progress.Expect.{before, after, turning, Keeps-after, Eats-after}
use jwc_lang.Parser.Progress.Names.{Calls}
use jwc_lang.Token.{int}
use jwc_lang.Ast.Decl.{CatchArm, ServerEntry, Assignment}
use jwc_lang.Parser.Action.{looping}
use jwc_lang.Parser.Decl.Schema
use jwc_lang.Parser.Decl.Server
use jwc_lang.Parser.Progress.Rules.{Turns-until, Turns-break, EatsHere-bind, EatsHere-branch}
use jwc_lang.Parser.Progress.Recover.{EatsHere-stepping, Keeps-skip_to_semi_or_rbrace}
use jwc_lang.Parser.Progress.Decl.Schema.{Keeps-assignments, Eats-parse_assignment}
use jwc_lang.Parser.Progress.Decl.Routes.{Keeps-report_found}

module _ (b : ℕ) where
  Keeps-seconds_in :
      (text : Bytes) (n : Option ℕ) (c here : Span) → Keeps b (Server.seconds_in text n c here)
  unfolding Server.seconds_in
  Keeps-seconds_in text (some v) c here = search after
  Keeps-seconds_in text none c here = search after

  Keeps-age_or_refuse : (c : Span) (t : Tok) → Keeps b (Server.age_or_refuse c t)
  unfolding Server.age_or_refuse
  Keeps-age_or_refuse c (int n) = search (after, Keeps-seconds_in)
  Keeps-age_or_refuse c _ = search after

  Keeps-parse_max_age : Keeps b Server.parse_max_age
  unfolding Server.parse_max_age
  Keeps-parse_max_age = search (after, Keeps-age_or_refuse) depth 12

  Keeps-expect_from : Keeps b Server.expect_from
  unfolding Server.expect_from
  Keeps-expect_from = search after depth 12

  pub EatsHere-parse_static :
      (leading : Attached) (start : Span) → EatsHere (suc b) (Server.parse_static leading start)
  unfolding Server.parse_static
  EatsHere-parse_static leading start =
      search (before, after, Keeps-parse_max_age, Keeps-expect_from) depth 20

module _ (b : ℕ) (self : Parsers) (calls : Calls b self) where
  EatsHere-parse_arm : (start : Span) → EatsHere (suc b) (Server.parse_arm self start)
  unfolding Server.parse_arm
  EatsHere-parse_arm start = search (before, after) depth 20

  Turns-next_arm : (arms : List CatchArm) → Turns (suc b) (Server.next_arm self arms)
  unfolding Server.next_arm
  Turns-next_arm arms =
      search (turning, before, after, EatsHere-parse_arm, Keeps-report_found) depth 20

  Keeps-arms : (arms : List CatchArm) → Keeps b (looping (Server.next_arm self) arms)
  Keeps-arms arms = search (Keeps-after b, Keeps-looping, Turns-next_arm)

  module _ (leading : Attached) (start : Span) where
    pub EatsHere-parse_error_handler :
        EatsHere (suc b) (Server.parse_error_handler self leading start)
    unfolding Server.parse_error_handler
    EatsHere-parse_error_handler = search (before, after, Keeps-arms) depth 20

    pub EatsHere-parse_const : EatsHere (suc b) (Server.parse_const self leading start)
    unfolding Server.parse_const
    EatsHere-parse_const = search (before, after) depth 20

    pub EatsHere-parse_test : EatsHere (suc b) (Server.parse_test self leading start)
    unfolding Server.parse_test
    EatsHere-parse_test = search (before, after) depth 20

  Eats-parse_group : Eats (suc b) (Server.parse_group self)
  unfolding Server.parse_group
  Eats-parse_group = search (before, after, Keeps-assignments) depth 20

  Keeps-add_setting :
      (out : List ServerEntry) (a : Option Assignment) → Keeps b (Server.add_setting self out a)
  unfolding Server.add_setting
  Keeps-add_setting out (some a) = search after
  Keeps-add_setting out none = search (after, Keeps-skip_to_semi_or_rbrace)

  Keeps-parse_assignment : Keeps b (Schema.parse_assignment self)
  Keeps-parse_assignment = Keeps-Eats b _ (Eats-after b _ (Eats-parse_assignment b self calls))

  EatsHere-parse_group : EatsHere b (Server.parse_group self)
  EatsHere-parse_group = EatsHere-Eats b _ (Eats-after b _ Eats-parse_group)

  Turns-next_server_entry : (out : List ServerEntry) → Turns b (Server.next_server_entry self out)
  unfolding Server.next_server_entry
  Turns-next_server_entry out =
      search
        (
          Turns-until, Turns-break, EatsHere-branch, EatsHere-parse_group, EatsHere-bind,
          EatsHere-stepping, after, Keeps-parse_assignment, Keeps-add_setting,
        )
        depth 12

  pub EatsHere-parse_server :
      (leading : Attached) (start : Span)
      → EatsHere (suc b) (Server.parse_server self leading start)
  unfolding Server.parse_server
  EatsHere-parse_server leading start =
      search (before, after, Keeps-looping, Turns-next_server_entry) depth 12
