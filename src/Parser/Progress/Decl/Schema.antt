-- ===== src/Parser/Progress/Decl/Schema.antt =====
-- src/parser.rs: modules, databases and schemas take tokens.
use jwc_lang.Prelude.{ℕ, suc, List, Bytes}
use jwc_lang.Token.{Span}
use jwc_lang.Ast.Tree.{Attached}
use jwc_lang.Parser.Names.{Parsers}
use jwc_lang.Parser.Progress.{Keeps, Eats, EatsHere, Turns}
use jwc_lang.Parser.Progress.Rules.{Keeps-looping, EatsHere-Eats}
use jwc_lang.Parser.Progress.Expect.{before, after, turning, Keeps-after}
use jwc_lang.Parser.Progress.Names.{names, Calls}
use jwc_lang.Ast.Decl.{Assignment}
use jwc_lang.Token.{r_brace}
use jwc_lang.Parser.Cursor.{at}
use jwc_lang.Parser.Action.{looping}
use jwc_lang.Parser.Decl.Schema
use jwc_lang.Parser.Progress.Rules.{Turns-until}
use jwc_lang.Parser.Progress.Types.{Keeps-parse_parts}

module _ (b : ℕ) where
  Keeps-parse_dotted : Keeps b Schema.parse_dotted
  unfolding Schema.parse_dotted
  Keeps-parse_dotted = search (after, Keeps-parse_parts)

  pub Keeps-parse_qualified_schema : Keeps b Schema.parse_qualified_schema
  unfolding Schema.parse_qualified_schema
  Keeps-parse_qualified_schema = search after depth 12

  Keeps-parse_worded_string : (w : Bytes) → Keeps b (Schema.parse_worded_string w)
  unfolding Schema.parse_worded_string
  Keeps-parse_worded_string w = search after depth 12

  pub Keeps-parse_as_string : Keeps b Schema.parse_as_string
  unfolding Schema.parse_as_string
  Keeps-parse_as_string = Keeps-parse_worded_string _

  pub Keeps-parse_was_string : Keeps b Schema.parse_was_string
  unfolding Schema.parse_was_string
  Keeps-parse_was_string = Keeps-parse_worded_string _

  pub Keeps-parse_message : Keeps b Schema.parse_message
  unfolding Schema.parse_message
  Keeps-parse_message = search after depth 12

  pub Keeps-parse_ident_list : Keeps b Schema.parse_ident_list
  unfolding Schema.parse_ident_list
  Keeps-parse_ident_list = search names

  module _ (leading : Attached) (start : Span) where
    pub EatsHere-parse_namespace : EatsHere (suc b) (Schema.parse_namespace leading start)
    unfolding Schema.parse_namespace
    EatsHere-parse_namespace = search (before, after, Keeps-parse_dotted) depth 12

    pub EatsHere-parse_import : EatsHere (suc b) (Schema.parse_import leading start)
    unfolding Schema.parse_import
    EatsHere-parse_import = search (before, after, Keeps-parse_dotted) depth 12

    pub EatsHere-parse_schema : EatsHere (suc b) (Schema.parse_schema leading start)
    unfolding Schema.parse_schema
    EatsHere-parse_schema = search (before, after, Keeps-parse_as_string) depth 20

module _ (b : ℕ) (self : Parsers) (calls : Calls b self) where
  pub Eats-parse_assignment : Eats (suc b) (Schema.parse_assignment self)
  unfolding Schema.parse_assignment
  Eats-parse_assignment = search (before, after) depth 20

  Turns-next_assignment : (out : List Assignment) → Turns (suc b) (Schema.next_assignment self out)
  unfolding Schema.next_assignment
  Turns-next_assignment out =
      search (turning, Turns-until, before, after, Eats-parse_assignment) depth 12

  pub Keeps-assignments :
      (out : List Assignment) → Keeps b (looping (Schema.next_assignment self) out)
  Keeps-assignments out = search (Keeps-after b, Keeps-looping, Turns-next_assignment)

  Turns-next_init : (out : List Assignment) → Turns (suc b) (Schema.next_init self out)
  unfolding Schema.next_init
  Turns-next_init out =
      Turns-until (suc b) (at r_brace) _ _ (search turning)
        (EatsHere-Eats (suc b) _ (search (before, after, Keeps-assignments) depth 20))

  Keeps-parse_database_body : (s : Span) → Keeps b (Schema.parse_database_body self s)
  unfolding Schema.parse_database_body
  Keeps-parse_database_body s =
      search (after, Keeps-after b, Keeps-looping, Turns-next_init) depth 12

  pub EatsHere-parse_database :
      (leading : Attached) (start : Span)
      → EatsHere (suc b) (Schema.parse_database self leading start)
  unfolding Schema.parse_database
  EatsHere-parse_database leading start = search (before, after, Keeps-parse_database_body) depth 20
