-- ===== src/Parser/Progress/Objects.antt =====
-- src/parser.rs: the entries of an object literal take tokens.
use jwc_lang.Prelude.{ℕ, suc, List}
use jwc_lang.Token.{Span}
use jwc_lang.Ast.Tree.{Node, obj_entry, Attached}
use jwc_lang.Parser.Names.{Parsers}
use jwc_lang.Parser.Objects
use jwc_lang.Parser.Progress.{Keeps, Eats, EatsHere, Turns}
use jwc_lang.Parser.Progress.Rules.{Keeps-looping}
use jwc_lang.Parser.Progress.Expect.{before, after, turning, Keeps-after}
use jwc_lang.Parser.Progress.Names.{names, Calls, Eats-expect_ident_or_string_key}

module _ (b : ℕ) where
  EatsHere-parse_spread_entry :
      (at : Attached) (start : Span) → EatsHere (suc b) (Objects.parse_spread_entry at start)
  unfolding Objects.parse_spread_entry
  EatsHere-parse_spread_entry at start = search (before, names) depth 12

  Keeps-parse_key_sign : Keeps b Objects.parse_key_sign
  unfolding Objects.parse_key_sign
  Keeps-parse_key_sign = search after depth 12

module _ (b : ℕ) (self : Parsers) (calls : Calls b self) where
  Eats-parse_field_entry :
      (at : Attached) (start : Span) → Eats (suc b) (Objects.parse_field_entry self at start)
  unfolding Objects.parse_field_entry
  Eats-parse_field_entry at start =
      search (before, after, Eats-expect_ident_or_string_key, Keeps-parse_key_sign) depth 12

  Eats-parse_entry : Eats (suc b) (Objects.parse_entry self)
  unfolding Objects.parse_entry
  Eats-parse_entry =
      search (before, after, EatsHere-parse_spread_entry, Eats-parse_field_entry) depth 12

  Turns-next_entry : (out : List (Node obj_entry)) → Turns (suc b) (Objects.next_entry self out)
  unfolding Objects.next_entry
  Turns-next_entry out = search (turning, before, after, Eats-parse_entry) depth 12

  pub Eats-parse_object_entries : Eats (suc b) (Objects.parse_object_entries self)
  unfolding Objects.parse_object_entries
  Eats-parse_object_entries =
      search (before, after, Keeps-after b, Keeps-looping, Turns-next_entry) depth 12
