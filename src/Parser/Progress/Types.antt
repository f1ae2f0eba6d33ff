-- ===== src/Parser/Progress/Types.antt =====
-- src/parser.rs: the types take tokens.
use jwc_lang.Prelude.{ℕ, suc}
use jwc_lang.Token.{Tok}
use jwc_lang.Ast.Tree.{Ident}
use jwc_lang.Parser.Names.{Parsers}
use jwc_lang.Parser.Progress.{Keeps, Eats, EatsHere, Turns}
use jwc_lang.Parser.Progress.Rules.{Keeps-looping}
use jwc_lang.Parser.Progress.Expect.{before, after, turning, Keeps-after}
use jwc_lang.Parser.Progress.Names.{names, Calls}
use jwc_lang.Token.{int}
use jwc_lang.Ast.Tree.{DottedName}
use jwc_lang.Parser.Types
use jwc_lang.Parser.Types.{Suffixes}

module _ (b : ℕ) where
  Keeps-type_arg_or_refuse : (t : Tok) → Keeps b (Types.type_arg_or_refuse t)
  unfolding Types.type_arg_or_refuse
  Keeps-type_arg_or_refuse (int n) = search after
  Keeps-type_arg_or_refuse _ = search after

  Keeps-parse_type_arg : Keeps b Types.parse_type_arg
  unfolding Types.parse_type_arg
  Keeps-parse_type_arg = search (after, Keeps-type_arg_or_refuse)

  Keeps-parse_type_args : Keeps b Types.parse_type_args
  unfolding Types.parse_type_args
  Keeps-parse_type_args = search (names, Keeps-parse_type_arg) depth 12

  Turns-next_part : (d : DottedName) → Turns (suc b) (Types.next_part d)
  unfolding Types.next_part
  Turns-next_part d = search (turning, before, after) depth 12

  pub Keeps-parse_parts : (i : Ident) → Keeps b (Types.parse_parts i)
  unfolding Types.parse_parts
  Keeps-parse_parts i = search (Keeps-after b, Keeps-looping, Turns-next_part)

  Keeps-parse_named_type : (i : Ident) → Keeps b (Types.parse_named_type i)
  unfolding Types.parse_named_type
  Keeps-parse_named_type i = search (after, Keeps-parse_type_args, Keeps-parse_parts) depth 12

  Turns-next_suffix : (x : Suffixes) → Turns (suc b) (Types.next_suffix x)
  unfolding Types.next_suffix
  Turns-next_suffix x = search (turning, before, names) depth 12

module _ (b : ℕ) (self : Parsers) (calls : Calls b self) where
  Keeps-parse_record_field : Keeps b (Types.parse_record_field self)
  unfolding Types.parse_record_field
  Keeps-parse_record_field = search after depth 12

  EatsHere-parse_record_type : EatsHere (suc b) (Types.parse_record_type self)
  unfolding Types.parse_record_type
  EatsHere-parse_record_type = search (before, names, Keeps-parse_record_field) depth 12

  Eats-parse_type_kind : Eats (suc b) (Types.parse_type_kind self)
  unfolding Types.parse_type_kind
  Eats-parse_type_kind =
      search (before, after, EatsHere-parse_record_type, Keeps-parse_named_type) depth 12

  pub Eats-parse_type : Eats (suc b) (Types.parse_type self)
  unfolding Types.parse_type
  Eats-parse_type =
      search (before, after, Eats-parse_type_kind, Keeps-after b, Keeps-looping, Turns-next_suffix)
        depth 12
