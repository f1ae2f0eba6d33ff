-- ===== src/Parser/Progress/Decl/Job.antt =====
-- src/parser.rs: jobs take tokens.
use jwc_lang.Prelude.{ℕ, suc, List, ◌∷◌, Option, none, some, Bytes}
use jwc_lang.Token.{Span, Tok}
use jwc_lang.Ast.Tree.{Ident, Attached}
use jwc_lang.Parser.Names.{Parsers}
use jwc_lang.Parser.Progress.{Keeps, EatsHere, Turns}
use jwc_lang.Parser.Progress.Rules.{Keeps-looping}
use jwc_lang.Parser.Progress.Expect.{before, after, turning, Keeps-after}
use jwc_lang.Parser.Progress.Names.{Calls}
use jwc_lang.Token.{int}
use jwc_lang.Ast.Decl.{Param}
use jwc_lang.Parser.Action.{looping}
use jwc_lang.Parser.Decl.Job
use jwc_lang.Parser.Decl.Job.{Schedule}
use jwc_lang.Parser.Progress.Decl.Table.{Keeps-parse_params}

module _ (b : ℕ) where
  Keeps-in_i64 : (text : Bytes) (n : Option ℕ) (here : Span) → Keeps b (Job.in_i64 text n here)
  unfolding Job.in_i64
  Keeps-in_i64 text none here = search after
  Keeps-in_i64 text (some n) here = search after

  Keeps-int_or_refuse : (t : Tok) → Keeps b (Job.int_or_refuse t)
  unfolding Job.int_or_refuse
  Keeps-int_or_refuse (int text) = search (after, Keeps-in_i64)
  Keeps-int_or_refuse _ = search after

  Keeps-expect_int : Keeps b Job.expect_int
  unfolding Job.expect_int
  Keeps-expect_int = search (after, Keeps-int_or_refuse)

  Keeps-check_retries : (n : ℕ) (here : Span) → Keeps b (Job.check_retries n here)
  unfolding Job.check_retries
  Keeps-check_retries n here = search after

  Keeps-check_duration : (w text : Bytes) (here : Span) → Keeps b (Job.check_duration w text here)
  unfolding Job.check_duration
  Keeps-check_duration w text here = search after

  EatsHere-parse_duration_of : (w : Bytes) → EatsHere (suc b) (Job.parse_duration_of w)
  unfolding Job.parse_duration_of
  EatsHere-parse_duration_of w = search (before, after, Keeps-check_duration) depth 12

  Turns-next_setting : (x : Schedule) → Turns (suc b) (Job.next_setting x)
  unfolding Job.next_setting
  Turns-next_setting x =
      search
        (turning, before, after, Keeps-expect_int, Keeps-check_retries, EatsHere-parse_duration_of)
        depth 20

  Keeps-settings : (x : Schedule) → Keeps b (looping Job.next_setting x)
  Keeps-settings x = search (Keeps-after b, Keeps-looping, Turns-next_setting)

  Keeps-check_every :
      (name : Ident) (every : Option Bytes) (params : List Param)
      → Keeps b (Job.check_every name every params)
  unfolding Job.check_every
  Keeps-check_every name (some d) (p ∷ ps) = search after
  Keeps-check_every name _ _ = search after

module _ (b : ℕ) (self : Parsers) (calls : Calls b self) where
  pub EatsHere-parse_job :
      (leading : Attached) (start : Span) → EatsHere (suc b) (Job.parse_job self leading start)
  unfolding Job.parse_job
  EatsHere-parse_job leading start =
      search (before, after, Keeps-parse_params, Keeps-settings, Keeps-check_every) depth 20
