-- ===== src/Parser/Decl/Job.antt =====
-- src/parser.rs: jobs.
use jwc_lang.Prelude.{
  ℕ, ◌^◌, Bool, false, not, ◌&&◌, Option, none, some, List, [], ◌∷◌, ◌++◌, Bytes, codes, ltb, leb,
}
use jwc_lang.Prelude.Loop.{Flow, again, break}
use jwc_lang.Prelude.Assoc.{is_some}
use jwc_lang.Token.{Tok, Span, to, int}
use jwc_lang.Ast.Tree.{Ident, Attached}
use jwc_lang.Ast.Decl.{Param, JobDecl}
use jwc_lang.Parser.Action.{Action, pure, gets, branch, ◌>>=◌, looping, both}
use jwc_lang.Parser.Cursor.{
  bump, at_word, looking, span, expect_ident, expect_string, err_note, refuse, unexpected,
}
use jwc_lang.Parser.Names.{Parsers}
use jwc_lang.Parser.Types.{unsigned_value}
use jwc_lang.Naming.Generated.{decimal}
use jwc_lang.Parser.Decl.Table.{parse_params}
use jwc_lang.Parser.Decl.Duration.{duration_seconds, debug_text}

-- an `Int` token's text as an `i64`, which has no sign there
unfoldable pub in_i64 : Bytes → Option ℕ → Span → Action (ℕ × Span)
in_i64 text none here = refuse "E0001" here (codes "`" ++ text ++ codes "` is not an integer")
in_i64 text (some n) here =
    branch (λ s. ltb n (2 ^ 63)) (pure (n, here))
      (refuse "E0001" here (codes "`" ++ text ++ codes "` is not an integer"))

unfoldable pub int_or_refuse : Tok → Action (ℕ × Span)
int_or_refuse (int text) = do here ← gets span; _ ← bump; in_i64 text (unsigned_value text) here
int_or_refuse other = unexpected "E0001" (codes "an integer") other

unfoldable pub expect_int : Action (ℕ × Span)
expect_int = looking int_or_refuse

unfoldable pub check_retries : ℕ → Span → Action (Unit {0})
check_retries n here =
    branch (λ s. leb 1 n && leb n 100) (pure tt)
      (err_note "E0022" here (codes "`retries " ++ decimal n ++ codes "` is outside 1..=100")
        (codes
          "one attempt is `retries 1`; a job that needs more than a hundred is not failing transiently")
        "jobs.md §1.2")

unfoldable pub is_short : Option ℕ → Bool
is_short none = false
is_short (some secs) = leb 1 secs && leb secs 2592000

unfoldable pub check_duration : Bytes → Bytes → Span → Action (Unit {0})
check_duration w text here =
    branch (λ s. is_short (duration_seconds text)) (pure tt)
      (err_note "E0379" here
        (codes "`"
          ++ w
          ++ codes " "
          ++ debug_text text
          ++ codes "` is not a duration between `\"1s\"` and `\"720h\"`")
        (codes "a duration is a number and a unit: `\"30s\"`, `\"10m\"`, `\"1h\"`") "jobs.md §1.2")

-- what is known of a job before its body
pub record Schedule : Type 0 where
  pub retries : Option ℕ
  pub backoff : Option Bytes
  pub every : Option Bytes

-- a duration behind the word
unfoldable pub parse_duration_of : Bytes → Action Bytes
parse_duration_of w = do _ ← bump; d ← expect_string; _ ← check_duration w d.0 d.1; pure d.0

unfoldable pub next_setting : Schedule → Action (Flow Schedule Schedule)
next_setting x =
    branch (both (at_word (codes "retries")) (λ s. not (is_some x.retries)))
      (do
        _ ← bump
        n ← expect_int
        _ ← check_retries n.0 n.1
        pure (again (record x { retries = some n.0 })))
      (branch (both (at_word (codes "backoff")) (λ s. not (is_some x.backoff)))
        (do d ← parse_duration_of (codes "backoff"); pure (again (record x { backoff = some d })))
        (branch (both (at_word (codes "every")) (λ s. not (is_some x.every)))
          (do d ← parse_duration_of (codes "every"); pure (again (record x { every = some d })))
          (pure (break x))))

unfoldable pub last_param_span : Param → List Param → Span
last_param_span p [] = p.span
last_param_span p (q ∷ qs) = last_param_span q qs

-- a job that runs `every` has no parameters
unfoldable pub check_every : Ident → Option Bytes → List Param → Action (Unit {0})
check_every name (some _) (p ∷ ps) =
    err_note "E0377" (to p.span (last_param_span p ps))
      (codes "`job " ++ name.name ++ codes "` runs `every` and declares parameters")
      (codes
        "a scheduled job has no caller to receive arguments from; read what it needs from the database in the body")
      "jobs.md §1.4"
check_every name _ _ = pure tt

module _ (self : Parsers) where
  unfoldable pub parse_job : Attached → Span → Action JobDecl
  parse_job leading start = do
    _ ← bump
    name ← expect_ident
    params ← parse_params self
    x ← looping next_setting (record { retries = none; backoff = none; every = none })
    _ ← check_every name x.every params
    body ← self.block
    pure (record {
      leading = leading;
      name = name;
      params = params;
      retries = x.retries;
      backoff = x.backoff;
      every = x.every;
      body = body.0;
      span = to start body.1;
    })
