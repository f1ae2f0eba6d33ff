-- ===== src/Parser/Recover.antt =====
-- src/parser.rs: going on behind an error, in a loop over members.
use jwc_lang.Prelude.{Option, none, some, List, [], ◌∷◌, ◌++◌, ◌==◌}
use jwc_lang.Prelude.Loop.{Flow, again, break}
use jwc_lang.Token.{r_brace, semi}
use jwc_lang.Parser.Action.{Action, pure, gets, branch, ◌>>=◌, looping, either, attempt}
use jwc_lang.Parser.Cursor.{bump, at, at_eof}

-- `while !self.at_eof() { … }`: up to a `;`, which is taken, or a `}`, which is not
unfoldable pub next_skipped : Unit {0} → Action (Flow (Unit {0}) (Unit {0}))
next_skipped _ =
    branch (either (at r_brace) at_eof) (pure (break tt))
      (branch (at semi) (do _ ← bump; pure (break tt)) (do _ ← bump; pure (again tt)))

unfoldable pub skip_to_semi_or_rbrace : Action (Unit {0})
skip_to_semi_or_rbrace = looping next_skipped tt

-- `let before = self.i; … if self.i == before { self.bump(); }`
unfoldable pub stepping : {A : Type 0} → Action A → Action A
stepping m = do
  before ← gets (λ s. s.i)
  a ← m
  _ ← branch (λ s. s.i == before) (do _ ← bump; pure tt) (pure tt)
  pure a

-- `Ok(x) => out.push(x), Err(()) => self.skip_to_semi_or_rbrace()`
unfoldable pub keep_or_skip : {A : Type 0} → List A → Option A → Action (List A)
keep_or_skip out (some x) = pure (out ++ x ∷ [])
keep_or_skip out none = do _ ← skip_to_semi_or_rbrace; pure out

-- one round of a loop over members that goes on behind one that fails
unfoldable pub next_member : {A : Type 0} → Action A → List A → Action (Flow (List A) (List A))
next_member item out =
    branch (either (at r_brace) at_eof) (pure (break out))
      (do out' ← stepping (do r ← attempt item; keep_or_skip out r); pure (again out'))
