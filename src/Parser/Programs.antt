-- ===== src/Parser/Programs.antt =====
-- src/parser.rs: a program as a whole, from the tokens and from the text.
mod Tests
use jwc_lang.Prelude.{
  ℕ, suc, inl, inr, ◌⊎◌, ◌+◌, ◌-◌, ◌<◌, ◌≤◌, ◌≡◌, refl, true, false, Option, none, some, List, [],
  ◌∷◌, ◌++◌, Bytes, length, arith,
}
use jwc_lang.Prelude.Loop.{Flow, again, break}
use jwc_lang.Token.{Tok, u32_mod, ident, l_brace, r_brace, eof}
use jwc_lang.Lexer.Tokenize.{Tokens, tokenize}
use jwc_lang.Lexer.Tokenize.Total.{Finished, tokenize_total}
use jwc_lang.Ast.Decl
use jwc_lang.Ast.Decl.{Program}
use jwc_lang.Parser.Action.{
  Parser, Outcome, Action, done, failed, exhausted, pure, gets, branch, attempt, ◌>>=◌, push_diag,
  looping,
}
use jwc_lang.Parser.Cursor.{at_eof, peek, attached, span, bump, advance, looking, is_eof}
use jwc_lang.Parser.Types.{is_among}
use jwc_lang.Parser.Progress.Decl.Recover.{Keeps-recover_to_decl}
use jwc_lang.Parser.Names.{Parsers}
use jwc_lang.Parser.Recover.{stepping}
use jwc_lang.Parser.Grammar.{parsers, parser_of, with_fuel}
use jwc_lang.Parser.Decl.Recover
use jwc_lang.Parser.Decl.Program
use jwc_lang.Parser.Decl.Program.{Parsed, parse_decl, parse_program, parse_tokens, parse}
use jwc_lang.Parser.Progress.{WellFormed, Later, Step, Keeps}
use jwc_lang.Parser.Progress.Rules.{of_Keeps}
use jwc_lang.Parser.Progress.Unfailing.{
  Post, Always, Unfailing, unfailing, of_Unfailing, Post-bind, Post-branch, AtBreak, Post-looping,
  unfailing_rules,
}
use jwc_lang.Parser.Progress.Decl.Program.{Eats-parse_decl, Keeps-parse_program}
use jwc_lang.Parser.Correct.{
  Ends, Ahead, Tells, Ends-Ahead, Tells-Step, Calls-parsers, with_fuel-Step,
}
use jwc_lang.Parser.Lexed.{parser_of-WellFormed}

Unfailing-recovered_at : (depth : ℕ) (t : Tok) → Unfailing (Recover.recovered_at depth t)
unfolding Recover.recovered_at Recover.step_at Recover.finish_recovery
Unfailing-recovered_at depth eof = search unfailing_rules
Unfailing-recovered_at depth l_brace = search unfailing_rules
Unfailing-recovered_at depth r_brace = search unfailing_rules
Unfailing-recovered_at depth (ident w) = search unfailing_rules
Unfailing-recovered_at depth _ = search unfailing_rules

Unfailing-recover_to_decl : Unfailing Recover.recover_to_decl
unfolding Recover.recover_to_decl Recover.next_recovered
Unfailing-recover_to_decl = search (unfailing_rules, Unfailing-recovered_at)

Unfailing-stepping : {A : Type 0} (m : Action A) → Unfailing m → Unfailing (stepping m)
unfolding stepping
Unfailing-stepping m p = search unfailing_rules depth 12

-- where the loop over declarations has broken off
abbrev AtEnd : {A : Type 0} → A → Parser → Type 0
AtEnd x s = at_eof s ≡ true

module _ (self : Parsers) where
  Unfailing-keep_or_recover :
      (out : List Decl.Decl) (r : Option Decl.Decl) → Unfailing (Program.keep_or_recover self out r)
  unfolding Program.keep_or_recover
  Unfailing-keep_or_recover out (some d) = search unfailing_rules
  Unfailing-keep_or_recover out none = search (unfailing_rules, Unfailing-recover_to_decl)

  Unfailing-one_decl :
      (out : List Decl.Decl)
      → Unfailing (stepping (attempt (parse_decl self) >>= λ r. Program.keep_or_recover self out r))
  Unfailing-one_decl out = search (unfailing_rules, Unfailing-stepping, Unfailing-keep_or_recover)

  Post-next_decl :
      (out : List Decl.Decl) (s : Parser)
      → Post
          (AtBreak {S = List Decl.Decl} {R = List Decl.Decl} AtEnd)
          (Program.next_decl self out s)
  unfolding Program.next_decl pure
  Post-next_decl out s =
      Post-branch (AtBreak AtEnd) at_eof _ _ s (λ e. e)
        (Post-bind Always (AtBreak AtEnd) _ _ s _ refl (of_Unfailing _ (Unfailing-one_decl out) s)
          (λ out' s' h. tt))

  Post-report_trailing :
      (docs : List Bytes) (s : Parser)
      → at_eof s ≡ true
      → Post AtEnd (Program.report_trailing docs s)
  unfolding Program.report_trailing pure gets push_diag ◌>>=◌ at_eof peek
  Post-report_trailing [] s e = e
  Post-report_trailing (_ ∷ _) s e = e

  Post-parse_program : (s : Parser) → Post AtEnd (parse_program self s)
  unfolding parse_program gets pure
  Post-parse_program s =
      Post-bind AtEnd AtEnd _ _ s _ refl
        (Post-looping AtEnd (Program.next_decl self) Post-next_decl [] s)
        λ decls s' e. Post-bind AtEnd AtEnd _ _ s' _ refl e λ trailing s'' e'.
          Post-bind AtEnd AtEnd _ _ s'' _ refl (Post-report_trailing trailing.docs s'' e')
            λ x s''' e''. e''

-- The program that was read, and the parser behind it, which is at the end.
record Whole (o : Outcome Program) (s : Parser) : Type 0 where
  program : Program
  after : Parser
  returned : o ≡ done program after
  later : Later 0 s after
  at_end : at_eof after ≡ true

whole : (s : Parser) (o : Outcome Program) → Step (λ _. 0) s o → Post AtEnd o → Whole o s
whole s (done p s') l e = record { program = p; after = s'; returned = refl; later = l; at_end = e }
whole s (failed s') l e = absurd e
whole s exhausted l e = absurd l

parse_program-Whole : (s : Parser) → WellFormed s → Whole (with_fuel parse_program s) s
unfolding with_fuel
parse_program-Whole s w =
    whole s _
      (of_Keeps _ _ (Keeps-parse_program _ (parsers (length s.toks)) (Calls-parsers _)) s w tt
        (omega arith))
      (Post-parse_program _ s)

-- From a parser whose cursor is at one of its tokens, the last of which is `eof`, the parser of
-- programs returns a program: it never fails, whatever the tokens are, and never uses up a fuel of
-- one call for each token. Its cursor is then at the end, and the tokens, the depth of queries and
-- the number of diagnostics that there were are kept.
pub parse_program_total :
    (s : Parser)
    → WellFormed s
    → (p : Program) × (s' : Parser) × (with_fuel parse_program s ≡ done p s')
      × (at_eof s' ≡ true)
      × (s'.toks ≡ s.toks)
      × (s'.query_depth ≡ s.query_depth)
      × (length s.diags ≤ length s'.diags)
parse_program_total s w =
    let r = parse_program-Whole s w in
    (r.program, r.after, r.returned, r.at_end, r.later.same_toks, r.later.depth, r.later.said)

-- Every text below 4 GiB is parsed: on the tokens of the text, from the first of them, the parser of
-- programs returns a program, with the cursor at the end, and `parse` returns that program, with the
-- diagnostics of the scanner and, behind them, those of this run of the parser.
pub parse_total :
    (text : Bytes)
    → length text + 1 < u32_mod
    → (r : Tokens) × (tokenize text ≡ some r)
      × (p : Program) × (s : Parser) × (with_fuel parse_program (parser_of r.0) ≡ done p s)
      × (s.toks ≡ r.0)
      × (at_eof s ≡ true)
      × (parse text ≡ some (p, r.1 ++ s.diags))
unfolding parse parse_tokens with_fuel Program.with_diags
parse_total text fits =
    let (r, e, f) = tokenize_total text fits in
    let (p, s, done', end', same, depth, said) =
      parse_program_total (parser_of r.0) (parser_of-WellFormed (length text) r f) in
    let parsed : parse_program (parsers (length r.0)) (parser_of r.0) ≡ done p s = done' in
    (r, e, p, s, parsed, same, end', rw (parse, e, parse_tokens, parsed, Program.with_diags) refl)

-- Where a declaration is parsed, from a parser whose cursor is at one of its tokens, the last of
-- which is `eof`, the parser returns. Its cursor is at one of the tokens, not before where it was,
-- and behind it where there is a declaration; and where it fails it has added a diagnostic.
pub declarations_return :
    (s : Parser)
    → WellFormed s
    → Ends (Ahead s) (λ s'. s.i < s'.i) (with_fuel parse_decl s) × Tells s (with_fuel parse_decl s)
declarations_return s w =
    let step = with_fuel-Step parse_decl Eats-parse_decl s w in
    (Ends-Ahead s _ step, Tells-Step s _ step)

-- Where the recovery behind a declaration leaves the cursor: at the end, at a word that starts a
-- declaration, or behind a closing brace.
abbrev pub Restarts : Parser → Type 0
Restarts s =
    (at_eof s ≡ true)
    ⊎ ((w : Bytes) × ((peek s).tok ≡ ident w) × (is_among w Recover.decl_starts ≡ true))
    ⊎ ((s₀ : Parser) × ((peek s₀).tok ≡ r_brace) × (s ≡ advance s₀))

abbrev AtRestart : Unit {0} → Parser → Type 0
AtRestart _ = Restarts

abbrev RoundEnd : Flow ℕ (Unit {0}) → Parser → Type 0
RoundEnd = AtBreak AtRestart

Post-step_at : (depth : ℕ) (s : Parser) → Post RoundEnd (Recover.step_at depth s)
unfolding Recover.step_at bump ◌>>=◌ pure
Post-step_at depth s = tt

Post-recovered_at :
    (depth : ℕ) (t : Tok) (s : Parser)
    → (peek s).tok ≡ t
    → Post RoundEnd (Recover.recovered_at depth t s)
unfolding Recover.recovered_at Recover.finish_recovery pure bump ◌>>=◌ at_eof
Post-recovered_at depth eof s e = inl (rw (at_eof, e) refl)
Post-recovered_at depth l_brace s e = Post-step_at (suc depth) s
Post-recovered_at depth r_brace s e =
    Post-branch RoundEnd _ _ _ s (λ taken. inr (inr (s, e, refl))) (Post-step_at (depth - 1) s)
Post-recovered_at depth (ident w) s e =
    Post-branch RoundEnd _ _ _ s (λ taken. inr (inl (w, e, ground arith))) (Post-step_at depth s)
Post-recovered_at depth _ s e = Post-step_at depth s

Post-next_recovered : (depth : ℕ) (s : Parser) → Post RoundEnd (Recover.next_recovered depth s)
unfolding Recover.next_recovered looking
Post-next_recovered depth s = Post-recovered_at depth (peek s).tok s refl

Post-recover_to_decl : (s : Parser) → Post AtRestart (Recover.recover_to_decl s)
unfolding Recover.recover_to_decl
Post-recover_to_decl s = Post-looping AtRestart Recover.next_recovered Post-next_recovered 0 s

recovered :
    (s : Parser) (o : Outcome (Unit {0}))
    → Step (λ _. 0) s o
    → Post AtRestart o
    → (s' : Parser) × (o ≡ done tt s') × (s.i ≤ s'.i) × (s'.i < length s.toks) × Restarts s'
recovered s (done x s') l h = (s', refl, omega (arith, l.moved), l.inside, h)
recovered s (failed s') l h = absurd h
recovered s exhausted l h = absurd l

-- Behind a declaration that fails, from a parser whose cursor is at one of its tokens, the last of
-- which is `eof`, the recovery returns. It leaves the cursor at one of the tokens, not before where
-- it was: at the end, at a word of the list of those that start a declaration, or where a closing
-- brace has just been taken.
pub recover_to_decl-Restarts :
    (s : Parser)
    → WellFormed s
    → (s' : Parser) × (Recover.recover_to_decl s ≡ done tt s')
      × (s.i ≤ s'.i)
      × (s'.i < length s.toks)
      × Restarts s'
recover_to_decl-Restarts s w =
    recovered s _
      (of_Keeps _ _ (Keeps-recover_to_decl (length s.toks)) s w tt (omega (arith, w.inside)))
      (Post-recover_to_decl s)
