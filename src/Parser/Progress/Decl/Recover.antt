-- ===== src/Parser/Progress/Decl/Recover.antt =====
-- src/parser.rs: what is skipped behind a declaration that fails is skipped token by token.
use jwc_lang.Prelude.{ℕ, suc, false, ◌≡◌}
use jwc_lang.Token.{Tok}
use jwc_lang.Parser.Action.{Action}
use jwc_lang.Parser.Progress.{Keeps, EatsHere, Turns}
use jwc_lang.Parser.Progress.Rules.{Keeps-looping}
use jwc_lang.Parser.Progress.Expect.{before, after, Keeps-after}
use jwc_lang.Prelude.{◌-◌}
use jwc_lang.Prelude.Loop.{Flow}
use jwc_lang.Token.{l_brace, r_brace, ident, eof}
use jwc_lang.Parser.Cursor.{is_eof}
use jwc_lang.Parser.Decl.Recover
use jwc_lang.Parser.Progress.{Sound, BeforeEof, flow_grade, turns}
use jwc_lang.Parser.Progress.Rules.{
  one_grade, Sound-weaken, Sound-branch, flow_grade-le, of_EatsHere, of_Turns, Turns-break,
}
use jwc_lang.Parser.Progress.Tokens.{Sound-looking_here}

module _ (b : ℕ) where
  EatsHere-step_at : (depth : ℕ) → EatsHere (suc b) (Recover.step_at depth)
  unfolding Recover.step_at
  EatsHere-step_at depth = search (before, after)

  Turns-finish_recovery : Turns b Recover.finish_recovery
  unfolding Recover.finish_recovery
  Turns-finish_recovery = Turns-break b tt

  Keeps-finish_recovery : Keeps b Recover.finish_recovery
  unfolding Recover.finish_recovery
  Keeps-finish_recovery = search after

  -- an action that takes a token does not matter whether it goes round again
  Sound-taking :
      (m : Action (Flow ℕ (Unit {0}))) → EatsHere (suc b) m → Sound flow_grade (suc b) BeforeEof m
  Sound-taking m p = Sound-weaken one_grade flow_grade m flow_grade-le (of_EatsHere (suc b) m p)

  Sound-finish_recovery : Sound flow_grade b BeforeEof Recover.finish_recovery
  Sound-finish_recovery s w here r = of_Turns b _ Turns-finish_recovery s w tt r

module _ (b : ℕ) where
  Sound-recovered_at :
      (depth : ℕ) (t : Tok)
      → is_eof t ≡ false
      → Sound flow_grade (suc b) BeforeEof (Recover.recovered_at depth t)
  unfolding Recover.recovered_at
  Sound-recovered_at depth eof h = absurd cc
  Sound-recovered_at depth l_brace h = Sound-taking b _ (EatsHere-step_at b (suc depth))
  Sound-recovered_at depth r_brace h =
      Sound-branch flow_grade _ _ _ (λ s here e. here)
        (Sound-taking b _ (search (before, after, Keeps-finish_recovery)))
        (Sound-taking b _ (EatsHere-step_at b (depth - 1)))
  Sound-recovered_at depth (ident w) h =
      Sound-branch flow_grade _ _ _ (λ s here e. here) (Sound-finish_recovery (suc b))
        (Sound-taking b _ (EatsHere-step_at b depth))
  Sound-recovered_at depth _ h = Sound-taking b _ (EatsHere-step_at b depth)

  Turns-next_recovered : (depth : ℕ) → Turns (suc b) (Recover.next_recovered depth)
  unfolding Recover.next_recovered Recover.recovered_at
  Turns-next_recovered depth = turns (
      Sound-looking_here (suc b) flow_grade (Recover.recovered_at depth)
        (λ t e. Sound-recovered_at depth t e) (of_Turns (suc b) _ (Turns-finish_recovery (suc b))))

  pub Keeps-recover_to_decl : Keeps b Recover.recover_to_decl
  unfolding Recover.recover_to_decl
  Keeps-recover_to_decl = search (Keeps-after b, Keeps-looping, Turns-next_recovered)
