-- ===== src/Parser/Progress/Rules/Resting.antt =====
-- src/parser.rs: actions that leave the cursor where it is.
use jwc_lang.Prelude.{ℕ, ◌<◌, ◌≡◌, refl, false, arith}
use jwc_lang.Parser.Action.{Parser, Outcome, Action, done, failed, exhausted, ◌>>=◌}
use jwc_lang.Parser.Cursor.{at_eof}
use jwc_lang.Parser.Progress.{
  WellFormed, remaining, Later, Reported, Step, Keeps, keeps, EatsHere, eats_here, Later-WellFormed,
  remaining-Later, Step-from,
}
use jwc_lang.Parser.Progress.Rules.Sequence.{zero_grade, one_grade, of_EatsHere}

-- An action that reports at most, or fails, and so leaves the cursor where it is.
module _ {A : Type 0} where
  abbrev pub InPlace : Parser → Outcome A → Type 0
  InPlace s (done a s') = Later 0 s s' × (at_eof s' ≡ at_eof s)
  InPlace s (failed s') = Reported s s'
  InPlace s exhausted = ⊥

  pub data Stays (m : Action A) : Type 0 where
    stays : ((s : Parser) → WellFormed s → InPlace s (m s)) → Stays m

module _ {A : Type 0} (b : ℕ) where
  Step-InPlace : (s : Parser) (o : Outcome A) → InPlace s o → Step zero_grade s o
  Step-InPlace s (done a s') h = h.0
  Step-InPlace s (failed s') h = h
  Step-InPlace s exhausted h = h

  pub Keeps-Stays : (m : Action A) → Stays m → Keeps b m
  Keeps-Stays m (stays h) = keeps (λ s w here r. Step-InPlace s (m s) (h s w))

module _ {A B : Type 0} (b : ℕ) (m : Action A) (f : A → Action B) where
  Step-Stays :
      (s : Parser) (o : Outcome A)
      → WellFormed s
      → at_eof s ≡ false
      → remaining s < b
      → m s ≡ o
      → InPlace s o
      → ((a : A) → EatsHere b (f a))
      → Step one_grade s ((m >>= f) s)
  unfolding ◌>>=◌
  Step-Stays s (done a s') w here r e (l, same) p =
      let here' : at_eof s' ≡ false = cc in
      rw (Step, ◌>>=◌, e)
        (Step-from one_grade one_grade (f a s') (λ x. omega arith) l
          (of_EatsHere b (f a) (p a) s' (Later-WellFormed w l) here'
            (remaining-Later l (omega (arith, r)))))
  Step-Stays s (failed s') w here r e h p = rw (Step, ◌>>=◌, e) h
  Step-Stays s exhausted w here r e h p = absurd h

  pub EatsHere-Stays : Stays m → ((a : A) → EatsHere b (f a)) → EatsHere b (m >>= f)
  EatsHere-Stays (stays h) p = eats_here (λ s w here r. Step-Stays s (m s) w here r refl (h s w) p)
