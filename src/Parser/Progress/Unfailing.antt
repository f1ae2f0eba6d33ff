-- ===== src/Parser/Progress/Unfailing.antt =====
-- src/parser.rs: actions that do not fail, and what holds where they return.
use jwc_lang.Prelude.{ℕ, zero, suc, ◌≡◌, refl, true, Bool-cases, inl, inr}
use jwc_lang.Prelude.Loop.{Flow, again, break}
use jwc_lang.Token.{Tok}
use jwc_lang.Diag.{Diagnostic}
use jwc_lang.Parser.Action.{
  Parser, Outcome, Action, Test, done, failed, exhausted, pure, spent, gets, branch, attempt,
  settled, ◌>>=◌, push_diag, rounds, looping,
}
use jwc_lang.Parser.Cursor.{bump, looking, peek}

-- No failure, and `Q` where there is a value.
module _ {A : Type 0} (Q : A → Parser → Type 0) where
  abbrev pub Post : Outcome A → Type 0
  Post (done a s) = Q a s
  Post (failed s) = ⊥
  Post exhausted = Unit

abbrev pub Always {ℓ} : {A : Type ℓ} → A → Parser → Type 0
Always a s = Unit

pub data Unfailing {A : Type 0} (m : Action A) : Type 0 where
  unfailing : ((s : Parser) → Post Always (m s)) → Unfailing m

pub of_Unfailing : {A : Type 0} (m : Action A) → Unfailing m → (s : Parser) → Post Always (m s)
of_Unfailing m (unfailing p) = p

module _ {A B : Type 0} (P : A → Parser → Type 0) (Q : B → Parser → Type 0) where
  pub Post-bind :
      (m : Action A) (f : A → Action B) (s : Parser) (o : Outcome A)
      → m s ≡ o
      → Post P o
      → ((a : A) (s' : Parser) → P a s' → Post Q (f a s'))
      → Post Q ((m >>= f) s)
  unfolding ◌>>=◌
  Post-bind m f s (done a s') e p q = rw (Post, ◌>>=◌, e) (q a s' p)
  Post-bind m f s (failed s') e p q = absurd p
  Post-bind m f s exhausted e p q = rw (Post, ◌>>=◌, e) tt

pub Unfailing-bind :
    {A B : Type 0} (m : Action A) (f : A → Action B)
    → Unfailing m
    → ((a : A) → Unfailing (f a))
    → Unfailing (m >>= f)
Unfailing-bind m f (unfailing p) q =
    unfailing
      λ s. Post-bind Always Always m f s (m s) refl (p s) λ a s' h. of_Unfailing (f a) (q a) s'

module _ {A : Type 0} where
  pub Unfailing-pure : (a : A) → Unfailing (pure a)
  unfolding pure
  Unfailing-pure a = unfailing (λ s. tt)

  pub Unfailing-gets : (f : Parser → A) → Unfailing (gets f)
  unfolding gets
  Unfailing-gets f = unfailing (λ s. tt)

  pub Post-branch :
      (Q : A → Parser → Type 0) (t : Test) (m n : Action A) (s : Parser)
      → (t s ≡ true → Post Q (m s))
      → Post Q (n s)
      → Post Q (branch t m n s)
  unfolding branch
  Post-branch Q t m n s p q = elim (Bool-cases (t s)) [
    | inl taken ↦ rw (Post, branch, taken) (p taken)
    | inr left ↦ rw (Post, branch, left) q
  ]

  pub Unfailing-branch :
      (t : Test) (m n : Action A) → Unfailing m → Unfailing n → Unfailing (branch t m n)
  Unfailing-branch t m n (unfailing p) (unfailing q) =
      unfailing (λ s. Post-branch Always t m n s (λ e. p s) (q s))

  pub Unfailing-looking :
      (k : Tok → Action A) → ((t : Tok) → Unfailing (k t)) → Unfailing (looking k)
  unfolding looking
  Unfailing-looking k p = unfailing (λ s. of_Unfailing (k (peek s).tok) (p (peek s).tok) s)

  Post-settled : (o : Outcome A) → Post Always (settled o)
  unfolding settled
  Post-settled (done a s) = tt
  Post-settled (failed s) = tt
  Post-settled exhausted = tt

  pub Unfailing-attempt : (m : Action A) → Unfailing (attempt m)
  unfolding attempt
  Unfailing-attempt m = unfailing (λ s. Post-settled (m s))

pub Unfailing-bump : Unfailing bump
unfolding bump
Unfailing-bump = unfailing (λ s. tt)

pub Unfailing-push_diag : (d : Diagnostic) → Unfailing (push_diag d)
unfolding push_diag
Unfailing-push_diag d = unfailing (λ s. tt)

-- What a round of a loop leaves, where it breaks.
module _ {S R : Type 0} (Q : R → Parser → Type 0) where
  abbrev pub AtBreak : Flow S R → Parser → Type 0
  AtBreak (again st) s = Unit
  AtBreak (break r) s = Q r s

  module _ (body : S → Action (Flow S R))
      (p : (st : S) (s : Parser) → Post AtBreak (body st s)) where
    Post-rounds : (fuel : ℕ) (st : S) (s : Parser) → Post Q (rounds body fuel st s)
    unfolding rounds pure spent
    Post-rounds zero st s = tt
    Post-rounds (suc fuel) st s =
        Post-bind AtBreak Q (body st) _ s (body st s) refl (p st s)
          elim [ again st' ↦ λ s' h. Post-rounds fuel st' s' | break r ↦ λ s' h. h ]

    pub Post-looping : (st : S) (s : Parser) → Post Q (looping body st s)
    unfolding looping
    Post-looping st s = Post-rounds _ st s

module _ {S R : Type 0} (body : S → Action (Flow S R)) (p : (st : S) → Unfailing (body st)) where
  Post-body : (st : S) (s : Parser) → Post (AtBreak {S = S} {R = R} Always) (body st s)
  Post-body st s = by_outcome (body st s) (of_Unfailing (body st) (p st) s)
    where
      by_outcome :
          (o : Outcome (Flow S R)) → Post Always o → Post (AtBreak {S = S} {R = R} Always) o
      by_outcome (done (again st') s') h = tt
      by_outcome (done (break r) s') h = tt
      by_outcome (failed s') h = h
      by_outcome exhausted h = h

  pub Unfailing-looping : (st : S) → Unfailing (looping body st)
  Unfailing-looping st = unfailing (Post-looping Always body Post-body st)

pub ruleset unfailing_rules = (
  Unfailing-bind, Unfailing-branch, Unfailing-pure, Unfailing-gets, Unfailing-looking,
  Unfailing-attempt, Unfailing-bump, Unfailing-push_diag, Unfailing-looping,
)
