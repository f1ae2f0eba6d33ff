-- ===== src/Parser/Progress/Rules/Sequence.antt =====
-- src/parser.rs: how the kinds of action compose in a sequence and under a condition.
use jwc_lang.Prelude.{ℕ, suc, ◌+◌, ◌≤◌, ◌≡◌, refl, true, arith, Bool-cases, inl, inr}
use jwc_lang.Parser.Action.{Parser, Action, Test, pure, gets, branch, ◌>>=◌}
use jwc_lang.Parser.Progress.{
  WellFormed, Later, Step, Sound, Anywhere, BeforeEof, Keeps, keeps, Eats, eats, EatsHere,
  eats_here, Solid, solid, Later-refl, Later-WellFormed, Later-trans, remaining-Later, Step-from,
  Step-bind,
}

-- Sequence: where both parts are sound, and the grades add up.
pub Sound-bind :
    {A B : Type 0} {P : Parser → Type 0} (b c : ℕ) (g : A → ℕ) (j : ℕ) (h k : B → ℕ) (m : Action A)
    (f : A → Action B)
    → ((a : A) → j ≤ g a)
    → ((x : B) → k x ≤ j + h x)
    → b ≤ j + c
    → Sound g b P m
    → ((a : A) → Sound h c Anywhere (f a))
    → Sound k b P (m >>= f)
Sound-bind b c g j h k m f low sum fit p q s w here r =
    Step-bind g k m f s (m s) refl (p s w here r) λ a s' l.
      let w' : WellFormed s' = Later-WellFormed w l in
      let l' : Later j s s' = Later-trans {k = 0} (omega (arith, low a)) l (Later-refl s' w') in
      Step-from h k (f a s') sum l' (q a s' w' tt (remaining-Later l' (omega (arith, r, fit))))

pub Sound-branch :
    {A : Type 0} {b : ℕ} {P Q : Parser → Type 0} (g : A → ℕ) (t : Test) (m n : Action A)
    → ((s : Parser) → P s → t s ≡ true → Q s)
    → Sound g b Q m
    → Sound g b P n
    → Sound g b P (branch t m n)
unfolding branch
Sound-branch g t m n more p q s w here r = elim (Bool-cases (t s)) [
  | inl taken ↦ rw (Step, branch, taken) (p s w (more s here taken) r)
  | inr left ↦ rw (Step, branch, left) (q s w here r)
]

pub Sound-weaken :
    {A : Type 0} {b : ℕ} {P : Parser → Type 0} (g h : A → ℕ) (m : Action A)
    → ((a : A) → h a ≤ g a)
    → Sound g b P m
    → Sound h b P m
Sound-weaken g h m le p s w here r =
    Step-from {j = 0} g h (m s) (λ a. omega (arith, le a)) (Later-refl s w) (p s w here r)

abbrev pub zero_grade {ℓ} : {A : Type ℓ} → A → ℕ
zero_grade _ = 0

abbrev pub one_grade {ℓ} : {A : Type ℓ} → A → ℕ
one_grade _ = 1

module _ {A : Type 0} (b : ℕ) where
  pub of_Keeps : (m : Action A) → Keeps b m → Sound zero_grade b Anywhere m
  of_Keeps m (keeps p) = p

  pub of_Eats : (m : Action A) → Eats b m → Sound one_grade b Anywhere m
  of_Eats m (eats p) = p

  pub of_EatsHere : (m : Action A) → EatsHere b m → Sound one_grade b BeforeEof m
  of_EatsHere m (eats_here p) = p

  pub Keeps-Eats : (m : Action A) → Eats b m → Keeps b m
  Keeps-Eats m (eats p) = keeps (Sound-weaken one_grade zero_grade m (λ a. omega arith) p)

  pub EatsHere-Eats : (m : Action A) → Eats b m → EatsHere b m
  EatsHere-Eats m (eats p) = eats_here (λ s w here r. p s w tt r)

  pub Keeps-pure : (a : A) → Keeps b (pure a)
  unfolding pure
  Keeps-pure a = keeps (λ s w here r. Later-refl s w)

  pub Keeps-gets : (f : Parser → A) → Keeps b (gets f)
  unfolding gets
  Keeps-gets f = keeps (λ s w here r. Later-refl s w)

  pub Keeps-branch : (t : Test) (m n : Action A) → Keeps b m → Keeps b n → Keeps b (branch t m n)
  Keeps-branch t m n (keeps p) (keeps q) = keeps (Sound-branch zero_grade t m n (λ s h e. h) p q)

  pub Eats-branch : (t : Test) (m n : Action A) → Eats b m → Eats b n → Eats b (branch t m n)
  Eats-branch t m n (eats p) (eats q) = eats (Sound-branch one_grade t m n (λ s h e. h) p q)

  pub Eats-branch_here :
      (t : Test) (m n : Action A) → Solid t → EatsHere b m → Eats b n → Eats b (branch t m n)
  Eats-branch_here t m n (solid u) (eats_here p) (eats q) =
      eats (Sound-branch one_grade t m n (λ s h e. u s e) p q)

  pub Keeps-branch_here :
      (t : Test) (m n : Action A) → Solid t → EatsHere b m → Keeps b n → Keeps b (branch t m n)
  Keeps-branch_here t m n (solid u) (eats_here p) (keeps q) = keeps (
      Sound-branch zero_grade t m n (λ s h e. u s e)
        (Sound-weaken one_grade zero_grade m (λ a. omega arith) p) q)

  pub EatsHere-branch :
      (t : Test) (m n : Action A) → EatsHere b m → EatsHere b n → EatsHere b (branch t m n)
  EatsHere-branch t m n (eats_here p) (eats_here q) =
      eats_here (Sound-branch one_grade t m n (λ s h e. h) p q)

  pub Keeps-less : (c : ℕ) (m : Action A) → b ≤ c → Keeps c m → Keeps b m
  Keeps-less c m le (keeps p) = keeps (λ s w here r. p s w here (omega (arith, r, le)))

  pub Eats-less : (c : ℕ) (m : Action A) → b ≤ c → Eats c m → Eats b m
  Eats-less c m le (eats p) = eats (λ s w here r. p s w here (omega (arith, r, le)))

module _ {A B : Type 0} (b : ℕ) (m : Action A) (f : A → Action B) where
  pub Keeps-bind : Keeps b m → ((a : A) → Keeps b (f a)) → Keeps b (m >>= f)
  Keeps-bind (keeps p) q = keeps (
      Sound-bind b b zero_grade 0 zero_grade zero_grade m f (λ a. omega arith) (λ a. omega arith)
        (omega arith) p (λ a. of_Keeps b (f a) (q a)))

  pub Eats-first : Eats (suc b) m → ((a : A) → Keeps b (f a)) → Eats (suc b) (m >>= f)
  Eats-first (eats p) q = eats (
      Sound-bind (suc b) b one_grade 1 zero_grade one_grade m f (λ a. omega arith)
        (λ a. omega arith) (omega arith) p (λ a. of_Keeps b (f a) (q a)))

  pub Eats-second : Keeps b m → ((a : A) → Eats b (f a)) → Eats b (m >>= f)
  Eats-second (keeps p) q = eats (
      Sound-bind b b zero_grade 0 one_grade one_grade m f (λ a. omega arith) (λ a. omega arith)
        (omega arith) p (λ a. of_Eats b (f a) (q a)))

  pub EatsHere-first : EatsHere (suc b) m → ((a : A) → Keeps b (f a)) → EatsHere (suc b) (m >>= f)
  EatsHere-first (eats_here p) q = eats_here (
      Sound-bind (suc b) b one_grade 1 zero_grade one_grade m f (λ a. omega arith)
        (λ a. omega arith) (omega arith) p (λ a. of_Keeps b (f a) (q a)))

pub EatsHere-bind :
    {A B : Type 0} (b : ℕ) (m : Action A) (f : A → Action B)
    → EatsHere b m
    → ((a : A) → Keeps b (f a))
    → EatsHere b (m >>= f)
EatsHere-bind b m f (eats_here p) q = eats_here (
    Sound-bind b b one_grade 1 zero_grade one_grade m f (λ a. omega arith) (λ a. omega arith)
      (omega arith) p (λ a. of_Keeps b (f a) (q a)))

pub EatsHere-gets :
    {A B : Type 0} (b : ℕ) (g : Parser → A) (f : A → Action B)
    → ((a : A) → EatsHere b (f a))
    → EatsHere b (gets g >>= f)
unfolding gets ◌>>=◌
EatsHere-gets b g f q = eats_here (λ s w here r. of_EatsHere b (f (g s)) (q (g s)) s w here r)
