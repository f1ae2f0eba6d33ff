-- ===== src/Naming/Snake.antt =====
-- src/naming.rs: the laws of `physical`.
use jwc_lang.Naming.{Text, ascii_lower, to_lowercase, starts_word, physical_from, physical}
use jwc_lang.Prelude.{
  ℕ, ◌<◌, Bool, true, false, Option, none, some, [], ◌∷◌, ◌++◌, map, ◌==◌, ◌≡◌, refl, ap, arith,
  if◌then◌else◌, is_upper, All, All-append, ◌∙◌,
}

abbrev pub IsAscii : Text → Type 0
IsAscii = All (λ c. c < 128)

-- no capital
abbrev pub HasNoUpper : Text → Type 0
HasNoUpper = All (λ c. is_upper c ≡ false)

module _ (lower_other : ℕ → Text) where
  lower_of_ascii : (c : ℕ) → c < 128 → to_lowercase lower_other c ≡ ascii_lower c ∷ []
  unfolding to_lowercase
  lower_of_ascii c h = ground arith

  ascii_lower_lem : (c : ℕ) → c < 128 → (ascii_lower c < 128) × (is_upper (ascii_lower c) ≡ false)
  unfolding ascii_lower
  ascii_lower_lem c h = ground arith

  separator_lem :
      (b : Bool) → IsAscii (if b then b'_' ∷ [] else []) × HasNoUpper (if b then b'_' ∷ [] else [])
  separator_lem true = ((omega arith, tt), (refl, tt))
  separator_lem false = (tt, tt)

  physical_from-lower :
      (prev : Option ℕ) (s : Text)
      → IsAscii s
      → IsAscii (physical_from lower_other prev s) × HasNoUpper (physical_from lower_other prev s)
  unfolding physical_from
  physical_from-lower prev [] h = (tt, tt)
  physical_from-lower prev (c ∷ cs) h =
      let (a, u) = separator_lem (starts_word lower_other prev c cs) in
      let (b, v) = ascii_lower_lem c h.0 in
      let (d, w) = physical_from-lower (some c) cs h.1 in
      rw (lower_of_ascii c h.0)
        (All-append (λ c. c < 128) _ _ a (b, d), All-append (λ c. is_upper c ≡ false) _ _ u (v, w))

  no_separator :
      (prev : Option ℕ) (c : ℕ) (cs : Text)
      → is_upper c ≡ false
      → starts_word lower_other prev c cs ≡ false
  no_separator none c cs h = refl
  no_separator (some p) c cs h = rw h

  ascii_lower_same : (c : ℕ) → is_upper c ≡ false → ascii_lower c ≡ c
  unfolding ascii_lower
  ascii_lower_same c h = rw h

  physical_from_same :
      (prev : Option ℕ) (s : Text) → IsAscii s → HasNoUpper s → physical_from lower_other prev s ≡ s
  unfolding physical_from
  physical_from_same prev [] a u = refl
  physical_from_same prev (c ∷ cs) a u =
      rw (no_separator prev c cs u.0, lower_of_ascii c a.0, ascii_lower_same c u.0)
        (ap (◌∷◌ c) (physical_from_same (some c) cs a.1 u.1))

  -- A physical name of ASCII letters holds no capital, and is its own physical name.
  pub physical_idem :
      (s : Text)
      → IsAscii s
      → HasNoUpper (physical lower_other s)
        × (physical lower_other (physical lower_other s) ≡ physical lower_other s)
  unfolding physical
  physical_idem s a =
      let (b, u) = physical_from-lower none s a in (u, physical_from_same none _ b u)

  -- the characters but the underscores
  abbrev pub letters : Text → Text
  letters [] = []
  letters (c ∷ cs) = if c == b'_' then letters cs else c ∷ letters cs

  letters_separator :
      (b : Bool) (s : Text) → letters ((if b then b'_' ∷ [] else []) ++ s) ≡ letters s
  letters_separator true s = refl
  letters_separator false s = refl

  letters-physical_from :
      (prev : Option ℕ) (s : Text)
      → IsAscii s
      → letters (physical_from lower_other prev s) ≡ letters (map ascii_lower s)
  unfolding physical_from
  letters-physical_from prev [] a = refl
  letters-physical_from prev (c ∷ cs) a =
      letters_separator (starts_word lower_other prev c cs) _
      ∙ rw (lower_of_ascii c a.0) (
          ap (λ t. if ascii_lower c == b'_' then t else ascii_lower c ∷ t)
            (letters-physical_from (some c) cs a.1))

  -- But for underscores the physical name is the declared name in lower case.
  pub letters-physical :
      (s : Text) → IsAscii s → letters (physical lower_other s) ≡ letters (map ascii_lower s)
  unfolding physical
  letters-physical s a = letters-physical_from none s a
