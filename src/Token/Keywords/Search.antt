-- ===== src/Token/Keywords/Search.antt =====
-- src/token.rs: `is_keyword` and the table of keywords.
use jwc_lang.Prelude.{
  ℕ, zero, suc, ◌+◌, ◌-◌, ◌/◌, ◌<◌, ◌≤◌, Bool, true, false, ◌&&◌, List, [], ◌∷◌, ◌≡◌, ◌↔◌, refl, ap,
  sym, ◌∙◌, subst, arith, length, leb, ◌==◌, Bytes, Bool-cases, inl, inr, eq_of_test, and_true,
  leb→lt, leb→le,
}
use jwc_lang.Token.Keywords.{keywords, bytes_lt, word_at, narrow, is_found, is_keyword}
use jwc_lang.Token.{same_bytes}

pub same_bytes_refl : (a : Bytes) → same_bytes a a ≡ true
same_bytes_refl [] = refl
same_bytes_refl (c ∷ a) = ground (arith, same_bytes_refl a)

pub same_bytes-eq : (a b : Bytes) → a ≡ b → same_bytes a b ≡ true
same_bytes-eq a b e = rw e (same_bytes_refl b)

pub eq_of-same_bytes : (a b : Bytes) → same_bytes a b ≡ true → a ≡ b
eq_of-same_bytes [] [] h = refl
eq_of-same_bytes [] (y ∷ b) h = cc
eq_of-same_bytes (x ∷ a) [] h = cc
eq_of-same_bytes (x ∷ a) (y ∷ b) h = ground (arith, eq_of-same_bytes a b)

bytes_lt_irrefl : (a : Bytes) → bytes_lt a a ≡ false
unfolding bytes_lt
bytes_lt_irrefl [] = refl
bytes_lt_irrefl (c ∷ a) = ground (arith, bytes_lt_irrefl a)

bytes_lt_trans : (a b c : Bytes) → bytes_lt a b ≡ true → bytes_lt b c ≡ true → bytes_lt a c ≡ true
unfolding bytes_lt
bytes_lt_trans [] [] c h k = cc
bytes_lt_trans [] (y ∷ b) [] h k = cc
bytes_lt_trans [] (y ∷ b) (z ∷ c) h k = refl
bytes_lt_trans (x ∷ a) [] c h k = cc
bytes_lt_trans (x ∷ a) (y ∷ b) [] h k = cc
bytes_lt_trans (x ∷ a) (y ∷ b) (z ∷ c) h k = ground (arith, bytes_lt_trans a b c)

-- Each word before the next.
abbrev in_order : List Bytes → Bool
in_order [] = true
in_order (w ∷ []) = true
in_order (v ∷ w ∷ ws) = bytes_lt v w && in_order (w ∷ ws)

-- The first word is before every other.
first_before :
    (w : Bytes) (ws : List Bytes) (i : ℕ)
    → in_order (w ∷ ws) ≡ true
    → i < length ws
    → bytes_lt w (word_at ws i) ≡ true
unfolding word_at
first_before w [] i h lt = absurd (omega arith)
first_before w (v ∷ ws) zero h lt = (and_true _ _ h).0
first_before w (v ∷ ws) (suc i) h lt =
    let (here, rest) = and_true (bytes_lt w v) _ h in
    bytes_lt_trans w v (word_at ws i) here (first_before v ws i rest (omega arith))

in_order_rest : (w : Bytes) (ws : List Bytes) → in_order (w ∷ ws) ≡ true → in_order ws ≡ true
in_order_rest w [] h = refl
in_order_rest w (v ∷ ws) h = (and_true _ _ h).1

word_at-before :
    (ws : List Bytes) (i j : ℕ)
    → in_order ws ≡ true
    → i < j
    → j < length ws
    → bytes_lt (word_at ws i) (word_at ws j) ≡ true
unfolding word_at
word_at-before [] i j h lt inside = absurd (omega arith)
word_at-before (w ∷ ws) i zero h lt inside = absurd (omega arith)
word_at-before (w ∷ ws) zero (suc j) h lt inside = first_before w ws j h (omega arith)
word_at-before (w ∷ ws) (suc i) (suc j) h lt inside =
    word_at-before ws i j (in_order_rest w ws h) (omega arith) (omega arith)

module _ (ws : List Bytes) (s : Bytes) where
  -- Where a word stands.
  abbrev pub IsAt : ℕ → Type 0
  IsAt p = (p < length ws) × (word_at ws p ≡ s)

  below_middle :
      (p middle : ℕ)
      → in_order ws ≡ true
      → IsAt p
      → bytes_lt s (word_at ws middle) ≡ true
      → p < middle
  below_middle p middle sorted at h = elim (Bool-cases (leb middle p)) [
    | inr below ↦ ground arith
    | inl le ↦ elim (Bool-cases (middle == p)) [
      | inl same ↦
          let here : word_at ws middle ≡ s = ap (word_at ws) (eq_of_test middle p same) ∙ at.1 in
          let no_way : true ≡ false = sym h ∙ ap (bytes_lt s) here ∙ bytes_lt_irrefl s in cc
      | inr other ↦
          let below = word_at-before ws middle p sorted (ground arith) at.0 in
          let below_s : bytes_lt (word_at ws middle) s ≡ true =
            subst (λ w. bytes_lt (word_at ws middle) w ≡ true) at.1 below in
          let no_way : true ≡ false =
            sym (bytes_lt_trans s (word_at ws middle) s h below_s) ∙ bytes_lt_irrefl s in
          cc
    ]
  ]

  from_middle :
      (p middle : ℕ)
      → in_order ws ≡ true
      → IsAt p
      → middle < length ws
      → bytes_lt s (word_at ws middle) ≡ false
      → middle ≤ p
  from_middle p middle sorted at inside h = elim (Bool-cases (leb middle p)) [
    | inl le ↦ ground arith
    | inr below ↦
        let before = word_at-before ws p middle sorted (ground arith) inside in
        let no_way : true ≡ false =
          sym (subst (λ w. bytes_lt w (word_at ws middle) ≡ true) at.1 before) ∙ h in
        cc
  ]

  narrow-lt :
      (fuel base size : ℕ)
      → 0 < size
      → base + size ≤ length ws
      → narrow ws s fuel base size < length ws
  unfolding narrow
  narrow-lt zero base size pos h = omega arith
  narrow-lt (suc fuel) base size pos h = elim (Bool-cases (leb size 1)) [
    | inl one ↦ rw one (omega arith)
    | inr more ↦
        let half = size / 2 in
        let large = leb→lt size 1 more in
        elim (Bool-cases (bytes_lt s (word_at ws (base + half)))) [
          | inl lower ↦
              rw (more, lower) (narrow-lt fuel base (size - half) (omega arith) (omega arith))
          | inr upper ↦
              rw (more, upper)
                (narrow-lt fuel (base + half) (size - half) (omega arith) (omega arith))
        ]
  ]

  narrow_finds :
      (p fuel base size : ℕ)
      → in_order ws ≡ true
      → IsAt p
      → base ≤ p
      → p < base + size
      → base + size ≤ length ws
      → size ≤ fuel
      → narrow ws s fuel base size ≡ p
  unfolding narrow
  narrow_finds p zero base size sorted at le lt inside enough = absurd (omega arith)
  narrow_finds p (suc fuel) base size sorted at le lt inside enough =
      elim (Bool-cases (leb size 1)) [
        | inl one ↦ let small = leb→le size 1 one in rw one (omega arith)
        | inr more ↦
            let half = size / 2 in
            let large = leb→lt size 1 more in
            elim (Bool-cases (bytes_lt s (word_at ws (base + half)))) [
              | inl lower ↦
                  let under = below_middle p (base + half) sorted at lower in
                  rw (more, lower)
                    (narrow_finds p fuel base (size - half) sorted at (omega arith) (omega arith)
                      (omega arith) (omega arith))
              | inr upper ↦
                  let over = from_middle p (base + half) sorted at (omega arith) upper in
                  rw (more, upper)
                    (narrow_finds p fuel (base + half) (size - half) sorted at (omega arith)
                      (omega arith) (omega arith) (omega arith))
            ]
      ]

-- In a table in order the search finds a word exactly when the word stands in it.
is_found_iff :
    (ws : List Bytes) (s : Bytes)
    → in_order ws ≡ true
    → (is_found ws s ≡ true) ↔ ((p : ℕ) × IsAt ws s p)
unfolding is_found word_at
is_found_iff [] s sorted = (λ h. cc, λ h. absurd (omega (arith, h.1.0)))
is_found_iff (w ∷ ws) s sorted =
    let size = length (w ∷ ws) in
    let place = narrow (w ∷ ws) s size 0 size in
    (
      λ h. (
        place,
        (
          narrow-lt (w ∷ ws) s size 0 size (omega arith) (omega arith),
          eq_of-same_bytes (word_at (w ∷ ws) place) s h,
        ),
      ),
      λ h.
          let found =
            narrow_finds (w ∷ ws) s h.0 size 0 size sorted h.1 (omega arith) (omega (arith, h.1.0))
              (omega arith) (omega arith) in
          ap (λ t. same_bytes t s) (ap (word_at (w ∷ ws)) found ∙ h.1.1) ∙ same_bytes_refl s,
    )

keywords-in_order : in_order keywords ≡ true
unfolding keywords bytes_lt
keywords-in_order = refl

-- A text is a keyword exactly when it stands in the table of keywords.
pub is_keyword_iff : (s : Bytes) → (is_keyword s ≡ true) ↔ ((p : ℕ) × IsAt keywords s p)
unfolding is_keyword
is_keyword_iff s = is_found_iff keywords s keywords-in_order
