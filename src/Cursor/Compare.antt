-- ===== src/Cursor/Compare.antt =====
-- src/cursor.rs: `constant_time_eq` and equality.
use jwc_lang.Cursor.{xor_bits, or_bits, difference, constant_time_eq}
use jwc_lang.Prelude.{
  ℕ, zero, suc, ◌*◌, ◌/◌, ◌<◌, true, false, [], ◌∷◌, ◌≡◌, ◌↔◌, refl, ap₂, subst, arith, length,
  ◌==◌, Bytes, All, Bool-cases, inl, inr, eq_of_test,
}

-- `2 ^ w`
abbrev limit : ℕ → ℕ
limit zero = 1
limit (suc w) = 2 * limit w

xor_bits_zero : (w x y : ℕ) → x < limit w → y < limit w → xor_bits w x y ≡ 0 → x ≡ y
unfolding xor_bits
xor_bits_zero zero x y hx hy e = omega arith
xor_bits_zero (suc w) x y hx hy e =
    ground (arith, xor_bits_zero w (x / 2) (y / 2) (omega arith) (omega arith))

xor_bits_same : (w x : ℕ) → xor_bits w x x ≡ 0
unfolding xor_bits
xor_bits_same zero x = refl
xor_bits_same (suc w) x = ground (arith, xor_bits_same w (x / 2))

or_bits_zero : (w x y : ℕ) → x < limit w → y < limit w → or_bits w x y ≡ 0 → (x ≡ 0) × (y ≡ 0)
unfolding or_bits
or_bits_zero zero x y hx hy e = omega arith
or_bits_zero (suc w) x y hx hy e =
    ground (arith, or_bits_zero w (x / 2) (y / 2) (omega arith) (omega arith))

xor_bits-lt : (w x y : ℕ) → xor_bits w x y < limit w
unfolding xor_bits
xor_bits-lt zero x y = omega arith
xor_bits-lt (suc w) x y = ground (arith, xor_bits-lt w (x / 2) (y / 2))

or_bits-lt : (w x y : ℕ) → or_bits w x y < limit w
unfolding or_bits
or_bits-lt zero x y = omega arith
or_bits-lt (suc w) x y = ground (arith, or_bits-lt w (x / 2) (y / 2))

or_bits_of_zero : (w : ℕ) → or_bits w 0 0 ≡ 0
unfolding or_bits
or_bits_of_zero zero = refl
or_bits_of_zero (suc w) = omega (arith, or_bits_of_zero w)

abbrev pub IsByte : ℕ → Type 0
IsByte c = c < 256

difference_zero :
    (diff : ℕ) (a b : Bytes)
    → IsByte diff
    → All IsByte a
    → All IsByte b
    → length a ≡ length b
    → difference diff a b ≡ 0
    → (diff ≡ 0) × (a ≡ b)
unfolding difference
difference_zero diff [] [] hd ha hb same e = (e, refl)
difference_zero diff [] (y ∷ b) hd ha hb same e = absurd (omega arith)
difference_zero diff (x ∷ a) [] hd ha hb same e = absurd (omega arith)
difference_zero diff (x ∷ a) (y ∷ b) hd ha hb same e =
    let z = xor_bits 8 x y in
    let (joined, rest) =
      difference_zero (or_bits 8 diff z) a b (or_bits-lt 8 diff z) ha.1 hb.1 (omega arith) e in
    let (before, here) = or_bits_zero 8 diff z hd (xor_bits-lt 8 x y) joined in
    (before, ap₂ ◌∷◌ (xor_bits_zero 8 x y ha.0 hb.0 here) rest)

difference_same : (a : Bytes) → difference 0 a a ≡ 0
unfolding difference
difference_same [] = refl
difference_same (x ∷ a) = rw (xor_bits_same 8 x, or_bits_of_zero 8) (difference_same a)

eq_self : (n : ℕ) → (n == n) ≡ true
eq_self n = ground arith

pub constant_time_eq_refl : (a : Bytes) → constant_time_eq a a ≡ true
unfolding constant_time_eq
constant_time_eq_refl a = rw (eq_self (length a), difference_same a) refl

-- Two byte strings compare as equal exactly when they are.
pub constant_time_eq_iff :
    (a b : Bytes) → All IsByte a → All IsByte b → (constant_time_eq a b ≡ true) ↔ (a ≡ b)
unfolding constant_time_eq
constant_time_eq_iff a b ha hb = (
  λ h. elim (Bool-cases (length a == length b)) [
    | inl same ↦
        (difference_zero 0 a b (omega arith) ha hb (eq_of_test _ _ same)
          (eq_of_test _ 0 (rw same at h))).1
    | inr other ↦ let no : false ≡ true = rw other at h in cc
  ],
  λ e. subst (λ t. constant_time_eq a t ≡ true) e (constant_time_eq_refl a),
)
