-- ===== src/Prelude/Bounds.antt =====
-- Where the helpers on bytes stop.
use Prim.Native.Nat.{ℕ, zero, suc, ◌+◌, ◌-◌, ◌≤◌, ◌<◌, max}
use mathlib.Core.Bool.{Bool, true, false}
use mathlib.Core.List.{List, [], ◌∷◌, ◌++◌}
use mathlib.Core.Path.{◌≡◌, refl, ap, ◌∙◌}
use native.Mathlib.Numerals.{unary_clauses}
use native.Mathlib.Omega.{arith}
use jwc_lang.Prelude.Lists.{length, drop}
use jwc_lang.Prelude.Tests.{◌==◌, if◌then◌else◌}
use jwc_lang.Prelude.Text.{Bytes, byte_at, run_length}

abbrev pub All {ℓ κ} : {A : Type ℓ} → (A → Type κ) → List A → Type κ
All P [] = Unit
All P (x ∷ xs) = P x × All P xs

pub All-append {ℓ κ} :
    {A : Type ℓ} (P : A → Type κ) (xs ys : List A) → All P xs → All P ys → All P (xs ++ ys)
All-append P [] ys hx hy = hy
All-append P (x ∷ xs) ys hx hy = (hx.0, All-append P xs ys hx.1 hy)

pub All-front {ℓ κ} : {A : Type ℓ} (P : A → Type κ) (xs ys : List A) → All P (xs ++ ys) → All P xs
All-front P [] ys h = tt
All-front P (x ∷ xs) ys h = (h.0, All-front P xs ys h.1)

pub All-behind {ℓ κ} : {A : Type ℓ} (P : A → Type κ) (xs ys : List A) → All P (xs ++ ys) → All P ys
All-behind P [] ys h = h
All-behind P (x ∷ xs) ys h = All-behind P xs ys h.1

-- To prove a property of a test's result, prove it of each branch.
pub if_rule {ℓ κ} :
    {A : Type ℓ} (P : A → Type κ) (b : Bool) (x y : A)
    → (b ≡ true → P x)
    → (b ≡ false → P y)
    → P (if b then x else y)
if_rule P true x y hx hy = hx refl
if_rule P false x y hx hy = hy refl

pub length-drop {ℓ} : {A : Type ℓ} (n : ℕ) (xs : List A) → length (drop n xs) ≡ length xs - n
length-drop zero xs = omega arith
length-drop (suc n) [] = omega arith
length-drop (suc n) (x ∷ xs) = omega (arith, length-drop n xs)

-- A byte that differs from 0 is inside.
pub byte_at-inside : (cs : Bytes) (i b : ℕ) → 0 < b → (byte_at cs i == b) ≡ true → i < length cs
byte_at-inside [] i b pos h = ground arith
byte_at-inside (c ∷ cs) zero b pos h = omega arith
byte_at-inside (c ∷ cs) (suc i) b pos h = omega (arith, byte_at-inside cs i b pos h)

-- So is one that passes a test that 0 fails.
pub byte_at_test-inside :
    (p : ℕ → Bool) (cs : Bytes) (i : ℕ) → p 0 ≡ false → p (byte_at cs i) ≡ true → i < length cs
byte_at_test-inside p [] i z h = ground arith
byte_at_test-inside p (c ∷ cs) zero z h = omega arith
byte_at_test-inside p (c ∷ cs) (suc i) z h = omega (arith, byte_at_test-inside p cs i z h)

pub run_length-le : (p : ℕ → Bool) (cs : Bytes) → run_length p cs ≤ length cs
unfolding run_length
run_length-le p [] = omega arith
run_length-le p (c ∷ cs) = ground (arith, run_length-le p cs)

-- A run that starts inside the bytes does not leave them.
pub run_bound :
    (p : ℕ → Bool) (i : ℕ) (cs : Bytes) → i + run_length p (drop i cs) ≤ max i (length cs)
run_bound p i cs = omega (arith, run_length-le p (drop i cs), length-drop i cs)

-- A run whose first byte passes is not empty.
pub run_pos :
    (p : ℕ → Bool) (i : ℕ) (cs : Bytes)
    → i < length cs
    → p (byte_at cs i) ≡ true
    → 0 < run_length p (drop i cs)
unfolding run_length
run_pos p i [] lt h = absurd (omega arith)
run_pos p zero (c ∷ cs) lt h = ground arith
run_pos p (suc i) (c ∷ cs) lt h = run_pos p i cs (omega arith) h

suc_plus : (i n : ℕ) → suc i + n ≡ suc (i + n)
suc_plus i n = omega arith

pub byte_at-drop : (i n : ℕ) (cs : Bytes) → byte_at cs (i + n) ≡ byte_at (drop i cs) n
byte_at-drop zero n cs = ap (byte_at cs) (omega arith)
byte_at-drop (suc i) n [] = refl
byte_at-drop (suc i) n (c ∷ cs) = ap (byte_at (c ∷ cs)) (suc_plus i n) ∙ byte_at-drop i n cs

pub drop_add : (i n : ℕ) (cs : Bytes) → drop (i + n) cs ≡ drop n (drop i cs)
drop_add zero n cs = ap (λ k. drop k cs) (omega arith)
drop_add (suc i) zero [] = simp unary_clauses refl
drop_add (suc i) (suc n) [] = simp unary_clauses refl
drop_add (suc i) n (c ∷ cs) = ap (λ k. drop k (c ∷ cs)) (suc_plus i n) ∙ drop_add i n cs

-- The byte at the position, and the one behind it, of the text that is left.
pub first_byte : (i : ℕ) (cs : Bytes) → byte_at cs i ≡ byte_at (drop i cs) 0
first_byte zero cs = refl
first_byte (suc i) [] = refl
first_byte (suc i) (c ∷ cs) = first_byte i cs

pub drop-append : (xs ys : Bytes) → drop (length xs) (xs ++ ys) ≡ ys
drop-append [] ys = refl
drop-append (x ∷ xs) ys = drop-append xs ys

-- The bytes of a text that stands behind another.
pub byte_behind :
    (before x : Bytes) (n : ℕ) → byte_at (before ++ x) (length before + n) ≡ byte_at x n
byte_behind [] x n = ap (byte_at x) (omega arith)
byte_behind (b ∷ before) x n =
    let e : length (b ∷ before) + n ≡ suc (length before + n) = omega arith in
    ap (byte_at (b ∷ (before ++ x))) e ∙ byte_behind before x n

pub first_behind : (before x : Bytes) → byte_at (before ++ x) (length before) ≡ byte_at x 0
first_behind [] x = refl
first_behind (b ∷ before) x = first_behind before x
