-- ===== src/Prelude/Text/Trim.antt =====
-- What `str::trim` keeps, and that trimming twice is trimming once.
use Prim.Native.Nat.{ℕ, zero, suc, ◌+◌, ◌≤◌}
use mathlib.Core.Logic.{◌⊎◌, inl, inr}
use mathlib.Core.Path.{◌≡◌, refl, sym, ap, ◌∙◌}
use native.Mathlib.Omega.{arith}
use jwc_lang.Prelude.Lists.{length, drop}
use mathlib.Core.List.{
  [], ◌∷◌, ◌++◌, append_assoc, reverse, reverse-append, reverse-reverse, reverse_aux,
}
use jwc_lang.Prelude.Bounds.{All, All-front, All-behind, length-drop}
use jwc_lang.Prelude.Text.{Bytes, trim, drop_white, white_length, white_length_back}

ℕ-cases : (n : ℕ) → (n ≡ 0) ⊎ ((m : ℕ) × (n ≡ suc m))
ℕ-cases zero = inl refl
ℕ-cases (suc m) = inr (m, refl)

take_drop_split : (n : ℕ) (s : Bytes) → (p : Bytes) × (s ≡ p ++ drop n s)
take_drop_split zero s = ([], refl)
take_drop_split (suc n) [] = ([], refl)
take_drop_split (suc n) (c ∷ s) = let (p, e) = take_drop_split n s in (c ∷ p, cc)

module _ (len : Bytes → ℕ) where
  drop_white-suffix : (fuel : ℕ) (s : Bytes) → (p : Bytes) × (s ≡ p ++ drop_white len fuel s)
  unfolding drop_white
  drop_white-suffix zero s = ([], refl)
  drop_white-suffix (suc fuel) s = elim (ℕ-cases (len s)) [
    | inl e ↦ ([], rw (drop_white, e) refl)
    | inr (n, e) ↦
        let (p, front) = take_drop_split (suc n) s in
        let (q, behind) = drop_white-suffix fuel (drop (suc n) s) in
        (p ++ q, rw (drop_white, e) (front ∙ ap (λ t. p ++ t) behind ∙ sym (append_assoc p q _)))
  ]

  drop_white-fixed : (fuel : ℕ) (s : Bytes) → len s ≡ 0 → drop_white len fuel s ≡ s
  unfolding drop_white
  drop_white-fixed zero s e = refl
  drop_white-fixed (suc fuel) s e = rw (drop_white, e) refl

  len-drop_white :
      (fuel : ℕ) (s : Bytes) → len [] ≡ 0 → length s ≤ fuel → len (drop_white len fuel s) ≡ 0
  unfolding drop_white
  len-drop_white zero [] e h = e
  len-drop_white zero (c ∷ s) e h = absurd (omega (arith, h))
  len-drop_white (suc fuel) s e h = elim (ℕ-cases (len s)) [
    | inl z ↦ rw (drop_white, z) z
    | inr (n, z) ↦
        rw (drop_white, z)
          (len-drop_white fuel (drop (suc n) s) e (omega (arith, h, length-drop (suc n) s)))
  ]

white_length-prefix : (x y : Bytes) → white_length (x ++ y) ≡ 0 → white_length x ≡ 0
unfolding white_length
white_length-prefix [] y h = refl
white_length-prefix (a ∷ []) [] h = h
white_length-prefix (a ∷ []) (b ∷ []) h = omega (arith, h)
white_length-prefix (a ∷ []) (b ∷ c ∷ y) h = omega (arith, h)
white_length-prefix (a ∷ b ∷ []) [] h = h
white_length-prefix (a ∷ b ∷ []) (c ∷ y) h = omega (arith, h)
white_length-prefix (a ∷ b ∷ c ∷ x) y h = h

length-reverse_aux : (xs ys : Bytes) → length (reverse_aux xs ys) ≡ length xs + length ys
length-reverse_aux [] ys = omega arith
length-reverse_aux (x ∷ xs) ys = omega (arith, length-reverse_aux xs (x ∷ ys))

-- The text is what is trimmed at the front, the trimmed text, and what is trimmed behind it.
record Trimmed (s : Bytes) : Type 0 where
  front : Bytes
  behind : Bytes
  whole : s ≡ front ++ (trim s ++ behind)
  no_front : white_length (trim s) ≡ 0
  no_behind : white_length_back (reverse (trim s)) ≡ 0

trim-Trimmed : (s : Bytes) → Trimmed s
unfolding trim white_length white_length_back
trim-Trimmed s =
    let front = drop_white white_length (length s) s in
    let back = drop_white white_length_back (length front) (reverse front) in
    let (p, e) = drop_white-suffix white_length (length s) s in
    let (q, e') = drop_white-suffix white_length_back (length front) (reverse front) in
    let turned : front ≡ reverse back ++ reverse q =
      sym (reverse-reverse front) ∙ ap reverse e' ∙ reverse-append q back in
    record {
      front = p;
      behind = reverse q;
      whole = e ∙ ap (λ t. p ++ t) turned;
      no_front =
          white_length-prefix (reverse back) (reverse q)
            (rw turned at (len-drop_white white_length (length s) s refl (omega arith)));
      no_behind = rw (reverse-reverse back) (
          len-drop_white white_length_back (length front) (reverse front) refl
            (omega (arith, length-reverse_aux front [])));
    }

pub trim_idem : (s : Bytes) → trim (trim s) ≡ trim s
unfolding trim white_length white_length_back
trim_idem s =
    let t = trim-Trimmed s in
    let ahead = drop_white-fixed white_length (length (trim s)) (trim s) t.no_front in
    let back =
      drop_white-fixed white_length_back (length (trim s)) (reverse (trim s)) t.no_behind in
    ap (λ f. reverse (drop_white white_length_back (length f) (reverse f))) ahead
    ∙ ap reverse back
    ∙ reverse-reverse (trim s)

pub trim-All {κ} : (P : ℕ → Type κ) (s : Bytes) → All P s → All P (trim s)
trim-All P s h =
    let t = trim-Trimmed s in
    All-front P (trim s) t.behind (All-behind P t.front (trim s ++ t.behind) (rw t.whole at h))
