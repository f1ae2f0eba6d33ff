-- ===== src/Routing/Fit.antt =====
-- src/serve.rs: when the segments of a route fit the parts of a path.
use jwc_lang.Prelude.{
  ℕ, suc, ◌+◌, ◌≡◌, ◌⊎◌, inl, inr, refl, none, some, List, [], ◌∷◌, ◌++◌, Bytes, length, arith,
  Bool-cases,
}
use mathlib.Core.List.{append_assoc, append-nil}
use jwc_lang.Token.{same_bytes}
use jwc_lang.Token.Keywords.Search.{same_bytes-eq, eq_of-same_bytes}
use jwc_lang.Routing.Path.{Segment, literal, param}
use jwc_lang.Routing.{ResolvedRoute}
use jwc_lang.Routing.Match.{Binds, match_segments}

-- A path fits when each literal is its part.
abbrev pub Fits : List Segment → List Bytes → Type 0
Fits [] [] = Unit
Fits (literal l ∷ ss) (p ∷ ps) = (l ≡ p) × Fits ss ps
Fits (param _ _ ∷ ss) (p ∷ ps) = Fits ss ps
Fits _ _ = ⊥

abbrev pub literal_count : List Segment → ℕ
literal_count [] = 0
literal_count (literal _ ∷ ss) = suc (literal_count ss)
literal_count (param _ _ ∷ ss) = literal_count ss

-- each parameter's name with its part
abbrev pub bindings : List Segment → List Bytes → Binds
bindings (literal _ ∷ ss) (p ∷ ps) = bindings ss ps
bindings (param name _ ∷ ss) (p ∷ ps) = (name, p) ∷ bindings ss ps
bindings _ _ = []

abbrev pub Suits : Bytes → List Bytes → ResolvedRoute → Type 0
Suits method parts r = (r.method ≡ method) × Fits r.segments parts

pub Fits-length : (ss : List Segment) (ps : List Bytes) → Fits ss ps → length ss ≡ length ps
Fits-length [] [] h = refl
Fits-length (literal l ∷ ss) (p ∷ ps) h = omega (arith, Fits-length ss ps h.1)
Fits-length (param _ _ ∷ ss) (p ∷ ps) h = omega (arith, Fits-length ss ps h)
Fits-length [] (p ∷ ps) h = absurd h
Fits-length (literal l ∷ ss) [] h = absurd h
Fits-length (param _ _ ∷ ss) [] h = absurd h

-- Either the test says yes and the path fits, or it says no and the path does not.
abbrev pub Decided : Type 0 → {A : Type 0} → A → A → A → Type 0
Decided P a yes' no' = (P × (a ≡ yes')) ⊎ ((¬ P) × (a ≡ no'))

pub match_segments-Decided :
    (b : Binds) (n : ℕ) (ss : List Segment) (ps : List Bytes)
    → length ss ≡ length ps
    → Decided
        (Fits ss ps)
        (match_segments b n ss ps)
        (some (b ++ bindings ss ps, n + literal_count ss))
        none
unfolding match_segments
match_segments-Decided b n [] [] e =
    let same = append-nil b in let none_more : n + 0 ≡ n = omega arith in inl (tt, cc)
match_segments-Decided b n (literal l ∷ ss) (p ∷ ps) e = elim (Bool-cases (same_bytes l p)) [
  | inl same ↦ elim (match_segments-Decided b (n + 1) ss ps (omega (arith, e))) [
    | inl (fits, found) ↦
        let sum : n + 1 + literal_count ss ≡ n + suc (literal_count ss) = omega arith in
        inl ((eq_of-same_bytes l p same, fits), rw same (cc))
    | inr (misfit, lost) ↦ inr (λ h. misfit h.1, rw same lost)
  ]
  | inr other ↦ inr (λ h. let same = same_bytes-eq l p h.0 in absurd cc, rw other refl)
]
match_segments-Decided b n (param name ty ∷ ss) (p ∷ ps) e =
    let moved = append_assoc b ((name, p) ∷ []) (bindings ss ps) in
    elim (match_segments-Decided (b ++ (name, p) ∷ []) n ss ps (omega (arith, e))) [
      | inl (fits, found) ↦ inl (fits, cc)
      | inr (misfit, lost) ↦ inr (misfit, lost)
    ]
match_segments-Decided b n [] (p ∷ ps) e = absurd (omega (arith, e))
match_segments-Decided b n (literal l ∷ ss) [] e = absurd (omega (arith, e))
match_segments-Decided b n (param name ty ∷ ss) [] e = absurd (omega (arith, e))
