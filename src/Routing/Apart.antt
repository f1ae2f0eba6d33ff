-- ===== src/Routing/Apart.antt =====
-- src/wiring.rs and src/serve.rs together: what the check of duplicates leaves to the choice.
use jwc_lang.Prelude.{
  ◌≡◌, ◌≢◌, refl, Bool, true, false, List, [], ◌∷◌, ◌++◌, Bytes, length, arith, Bool-cases, inl,
  inr,
}
use mathlib.Core.List.{append_assoc, append-nil}
use jwc_lang.Token.Keywords.Search.{same_bytes-eq}
use jwc_lang.Routing.Path.{Segment, literal, param, same_shape}
use jwc_lang.Routing.{
  Loc, ResolvedRoute, same_shapes, collide, duplicates_of, duplicates_from, check_duplicates,
}
use jwc_lang.Routing.Fit.{Fits, Suits}

-- which segments are literal
abbrev pub literals : List Segment → List Bool
literals [] = []
literals (literal _ ∷ ss) = true ∷ literals ss
literals (param _ _ ∷ ss) = false ∷ literals ss

-- Two lists of segments that a path fits, literal in the same places, have one shape.
same_shapes_fit :
    (ss ts : List Segment) (ps : List Bytes)
    → Fits ss ps
    → Fits ts ps
    → literals ss ≡ literals ts
    → (length ss ≡ length ts) × (same_shapes ss ts ≡ true)
unfolding same_shapes same_shape
same_shapes_fit [] [] [] f g e = (refl, refl)
same_shapes_fit (literal a ∷ ss) (literal b ∷ ts) (p ∷ ps) f g e =
    let (len, same) = same_shapes_fit ss ts ps f.1 g.1 (cc) in
    let head' = same_bytes-eq a b (cc (f.0, g.0)) in (omega (arith, len), rw (head', same) refl)
same_shapes_fit (param _ _ ∷ ss) (param _ _ ∷ ts) (p ∷ ps) f g e =
    let (len, same) = same_shapes_fit ss ts ps f g (cc) in (omega (arith, len), same)
same_shapes_fit (literal a ∷ ss) (param _ _ ∷ ts) (p ∷ ps) f g e = absurd cc
same_shapes_fit (param _ _ ∷ ss) (literal b ∷ ts) (p ∷ ps) f g e = absurd cc
same_shapes_fit [] [] (p ∷ ps) f g e = absurd f
same_shapes_fit [] (literal b ∷ ts) ps f g e = absurd cc
same_shapes_fit [] (param _ _ ∷ ts) ps f g e = absurd cc
same_shapes_fit (literal a ∷ ss) [] ps f g e = absurd cc
same_shapes_fit (param _ _ ∷ ss) [] ps f g e = absurd cc
same_shapes_fit (literal a ∷ ss) (literal b ∷ ts) [] f g e = absurd f
same_shapes_fit (literal a ∷ ss) (param _ _ ∷ ts) [] f g e = absurd f
same_shapes_fit (param _ _ ∷ ss) (literal b ∷ ts) [] f g e = absurd f
same_shapes_fit (param _ _ ∷ ss) (param _ _ ∷ ts) [] f g e = absurd f

not_collide :
    (a b : ResolvedRoute) (method : Bytes) (parts : List Bytes)
    → collide a b ≡ false
    → Suits method parts a
    → Suits method parts b
    → literals a.segments ≢ literals b.segments
unfolding collide
not_collide a b method parts h f g e =
    let (len, same) = same_shapes_fit a.segments b.segments parts f.1 g.1 e in
    let one = same_bytes-eq a.method b.method (cc (f.0, g.0)) in absurd (ground arith)

nil_of-append {ℓ} : {A : Type ℓ} (xs ys : List A) → xs ++ ys ≡ [] → (xs ≡ []) × (ys ≡ [])
nil_of-append [] ys h = (refl, h)
nil_of-append (x ∷ xs) ys h = absurd cc

module _ (file_line : Loc → Bytes) where
  duplicates_from-behind :
      (earlier xs ys : List ResolvedRoute)
      → duplicates_from file_line earlier (xs ++ ys) ≡ []
      → duplicates_from file_line (earlier ++ xs) ys ≡ []
  unfolding duplicates_from
  duplicates_from-behind earlier [] ys h = rw append-nil h
  duplicates_from-behind earlier (x ∷ xs) ys h =
      let rest = duplicates_from-behind (earlier ++ x ∷ []) xs ys (nil_of-append _ _ h).1 in
      rw (append_assoc earlier (x ∷ []) xs) at rest

  collide-duplicates_of :
      (a : ResolvedRoute) (xs : List ResolvedRoute) (y : ResolvedRoute) (ys : List ResolvedRoute)
      → duplicates_of file_line a (xs ++ y ∷ ys) ≡ []
      → collide a y ≡ false
  unfolding duplicates_of
  collide-duplicates_of a [] y ys h = elim (Bool-cases (collide a y)) [
    | inl yes' ↦ absurd (let h' = rw yes' at h in cc)
    | inr no' ↦ no'
  ]
  collide-duplicates_of a (x ∷ xs) y ys h = elim (Bool-cases (collide a x)) [
    | inl yes' ↦ absurd (let h' = rw yes' at h in cc)
    | inr no' ↦ collide-duplicates_of a xs y ys (rw no' at h)
  ]

  -- A program without duplicates: no route collides with an earlier one.
  pub check_duplicates-collide :
      (before between behind : List ResolvedRoute) (p q : ResolvedRoute)
      → check_duplicates file_line (before ++ p ∷ between ++ q ∷ behind) ≡ []
      → collide q p ≡ false
  unfolding check_duplicates duplicates_from
  check_duplicates-collide before between behind p q h =
      let rest = duplicates_from-behind [] (before ++ p ∷ between) (q ∷ behind) h in
      collide-duplicates_of q before p between (nil_of-append _ _ rest).0

-- Where the check reports no duplicate, two routes of one method that both fit a path, declared at
-- different places, differ in which of their segments are literal.
pub check_duplicates-literals :
    (file_line : Loc → Bytes) (before between behind : List ResolvedRoute) (p q : ResolvedRoute)
    (method : Bytes) (parts : List Bytes)
    → check_duplicates file_line (before ++ p ∷ between ++ q ∷ behind) ≡ []
    → Suits method parts p
    → Suits method parts q
    → literals q.segments ≢ literals p.segments
check_duplicates-literals file_line before between behind p q method parts h f g =
    not_collide q p method parts (check_duplicates-collide file_line before between behind p q h) g
      f
