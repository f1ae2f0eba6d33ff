-- ===== src/Routing/Plain.antt =====
-- src/wiring.rs: what the segments of a path that is read are.
use jwc_lang.Prelude.{
  ℕ, ◌≡◌, ◌≢◌, false, none, some, List, [], ◌∷◌, ◌++◌, map, Bytes, ◌==◌, trim, trim_idem, trim-All,
  All, All-append, Bool-cases, Option-cases, inl, inr,
}
use jwc_lang.Cursor.{split_once}
use jwc_lang.Routing.Path.{
  Segment, literal, param, piece_then, pieces_from, before_brace, in_braces, param_of, segment_of,
}

abbrev pub Free : ℕ → Bytes → Type 0
Free d s = All (λ c. (c == d) ≡ false) s

-- What every segment of a path is.
abbrev pub Plain : Segment → Type 0
Plain (literal l) = (l ≢ []) × Free b'/' l × (in_braces l ≡ none)
Plain (param name ty) = Free b'/' name × Free b':' name × (trim name ≡ name)

-- The segments of a path are plain.
before_brace-Free :
    (d : ℕ) (s : Bytes) → Free d s → (t : Bytes) → before_brace s ≡ some t → Free d t
unfolding before_brace
before_brace-Free d [] h t e = absurd cc
before_brace-Free d (c ∷ []) h t e = elim (Bool-cases (c == b'}')) [
  | inl y ↦ let e' = rw y at e in let g : t ≡ [] = cc in rw g tt
  | inr n ↦ absurd (let e' = rw n at e in cc)
]
before_brace-Free d (c ∷ b ∷ s) h t e = elim (Option-cases (before_brace (b ∷ s))) [
  | inl n ↦ absurd (let e' = rw n at e in cc)
  | inr (u, y) ↦
      let e' = rw y at e in
      let g : t ≡ c ∷ u = cc in rw g (h.0, before_brace-Free d (b ∷ s) h.1 u y)
]

-- What stands before the first of a character is without it, and no other character is added.
split_once-Free :
    (d k : ℕ) (s a b : Bytes) → Free k s → split_once d s ≡ some (a, b) → Free d a × Free k a
unfolding split_once
split_once-Free d k [] a b h e = absurd cc
split_once-Free d k (c ∷ s) a b h e = elim (Bool-cases (c == d)) [
  | inl y ↦ let e' = rw y at e in let g : a ≡ [] = cc in rw g (tt, tt)
  | inr n ↦ elim (Option-cases (split_once d s)) [
    | inl none' ↦ absurd (let e' = rw (none', n) at e in cc)
    | inr ((u, v), some') ↦
        let e' = rw (some', n) at e in
        let g : a ≡ c ∷ u = cc in
        let (l, r) = split_once-Free d k s u v h.1 some' in rw g ((n, l), (h.0, r))
  ]
]

split_once-none-Free : (d : ℕ) (s : Bytes) → split_once d s ≡ none → Free d s
unfolding split_once
split_once-none-Free d [] e = tt
split_once-none-Free d (c ∷ s) e = elim (Bool-cases (c == d)) [
  | inl y ↦ absurd (let e' = rw y at e in cc)
  | inr n ↦ elim (Option-cases (split_once d s)) [
    | inl none' ↦ (n, split_once-none-Free d s none')
    | inr (ab, some') ↦ absurd (let e' = rw (some', n) at e in cc)
  ]
]

param_of-Plain : (inner : Bytes) → Free b'/' inner → Plain (param_of inner)
unfolding param_of
param_of-Plain inner h = elim (Option-cases (split_once b':' inner)) [
  | inl e ↦
      rw (param_of, e)
        (trim-All _ inner h, trim-All _ inner (split_once-none-Free b':' inner e), trim_idem inner)
  | inr ((a, b), e) ↦
      let (colon, slash) = split_once-Free b':' b'/' inner a b h e in
      rw (param_of, e) (trim-All _ a slash, trim-All _ a colon, trim_idem a)
]

in_braces-Free : (s inner : Bytes) → Free b'/' s → in_braces s ≡ some inner → Free b'/' inner
unfolding in_braces
in_braces-Free [] inner h e = absurd cc
in_braces-Free (c ∷ cs) inner h e = elim (Bool-cases (c == b'{')) [
  | inl y ↦ before_brace-Free b'/' cs h.1 inner (rw y at e)
  | inr n ↦ absurd (let e' = rw n at e in cc)
]

segment_of-Plain : (s : Bytes) → s ≢ [] → Free b'/' s → Plain (segment_of s)
unfolding segment_of
segment_of-Plain s some_byte h = elim (Option-cases (in_braces s)) [
  | inl e ↦ rw (segment_of, e) (some_byte, h, e)
  | inr (inner, e) ↦ rw (segment_of, e) (param_of-Plain inner (in_braces-Free s inner h e))
]

abbrev pub Piece : Bytes → Type 0
Piece s = (s ≢ []) × Free b'/' s

piece_then-Piece :
    (s : Bytes) (later : List Bytes)
    → Free b'/' s
    → All Piece later
    → All Piece (piece_then s later)
unfolding piece_then
piece_then-Piece [] later h k = k
piece_then-Piece (c ∷ s) later h k = ((λ e. absurd cc, h), k)

pub pieces_from-Piece : (piece s : Bytes) → Free b'/' piece → All Piece (pieces_from piece s)
unfolding pieces_from
pieces_from-Piece piece [] h = piece_then-Piece piece [] h tt
pieces_from-Piece piece (c ∷ cs) h = elim (Bool-cases (c == b'/')) [
  | inl y ↦ rw y (piece_then-Piece piece _ h (pieces_from-Piece [] cs tt))
  | inr n ↦ rw n (pieces_from-Piece (piece ++ c ∷ []) cs (All-append _ piece (c ∷ []) h (n, tt)))
]

pub map-Plain : (ps : List Bytes) → All Piece ps → All Plain (map segment_of ps)
map-Plain [] h = tt
map-Plain (p ∷ ps) h = (segment_of-Plain p h.0.0 h.0.1, map-Plain ps h.1)
