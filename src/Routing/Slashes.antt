-- ===== src/Routing/Slashes.antt =====
-- src/wiring.rs: the slashes of a path, and of a prefix with a suffix.
use jwc_lang.Prelude.{
  ◌≡◌, refl, ap, ap₂, sym, ◌∙◌, ℕ, List, [], ◌∷◌, ◌++◌, map, Bytes, ◌==◌, Bool-cases, inl, inr,
}
use mathlib.Core.List.{append-nil}
use jwc_lang.Routing.Path.{
  trim_start_of, trim_end_of, end_trimmed, trim_of, joined, join_path, piece_then, pieces_from,
  pieces, segment_of, parse_path,
}

pieces_from-trim_start : (s : Bytes) → pieces_from [] (trim_start_of b'/' s) ≡ pieces_from [] s
unfolding pieces_from piece_then trim_start_of
pieces_from-trim_start [] = refl
pieces_from-trim_start (c ∷ cs) = elim (Bool-cases (c == b'/')) [
  | inl e ↦ rw e (pieces_from-trim_start cs)
  | inr e ↦ rw e (rw e refl)
]

pieces_from-end_trimmed :
    (piece : Bytes) (c : ℕ) (cs t : Bytes)
    → ((q : Bytes) → pieces_from q t ≡ pieces_from q cs)
    → pieces_from piece (end_trimmed b'/' c t) ≡ pieces_from piece (c ∷ cs)
unfolding pieces_from piece_then end_trimmed
pieces_from-end_trimmed piece c cs [] ih = elim (Bool-cases (c == b'/')) [
  | inl e ↦ rw e (ap (piece_then piece) (ih []))
  | inr e ↦ rw e (rw e (ih (piece ++ c ∷ [])))
]
pieces_from-end_trimmed piece c cs (x ∷ t) ih = elim (Bool-cases (c == b'/')) [
  | inl e ↦ rw e (ap (piece_then piece) (ih []))
  | inr e ↦ rw e (ih (piece ++ c ∷ []))
]

pieces_from-trim_end :
    (piece s : Bytes) → pieces_from piece (trim_end_of b'/' s) ≡ pieces_from piece s
unfolding trim_end_of
pieces_from-trim_end piece [] = refl
pieces_from-trim_end piece (c ∷ cs) =
    pieces_from-end_trimmed piece c cs (trim_end_of b'/' cs) (λ q. pieces_from-trim_end q cs)

-- Slashes around a path make no pieces.
pub pieces-untrimmed : (s : Bytes) → pieces s ≡ pieces_from [] s
unfolding pieces trim_of
pieces-untrimmed s = pieces_from-trim_end [] (trim_start_of b'/' s) ∙ pieces_from-trim_start s

piece_then-append :
    (piece : Bytes) (xs ys : List Bytes) → piece_then piece (xs ++ ys) ≡ piece_then piece xs ++ ys
unfolding piece_then
piece_then-append [] xs ys = refl
piece_then-append (c ∷ cs) xs ys = refl

-- A slash ends a piece.
pieces_from-slash :
    (piece a b : Bytes)
    → pieces_from piece (a ++ b'/' ∷ b) ≡ pieces_from piece a ++ pieces_from [] b
unfolding pieces_from
pieces_from-slash piece [] b = piece_then-append piece [] (pieces_from [] b)
pieces_from-slash piece (c ∷ a) b = elim (Bool-cases (c == b'/')) [
  | inl e ↦ rw e (
      ap (piece_then piece) (pieces_from-slash [] a b)
      ∙ piece_then-append piece (pieces_from [] a) (pieces_from [] b))
  | inr e ↦ rw e (pieces_from-slash (piece ++ c ∷ []) a b)
]

pieces_from-joined :
    (p s : Bytes) → pieces_from [] (joined p s) ≡ pieces_from [] p ++ pieces_from [] s
unfolding joined pieces_from piece_then
pieces_from-joined [] [] = refl
pieces_from-joined (c ∷ p) [] = sym (append-nil _)
pieces_from-joined [] (c ∷ s) = refl
pieces_from-joined (d ∷ p) (c ∷ s) = pieces_from-slash [] (d ∷ p) (c ∷ s)

-- The segments of a prefix and a suffix are those of the two with a slash between them.
pub parse_path-join_path :
    (prefix suffix : Bytes)
    → parse_path (join_path prefix suffix) ≡ parse_path (prefix ++ b'/' ∷ suffix)
unfolding parse_path join_path
parse_path-join_path prefix suffix = ap (map segment_of) (
    pieces-untrimmed (joined (trim_end_of b'/' prefix) (trim_start_of b'/' suffix))
    ∙ pieces_from-joined (trim_end_of b'/' prefix) (trim_start_of b'/' suffix)
    ∙ ap₂ ◌++◌ (pieces_from-trim_end [] prefix) (pieces_from-trim_start suffix)
    ∙ sym (pieces_from-slash [] prefix suffix)
    ∙ sym (pieces-untrimmed (prefix ++ b'/' ∷ suffix)))
